-- ===== src/Bridge/Media/Safety.antt =====
-- The instance and media functions of entry/src/main/cpp/vlc_napi.cpp keep the account of references.
use vlc_harmony.Base.{
  ℕ, zero, suc, ◌+◌, ◌≤◌, ◌<◌, ◌≡◌, refl, Bool, true, false, Option, none, some, List, [], ◌∷◌, ℤ,
  is_zero, if◌then◌else◌, nat_eq, arith,
}
use vlc_harmony.Bridge.World.{
  Ref, inst, media, fd, Fn, Arg, num, int, text, did, took, dropped, Host, World, emit, media_of,
  handle_mod, store_lib,
}
use vlc_harmony.Base.Table.{erase}
use vlc_harmony.Bridge.Calls.{string_at, i32_at, or_else}
use vlc_harmony.Bridge.Ledger.{
  Dead, Inv, InvOf, hits, hits_self, held, owners, did-Inv, did_with-Inv,
}
use vlc_harmony.Bridge.Ledger.Moves.{took-Inv, dropped-Inv, hand-Inv, manager-Inv}
use vlc_harmony.Bridge.Ledger.Tables.{store_lib-Inv, erase_lib-Inv, erase_media-Inv}
use vlc_harmony.Bridge.Ledger.Owned.{inst_of-owned, media_of-owned}
use vlc_harmony.Bridge.Logs.Safety.{configure_ffmpeg_trace-Inv}
use vlc_harmony.Bridge.Calls.Safety.{Good, Keeps, need-Good, unchanged, call-Good}
use vlc_harmony.Bridge.Calls.Stored.{
  free_call-Inv, drop-Inv, next_handle-drop, drop-Good, store_media-Good,
}
use vlc_harmony.Bridge.Media.{
  is_final, is_late, is_done, libvlc_create, libvlc_release, media_create, media_create_location,
  media_create_path, media_of_fd, media_create_fd, media_release, media_add_option, media_add_slave,
  media_get_tracks_info, media_get_meta, media_get_stats, parse_wait, media_parse, polls,
}

module _ ⦃dead : Dead⦄ where
  module _ (host : Host) (args : List ℕ) where
    pub libvlc_release-Keeps : Keeps (libvlc_release host args)
    unfolding libvlc_release
    libvlc_release-Keeps w v room = need-Good w _ _ _ (unchanged w v) λ h e.
        need-Good w _ _ _ (unchanged w v) λ entry at.
          drop-Good w inst entry.inst _ (omega arith) (erase_lib-Inv (λ _. 0) w h entry at v)

    media_create-Keeps : (f : Fn) → Keeps (media_create host f args)
    unfolding media_create
    media_create-Keeps f w v room = need-Good w _ _ _ (unchanged w v) λ lib e.
        need-Good w _ _ _ (unchanged w v) λ i at.
          let name = text (string_at host 1 args) ∷ [] in
          let v₁ = did-Inv (λ _. 0) w v f (inst i) name (omega (arith, inst_of-owned lib w at)) in
          let w₁ = emit (did f (inst i) name) w in
          need-Good w (host.make w.trace f name) _ _ (v₁, omega arith)
            λ m made.
              store_media-Good w (emit (took (media m)) w₁) refl room
                (record { media = some m; owned_fd = none; lib_handle = lib })
                (hand-Inv (λ r. omega arith) (took-Inv (λ _. 0) w₁ (media m) v₁))

    pub media_create_location-Keeps : Keeps (media_create_location host args)
    unfolding media_create_location
    media_create_location-Keeps = media_create-Keeps Fn.media_new_location

    pub media_create_path-Keeps : Keeps (media_create_path host args)
    unfolding media_create_path
    media_create_path-Keeps = media_create-Keeps Fn.media_new_path

    pub libvlc_create-Keeps : Keeps (libvlc_create host args)
    unfolding libvlc_create
    libvlc_create-Keeps w v room =
        let v₁ = free_call-Inv (λ _. 0) w Fn.libvlc_new _ v in
        need-Good w _ _ _ (v₁, omega arith)
          λ i made.
            let v₂ = took-Inv (λ _. 0) _ (inst i) v₁ in
            let v₃ =
              did-Inv (λ r. hits r (inst i) + 0) _ v₂ Fn.log_set (inst i) []
                (omega (arith, hits_self (inst i))) in
            let (v₄, n) =
              configure_ffmpeg_trace-Inv host (λ r. hits r (inst i) + 0) w.diagnostics.enabled _
                v₃ in
            let v₅ =
              store_lib-Inv (λ _. 0) _ (record { inst = some i }) (omega (arith, n))
                (hand-Inv (λ r. omega arith) v₄) in
            (manager-Inv (λ _. 0) _ _ v₅, unfold store_lib in omega (arith, n))

    media_of_fd-Good :
        (lib i d : ℕ) (w₀ w : World)
        → w.next_handle ≡ w₀.next_handle
        → w₀.next_handle + 3 < handle_mod
        → 1 ≤ owners (inst i) w
        → InvOf (λ r. hits r (fd d) + 0) w
        → Good w₀ (media_of_fd host lib i d w).1
    unfolding media_of_fd
    media_of_fd-Good lib i d w₀ w e room own v =
        let x : Ref → ℕ = λ r. hits r (fd d) + 0 in
        let v₁ =
          did_with-Inv x w v Fn.media_new_fd (inst i) (fd d) [] (omega arith)
            (omega (arith, hits_self (fd d))) in
        need-Good w₀ _ _ _ (dropped-Inv (λ _. 0) _ (fd d) v₁, omega arith)
          λ m made.
            store_media-Good w₀ _ e room _ (hand-Inv (λ r. omega arith) (took-Inv x _ (media m) v₁))

    pub media_create_fd-Keeps : Keeps (media_create_fd host args)
    unfolding media_create_fd
    media_create_fd-Keeps w v room = need-Good w _ _ _ (unchanged w v) λ a e.
        need-Good w _ _ _ (unchanged w v) λ i at.
          let v₁ = free_call-Inv (λ _. 0) w Fn.dup (num a.1 ∷ []) v in
          need-Good w _ _ _ (v₁, omega arith)
            λ d dup. media_of_fd-Good a.0 i d w _ refl room (inst_of-owned a.0 w at) (
              did-Inv (λ r. hits r (fd d) + 0) _ (took-Inv (λ _. 0) _ (fd d) v₁) Fn.lseek (fd d) []
                (omega (arith, hits_self (fd d))))

    pub media_release-Keeps : Keeps (media_release host args)
    unfolding media_release
    media_release-Keeps w v room = need-Good w _ _ _ (unchanged w v) λ h e.
        need-Good w _ _ _ (unchanged w v) λ entry at.
          let w₁ = record w { medias = erase h w.medias } in
          let v₁ = erase_media-Inv (λ _. 0) w h entry at v in
          drop-Good w fd entry.owned_fd _ (omega (arith, next_handle-drop media entry.media w₁)) (
            drop-Inv (λ r. held r fd entry.owned_fd + 0) media entry.media w₁
              (hand-Inv (λ r. omega arith) v₁))

    media_call-Good :
        (h m : ℕ) (f : Fn) (a : List Arg) (w : World)
        → Inv w
        → media_of h w ≡ some m
        → Good w (emit (did f (media m) a) w)
    media_call-Good h m f a w v at = call-Good f (media m) a w v (media_of-owned h w at)

    pub media_add_option-Keeps : Keeps (media_add_option host args)
    unfolding media_add_option
    media_add_option-Keeps w v room = need-Good w _ _ _ (unchanged w v) λ h e.
        need-Good w _ _ _ (unchanged w v)
          λ m at. need-Good w _ _ _ (unchanged w v) λ _ _. media_call-Good h m _ _ w v at

    pub media_add_slave-Keeps : Keeps (media_add_slave host args)
    unfolding media_add_slave
    media_add_slave-Keeps w v room =
        need-Good w _ _ _ (unchanged w v)
          λ a e. need-Good w _ _ _ (unchanged w v) λ m at. media_call-Good a.0 m _ _ w v at

    pub media_get_tracks_info-Keeps : Keeps (media_get_tracks_info host args)
    unfolding media_get_tracks_info
    media_get_tracks_info-Keeps w v room =
        need-Good w _ _ _ (unchanged w v)
          λ h e. need-Good w _ _ _ (unchanged w v) λ m at. media_call-Good h m _ _ w v at

    pub media_get_stats-Keeps : Keeps (media_get_stats host args)
    unfolding media_get_stats
    media_get_stats-Keeps w v room =
        need-Good w _ _ _ (unchanged w v)
          λ h e. need-Good w _ _ _ (unchanged w v) λ m at. media_call-Good h m _ _ w v at

    pub media_get_meta-Keeps : Keeps (media_get_meta host args)
    unfolding media_get_meta
    media_get_meta-Keeps w v room = need-Good w _ _ _ (unchanged w v) λ h e.
        need-Good w _ _ _ (unchanged w v) λ m at.
          let own = media_of-owned h w at in
          let v₁ = did-Inv (λ _. 0) w v Fn.media_get_meta (media m) _ (omega arith) in
          let v₂ = did-Inv (λ _. 0) _ v₁ Fn.media_get_meta (media m) _ (omega arith) in
          let v₃ = did-Inv (λ _. 0) _ v₂ Fn.media_get_meta (media m) _ (omega arith) in
          call-Good Fn.media_get_duration (media m) [] _ v₃ own

    -- The media goes back after the loop, or without it.
    parsed-Good :
        (m : ℕ) (w : World) (c : Bool) (skipped parsed : Option Bool × World)
        → InvOf (λ r. hits r (media m) + 0) skipped.1 × (skipped.1.next_handle ≡ w.next_handle)
        → InvOf (λ r. hits r (media m) + 0) parsed.1 × (parsed.1.next_handle ≡ w.next_handle)
        → Good w (emit (dropped (media m)) (if c then parsed else skipped).1)
    parsed-Good m w true skipped parsed p q = (dropped-Inv (λ _. 0) _ (media m) q.0, omega arith)
    parsed-Good m w false skipped parsed p q = (dropped-Inv (λ _. 0) _ (media m) p.0, omega arith)

    -- A test that goes one way or the other.
    either :
        (P : World → Type 0) (c d : Bool) (x y : Option Bool) (w : World)
        (rest : Option Bool × World)
        → P w
        → P rest.1
        → P (if c then (x, w) else if d then (y, w) else rest).1
    either P true d x y w rest p q = p
    either P false true x y w rest p q = p
    either P false false x y w rest p q = q

    -- The loop only asks, so it keeps the account with the media in hand.
    parse_wait-Inv :
        (rounds n : ℕ) (timeout : ℤ) (m : ℕ) (w w₀ : World)
        → w.next_handle ≡ w₀.next_handle
        → InvOf (λ r. hits r (media m) + 0) w
        → InvOf (λ r. hits r (media m) + 0) (parse_wait host rounds n timeout m w).1
          × ((parse_wait host rounds n timeout m w).1.next_handle ≡ w₀.next_handle)
    unfolding parse_wait
    parse_wait-Inv zero n timeout m w w₀ e v = (v, e)
    parse_wait-Inv (suc rounds) n timeout m w w₀ e v =
        let v₁ =
          did-Inv (λ r. hits r (media m) + 0) w v Fn.media_get_parsed_status (media m) []
            (omega (arith, hits_self (media m))) in
        either (λ u. InvOf (λ r. hits r (media m) + 0) u × (u.next_handle ≡ w₀.next_handle))
          (is_final (host.ask w.trace Fn.media_get_parsed_status (media m) []))
          (is_late timeout
            (host.elapsed (emit (did Fn.media_get_parsed_status (media m) []) w).trace n))
          (some (is_done (host.ask w.trace Fn.media_get_parsed_status (media m) []))) (some false) _
          (parse_wait host rounds (n + 1) timeout m
            (emit (did Fn.media_get_parsed_status (media m) []) w))
          (v₁, e) (parse_wait-Inv rounds (n + 1) timeout m _ w₀ e v₁)

    pub media_parse-Keeps : Keeps (media_parse host args)
    unfolding media_parse
    media_parse-Keeps w v room = need-Good w _ _ _ (unchanged w v) λ h e.
        need-Good w _ _ _ (unchanged w v) λ m at.
          let x : Ref → ℕ = λ r. hits r (media m) + 0 in
          let timeout = or_else host (i32_at host 2 1 args) (ℤ.pos 5000) in
          let v₁ = took-Inv (λ _. 0) w (media m) v in
          let v₂ =
            did-Inv x _ v₁ Fn.media_parse_with_options (media m) (int timeout ∷ [])
              (omega (arith, hits_self (media m))) in
          parsed-Good m w
            (is_zero (
              host.ask (emit (took (media m)) w).trace Fn.media_parse_with_options (media m)
                (int timeout ∷ [])))
            (none, _) _ (v₂, refl) (parse_wait-Inv (polls timeout) 0 timeout m _ w refl v₂)
