-- ===== src/Bridge/Surfaces/Safety.antt =====
-- The surface functions of entry/src/main/cpp/vlc_napi.cpp keep the account of references: the player is
-- retained while the calls are made.
use vlc_harmony.Base.{
  ℕ, ◌+◌, ◌≡◌, refl, ◌∙◌, String, Bool, Option, none, some, List, [], nat_eq, string_eq, ◌==◌,
  arith,
}
use vlc_harmony.Base.Table.{lookup, insert}
use vlc_harmony.Xcomponent.{get_native_window}
use vlc_harmony.Bridge.World.{Ref, player, Fn, took, Host, World, PlayerEntry, emit}
use vlc_harmony.Bridge.Ledger.{Dead, Inv, InvOf, hits, player_holds}
use vlc_harmony.Bridge.Ledger.Moves.{took-Inv, dropped-Inv}
use vlc_harmony.Bridge.Ledger.Threads.{move_player-Inv}
use vlc_harmony.Bridge.Calls.{string_at}
use vlc_harmony.Bridge.Calls.Safety.{Good, Keeps, need-Good, unchanged}
use vlc_harmony.Bridge.Windows.{set_window}
use vlc_harmony.Bridge.Windows.Safety.{Kept, either-Kept, held-Kept, set_osd_window-Kept}
use vlc_harmony.Bridge.Surfaces.{
  with_video_out, with_osd_out, note_window, note_osd_window, show, noted, show_osd, show_held,
  show_osd_held, media_player_set_video_out, media_player_set_osd_video_out,
  media_player_detach_views, has_native_window_of, pending, media_player_play,
}

module _ ⦃dead : Dead⦄ where
  -- An entry is written over by one that holds the same.
  rewrite-Kept :
      (x : Ref → ℕ) (h : ℕ) (e old : PlayerEntry) (w : World)
      → lookup h w.players ≡ some old
      → ((r : Ref) → player_holds r e ≡ player_holds r old)
      → InvOf x w
      → Kept x w (record w { players = insert h e w.players })
  rewrite-Kept x h e old w at same v =
      (move_player-Inv x x w h e old at (λ r. omega (arith, same r)) v, refl)

  note_window-Kept :
      (x : Ref → ℕ) (h : ℕ) (id : String) (o : Option PlayerEntry) (w : World)
      → lookup h w.players ≡ o
      → InvOf x w
      → Kept x w (note_window h id o w)
  unfolding note_window
  note_window-Kept x h id none w at v = (v, refl)
  note_window-Kept x h id (some e) w at v =
      either-Kept x w (e.video_out_id == id) _ _ (rewrite-Kept x h _ e w at (λ r. refl) v) (v, refl)

  note_osd_window-Kept :
      (x : Ref → ℕ) (h : ℕ) (id : String) (o : Option PlayerEntry) (w : World)
      → lookup h w.players ≡ o
      → InvOf x w
      → Kept x w (note_osd_window h id o w)
  unfolding note_osd_window
  note_osd_window-Kept x h id none w at v = (v, refl)
  note_osd_window-Kept x h id (some e) w at v =
      either-Kept x w (e.osd_out_id == id) _ _ (rewrite-Kept x h _ e w at (λ r. refl) v) (v, refl)

  show-Kept :
      (h : ℕ) (id : String) (mp : ℕ) (win : Option ℕ) (w : World)
      → InvOf (λ r. hits r (player mp) + 0) w
      → Kept (λ r. hits r (player mp) + 0) w (show h id mp win w)
  unfolding show
  show-Kept h id mp none w v = (v, refl)
  show-Kept h id mp (some win) w v =
      note_window-Kept (λ r. hits r (player mp) + 0) h id _ (set_window mp (some win) w) refl
        (held-Kept (λ _. 0) mp _ _ w v)

  noted-Kept :
      (x : Ref → ℕ) (h : ℕ) (id : String) (p : Bool × World)
      → InvOf x p.1
      → Kept x p.1 (noted h id p)
  unfolding noted
  noted-Kept x h id (c, w) v =
      either-Kept x w c _ _ (note_osd_window-Kept x h id _ w refl v) (v, refl)

  module _ (host : Host) where
    show_osd-Kept :
        (h : ℕ) (id : String) (mp : ℕ) (win : Option ℕ) (w : World)
        → InvOf (λ r. hits r (player mp) + 0) w
        → Kept (λ r. hits r (player mp) + 0) w (show_osd host h id mp win w).1
    unfolding show_osd
    show_osd-Kept h id mp none w v = (v, refl)
    show_osd-Kept h id mp (some win) w v =
        let (v₁, n₁) = set_osd_window-Kept host (λ _. 0) mp (some win) w v in
        let (v₂, n₂) = noted-Kept (λ r. hits r (player mp) + 0) h id _ v₁ in (v₂, n₂ ∙ n₁)

    show_held-Good :
        (h : ℕ) (id : String) (mp : Option ℕ) (w : World)
        → Inv w
        → Good w (show_held host h id mp w).1
    unfolding show_held
    show_held-Good h id none w v = (v, omega arith)
    show_held-Good h id (some mp) w v =
        let (v₁, n) =
          show-Kept h id mp (get_native_window id w.manager) _
            (took-Inv (λ _. 0) w (player mp) v) in
        (dropped-Inv (λ _. 0) _ (player mp) v₁, omega (arith, n))

    show_osd_held-Good :
        (h : ℕ) (id : String) (mp : Option ℕ) (w : World)
        → Inv w
        → Good w (show_osd_held host h id mp w).1
    unfolding show_osd_held
    show_osd_held-Good h id none w v = (v, omega arith)
    show_osd_held-Good h id (some mp) w v =
        let (v₁, n) =
          show_osd-Kept h id mp (get_native_window id w.manager) _
            (took-Inv (λ _. 0) w (player mp) v) in
        (dropped-Inv (λ _. 0) _ (player mp) v₁, omega (arith, n))

    pub media_player_set_video_out-Keeps :
        (args : List ℕ) → Keeps (media_player_set_video_out host args)
    unfolding media_player_set_video_out
    media_player_set_video_out-Keeps args w v room = need-Good w _ _ _ (unchanged w v) λ h a.
        need-Good w _ _ _ (unchanged w v) λ e at.
          let (v₁, n₁) =
            rewrite-Kept (λ _. 0) h (with_video_out (string_at host 1 args) e) e w at (λ r. refl)
              v in
          let (v₂, n₂) = show_held-Good h (string_at host 1 args) e.mp _ v₁ in
          (v₂, omega (arith, n₁, n₂))

    pub media_player_set_osd_video_out-Keeps :
        (args : List ℕ) → Keeps (media_player_set_osd_video_out host args)
    unfolding media_player_set_osd_video_out
    media_player_set_osd_video_out-Keeps args w v room = need-Good w _ _ _ (unchanged w v) λ h a.
        need-Good w _ _ _ (unchanged w v) λ e at.
          let (v₁, n₁) =
            rewrite-Kept (λ _. 0) h (with_osd_out (string_at host 1 args) e) e w at (λ r. refl) v in
          let (v₂, n₂) = show_osd_held-Good h (string_at host 1 args) e.mp _ v₁ in
          (v₂, omega (arith, n₁, n₂))

    pub media_player_detach_views-Keeps :
        (args : List ℕ) → Keeps (media_player_detach_views host args)
    unfolding media_player_detach_views
    media_player_detach_views-Keeps args w v room = need-Good w _ _ _ (unchanged w v) λ h a.
        need-Good w _ _ _ (unchanged w v) λ e at. need-Good w _ _ _ (unchanged w v) λ mp is.
          let x : Ref → ℕ = λ r. hits r (player mp) + 0 in
          let w₁ = emit (took (player mp)) w in
          let e' = with_osd_out "" (with_video_out "" e) in
          let w₂ : World = record w₁ { players = insert h e' w₁.players } in
          let (v₂, n₂) =
            rewrite-Kept x h e' e w₁ at (λ r. refl) (took-Inv (λ _. 0) w (player mp) v) in
          let v₃ = held-Kept (λ _. 0) mp Fn.media_player_set_ohos_nativewindow_ptr _ w₂ v₂ in
          let (v₄, n₄) = set_osd_window-Kept host (λ _. 0) mp none (set_window mp none w₂) v₃ in
          (dropped-Inv (λ _. 0) _ (player mp) v₄, omega (arith, n₂, n₄))

    pub has_native_window_of-Keeps : (args : List ℕ) → Keeps (has_native_window_of host args)
    unfolding has_native_window_of
    has_native_window_of-Keeps args w v room = unchanged w v

    pub media_player_play-Keeps : (args : List ℕ) → Keeps (media_player_play host args)
    unfolding media_player_play
    media_player_play-Keeps args w v room = need-Good w _ _ _ (unchanged w v) λ h a.
        need-Good w _ _ _ (unchanged w v) λ e at. need-Good w _ _ _ (unchanged w v) λ mp is.
          let (v₁, n₁) =
            show-Kept h e.video_out_id mp (pending host e.window_bound e.video_out_id w)
              (emit (took (player mp)) w) (took-Inv (λ _. 0) w (player mp) v) in
          let (v₂, n₂) =
            show_osd-Kept h e.osd_out_id mp (pending host e.osd_window_bound e.osd_out_id w) _ v₁ in
          (
            dropped-Inv (λ _. 0) _ (player mp) (held-Kept (λ _. 0) mp Fn.media_player_play [] _ v₂),
            omega (arith, n₁, n₂),
          )
