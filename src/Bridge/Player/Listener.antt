-- ===== src/Bridge/Player/Listener.antt =====
-- The player functions of entry/src/main/cpp/vlc_napi.cpp that watch and seek, and that give a player
-- its media, keep the account of references.
use vlc_harmony.Base.{
  ℕ, ◌+◌, ◌≡◌, refl, ap, ◌∙◌, ℤ, Bool-cases, Option, none, some, inl, inr, List, [], ◌∷◌, nat_eq,
  arith,
}
use vlc_harmony.Base.Table.{lookup, insert, lookup-insert}
use vlc_harmony.Seek
use vlc_harmony.Bridge.World.{
  Ref, media, player, tsfn, js_ref, Fn, num, Host, World, PlayerEntry, media_of,
}
use vlc_harmony.Bridge.Ledger.{Dead, Inv, InvOf, held}
use vlc_harmony.Bridge.Ledger.Threads.{move_player-Inv}
use vlc_harmony.Bridge.Ledger.Moves.{took-Inv, hand-Inv}
use vlc_harmony.Bridge.Calls.{drop}
use vlc_harmony.Bridge.Calls.Safety.{Good, Keeps, need-Good, unchanged, call_with-Good}
use vlc_harmony.Bridge.Ledger.Owned.{media_of-owned}
use vlc_harmony.Bridge.Calls.Stored.{drop-Inv}
use vlc_harmony.Bridge.Player.Seeks.{queue_worker-Inv}
use vlc_harmony.Bridge.Player.{
  take, silent, forget_listener, new_listener, set_listener, media_player_set_event_listener,
  media_player_set_media, worker_of, media_player_set_time, media_player_set_position,
}
use vlc_harmony.Bridge.Player.Safety.{entry_owned}

module _ ⦃dead : Dead⦄ where
  take-Inv :
      (x : Ref → ℕ) (kind : ℕ → Ref) (o : Option ℕ) (w : World)
      → InvOf x w
      → InvOf (λ r. held r kind o + x r) (take kind o w)
  take-Inv x kind none w v = hand-Inv (λ r. omega arith) v
  take-Inv x kind (some p) w v = took-Inv x w (kind p) v

  -- What a step leaves alone.
  record Quiet (w w' : World) : Type 0 where
    handle : w'.next_handle ≡ w.next_handle
    players : w'.players ≡ w.players

  take-Quiet : (kind : ℕ → Ref) (o : Option ℕ) (w : World) → Quiet w (take kind o w)
  take-Quiet kind none w = record { handle = refl; players = refl }
  take-Quiet kind (some p) w = record { handle = refl; players = refl }

  drop-Quiet : (kind : ℕ → Ref) (o : Option ℕ) (w : World) → Quiet w (drop kind o w)
  drop-Quiet kind none w = record { handle = refl; players = refl }
  drop-Quiet kind (some p) w = record { handle = refl; players = refl }

  forget_listener-Inv :
      (h : ℕ) (e : PlayerEntry) (w : World)
      → lookup h w.players ≡ some e
      → Inv w
      → Inv (forget_listener h e w)
        × ((forget_listener h e w).next_handle ≡ w.next_handle)
        × (lookup h (forget_listener h e w).players ≡ some (silent e))
  unfolding forget_listener
  forget_listener-Inv h e w at v =
      let w₀ : World = record w { players = insert h (silent e) w.players } in
      let x : Ref → ℕ = λ r. held r tsfn e.tsfn + 0 in
      let y : Ref → ℕ = λ r. held r js_ref e.js_callback_ref + x r in
      let q₀ = drop-Quiet js_ref e.js_callback_ref w₀ in
      let w₁ = drop js_ref e.js_callback_ref w₀ in
      let q₁ = drop-Quiet tsfn e.tsfn w₁ in
      (
        drop-Inv (λ _. 0) tsfn e.tsfn w₁
            (drop-Inv x js_ref e.js_callback_ref w₀
              (move_player-Inv (λ _. 0) y w h (silent e) e at (λ r. omega arith) v)),
        q₁.handle ∙ q₀.handle,
        ap (lookup h) (q₁.players ∙ q₀.players)
            ∙ ground (arith, lookup-insert h h (silent e) w.players),
      )

  module _ (host : Host) where
    new_listener-Inv :
        (h listener : ℕ) (e : PlayerEntry) (w : World)
        → lookup h w.players ≡ some (silent e)
        → Inv w
        → Inv (new_listener host h listener e w)
          × ((new_listener host h listener e w).next_handle ≡ w.next_handle)
    unfolding new_listener
    new_listener-Inv h listener e w at v =
        let js = host.make w.trace Fn.new_reference (num listener ∷ []) in
        let w₁ = take js_ref js w in
        let q₁ = take-Quiet js_ref js w in
        let ts = host.make w₁.trace Fn.new_threadsafe_function (num listener ∷ []) in
        let w₂ = take tsfn ts w₁ in
        let q₂ = take-Quiet tsfn ts w₁ in
        let x : Ref → ℕ = λ r. held r js_ref js + 0 in
        let y : Ref → ℕ = λ r. held r tsfn ts + x r in
        (
          move_player-Inv y (λ _. 0) w₂ h (record e { tsfn = ts; js_callback_ref = js }) (silent e)
              (ap (lookup h) (q₂.players ∙ q₁.players) ∙ at) (λ r. omega arith)
              (take-Inv x tsfn ts w₁ (take-Inv (λ _. 0) js_ref js w v)),
          q₂.handle ∙ q₁.handle,
        )

    set_listener-Good :
        (h listener : ℕ) (e : PlayerEntry) (w : World)
        → lookup h w.players ≡ some e
        → Inv w
        → Good w (set_listener host h listener e w).1
    unfolding set_listener
    set_listener-Good h listener e w at v =
        let (v₁, n₁, at₁) = forget_listener-Inv h e w at v in
        let (v₂, n₂) = new_listener-Inv h listener e (forget_listener h e w) at₁ v₁ in
        elim (Bool-cases (host.is_function listener)) [
          | inl is ↦ rw is (v₂, omega (arith, n₁, n₂))
          | inr is ↦ rw is (v₁, omega (arith, n₁))
        ]

    pub media_player_set_event_listener-Keeps :
        (args : List ℕ) → Keeps (media_player_set_event_listener host args)
    unfolding media_player_set_event_listener
    media_player_set_event_listener-Keeps args w v room =
        need-Good w _ _ _ (unchanged w v)
          λ a c. need-Good w _ _ _ (unchanged w v) λ e at. set_listener-Good a.0 a.1 e w at v

    pub media_player_set_media-Keeps : (args : List ℕ) → Keeps (media_player_set_media host args)
    unfolding media_player_set_media media_of
    media_player_set_media-Keeps args w v room = need-Good w _ _ _ (unchanged w v) λ a c.
        need-Good w _ _ _ (unchanged w v) λ e at. need-Good w _ _ _ (unchanged w v) λ mp is.
          need-Good w _ _ _ (unchanged w v) λ m found.
            let e' : PlayerEntry = record e { media_handle = a.1 } in
            let w' : World = record w { players = insert a.0 e' w.players } in
            call_with-Good Fn.media_player_set_media (player mp) (media m) [] w'
              (move_player-Inv (λ _. 0) (λ _. 0) w a.0 e' e at (λ r. refl) v)
              (omega (
                arith,
                entry_owned a.0 e' w' mp (ground (arith, lookup-insert a.0 a.0 e' w.players)) is,
              ))
              (media_of-owned a.1 w' found)

    pub media_player_set_time-Keeps : (args : List ℕ) → Keeps (media_player_set_time host args)
    unfolding media_player_set_time
    media_player_set_time-Keeps args w v room = need-Good w _ _ _ (unchanged w v) λ a c.
        let (v₁, n) = queue_worker-Inv host (λ _. 0) Seek.time a.1 0 (worker_of host a.0 w) w v in
        (v₁, omega (arith, n))

    pub media_player_set_position-Keeps :
        (args : List ℕ) → Keeps (media_player_set_position host args)
    unfolding media_player_set_position
    media_player_set_position-Keeps args w v room = need-Good w _ _ _ (unchanged w v) λ a c.
        let (v₁, n) =
          queue_worker-Inv host (λ _. 0) Seek.position (ℤ.pos 0) (host.to_float a.1)
            (worker_of host a.0 w) w v in
        (v₁, omega (arith, n))
