-- ===== src/Bridge/Events/Safety.antt =====
-- Sending, attaching and detaching the events of a player, in entry/src/main/cpp/vlc_napi.cpp, keep the
-- account of references.
use vlc_harmony.Base.{
  ℕ, ◌+◌, ◌≤◌, ◌<◌, ◌≡◌, refl, ap, ◌∙◌, String, Option, none, some, List, [], ◌∷◌, arith, nat_eq,
}
use vlc_harmony.Base.Table.{
  lookup, insert, erase, uses, total_found, lookup_unused, lookup-insert, total-insert,
}
use vlc_harmony.Bridge.World.{
  Ref, player, tsfn, user, Fn, EventType, num, text, bits, event_type, Host, World, PlayerEntry,
  emit, took, did, did_with, from,
}
use vlc_harmony.Bridge.Ledger.{
  Dead, Inv, InvOf, hits, hits_self, owners, held, player_holds, user_holds, did-Inv, did_with-Inv,
}
use vlc_harmony.Bridge.Ledger.Moves.{took-Inv, dropped-Inv}
use vlc_harmony.Bridge.Ledger.Threads.{store_user-Inv, erase_user-Inv}
use vlc_harmony.Bridge.Events.{
  Event, emit_named, attach_to, detach_from, event_manager, event_name, event_value,
  emit_player_event, on_player_event, for_all_types, attach_player_events, detach_player_events,
  attached_types, detached_types, detach_all, delete_box,
}

module _ ⦃dead : Dead⦄ where
  -- The function must be held when it is acquired.
  pub emit_player_event-Inv :
      (t : Option ℕ) (h : ℕ) (name : String) (v : ℕ) (w : World)
      → ((p : ℕ) → t ≡ some p → 1 ≤ owners (tsfn p) w)
      → Inv w
      → Inv (emit_player_event t h name v w)
        × ((emit_player_event t h name v w).next_handle ≡ w.next_handle)
  unfolding emit_player_event
  emit_player_event-Inv none h name v w own i = (i, refl)
  emit_player_event-Inv (some t) h name v w own i =
      let x : Ref → ℕ = λ r. hits r (tsfn t) + 0 in
      let i₀ =
        did-Inv (λ _. 0) w i Fn.acquire_threadsafe_function (tsfn t) []
          (omega (arith, own t refl)) in
      let w₀ = emit (did Fn.acquire_threadsafe_function (tsfn t) []) w in
      let i₁ = took-Inv (λ _. 0) w₀ (tsfn t) i₀ in
      let i₂ =
        did-Inv x (emit (took (tsfn t)) w₀) i₁ Fn.call_threadsafe_function (tsfn t)
          (num h ∷ text name ∷ bits v ∷ []) (omega (arith, hits_self (tsfn t))) in
      (dropped-Inv (λ _. 0) _ (tsfn t) i₂, refl)

  -- The function of a listener is held by the entry of its player.
  pub tsfn_owned :
      (h : ℕ) (o : Option PlayerEntry) (w : World) (p : ℕ)
      → lookup h w.players ≡ o
      → from o (λ pe. pe.tsfn) ≡ some p
      → 1 ≤ owners (tsfn p) w
  tsfn_owned h none w p at is = cc
  tsfn_owned h (some e) w p at is = omega (
    arith,
    total_found (player_holds (tsfn p)) h e w.players at,
    ap (held (tsfn p) tsfn) is,
    hits_self (tsfn p),
  )

  module _ (host : Host) where
    named-Inv :
        (o : Option String) (h : ℕ) (e : Event) (w : World)
        → Inv w
        → Inv (emit_named host o h e w) × ((emit_named host o h e w).next_handle ≡ w.next_handle)
    unfolding emit_named
    named-Inv none h e w v = (v, refl)
    named-Inv (some name) h e w v =
        emit_player_event-Inv (from (lookup h w.players) (λ pe. pe.tsfn)) h name
          (event_value host e) w (λ p is. tsfn_owned h (lookup h w.players) w p refl is) v

    pub on_player_event-Inv :
        (h : ℕ) (e : Event) (w : World)
        → Inv w
        → Inv (on_player_event host h e w)
          × ((on_player_event host h e w).next_handle ≡ w.next_handle)
    unfolding on_player_event
    on_player_event-Inv h e w = named-Inv (event_name e.type) h e w

  -- What a step that only adds to the trace leaves alone.
  pub record Like (w w' : World) : Type 0 where
    pub handle : w'.next_handle ≡ w.next_handle
    pub boxes : w'.event_users ≡ w.event_users
    pub players : w'.players ≡ w.players
    pub owned : (r : Ref) → owners r w' ≡ owners r w

  pub for_all_types-Inv :
      (x : Ref → ℕ) (f : Fn) (mp box : ℕ) (ts : List EventType) (w : World)
      → 1 ≤ owners (player mp) w + x (player mp)
      → 1 ≤ owners (user box) w + x (user box)
      → InvOf x w
      → InvOf x (for_all_types f mp box ts w) × Like w (for_all_types f mp box ts w)
  unfolding for_all_types
  for_all_types-Inv x f mp box [] w o p v =
      (v, record { handle = refl; boxes = refl; players = refl; owned = λ r. refl })
  for_all_types-Inv x f mp box (t ∷ ts) w o p v =
      let a = event_type t ∷ [] in
      let (i, l) =
        for_all_types-Inv x f mp box ts (emit (did_with f (player mp) (user box) a) w) o p
          (did_with-Inv x w v f (player mp) (user box) a o p) in
      (i, record { handle = l.handle; boxes = l.boxes; players = l.players; owned = l.owned })

  box_owned : (h : ℕ) (w : World) (u : ℕ) → lookup h w.event_users ≡ some u → 1 ≤ owners (user u) w
  box_owned h w u at =
      omega (arith, total_found (user_holds (user u)) h u w.event_users at, hits_self (user u))

  owners_box :
      (mp h : ℕ) (w : World)
      → uses h w.event_users ≡ 0
      → owners (player mp) w
        ≤ owners (player mp) (record w { event_users = insert h h w.event_users })
  owners_box mp h w free = omega (
    arith,
    total-insert (user_holds (player mp)) h h w.event_users (lookup_unused h w.event_users free),
  )

  module _ (host : Host) (x : Ref → ℕ) where
    attached-Inv :
        (o : Option ℕ) (h mp : ℕ) (w : World)
        → h < w.next_handle
        → uses h w.event_users ≡ 0
        → 1 ≤ owners (player mp) w + x (player mp)
        → InvOf x w
        → InvOf x (attach_to host o h mp w)
          × ((attach_to host o h mp w).next_handle ≡ w.next_handle)
    unfolding attach_to
    attached-Inv none h mp w below free own v = (v, refl)
    attached-Inv (some em) h mp w below free own v =
        let w₁ = emit (took (user h)) w in
        let v₁ = store_user-Inv x w₁ h below free (took-Inv x w (user h) v) in
        let w₂ : World = record w₁ { event_users = insert h h w₁.event_users } in
        let (i, l) =
          for_all_types-Inv x Fn.event_attach mp h attached_types w₂
            (omega (arith, owners_box mp h w free))
            (omega (arith, box_owned h w₂ h (ground (arith, lookup-insert h h h w₁.event_users))))
            v₁ in
        (i, l.handle)

    pub attach_player_events-Inv :
        (h mp : ℕ) (w : World)
        → h < w.next_handle
        → uses h w.event_users ≡ 0
        → 1 ≤ owners (player mp) w + x (player mp)
        → InvOf x w
        → InvOf x (attach_player_events host h mp w)
          × ((attach_player_events host h mp w).next_handle ≡ w.next_handle)
    unfolding attach_player_events event_manager
    attach_player_events-Inv h mp w below free own v =
        attached-Inv (event_manager host mp w).0 h mp (event_manager host mp w).1 below free own
          (did-Inv x w v Fn.media_player_event_manager (player mp) [] own)

    from-Inv :
        (o : Option ℕ) (mp u : ℕ) (w : World)
        → 1 ≤ owners (player mp) w + x (player mp)
        → 1 ≤ owners (user u) w + x (user u)
        → InvOf x w
        → InvOf x (detach_from host o mp u w) × Like w (detach_from host o mp u w)
    unfolding detach_from
    from-Inv none mp u w own has v =
        (v, record { handle = refl; boxes = refl; players = refl; owned = λ r. refl })
    from-Inv (some em) mp u w own has v =
        for_all_types-Inv x Fn.event_detach mp u detached_types w own has v

    all-Inv :
        (mp u : Option ℕ) (w : World)
        → ((p : ℕ) → mp ≡ some p → 1 ≤ owners (player p) w + x (player p))
        → ((p : ℕ) → u ≡ some p → 1 ≤ owners (user p) w + x (user p))
        → InvOf x w
        → InvOf x (detach_all host mp u w) × Like w (detach_all host mp u w)
    unfolding detach_all event_manager
    all-Inv none u w own has v =
        (v, record { handle = refl; boxes = refl; players = refl; owned = λ r. refl })
    all-Inv (some mp) none w own has v =
        (v, record { handle = refl; boxes = refl; players = refl; owned = λ r. refl })
    all-Inv (some mp) (some u) w own has v =
        let (i, l) =
          from-Inv (event_manager host mp w).0 mp u (event_manager host mp w).1 (own mp refl)
            (has u refl)
            (did-Inv x w v Fn.media_player_event_manager (player mp) [] (own mp refl)) in
        (i, record { handle = l.handle; boxes = l.boxes; players = l.players; owned = l.owned })

    box-Inv :
        (h : ℕ) (o : Option ℕ) (w : World)
        → lookup h w.event_users ≡ o
        → InvOf x w
        → InvOf x (delete_box host h o w)
          × ((delete_box host h o w).next_handle ≡ w.next_handle)
          × ((delete_box host h o w).players ≡ w.players)
    unfolding delete_box
    box-Inv h none w at v = (v, refl, refl)
    box-Inv h (some u) w at v = (
      dropped-Inv x (record w { event_users = erase h w.event_users }) (user u)
          (erase_user-Inv x w h u at v),
      refl,
      refl,
    )

    pub detach_player_events-Inv :
        (h : ℕ) (mp : Option ℕ) (w : World)
        → ((p : ℕ) → mp ≡ some p → 1 ≤ owners (player p) w + x (player p))
        → InvOf x w
        → InvOf x (detach_player_events host h mp w)
          × ((detach_player_events host h mp w).next_handle ≡ w.next_handle)
          × ((detach_player_events host h mp w).players ≡ w.players)
    unfolding detach_player_events
    detach_player_events-Inv h mp w own v =
        let (i, l) =
          all-Inv mp (lookup h w.event_users) w own (λ u at. omega (arith, box_owned h w u at)) v in
        let (j, n, p) =
          box-Inv h (lookup h w.event_users) (detach_all host mp (lookup h w.event_users) w)
            (ap (lookup h) l.boxes) i in
        (j, n ∙ l.handle, p ∙ l.players)
