-- ===== src/Bridge/Windows/Safety.antt =====
-- The callbacks of the platform for surfaces, in entry/src/main/cpp/vlc_napi.cpp, keep the account of
-- references: each binding holds its player until its calls are made.
use vlc_harmony.Base.{
  ℕ, ◌+◌, ◌≡◌, refl, ◌∙◌, String, Bool, true, false, ◌&&◌, Option, none, some, List, [], ◌∷◌, ltb,
  if◌then◌else◌, nat_eq, string_eq, ◌==◌, Bool-cases, inl, inr, arith,
}
use vlc_harmony.Base.Table.{map_values, uses-map_values, total-map_values}
use vlc_harmony.Xcomponent.{Ready, Manager}
use vlc_harmony.Bridge.World.{Ref, player, Fn, Arg, ptr, did, took, Host, World, PlayerEntry, emit}
use vlc_harmony.Bridge.Ledger.{Dead, Inv, InvOf, hits, hits_self, player_holds, did-Inv}
use vlc_harmony.Bridge.Ledger.Moves.{took-Inv, dropped-Inv, hand-Inv, manager-Inv, Handles-less}
use vlc_harmony.Bridge.Windows.{
  Binding, shows, has_mp, is_same, retain_all, gather, ready_bindings, ready_entry, osd_entry,
  set_osd_window, set_window, is_negative, reload_track, resize, bind_osd, bind_picture, bind_ready,
  bind_all, on_surface_ready, lost_bindings, lost_entry, unbind, unbind_all,
  detach_native_window_by_id, reported, destroyed, surface_created, surface_changed,
  surface_destroyed,
}

module _ ⦃dead : Dead⦄ where
  -- The account after a step, and that no handle was given out.
  abbrev pub Kept : (Ref → ℕ) → World → World → Type 0
  Kept x w w' = InvOf x w' × (w'.next_handle ≡ w.next_handle)

  pub either-Kept :
      (x : Ref → ℕ) (w : World) (c : Bool) (a b : World)
      → Kept x w a
      → Kept x w b
      → Kept x w (if c then a else b)
  either-Kept x w true a b p q = p
  either-Kept x w false a b p q = q

  pub Kept-trans :
      (x : Ref → ℕ) (u v w : World) → v.next_handle ≡ u.next_handle → Kept x v w → Kept x u w
  Kept-trans x u v w e k = (k.0, k.1 ∙ e)

  -- Players whose entries change in place, and hold what they held.
  pub players_map-Inv :
      (x : Ref → ℕ) (w : World) (f : PlayerEntry → PlayerEntry)
      → ((r : Ref) (e : PlayerEntry) → player_holds r (f e) ≡ player_holds r e)
      → InvOf x w
      → InvOf x (record w { players = map_values f w.players })
  players_map-Inv x w f same v = record {
    handles = Handles-less w _ refl (λ k. omega (arith, uses-map_values f k w.players)) v.handles;
    users = v.users;
    rd_users = v.rd_users;
    seekers = v.seekers;
    stops = v.stops;
    balanced =
        λ r. omega (arith, v.balanced r, total-map_values (player_holds r) f w.players (same r));
    safe = v.safe;
  }

  -- A call on a player that the running function holds.
  pub held-Kept :
      (x : Ref → ℕ) (mp : ℕ) (f : Fn) (args : List Arg) (w : World)
      → InvOf (λ r. hits r (player mp) + x r) w
      → InvOf (λ r. hits r (player mp) + x r) (emit (did f (player mp) args) w)
  held-Kept x mp f args w v =
      did-Inv (λ r. hits r (player mp) + x r) w v f (player mp) args
        (omega (arith, hits_self (player mp)))

  ready_entry-holds :
      (id : String) (g : ℕ) (r : Ref) (e : PlayerEntry)
      → player_holds r (ready_entry id g e) ≡ player_holds r e
  unfolding ready_entry
  ready_entry-holds id g r e = elim (Bool-cases (shows e.video_out_id id && has_mp e.mp)) [
    | inl h ↦ rw h refl
    | inr h ↦ rw h refl
  ]

  osd_entry-holds :
      (mp : ℕ) (id : String) (g : ℕ) (r : Ref) (e : PlayerEntry)
      → player_holds r (osd_entry mp id g e) ≡ player_holds r e
  unfolding osd_entry
  osd_entry-holds mp id g r e = elim (Bool-cases (is_same e.mp mp && e.osd_out_id == id)) [
    | inl h ↦ rw h refl
    | inr h ↦ rw h refl
  ]

  -- What a list of bindings holds.
  abbrev bindings_hold : Ref → List Binding → ℕ
  bindings_hold r [] = 0
  bindings_hold r (b ∷ bs) = hits r (player b.mp) + bindings_hold r bs

  retain_all-Kept :
      (x : Ref → ℕ) (bs : List Binding) (w : World)
      → InvOf x w
      → Kept (λ r. bindings_hold r bs + x r) w (retain_all bs w)
  unfolding retain_all
  retain_all-Kept x [] w v = (hand-Inv (λ r. omega arith) v, refl)
  retain_all-Kept x (b ∷ bs) w v =
      let (i, n) =
        retain_all-Kept (λ r. hits r (player b.mp) + x r) bs (emit (took (player b.mp)) w)
          (took-Inv x w (player b.mp) v) in
      (hand-Inv (λ r. omega arith) i, n)

  module _ (host : Host) (x : Ref → ℕ) where
    pub set_osd_window-Kept :
        (mp : ℕ) (win : Option ℕ) (w : World)
        → InvOf (λ r. hits r (player mp) + x r) w
        → Kept (λ r. hits r (player mp) + x r) w (set_osd_window host mp win w).1
    unfolding set_osd_window
    set_osd_window-Kept mp win w v =
        elim (Bool-cases (host.resolves Fn.media_player_set_ohos_osd_nativewindow_ptr)) [
          | inl h ↦ rw h (held-Kept x mp _ _ w v, refl)
          | inr h ↦ rw h (v, refl)
        ]

    reload_track-Kept :
        (mp : ℕ) (w : World)
        → InvOf (λ r. hits r (player mp) + x r) w
        → Kept (λ r. hits r (player mp) + x r) w (reload_track host mp w)
    unfolding reload_track
    reload_track-Kept mp w v =
        let v₁ = held-Kept x mp Fn.video_get_track [] w v in
        either-Kept (λ r. hits r (player mp) + x r) w
          (is_negative (host.ask w.trace Fn.video_get_track (player mp) [])) _ _ (v₁, refl)
          (held-Kept x mp _ _ _ (held-Kept x mp _ _ _ v₁), refl)

    resize-Kept :
        (mp width height : ℕ) (w : World)
        → InvOf (λ r. hits r (player mp) + x r) w
        → Kept (λ r. hits r (player mp) + x r) w (resize host mp width height w)
    unfolding resize
    resize-Kept mp width height w v =
        either-Kept (λ r. hits r (player mp) + x r) w (host.resolves Fn.video_set_ohos_window_size)
          _ _ (held-Kept x mp _ _ w v, refl) (reload_track-Kept mp w v)

    bind_osd-Kept :
        (r : Ready) (mp : ℕ) (p : Bool × World) → InvOf x p.1 → Kept x p.1 (bind_osd host r mp p)
    bind_osd-Kept r mp (c, w) v =
        either-Kept x w c _ _ (players_map-Inv x w _ (osd_entry-holds mp r.id r.generation) v, refl)
          (v, refl)

    bind_picture-Kept :
        (r : Ready) (b : Binding) (w : World)
        → InvOf (λ s. hits s (player b.mp) + x s) w
        → Kept (λ s. hits s (player b.mp) + x s) w (bind_picture host r b w)
    bind_picture-Kept r b w v =
        let v₁ = held-Kept x b.mp Fn.media_player_set_ohos_nativewindow_ptr (ptr r.win ∷ []) w v in
        either-Kept (λ s. hits s (player b.mp) + x s) w
          (b.reload && ltb 0 r.width && ltb 0 r.height) _ _
          (resize-Kept b.mp r.width r.height (set_window b.mp r.win w) v₁) (v₁, refl)

  module _ (host : Host) where
    bind_ready-Kept :
        (x : Ref → ℕ) (r : Ready) (b : Binding) (w : World)
        → InvOf (λ s. hits s (player b.mp) + x s) w
        → Kept x w (bind_ready host r b w)
    unfolding bind_ready
    bind_ready-Kept x r b w v =
        let y : Ref → ℕ = λ s. hits s (player b.mp) + x s in
        let p = set_osd_window host b.mp r.win w in
        let (v₁, n₁) = set_osd_window-Kept host x b.mp r.win w v in
        let (v₂, n₂) = bind_osd-Kept host y r b.mp p v₁ in
        let (v₃, n₃) =
          either-Kept y w b.osd (bind_osd host r b.mp p) (bind_picture host r b w) (v₂, n₂ ∙ n₁)
            (bind_picture-Kept host x r b w v) in
        (dropped-Inv x _ (player b.mp) v₃, n₃)

    bind_all-Kept :
        (x : Ref → ℕ) (r : Ready) (bs : List Binding) (w : World)
        → InvOf (λ s. bindings_hold s bs + x s) w
        → Kept x w (bind_all host r bs w)
    unfolding bind_all
    bind_all-Kept x r [] w v = (hand-Inv (λ s. omega arith) v, refl)
    bind_all-Kept x r (b ∷ bs) w v =
        let (v₁, n₁) =
          bind_ready-Kept (λ s. bindings_hold s bs + x s) r b w (hand-Inv (λ s. omega arith) v) in
        let (v₂, n₂) = bind_all-Kept x r bs (bind_ready host r b w) v₁ in (v₂, n₂ ∙ n₁)

    on_surface_ready-Kept :
        (r : Ready) (w : World) → Inv w → Kept (λ _. 0) w (on_surface_ready host r w)
    unfolding on_surface_ready
    on_surface_ready-Kept r w v =
        let bs = gather (ready_bindings r.id r.generation) w.players in
        let (v₁, n₁) = retain_all-Kept (λ _. 0) bs w v in
        let v₂ =
          players_map-Inv (λ s. bindings_hold s bs + 0) (retain_all bs w) _
            (ready_entry-holds r.id r.generation) v₁ in
        let (v₃, n₃) = bind_all-Kept (λ _. 0) r bs _ v₂ in (v₃, n₃ ∙ n₁)

    unbind-Kept :
        (x : Ref → ℕ) (b : Binding) (w : World)
        → InvOf (λ s. hits s (player b.mp) + x s) w
        → Kept x w (unbind host b w)
    unfolding unbind
    unbind-Kept x b w v =
        let y : Ref → ℕ = λ s. hits s (player b.mp) + x s in
        let (v₁, n₁) =
          either-Kept y w b.osd _ (set_window b.mp none w)
            (set_osd_window-Kept host x b.mp none w v) (held-Kept x b.mp _ _ w v, refl) in
        (dropped-Inv x _ (player b.mp) v₁, n₁)

    unbind_all-Kept :
        (x : Ref → ℕ) (bs : List Binding) (w : World)
        → InvOf (λ s. bindings_hold s bs + x s) w
        → Kept x w (unbind_all host bs w)
    unfolding unbind_all
    unbind_all-Kept x [] w v = (hand-Inv (λ s. omega arith) v, refl)
    unbind_all-Kept x (b ∷ bs) w v =
        let (v₁, n₁) =
          unbind-Kept (λ s. bindings_hold s bs + x s) b w (hand-Inv (λ s. omega arith) v) in
        let (v₂, n₂) = unbind_all-Kept x bs (unbind host b w) v₁ in (v₂, n₂ ∙ n₁)

    detach_native_window_by_id-Kept :
        (id : String) (w : World) → Inv w → Kept (λ _. 0) w (detach_native_window_by_id host id w)
    unfolding detach_native_window_by_id
    detach_native_window_by_id-Kept id w v =
        let bs = gather (lost_bindings id) w.players in
        let (v₁, n₁) = retain_all-Kept (λ _. 0) bs w v in
        let v₂ =
          players_map-Inv (λ s. bindings_hold s bs + 0) (retain_all bs w) (lost_entry id)
            (λ r e. unfold lost_entry in refl) v₁ in
        let (v₃, n₃) = unbind_all-Kept (λ _. 0) bs _ v₂ in (v₃, n₃ ∙ n₁)

    reported-Kept :
        (w : World) (p : Manager × Option Ready) → Inv w → Kept (λ _. 0) w (reported host w p)
    reported-Kept w (m, none) v = (manager-Inv (λ _. 0) w m v, refl)
    reported-Kept w (m, some r) v =
        on_surface_ready-Kept r (record w { manager = m }) (manager-Inv (λ _. 0) w m v)

    destroyed-Kept :
        (w : World) (p : Manager × Option String) → Inv w → Kept (λ _. 0) w (destroyed host w p)
    destroyed-Kept w (m, none) v = (manager-Inv (λ _. 0) w m v, refl)
    destroyed-Kept w (m, some id) v =
        detach_native_window_by_id-Kept id (record w { manager = m }) (manager-Inv (λ _. 0) w m v)

    pub surface_created-Kept :
        (id : Option String) (win : Option ℕ) (size : Option (ℕ × ℕ)) (w : World)
        → Inv w
        → Kept (λ _. 0) w (surface_created host id win size w)
    unfolding surface_created
    surface_created-Kept id win size w v = reported-Kept w _ v

    pub surface_changed-Kept :
        (id : Option String) (win : Option ℕ) (size : Option (ℕ × ℕ)) (w : World)
        → Inv w
        → Kept (λ _. 0) w (surface_changed host id win size w)
    unfolding surface_changed
    surface_changed-Kept id win size w v = reported-Kept w _ v

    pub surface_destroyed-Kept :
        (id : Option String) (w : World) → Inv w → Kept (λ _. 0) w (surface_destroyed host id w)
    unfolding surface_destroyed
    surface_destroyed-Kept id w v = destroyed-Kept w _ v
