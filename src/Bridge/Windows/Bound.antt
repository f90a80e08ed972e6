-- ===== src/Bridge/Windows/Bound.antt =====
-- `OnSurfaceReady` and `DetachNativeWindowById` of entry/src/main/cpp/vlc_napi.cpp, for libVLC and for
-- the entries of the players.
use vlc_harmony.Base.{
  ℕ, ◌≡◌, refl, ap, ◌∙◌, String, Bool, true, false, ◌&&◌, Option, none, some, List, [], ◌∷◌,
  if◌then◌else◌, nat_eq, string_eq, ◌==◌, Bool-cases, inl, inr, arith, ltb,
}
use vlc_harmony.Base.Table.{lookup, map_values, lookup-map_values}
use vlc_harmony.Xcomponent.{Ready}
use vlc_harmony.Bridge.World.{player, Fn, Host, World, PlayerEntry, emit, took}
use vlc_harmony.Bridge.Windows.{
  Binding, gather, shows, is_same, retain_all, ready_bindings, ready_entry, osd_entry,
  lost_bindings, lost_entry, set_window, set_osd_window, is_negative, reload_track, resize,
  bind_osd, bind_picture, bind_ready, bind_all, on_surface_ready, unbind, unbind_all,
  detach_native_window_by_id,
}
use vlc_harmony.Bridge.Windows.Shown.{
  window_of, has_picture, has_picture-gather, bind_all-shows, unbind_all-shows,
}

-- A player whose picture is bound to a generation of its surface, and one whose picture is not.
abbrev pub IsBound : ℕ → ℕ → World → Type 0
IsBound h generation w =
    (e : PlayerEntry) × (lookup h w.players ≡ some e)
    × (e.window_bound ≡ true)
    × (e.bound_surface_generation ≡ generation)

abbrev pub IsUnbound : ℕ → World → Type 0
IsUnbound h w = (e : PlayerEntry) × (lookup h w.players ≡ some e) × (e.window_bound ≡ false)

-- Neither the players nor the manager change.
abbrev Same : World → World → Type 0
Same v w = (v.players ≡ w.players) × (v.manager ≡ w.manager)

pub retain_all-Same : (bs : List Binding) (w : World) → Same (retain_all bs w) w
unfolding retain_all
retain_all-Same [] w = (refl, refl)
retain_all-Same (b ∷ bs) w = retain_all-Same bs (emit (took (player b.mp)) w)

either-Same : (c : Bool) (a b w : World) → Same a w → Same b w → Same (if c then a else b) w
either-Same true a b w p q = p
either-Same false a b w p q = q

module _ (host : Host) where
  pub set_osd_window-Same :
      (mp : ℕ) (win : Option ℕ) (w : World) → Same (set_osd_window host mp win w).1 w
  unfolding set_osd_window
  set_osd_window-Same mp win w =
      elim (Bool-cases (host.resolves Fn.media_player_set_ohos_osd_nativewindow_ptr)) [
        | inl c ↦ rw c (refl, refl)
        | inr c ↦ rw c (refl, refl)
      ]

  unbind-Same : (b : Binding) (w : World) → Same (unbind host b w) w
  unfolding unbind
  unbind-Same b w =
      either-Same b.osd _ (set_window b.mp none w) w (set_osd_window-Same b.mp none w) (refl, refl)

  pub unbind_all-Same : (bs : List Binding) (w : World) → Same (unbind_all host bs w) w
  unfolding unbind_all
  unbind_all-Same [] w = (refl, refl)
  unbind_all-Same (b ∷ bs) w =
      let (p, m) = unbind_all-Same bs (unbind host b w) in
      let (q, n) = unbind-Same b w in (p ∙ q, m ∙ n)

  resize-Same : (mp width height : ℕ) (w : World) → Same (resize host mp width height w) w
  unfolding resize reload_track
  resize-Same mp width height w =
      either-Same (host.resolves Fn.video_set_ohos_window_size) _ (reload_track host mp w) w
        (refl, refl)
        (either-Same (is_negative (host.ask w.trace Fn.video_get_track (player mp) [])) _ _ w
          (refl, refl) (refl, refl))

  pub bind_picture-Same : (r : Ready) (b : Binding) (w : World) → Same (bind_picture host r b w) w
  bind_picture-Same r b w =
      either-Same (b.reload && ltb 0 r.width && ltb 0 r.height) _ (set_window b.mp r.win w) w
        (resize-Same b.mp r.width r.height (set_window b.mp r.win w)) (refl, refl)

  -- The picture of a player stays bound while overlays are.
  osd_entry-bound :
      (mp : ℕ) (id : String) (g : ℕ) (e : PlayerEntry)
      → ((osd_entry mp id g e).window_bound ≡ e.window_bound)
        × ((osd_entry mp id g e).bound_surface_generation ≡ e.bound_surface_generation)
  unfolding osd_entry
  osd_entry-bound mp id g e = elim (Bool-cases (is_same e.mp mp && e.osd_out_id == id)) [
    | inl c ↦ rw c (refl, refl)
    | inr c ↦ rw c (refl, refl)
  ]

  -- A step that keeps the manager, and keeps bound what is bound.
  abbrev Keeping : ℕ → ℕ → World → World → Type 0
  Keeping h g w v = (v.manager ≡ w.manager) × (IsBound h g w → IsBound h g v)

  Same-Keeping : (h g : ℕ) (v w : World) → Same v w → Keeping h g w v
  Same-Keeping h g v w (p, m) = (m, λ (e, at, b, n). (e, ap (λ t. lookup h t) p ∙ at, b, n))

  bind_osd-Keeping :
      (h g : ℕ) (r : Ready) (mp : ℕ) (d : Bool × World) (w : World)
      → Same d.1 w
      → Keeping h g w (bind_osd host r mp d)
  bind_osd-Keeping h g r mp (false, v) w s = Same-Keeping h g v w s
  bind_osd-Keeping h g r mp (true, v) w (p, m) = (
    m,
    λ (e, at, b, n).
        let f = osd_entry mp r.id r.generation in
        let (c, k) = osd_entry-bound mp r.id r.generation e in
        (f e, lookup-map_values f h v.players e (ap (λ t. lookup h t) p ∙ at), c ∙ b, k ∙ n),
  )

  bind_ready-Keeping :
      (h g : ℕ) (r : Ready) (b : Binding) (w : World) → Keeping h g w (bind_ready host r b w)
  unfolding bind_ready
  bind_ready-Keeping h g r b w = elim (Bool-cases b.osd) [
    | inl c ↦ rw c (
        bind_osd-Keeping h g r b.mp (set_osd_window host b.mp r.win w) w
          (set_osd_window-Same b.mp r.win w))
    | inr c ↦ rw c (Same-Keeping h g (bind_picture host r b w) w (bind_picture-Same r b w))
  ]

  bind_all-Keeping :
      (h g : ℕ) (r : Ready) (bs : List Binding) (w : World) → Keeping h g w (bind_all host r bs w)
  unfolding bind_all
  bind_all-Keeping h g r [] w = (refl, λ b. b)
  bind_all-Keeping h g r (b ∷ bs) w =
      let (m, k) = bind_all-Keeping h g r bs (bind_ready host r b w) in
      let (n, j) = bind_ready-Keeping h g r b w in (m ∙ n, λ bound. k (j bound))

  pub on_surface_ready-manager :
      (r : Ready) (w : World) → (on_surface_ready host r w).manager ≡ w.manager
  unfolding on_surface_ready
  on_surface_ready-manager r w =
      let bs = gather (ready_bindings r.id r.generation) w.players in
      let w₁ = retain_all bs w in
      let f = ready_entry r.id r.generation in
      (bind_all-Keeping 0 0 r bs (record w₁ { players = map_values f w₁.players })).0
      ∙ (retain_all-Same bs w).1

  pub detach_native_window_by_id-manager :
      (id : String) (w : World) → (detach_native_window_by_id host id w).manager ≡ w.manager
  unfolding detach_native_window_by_id
  detach_native_window_by_id-manager id w =
      let bs = gather (lost_bindings id) w.players in
      let w₁ = retain_all bs w in
      (unbind_all-Same bs (record w₁ { players = map_values (lost_entry id) w₁.players })).1
      ∙ (retain_all-Same bs w).1

  -- `OnSurfaceReady` on a player whose output is the surface.
  pub on_surface_ready-binds :
      (r : Ready) (h mp : ℕ) (e : PlayerEntry) (w : World)
      → lookup h w.players ≡ some e
      → e.mp ≡ some mp
      → shows e.video_out_id r.id ≡ true
      → (window_of mp (on_surface_ready host r w).trace ≡ some r.win)
        × IsBound h r.generation (on_surface_ready host r w)
        × ((on_surface_ready host r w).manager ≡ w.manager)
  unfolding on_surface_ready
  on_surface_ready-binds r h mp e w at is out =
      let bs = gather (ready_bindings r.id r.generation) w.players in
      let w₁ = retain_all bs w in
      let (p, m) = retain_all-Same bs w in
      let f = ready_entry r.id r.generation in
      let w₂ = record w₁ { players = map_values f w₁.players } in
      let (n, keep) = bind_all-Keeping h r.generation r bs w₂ in
      let bound : (f e).window_bound ≡ true = unfold ready_entry in ground arith in
      let generation : (f e).bound_surface_generation ≡ r.generation =
        unfold ready_entry in ground arith in
      let at₁ = lookup-map_values f h w₁.players e (ap (λ t. lookup h t) p ∙ at) in
      (
        bind_all-shows host mp r bs w₂ (
            has_picture-gather mp h (ready_bindings r.id r.generation) e w.players at
              (unfold ready_bindings has_picture in ground arith)),
        keep (f e, at₁, bound, generation),
        n ∙ m,
      )

  -- `DetachNativeWindowById` likewise.
  pub detach_native_window_by_id-unbinds :
      (id : String) (h mp : ℕ) (e : PlayerEntry) (w : World)
      → lookup h w.players ≡ some e
      → e.mp ≡ some mp
      → (e.video_out_id == id) ≡ true
      → (window_of mp (detach_native_window_by_id host id w).trace ≡ some none)
        × IsUnbound h (detach_native_window_by_id host id w)
        × ((detach_native_window_by_id host id w).manager ≡ w.manager)
  unfolding detach_native_window_by_id
  detach_native_window_by_id-unbinds id h mp e w at is out =
      let bs = gather (lost_bindings id) w.players in
      let w₁ = retain_all bs w in
      let (p, m) = retain_all-Same bs w in
      let f = lost_entry id in
      let w₂ = record w₁ { players = map_values f w₁.players } in
      let (q, n) = unbind_all-Same bs w₂ in
      let at₁ = lookup-map_values f h w₁.players e (ap (λ t. lookup h t) p ∙ at) in
      (
        unbind_all-shows host mp none bs w₂ refl (
            has_picture-gather mp h (lost_bindings id) e w.players at
              (unfold lost_bindings has_picture in ground arith)),
        (f e, ap (λ t. lookup h t) q ∙ at₁, unfold lost_entry in ground arith),
        n ∙ m,
      )
