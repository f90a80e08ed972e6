-- ===== src/Bridge/Windows/Quiet.antt =====
-- What of entry/src/main/cpp/vlc_napi.cpp leaves the window for the picture of a player as it is: the
-- overlays, and the end of a surface that is not the output of the player.
use vlc_harmony.Base.{
  ℕ, ◌∙◌, ◌⊎◌, ◌≡◌, refl, String, false, ◌&&◌, not, Option, none, some, List, [], ◌∷◌, nat_beq,
  if◌then◌else◌, nat_eq, string_eq, Bool-cases, inl, inr, arith,
}
use vlc_harmony.Base.Table.{map_values}
use vlc_harmony.Xcomponent.{Manager, release_window, on_surface_destroyed}
use vlc_harmony.Bridge.World.{player, took, Fn, Host, World, emit}
use vlc_harmony.Xcomponent.{Ready}
use vlc_harmony.Bridge.World.{Call}
use vlc_harmony.Base.{ltb, Bool, true}
use vlc_harmony.Bridge.Windows.{
  set_window, is_negative, reload_track, resize, bind_osd, bind_ready, bind_all, ready_bindings,
  ready_entry, on_surface_ready,
}
use vlc_harmony.Bridge.Windows.{
  retain_all, lost_bindings, lost_entry, detach_native_window_by_id, destroyed, surface_destroyed,
  Binding, gather, set_osd_window, unbind, unbind_all,
}
use vlc_harmony.Bridge.Windows.Shown.{window_of, has_picture}

module _ (host : Host) (mp : ℕ) where
  retain_all-quiet :
      (bs : List Binding) (w : World) → window_of mp (retain_all bs w).trace ≡ window_of mp w.trace
  unfolding retain_all
  retain_all-quiet [] w = refl
  retain_all-quiet (b ∷ bs) w = retain_all-quiet bs (emit (took (player b.mp)) w)

  pub set_osd_window-quiet :
      (p : ℕ) (win : Option ℕ) (w : World)
      → window_of mp (set_osd_window host p win w).1.trace ≡ window_of mp w.trace
  unfolding set_osd_window
  set_osd_window-quiet p win w =
      elim (Bool-cases (host.resolves Fn.media_player_set_ohos_osd_nativewindow_ptr)) [
        | inl c ↦ rw c refl
        | inr c ↦ rw c refl
      ]

  unbind-quiet :
      (b : Binding) (w : World)
      → (not b.osd && nat_beq b.mp mp) ≡ false
      → window_of mp (unbind host b w).trace ≡ window_of mp w.trace
  unfolding unbind
  unbind-quiet b w p = elim (Bool-cases b.osd) [
    | inl c ↦ rw c (set_osd_window-quiet b.mp none w)
    | inr c ↦ rw c (ground arith)
  ]

  unbind_all-quiet :
      (bs : List Binding) (w : World)
      → has_picture mp bs ≡ false
      → window_of mp (unbind_all host bs w).trace ≡ window_of mp w.trace
  unfolding unbind_all has_picture
  unbind_all-quiet [] w p = refl
  unbind_all-quiet (b ∷ bs) w p =
      unbind_all-quiet bs (unbind host b w) (ground arith) ∙ unbind-quiet b w (ground arith)

  detach_native_window_by_id-quiet :
      (id : String) (w : World)
      → has_picture mp (gather (lost_bindings id) w.players) ≡ false
      → window_of mp (detach_native_window_by_id host id w).trace ≡ window_of mp w.trace
  unfolding detach_native_window_by_id
  detach_native_window_by_id-quiet id w p =
      let bs = gather (lost_bindings id) w.players in
      let w₁ = retain_all bs w in
      unbind_all-quiet bs (record w₁ { players = map_values (lost_entry id) w₁.players }) p
      ∙ retain_all-quiet bs w

  destroyed-quiet :
      (w : World) (m : Manager) (o : Option String) (id : String)
      → (o ≡ none) ⊎ (o ≡ some id)
      → has_picture mp (gather (lost_bindings id) w.players) ≡ false
      → window_of mp (destroyed host w (m, o)).trace ≡ window_of mp w.trace
  destroyed-quiet w m o id (inl c) p = rw c refl
  destroyed-quiet w m o id (inr c) p =
      rw c (detach_native_window_by_id-quiet id (record w { manager = m }) p)

  pub surface_destroyed-quiet :
      (id : String) (w : World)
      → has_picture mp (gather (lost_bindings id) w.players) ≡ false
      → window_of mp (surface_destroyed host (some id) w).trace ≡ window_of mp w.trace
  unfolding surface_destroyed on_surface_destroyed
  surface_destroyed-quiet id w p =
      destroyed-quiet w (release_window id w.manager)
        (if w.manager.destroyed_set then some id else none) id (ground arith) p

  either-quiet :
      (t : List Call) (c : Bool) (a b : World)
      → window_of mp a.trace ≡ window_of mp t
      → window_of mp b.trace ≡ window_of mp t
      → window_of mp (if c then a else b).trace ≡ window_of mp t
  either-quiet t true a b p q = p
  either-quiet t false a b p q = q

  resize-quiet :
      (p width height : ℕ) (w : World)
      → window_of mp (resize host p width height w).trace ≡ window_of mp w.trace
  unfolding resize reload_track
  resize-quiet p width height w =
      either-quiet w.trace (host.resolves Fn.video_set_ohos_window_size) _ (reload_track host p w)
        refl
        (either-quiet w.trace (is_negative (host.ask w.trace Fn.video_get_track (player p) [])) _ _
          refl refl)

  bind_osd-quiet :
      (r : Ready) (p : ℕ) (d : Bool × World)
      → window_of mp (bind_osd host r p d).trace ≡ window_of mp d.1.trace
  bind_osd-quiet r p (true, w) = refl
  bind_osd-quiet r p (false, w) = refl

  bind_ready-quiet :
      (r : Ready) (b : Binding) (w : World)
      → (not b.osd && nat_beq b.mp mp) ≡ false
      → window_of mp (bind_ready host r b w).trace ≡ window_of mp w.trace
  unfolding bind_ready
  bind_ready-quiet r b w p = elim (Bool-cases b.osd) [
    | inl c ↦ rw c (
        bind_osd-quiet r b.mp (set_osd_window host b.mp r.win w)
        ∙ set_osd_window-quiet b.mp r.win w)
    | inr c ↦
        let set : window_of mp (set_window b.mp r.win w).trace ≡ window_of mp w.trace =
          ground arith in
        rw c (
          either-quiet w.trace (b.reload && ltb 0 r.width && ltb 0 r.height) _
            (set_window b.mp r.win w)
            (resize-quiet b.mp r.width r.height (set_window b.mp r.win w) ∙ set) set)
  ]

  bind_all-quiet :
      (r : Ready) (bs : List Binding) (w : World)
      → has_picture mp bs ≡ false
      → window_of mp (bind_all host r bs w).trace ≡ window_of mp w.trace
  unfolding bind_all has_picture
  bind_all-quiet r [] w p = refl
  bind_all-quiet r (b ∷ bs) w p =
      bind_all-quiet r bs (bind_ready host r b w) (ground arith)
      ∙ bind_ready-quiet r b w (ground arith)

  pub on_surface_ready-quiet :
      (r : Ready) (w : World)
      → has_picture mp (gather (ready_bindings r.id r.generation) w.players) ≡ false
      → window_of mp (on_surface_ready host r w).trace ≡ window_of mp w.trace
  unfolding on_surface_ready
  on_surface_ready-quiet r w p =
      let bs = gather (ready_bindings r.id r.generation) w.players in
      let w₁ = retain_all bs w in
      bind_all-quiet r bs
        (record w₁ { players = map_values (ready_entry r.id r.generation) w₁.players }) p
      ∙ retain_all-quiet bs w
