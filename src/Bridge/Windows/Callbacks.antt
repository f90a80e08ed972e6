-- ===== src/Bridge/Windows/Callbacks.antt =====
-- What `OnSurfaceCreatedCB` and `OnSurfaceDestroyedCB` of entry/src/main/cpp/xcomponent_manager.cpp
-- leave behind, with the functions of entry/src/main/cpp/vlc_napi.cpp that they call: for libVLC, for
-- the players and for the manager.
use vlc_harmony.Base.{
  ℕ, ◌+◌, ◌%◌, ◌≡◌, refl, sym, ap, ◌∙◌, String, true, false, Option, none, some, string_eq, nat_eq,
  ◌==◌, arith, if◌then◌else◌,
}
use vlc_harmony.Base.Table.{lookup, lookup-insert, lookup-erase}
use vlc_harmony.Xcomponent.{
  Ready, Manager, generation_mod, side, add_native_window, get_native_window,
  get_surface_generation, has_native_window, on_surface_created, on_surface_destroyed,
  release_window,
}
use vlc_harmony.Bridge.World.{Host, World, PlayerEntry}
use vlc_harmony.Bridge.Windows.{
  shows, on_surface_ready, detach_native_window_by_id, reported, destroyed, surface_created,
  surface_destroyed,
}
use vlc_harmony.Bridge.Windows.Shown.{window_of}
use vlc_harmony.Bridge.Windows.Bound.{
  IsBound, IsUnbound, on_surface_ready-binds, detach_native_window_by_id-unbinds,
}

-- What the manager knows once a window was added, and once it was released.
added :
    (id : String) (win : Option ℕ) (m : Manager)
    → (get_native_window id (add_native_window id win true m).1 ≡ win)
      × (get_surface_generation id (add_native_window id win true m).1
          ≡ (add_native_window id win true m).0)
unfolding add_native_window get_native_window get_surface_generation
added id win m =
    let same : (id == id) ≡ true = ground (arith, string_eq.beq_iff id id) in
    rw (lookup-insert id id win m.windows, same)
      (
        refl,
        rw
            (
              lookup-insert id id ((get_surface_generation id m + 1) % generation_mod)
                  m.generations,
              same,
            )
            refl,
      )

gone : (id : String) (m : Manager) → has_native_window id (release_window id m) ≡ false
unfolding has_native_window release_window
gone id m =
    let same : (id == id) ≡ true = ground (arith, string_eq.beq_iff id id) in
    rw (lookup-erase id id m.windows, same) refl

-- The call that the manager makes.
abbrev pub call_of : String → ℕ → Option ℕ → Option (ℕ × ℕ) → Ready
call_of id generation win size = record {
  id = id;
  win = win;
  generation = generation;
  width = side (λ s. s.0) size;
  height = side (λ s. s.1) size;
}

module _ (host : Host) (id : String) where
  pub surface_created_as :
      (win : Option ℕ) (size : Option (ℕ × ℕ)) (w : World)
      → w.manager.ready_set ≡ true
      → surface_created host (some id) win size w
        ≡ on_surface_ready host
            (call_of id (add_native_window id win true w.manager).0 win size)
            (record w { manager = (add_native_window id win true w.manager).1 })
  unfolding surface_created on_surface_created add_native_window
  surface_created_as win size w set =
      let (g, m) = add_native_window id win true w.manager in
      ap (λ c. reported host w (m, if c then some (call_of id g win size) else none)) set

  pub surface_destroyed_as :
      (w : World)
      → w.manager.destroyed_set ≡ true
      → surface_destroyed host (some id) w
        ≡ detach_native_window_by_id host id (record w { manager = release_window id w.manager })
  unfolding surface_destroyed on_surface_destroyed
  surface_destroyed_as w set =
      ap (λ c. destroyed host w (release_window id w.manager, if c then some id else none)) set

module _ (host : Host) (id : String) (h mp : ℕ) (e : PlayerEntry) (w : World)
    (at : lookup h w.players ≡ some e) (is : e.mp ≡ some mp) where
  -- When the platform reports a window for a surface that is the output of a player, and the
  -- callback is registered, that window is the last that libVLC gets for the player's picture, the
  -- player counts as bound to the generation that the manager now has for the surface, and the
  -- manager has the window.
  pub surface_created-binds :
      (win : Option ℕ) (size : Option (ℕ × ℕ))
      → w.manager.ready_set ≡ true
      → shows e.video_out_id id ≡ true
      → (window_of mp (surface_created host (some id) win size w).trace ≡ some win)
        × IsBound h
            (get_surface_generation id (surface_created host (some id) win size w).manager)
            (surface_created host (some id) win size w)
        × (get_native_window id (surface_created host (some id) win size w).manager ≡ win)
  surface_created-binds win size set out =
      let (g, m) = add_native_window id win true w.manager in
      let (known, generation) = added id win w.manager in
      let (s, (d, found, bound, n), kept) =
        on_surface_ready-binds host (call_of id g win size) h mp e (record w { manager = m }) at is
          out in
      rw (surface_created_as host id win size w set) (
        s,
        (d, found, bound, n ∙ sym (ap (get_surface_generation id) kept ∙ generation)),
        ap (get_native_window id) kept ∙ known,
      )

  -- When the platform takes the surface of a player away, and the callback is registered, the last
  -- window that libVLC gets for the player's picture is a null one, the player counts as not bound,
  -- and the manager has no window for the surface.
  pub surface_destroyed-unbinds :
      w.manager.destroyed_set ≡ true
      → (e.video_out_id == id) ≡ true
      → (window_of mp (surface_destroyed host (some id) w).trace ≡ some none)
        × IsUnbound h (surface_destroyed host (some id) w)
        × (has_native_window id (surface_destroyed host (some id) w).manager ≡ false)
  surface_destroyed-unbinds set out =
      let (s, lost, kept) =
        detach_native_window_by_id-unbinds host id h mp e
          (record w { manager = release_window id w.manager }) at is out in
      rw (surface_destroyed_as host id w set)
        (s, lost, ap (has_native_window id) kept ∙ gone id w.manager)
