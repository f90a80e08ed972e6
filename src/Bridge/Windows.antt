-- ===== src/Bridge/Windows.antt =====
-- What entry/src/main/cpp/vlc_napi.cpp does when the platform reports a surface or takes it away: the
-- window goes to the players that are to show on it, or is taken from them. Players are retained under
-- the lock, one binding for each picture and one for each overlay (OSD), and the calls follow when the
-- lock is given up. The callbacks of the platform come through the surface manager.
pub mod Safety
pub mod Shown
pub mod Quiet
pub mod Single
pub mod Bound
pub mod Callbacks
use vlc_harmony.Base.{
  ℕ, ◌%◌, ◌^◌, String, Bool, true, false, ◌&&◌, not, Option, none, some, List, [], ◌∷◌, ◌++◌, ℤ,
  ltb, nat_beq, if◌then◌else◌, ◌==◌, string_eq, nat_eq,
}
use vlc_harmony.Base.Table.{map_values}
use vlc_harmony.Xcomponent
use vlc_harmony.Xcomponent.{Ready, Manager}
use vlc_harmony.Bridge.World.{
  player, Fn, num, int, ptr, did, took, dropped, Host, World, PlayerEntry, emit,
}

-- `SurfaceBinding`
pub record Binding : Type 0 where
  pub mp : ℕ
  pub reload : Bool
  pub osd : Bool

-- The output of a player is the surface `id`, and is set at all.
abbrev pub shows : String → String → Bool
shows out id = not (out == "") && out == id

abbrev pub is_same : Option ℕ → ℕ → Bool
is_same none mp = false
is_same (some p) mp = nat_beq p mp

-- One `libvlc_media_player_retain` for each binding.
unfoldable pub retain_all : List Binding → World → World
retain_all [] w = w
retain_all (b ∷ bs) w = retain_all bs (emit (took (player b.mp)) w)

unfoldable pub gather : (PlayerEntry → List Binding) → List (ℕ × PlayerEntry) → List Binding
gather f [] = []
gather f ((h, e) ∷ m) = f e ++ gather f m

abbrev pub when : Bool → Binding → List Binding
when c b = if c then b ∷ [] else []

-- The bindings of a player when the surface is ready; the picture is loaded again if the player was
-- bound to another generation of the surface.
abbrev ready_bindings_of : String → ℕ → PlayerEntry → Option ℕ → List Binding
ready_bindings_of id generation e none = []
ready_bindings_of id generation e (some mp) =
    when (shows e.video_out_id id) (record {
      mp = mp;
      reload =
          not (nat_beq e.bound_surface_generation 0)
          && not (nat_beq e.bound_surface_generation generation);
      osd = false;
    })
    ++ when (shows e.osd_out_id id) (record { mp = mp; reload = false; osd = true })

unfoldable pub ready_bindings : String → ℕ → PlayerEntry → List Binding
ready_bindings id generation e = ready_bindings_of id generation e e.mp

abbrev has_mp : Option ℕ → Bool
has_mp none = false
has_mp (some mp) = true

unfoldable pub ready_entry : String → ℕ → PlayerEntry → PlayerEntry
ready_entry id generation e =
    if shows e.video_out_id id && has_mp e.mp
    then record e { window_bound = true; bound_surface_generation = generation }
    else e

-- The overlay of a player is bound, if its output is still the surface.
unfoldable pub osd_entry : ℕ → String → ℕ → PlayerEntry → PlayerEntry
osd_entry mp id generation e =
    if is_same e.mp mp && e.osd_out_id == id
    then record e { osd_window_bound = true; bound_osd_surface_generation = generation }
    else e

-- `SetOhosNativeWindow`
abbrev pub set_window : ℕ → Option ℕ → World → World
set_window mp win w =
    emit (did Fn.media_player_set_ohos_nativewindow_ptr (player mp) (ptr win ∷ [])) w

abbrev pub is_negative : ℤ → Bool
is_negative (ℤ.pos n) = false
is_negative (ℤ.negsuc n) = true

module _ (host : Host) where
  -- `SetOhosOsdNativeWindow` on a player: whether libVLC has the function, and the call.
  unfoldable pub set_osd_window : ℕ → Option ℕ → World → Bool × World
  set_osd_window mp win w =
      if host.resolves Fn.media_player_set_ohos_osd_nativewindow_ptr
      then (
        true,
        emit (did Fn.media_player_set_ohos_osd_nativewindow_ptr (player mp) (ptr win ∷ [])) w,
      )
      else (false, w)

  -- Without the function that resizes the picture, its track is set off and on again.
  unfoldable pub reload_track : ℕ → World → World
  reload_track mp w =
      let track = host.ask w.trace Fn.video_get_track (player mp) [] in
      let w₁ = emit (did Fn.video_get_track (player mp) []) w in
      if is_negative track
      then w₁
      else emit (did Fn.video_set_track (player mp) (int track ∷ []))
          (emit (did Fn.video_set_track (player mp) (int (ℤ.negsuc 0) ∷ [])) w₁)

  -- `static_cast<unsigned>` of the sides.
  unfoldable pub resize : ℕ → ℕ → ℕ → World → World
  unfolding reload_track
  resize mp width height w =
      if host.resolves Fn.video_set_ohos_window_size
      then emit
          (did Fn.video_set_ohos_window_size (player mp)
            (num (width % 2 ^ 32) ∷ num (height % 2 ^ 32) ∷ []))
          w
      else reload_track mp w

  -- The overlay of a binding, by whether its function was there.
  abbrev bind_osd : Ready → ℕ → Bool × World → World
  bind_osd r mp (done, w) =
      if done
      then record w { players = map_values (osd_entry mp r.id r.generation) w.players }
      else w

  abbrev bind_picture : Ready → Binding → World → World
  bind_picture r b w =
      let w₁ = set_window b.mp r.win w in
      if b.reload && ltb 0 r.width && ltb 0 r.height then resize b.mp r.width r.height w₁ else w₁

  -- The calls for one binding, and the release of its player.
  unfoldable pub bind_ready : Ready → Binding → World → World
  unfolding set_osd_window resize
  bind_ready r b w =
      emit (dropped (player b.mp))
        (if b.osd then bind_osd r b.mp (set_osd_window b.mp r.win w) else bind_picture r b w)

  unfoldable pub bind_all : Ready → List Binding → World → World
  unfolding bind_ready
  bind_all r [] w = w
  bind_all r (b ∷ bs) w = bind_all r bs (bind_ready r b w)

  unfoldable pub on_surface_ready : Ready → World → World
  unfolding ready_bindings
  on_surface_ready r w =
      let bindings = gather (ready_bindings r.id r.generation) w.players in
      let w₁ = retain_all bindings w in
      bind_all r bindings
        (record w₁ { players = map_values (ready_entry r.id r.generation) w₁.players })

-- `DetachNativeWindowById` does not ask whether an output is set at all.
abbrev lost_bindings_of : String → PlayerEntry → Option ℕ → List Binding
lost_bindings_of id e none = []
lost_bindings_of id e (some mp) =
    when (e.video_out_id == id) (record { mp = mp; reload = false; osd = false })
    ++ when (e.osd_out_id == id) (record { mp = mp; reload = false; osd = true })

unfoldable pub lost_bindings : String → PlayerEntry → List Binding
lost_bindings id e = lost_bindings_of id e e.mp

unfoldable pub lost_entry : String → PlayerEntry → PlayerEntry
lost_entry id e = record e {
  window_bound = e.window_bound && not (e.video_out_id == id && has_mp e.mp);
  osd_window_bound = e.osd_window_bound && not (e.osd_out_id == id && has_mp e.mp);
}

module _ (host : Host) where
  unfoldable pub unbind : Binding → World → World
  unfolding set_osd_window
  unbind b w =
      emit (dropped (player b.mp))
        (if b.osd then (set_osd_window host b.mp none w).1 else set_window b.mp none w)

  unfoldable pub unbind_all : List Binding → World → World
  unfolding unbind
  unbind_all [] w = w
  unbind_all (b ∷ bs) w = unbind_all bs (unbind b w)

  unfoldable pub detach_native_window_by_id : String → World → World
  unfolding lost_bindings
  detach_native_window_by_id id w =
      let bindings = gather (lost_bindings id) w.players in
      let w₁ = retain_all bindings w in
      unbind_all bindings (record w₁ { players = map_values (lost_entry id) w₁.players })

  -- The manager has taken the report in, and calls the function that it has stored, if any.
  abbrev pub reported : World → Manager × Option Ready → World
  reported w (m, none) = record w { manager = m }
  reported w (m, some r) = on_surface_ready host r (record w { manager = m })

  unfoldable pub surface_created : Option String → Option ℕ → Option (ℕ × ℕ) → World → World
  surface_created id win size w = reported w (Xcomponent.on_surface_created id win size w.manager)

  unfoldable pub surface_changed : Option String → Option ℕ → Option (ℕ × ℕ) → World → World
  surface_changed id win size w = reported w (Xcomponent.on_surface_changed id win size w.manager)

  -- The detaching reads nothing of the manager, so its state may change first.
  abbrev pub destroyed : World → Manager × Option String → World
  destroyed w (m, none) = record w { manager = m }
  destroyed w (m, some id) = detach_native_window_by_id id (record w { manager = m })

  unfoldable pub surface_destroyed : Option String → World → World
  surface_destroyed id w = destroyed w (Xcomponent.on_surface_destroyed id w.manager)
