-- ===== src/Bridge/Events.antt =====
-- The player events of entry/src/main/cpp/vlc_napi.cpp on their way to JavaScript.
pub mod Names
pub mod Safety
use vlc_harmony.Base.{ℕ, zero, String, Bool, Option, none, some, List, [], ◌∷◌, ℤ, nat_eq}
use vlc_harmony.Base.Table.{lookup, insert, erase}
use vlc_harmony.Bridge.World.{
  Ref, player, tsfn, user, Fn, EventType, playing, paused, stopped, end_reached, encountered_error,
  length_changed, time_changed, position_changed, vout, buffering, es_added, es_deleted,
  es_selected, other, Arg, num, text, bits, ptr, event_type, Host, World, PlayerEntry, did,
  did_with, took, dropped, emit, from,
}

-- A libVLC event: its type, and what it brings along, as an integer and as a `float`.
pub record Event : Type 0 where
  pub type : EventType
  pub number : ℤ
  pub real : ℕ

-- The name under which JavaScript hears of an event; the `default` of the switch is `none`.
unfoldable pub event_name : EventType → Option String
event_name playing = some "playing"
event_name paused = some "paused"
event_name stopped = some "stopped"
event_name end_reached = some "ended"
event_name encountered_error = some "error"
event_name length_changed = some "lengthChanged"
event_name time_changed = some "timeChanged"
event_name position_changed = some "positionChanged"
event_name vout = some "vout"
event_name buffering = some "buffering"
event_name es_added = some "esAdded"
event_name es_deleted = some "esDeleted"
event_name es_selected = some "esSelected"
event_name other = none

-- The list `types` in `AttachPlayerEventsLocked`.
unfoldable pub attached_types : List EventType
attached_types =
    playing ∷ paused ∷ stopped ∷ end_reached ∷ encountered_error ∷ length_changed ∷ time_changed
    ∷ position_changed ∷ vout ∷ buffering ∷ es_added ∷ es_deleted ∷ es_selected ∷ []

-- The list `types` in `DetachPlayerEventsLocked`.
unfoldable pub detached_types : List EventType
detached_types =
    playing ∷ paused ∷ stopped ∷ end_reached ∷ encountered_error ∷ length_changed ∷ time_changed
    ∷ position_changed ∷ vout ∷ buffering ∷ es_added ∷ es_deleted ∷ es_selected ∷ []

module _ (host : Host) where
  -- `dval`
  event_value : Event → ℕ
  event_value e = elim (e.type) [
    | length_changed ↦ host.double_of_int e.number
    | time_changed ↦ host.double_of_int e.number
    | position_changed ↦ host.to_double e.real
    | vout ↦ host.double_of_int e.number
    | buffering ↦ host.to_double e.real
    | es_added ↦ host.double_of_int e.number
    | es_deleted ↦ host.double_of_int e.number
    | es_selected ↦ host.double_of_int e.number
    | _ ↦ 0
  ]

-- `EmitPlayerEventTsfn`: the function is acquired for the call. The payload on the heap, which the
-- callee or a failed call deletes, is the arguments.
unfoldable pub emit_player_event : Option ℕ → ℕ → String → ℕ → World → World
emit_player_event none handle name v w = w
emit_player_event (some t) handle name v w = emit (dropped (tsfn t)) (
    emit (did Fn.call_threadsafe_function (tsfn t) (num handle ∷ text name ∷ bits v ∷ []))
      (emit (took (tsfn t)) (emit (did Fn.acquire_threadsafe_function (tsfn t) []) w)))

module _ (host : Host) where
  -- The `default` of the switch returns.
  emit_named : Option String → ℕ → Event → World → World
  unfolding event_value
  emit_named none handle e w = w
  emit_named (some name) handle e w =
      emit_player_event (from (lookup handle w.players) (λ pe. pe.tsfn)) handle name
        (event_value host e) w

  -- The handle is the one in the box that the event was attached with. The lock is given up between
  -- the look-up and `EmitPlayerEventTsfn`; here both are one step.
  unfoldable pub on_player_event : ℕ → Event → World → World
  unfolding emit_named
  on_player_event handle e w = emit_named (event_name e.type) handle e w

  -- Whether a call of `call_js` reaches a JavaScript function, and which.
  unfoldable pub call_js : ℕ → World → Option ℕ
  call_js handle w = from (lookup handle w.players) (λ pe. pe.js_callback_ref)

-- One call for each type of the list, the first first.
unfoldable pub for_all_types : Fn → ℕ → ℕ → List EventType → World → World
for_all_types f mp box [] w = w
for_all_types f mp box (t ∷ ts) w =
    for_all_types f mp box ts (emit (did_with f (player mp) (user box) (event_type t ∷ [])) w)

module _ (host : Host) where
  -- `libvlc_media_player_event_manager`: what it answers, and the state after the call.
  unfoldable pub event_manager : ℕ → World → Option ℕ × World
  event_manager mp w = (
    host.make w.trace Fn.media_player_event_manager (ptr (some mp) ∷ []),
    emit (did Fn.media_player_event_manager (player mp) []) w,
  )

  attach_to : Option ℕ → ℕ → ℕ → World → World
  attach_to none handle mp w = w
  attach_to (some em) handle mp w =
      for_all_types Fn.event_attach mp handle attached_types
        (record (emit (took (user handle)) w) { event_users = insert handle handle w.event_users })

  unfoldable pub attach_player_events : ℕ → ℕ → World → World
  unfolding event_manager attach_to
  attach_player_events handle mp w = let (em, w₁) = event_manager mp w in attach_to em handle mp w₁

  unfoldable pub detach_from : Option ℕ → ℕ → ℕ → World → World
  detach_from none mp u w = w
  detach_from (some em) mp u w = for_all_types Fn.event_detach mp u detached_types w

  -- The callbacks are detached while the player still has them, if its box is known; then the box is
  -- deleted.
  unfoldable pub detach_all : Option ℕ → Option ℕ → World → World
  unfolding event_manager detach_from
  detach_all none box w = w
  detach_all (some mp) none w = w
  detach_all (some mp) (some u) w = let (em, w₁) = event_manager mp w in detach_from em mp u w₁

  unfoldable pub delete_box : ℕ → Option ℕ → World → World
  delete_box handle none w = w
  delete_box handle (some u) w =
      emit (dropped (user u)) (record w { event_users = erase handle w.event_users })

  unfoldable pub detach_player_events : ℕ → Option ℕ → World → World
  unfolding detach_all delete_box
  detach_player_events handle mp w =
      let box = lookup handle w.event_users in delete_box handle box (detach_all mp box w)
