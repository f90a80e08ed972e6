-- ===== src/Bridge/Events/Names.antt =====
-- The events of a player that entry/src/main/cpp/vlc_napi.cpp attaches and detaches, and the names
-- under which it passes them on: those of `MediaPlayerEvent` in entry/src/main/ets/libvlc/events.ets.
use vlc_harmony.Base.{
  ℕ, ◌+◌, ◌≡◌, refl, ap, ◌∙◌, ◌&&◌, String, Option, none, some, List, [], ◌∷◌, nat_beq, nat_eq,
  string_eq, if◌then◌else◌, arith,
}
use vlc_harmony.Base.Table.{lookup, insert, lookup-insert}
use vlc_harmony.Bridge.World.{
  EventType, playing, paused, stopped, end_reached, encountered_error, length_changed, time_changed,
  position_changed, vout, buffering, es_added, es_deleted, es_selected, other, Call, did_with, took,
  Fn, player, user, event_type, Host, World, emit,
}
use vlc_harmony.Bridge.Events.{
  event_name, attached_types, detached_types, for_all_types, event_manager, attach_to,
  attach_player_events, detach_from, detach_all, delete_box, detach_player_events,
}

number : EventType → ℕ
number playing = 0
number paused = 1
number stopped = 2
number end_reached = 3
number encountered_error = 4
number length_changed = 5
number time_changed = 6
number position_changed = 7
number vout = 8
number buffering = 9
number es_added = 10
number es_deleted = 11
number es_selected = 12
number other = 13

-- How often a type stands in a list.
unfoldable pub times : EventType → List EventType → ℕ
unfolding number
times t [] = 0
times t (s ∷ ts) = (if nat_beq (number t) (number s) then 1 else 0) + times t ts

-- The constants of the class `MediaPlayerEvent`: the text of each, and the type of event it stands for.
unfoldable pub media_player_event : List (String × EventType)
media_player_event =
    ("playing", playing)
    ∷ ("paused", paused)
    ∷ ("stopped", stopped)
    ∷ ("ended", end_reached)
    ∷ ("error", encountered_error)
    ∷ ("timeChanged", time_changed)
    ∷ ("positionChanged", position_changed)
    ∷ ("lengthChanged", length_changed)
    ∷ ("vout", vout)
    ∷ ("buffering", buffering)
    ∷ ("esAdded", es_added)
    ∷ ("esDeleted", es_deleted)
    ∷ ("esSelected", es_selected)
    ∷ []

-- ArkTS takes the name for the type.
abbrev pub IsReadAs : EventType → Option String → Type 0
IsReadAs t none = Unit {0}
IsReadAs t (some name) = lookup name media_player_event ≡ some t

abbrev pub named : Option String → ℕ
named none = 0
named (some n) = 1

-- How often libVLC was asked to call back for events of a type of a player, and to stop that.
unfoldable pub attaches : ℕ → EventType → List Call → ℕ
unfolding number
attaches mp t [] = 0
attaches mp t (did_with Fn.event_attach (player p) s (event_type u ∷ []) ∷ tr) =
    (if nat_beq mp p && nat_beq (number t) (number u) then 1 else 0) + attaches mp t tr
attaches mp t (c ∷ tr) = attaches mp t tr

unfoldable pub detaches : ℕ → EventType → List Call → ℕ
unfolding number
detaches mp t [] = 0
detaches mp t (did_with Fn.event_detach (player p) s (event_type u ∷ []) ∷ tr) =
    (if nat_beq mp p && nat_beq (number t) (number u) then 1 else 0) + detaches mp t tr
detaches mp t (c ∷ tr) = detaches mp t tr

attaches-for_all :
    (mp box : ℕ) (t : EventType) (ts : List EventType) (w : World)
    → attaches mp t (for_all_types Fn.event_attach mp box ts w).trace
      ≡ times t ts + attaches mp t w.trace
unfolding for_all_types attaches times
attaches-for_all mp box t [] w = omega arith
attaches-for_all mp box t (u ∷ ts) w = ground (
  arith,
  nat_eq.beq_iff mp mp,
  attaches-for_all mp box t ts
      (emit (did_with Fn.event_attach (player mp) (user box) (event_type u ∷ [])) w),
)

detaches-for_all :
    (mp box : ℕ) (t : EventType) (ts : List EventType) (w : World)
    → detaches mp t (for_all_types Fn.event_detach mp box ts w).trace
      ≡ times t ts + detaches mp t w.trace
unfolding for_all_types detaches times
detaches-for_all mp box t [] w = omega arith
detaches-for_all mp box t (u ∷ ts) w = ground (
  arith,
  nat_eq.beq_iff mp mp,
  detaches-for_all mp box t ts
      (emit (did_with Fn.event_detach (player mp) (user box) (event_type u ∷ [])) w),
)

detaches-attached :
    (mp box : ℕ) (t : EventType) (ts : List EventType) (w : World)
    → detaches mp t (for_all_types Fn.event_attach mp box ts w).trace ≡ detaches mp t w.trace
unfolding for_all_types detaches
detaches-attached mp box t [] w = refl
detaches-attached mp box t (u ∷ ts) w =
    detaches-attached mp box t ts
      (emit (did_with Fn.event_attach (player mp) (user box) (event_type u ∷ [])) w)

boxes-for_all :
    (f : Fn) (mp box : ℕ) (ts : List EventType) (w : World)
    → (for_all_types f mp box ts w).event_users ≡ w.event_users
unfolding for_all_types
boxes-for_all f mp box [] w = refl
boxes-for_all f mp box (u ∷ ts) w =
    boxes-for_all f mp box ts (emit (did_with f (player mp) (user box) (event_type u ∷ [])) w)

name-IsReadAs : (t : EventType) → IsReadAs t (event_name t)
unfolding event_name media_player_event lookup
name-IsReadAs playing = refl
name-IsReadAs paused = refl
name-IsReadAs stopped = refl
name-IsReadAs end_reached = refl
name-IsReadAs encountered_error = refl
name-IsReadAs length_changed = refl
name-IsReadAs time_changed = refl
name-IsReadAs position_changed = refl
name-IsReadAs vout = refl
name-IsReadAs buffering = refl
name-IsReadAs es_added = refl
name-IsReadAs es_deleted = refl
name-IsReadAs es_selected = refl
name-IsReadAs other = tt

attached-named : (t : EventType) → times t attached_types ≡ named (event_name t)
unfolding times attached_types event_name
attached-named playing = refl
attached-named paused = refl
attached-named stopped = refl
attached-named end_reached = refl
attached-named encountered_error = refl
attached-named length_changed = refl
attached-named time_changed = refl
attached-named position_changed = refl
attached-named vout = refl
attached-named buffering = refl
attached-named es_added = refl
attached-named es_deleted = refl
attached-named es_selected = refl
attached-named other = refl

detached-named : (t : EventType) → times t detached_types ≡ named (event_name t)
unfolding times detached_types event_name
detached-named playing = refl
detached-named paused = refl
detached-named stopped = refl
detached-named end_reached = refl
detached-named encountered_error = refl
detached-named length_changed = refl
detached-named time_changed = refl
detached-named position_changed = refl
detached-named vout = refl
detached-named buffering = refl
detached-named es_added = refl
detached-named es_deleted = refl
detached-named es_selected = refl
detached-named other = refl

module _ (host : Host) where
  box-detaches :
      (h mp em : ℕ) (t : EventType) (w : World) (o : Option ℕ)
      → o ≡ some h
      → (event_manager host mp w).0 ≡ some em
      → detaches mp t (delete_box host h o (detach_all host (some mp) o w)).trace
        ≡ named (event_name t) + detaches mp t w.trace
  unfolding detach_all detach_from delete_box event_manager detaches
  box-detaches h mp em t w o is some_em =
      rw (is, some_em)
        (detaches-for_all mp h t detached_types (event_manager host mp w).1
          ∙ ap (λ n. n + detaches mp t w.trace) (detached-named t))

  attached :
      (h mp em : ℕ) (t : EventType) (w : World)
      → (event_manager host mp w).0 ≡ some em
      → let w₁ = attach_player_events host h mp w in
        (attaches mp t w₁.trace ≡ named (event_name t) + attaches mp t w.trace)
        × (lookup h w₁.event_users ≡ some h)
        × (detaches mp t w₁.trace ≡ detaches mp t w.trace)
  unfolding attach_player_events attach_to event_manager attaches detaches
  attached h mp em t w found =
      let w₀ = emit (took (user h)) (event_manager host mp w).1 in
      let w₁ : World = record w₀ { event_users = insert h h w.event_users } in
      rw found (
        attaches-for_all mp h t attached_types w₁
            ∙ ap (λ n. n + attaches mp t w.trace) (attached-named t),
        ap (lookup h) (boxes-for_all Fn.event_attach mp h attached_types w₁)
            ∙ ground (arith, lookup-insert h h h w.event_users),
        detaches-attached mp h t attached_types w₁,
      )

  -- Where libVLC gives an event manager both times, `AttachPlayerEventsLocked` asks once for the
  -- events of each type that the switch of `on_player_event` has a name for, and for those of no other
  -- type, `DetachPlayerEventsLocked` behind it takes each back once and no other, and the name is the
  -- one that `MediaPlayerEvent` of ArkTS has for that type.
  pub player_events-paired :
      (h mp em em' : ℕ) (t : EventType) (w : World)
      → (event_manager host mp w).0 ≡ some em
      → (event_manager host mp (attach_player_events host h mp w)).0 ≡ some em'
      → let w₁ = attach_player_events host h mp w in
        let w₂ = detach_player_events host h (some mp) w₁ in
        (attaches mp t w₁.trace ≡ named (event_name t) + attaches mp t w.trace)
        × (detaches mp t w₂.trace ≡ named (event_name t) + detaches mp t w.trace)
        × IsReadAs t (event_name t)
  unfolding attach_player_events detach_player_events
  player_events-paired h mp em em' t w first second =
      let (a, b, d) = attached h mp em t w first in
      (
        a,
        box-detaches h mp em' t _ _ b second ∙ ap (λ n. named (event_name t) + n) d,
        name-IsReadAs t,
      )
