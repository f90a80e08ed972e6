-- ===== src/Xcomponent.antt =====
-- entry/src/main/cpp/xcomponent_manager.{h,cpp}: the surfaces of the app's XComponents, by their ids.
-- Components and windows are addresses, a null window is `none`. What the platform answers (the id
-- and the size of a component, the result of a registration) is an argument. A callback of the
-- platform returns the manager and the call of the stored function pointer that it makes, if any;
-- the bridge makes that call (`Bridge.Windows`).
pub mod History
mod Tests
use vlc_harmony.Base.{
  ℕ, ◌+◌, ◌%◌, ◌^◌, String, Bool, true, false, ◌||◌, Option, none, some, List, [], ◌∷◌, ℤ, nat_beq,
  if◌then◌else◌, string_eq,
}
use vlc_harmony.Base.Table.{lookup, insert, erase}

pub record Manager : Type 0 where
  pub components : List (String × ℕ)
  pub windows : List (String × Option ℕ)
  pub generations : List (String × ℕ)
  pub ready_set : Bool
  pub destroyed_set : Bool

abbrev pub empty : Manager
empty = record {
  components = [];
  windows = [];
  generations = [];
  ready_set = false;
  destroyed_set = false;
}

abbrev pub generation_mod : ℕ
generation_mod = 2 ^ 64

-- `SetSurfaceReadyCallback` and `SetSurfaceDestroyedCallback`: the bridge sets each to its one
-- function.
unfoldable pub set_surface_ready_callback : Manager → Manager
set_surface_ready_callback m = record m { ready_set = true }

unfoldable pub set_surface_destroyed_callback : Manager → Manager
set_surface_destroyed_callback m = record m { destroyed_set = true }

unfoldable pub add_native_xcomponent : String → ℕ → Manager → Manager
add_native_xcomponent id component m = record m { components = insert id component m.components }

-- `RegisterCallback(id)`: -1 for an unknown id, else what the platform answers for the component.
pub register_callback : (ℕ → ℤ) → String → Manager → ℤ
register_callback platform id m = elim (lookup id m.components) [
  | none ↦ ℤ.negsuc 0
  | some component ↦ platform component
]

pub get_native_xcomponent : String → Manager → Option ℕ
get_native_xcomponent id m = lookup id m.components

abbrev or_zero : Option ℕ → ℕ
or_zero none = 0
or_zero (some n) = n

abbrev or_null : Option (Option ℕ) → Option ℕ
or_null none = none
or_null (some win) = win

abbrev is_found {ℓ} : {A : Type ℓ} → Option A → Bool
is_found none = false
is_found (some a) = true

unfoldable pub get_surface_generation : String → Manager → ℕ
get_surface_generation id m = or_zero (lookup id m.generations)

unfoldable pub get_native_window : String → Manager → Option ℕ
get_native_window id m = or_null (lookup id m.windows)

unfoldable pub has_native_window : String → Manager → Bool
has_native_window id m = is_found (lookup id m.windows)

-- `surfaceGenerationMap_[id]` makes an entry 0 where there is none, and is then counted up.
pub next_generation : Bool → ℕ → ℕ
next_generation new_surface generation =
    if new_surface || nat_beq generation 0 then (generation + 1) % generation_mod else generation

unfoldable pub add_native_window : String → Option ℕ → Bool → Manager → ℕ × Manager
unfolding next_generation
add_native_window id win new_surface m =
    let generation = next_generation new_surface (get_surface_generation id m) in
    (
      generation,
      record m {
        generations = insert id generation m.generations;
        windows = insert id win m.windows;
      },
    )

unfoldable pub release_window : String → Manager → Manager
release_window id m = record m { windows = erase id m.windows }

-- A call of the function that `SetSurfaceReadyCallback` stored.
pub record Ready : Type 0 where
  pub id : String
  pub win : Option ℕ
  pub generation : ℕ
  pub width : ℕ
  pub height : ℕ

abbrev pub side : (ℕ × ℕ → ℕ) → Option (ℕ × ℕ) → ℕ
side f none = 0
side f (some s) = f s

abbrev ready_call : String → Option ℕ → Option (ℕ × ℕ) → ℕ × Manager → Option Ready
ready_call id win size (generation, m) =
    if m.ready_set
    then some (record {
      id = id;
      win = win;
      generation = generation;
      width = side (λ s. s.0) size;
      height = side (λ s. s.1) size;
    })
    else none

abbrev new_surface : String → Option ℕ → Option (ℕ × ℕ) → Manager → Manager × Option Ready
new_surface id win size m =
    let added = add_native_window id win true m in (added.1, ready_call id win size added)

-- `OnSurfaceCreatedCB`; no id is a failure of `GetXComponentId`.
unfoldable pub on_surface_created :
    Option String → Option ℕ → Option (ℕ × ℕ) → Manager → Manager × Option Ready
on_surface_created none win size m = (m, none)
on_surface_created (some id) win size m = new_surface id win size m

-- `OnSurfaceChangedCB`: a null window is passed over.
unfoldable pub on_surface_changed :
    Option String → Option ℕ → Option (ℕ × ℕ) → Manager → Manager × Option Ready
on_surface_changed (some id) (some win) size m = new_surface id (some win) size m
on_surface_changed none win size m = (m, none)
on_surface_changed (some id) none size m = (m, none)

-- `OnSurfaceDestroyedCB`: the call comes first, then the window is dropped.
unfoldable pub on_surface_destroyed : Option String → Manager → Manager × Option String
on_surface_destroyed none m = (m, none)
on_surface_destroyed (some id) m = (release_window id m, if m.destroyed_set then some id else none)
