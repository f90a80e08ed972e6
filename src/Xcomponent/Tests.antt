-- ===== src/Xcomponent/Tests.antt =====
-- The theorems on the surface manager at concrete inputs.
use vlc_harmony.Base.{◌≡◌, refl, string_eq, none, some, List, [], ◌∷◌, arith}
use vlc_harmony.Xcomponent.{
  or_null, is_found, get_surface_generation, get_native_window, has_native_window,
}
use vlc_harmony.Xcomponent.History.{
  Callback, created, changed, destroyed, run, reports, newest, run-generation, run-window,
}

-- Created, rotated, destroyed, and created again; another surface in between. The newest first.
abbrev rotations : List Callback
rotations =
    created (some "video") (some 30) (some (1920, 1080))
    ∷ destroyed (some "video")
    ∷ changed (some "video") (some 20) (some (1080, 1920))
    ∷ created (some "osd") (some 25) none
    ∷ created (some "video") (some 20) (some (1920, 1080))
    ∷ []

run-generation_example : get_surface_generation "video" (run rotations) ≡ reports "video" rotations
run-generation_example = run-generation "video" rotations (omega arith)

run-window_example :
    (get_native_window "video" (run rotations) ≡ or_null (newest "video" rotations))
    × (has_native_window "video" (run rotations) ≡ is_found (newest "video" rotations))
run-window_example = run-window "video" rotations

three_surfaces : reports "video" rotations ≡ 3
three_surfaces = refl
