-- ===== src/Bridge/Run/Screens.antt =====
-- The screen of a player of the native module of entry/src/main/cpp/vlc_napi.cpp while its surface is
-- rotated, taken away and given back.
use vlc_harmony.Base.{refl, false, none, some, List, [], ◌∷◌, nat_eq, string_eq}
use vlc_harmony.Base.Table.{lookup}
use vlc_harmony.Xcomponent.{get_native_window}
use vlc_harmony.Bridge.Surfaces.Screen.{Screen, Refines}
use vlc_harmony.Bridge.Surfaces.Refinement.{
  Input, window_comes, window_goes, output_chosen, starts, screen_run, module_run, run-Refines,
}
use vlc_harmony.Bridge.Run.Tests.{host}
use vlc_harmony.Bridge.Run.Scenes.{waiting, placed}

abbrev dark : Screen
dark = record { out = "text"; bound = false; windows = λ id. none; shown = none }

abbrev inputs : List Input
inputs =
    window_comes "text" (some 77) (some (1080, 1920))
    ∷ starts
    ∷ window_comes "text" (some 77) (some (1920, 1080))
    ∷ output_chosen 8
    ∷ window_goes "text"
    ∷ window_comes "other" (some 78) none
    ∷ []

run-Refines_example : Refines 2 5 (screen_run host 2 inputs dark) (module_run host 2 inputs placed)
unfolding get_native_window lookup
run-Refines_example = run-Refines host 2 2 5 inputs dark placed refl (record {
  only = (waiting, refl, (refl, refl, refl));
  windows = λ id. refl;
  shown = refl;
  ready = refl;
  destroyed = refl;
})
