-- ===== src/Bridge/Logs/Filter.antt =====
-- What `OnLibvlcLog` of entry/src/main/cpp/vlc_napi.cpp lets through, with the trace off and on.
use vlc_harmony.Base.{
  ℕ, ◌≡◌, refl, String, true, false, ◌&&◌, ◌||◌, Option, ltb, nat_beq, if◌then◌else◌, arith,
}
use vlc_harmony.Bridge.Logs.{
  passed_over, submitted, logged, contains, begins, sink_level, direct_level, on_libvlc_log,
  warning_level, debug_level,
}

-- With the trace off exactly the lines below a warning and the timing lines of the surface are
-- passed over, and every other one is logged at the level at which the queue of the diagnostics
-- would write it; the pointer dumps, which are debug lines, need no test of their own. With the
-- trace on exactly the pointer dumps are passed over, and every other line is submitted.
pub on_libvlc_log-filters :
    (level : ℕ) (fmt : Option String) (message : String)
    → (on_libvlc_log false level fmt message ≡ (
        if ltb level warning_level || contains fmt "[OHSurfaceTiming]"
        then passed_over
        else logged (sink_level level) message))
      × (on_libvlc_log true level fmt message ≡ (
          if nat_beq level debug_level && begins fmt "[OHOS-DBG]"
          then passed_over
          else submitted level message))
unfolding on_libvlc_log direct_level sink_level
on_libvlc_log-filters level fmt message = (ground arith, refl)
