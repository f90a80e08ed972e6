-- ===== src/Bridge/Logs.antt =====
-- The logs of entry/src/main/cpp/vlc_napi.cpp: which lines of libVLC and of FFmpeg are passed over, go
-- to the queue of playback_diagnostics.h, or straight to the system log, and the switch for it.
pub mod Filter
pub mod Safety
use vlc_harmony.Base.{
  ℕ, String, Bool, true, false, ◌&&◌, ◌||◌, not, Option, none, some, List, [], ◌∷◌, ltb, leb,
  nat_beq, if◌then◌else◌,
}
use text.Mathlib.Text.{starts_with, find?}
use vlc_harmony.Diagnostics
use vlc_harmony.Bridge.World.{
  Fn, num, flag, free_call, Host, World, Ret, undefined, type_error, emit, from,
}

-- `LIBVLC_DEBUG`, `LIBVLC_WARNING`, `LIBVLC_ERROR`
abbrev pub debug_level : ℕ
debug_level = 0

abbrev pub warning_level : ℕ
warning_level = 3

abbrev pub error_level : ℕ
error_level = 4

-- The levels of the system log.
pub data SystemLevel : Type 0 where
  debug info warn error : SystemLevel

-- What becomes of a line.
pub data Fate : Type 0 where
  passed_over : Fate
  submitted : ℕ → String → Fate
  logged : SystemLevel → String → Fate

-- `DiagnosticSink`
unfoldable pub sink_level : ℕ → SystemLevel
sink_level level =
    if leb error_level level then error else if leb warning_level level then warn else info

abbrev pub is_some {ℓ} : {A : Type ℓ} → Option A → Bool
is_some none = false
is_some (some a) = true

-- `fmt && std::strstr(fmt, text)`
abbrev pub contains : Option String → String → Bool
contains none text = false
contains (some fmt) text = is_some (find? fmt text)

-- `fmt && std::strncmp(fmt, text, strlen(text)) == 0`
abbrev pub begins : Option String → String → Bool
begins none text = false
begins (some fmt) text = starts_with fmt text

direct_level : ℕ → SystemLevel
direct_level level =
    if leb error_level level
    then error
    else if nat_beq level warning_level
    then warn
    else if nat_beq level debug_level
    then debug
    else info

-- `OnLibvlcLog`; `message` is what `vsnprintf` makes of the format. The levels of libVLC are 0 to 4.
unfoldable pub on_libvlc_log : Bool → ℕ → Option String → String → Fate
unfolding direct_level
on_libvlc_log trace level fmt message =
    if not trace && ltb level warning_level
    then passed_over
    else if not trace && contains fmt "[OHSurfaceTiming]"
    then passed_over
    else if nat_beq level debug_level && begins fmt "[OHOS-DBG]"
    then passed_over
    else if trace
    then submitted level message
    else logged (direct_level level) message

-- `OnFfmpegLog`, whose levels fall as the lines matter more. Lines have no negative level.
unfoldable pub on_ffmpeg_log : Bool → ℕ → String → Fate
on_ffmpeg_log enabled level message =
    if not enabled || ltb 48 level
    then passed_over
    else submitted
        (if leb level 16 then error_level else if leb level 24 then warning_level else debug_level)
        message

module _ (host : Host) where
  -- `ConfigureFfmpegTrace`, if FFmpeg is there with its three functions.
  unfoldable pub configure_ffmpeg_trace : Bool → World → World
  configure_ffmpeg_trace enabled w =
      if host.resolves Fn.av_log_set_callback
        && host.resolves Fn.av_log_default_callback
        && host.resolves Fn.av_log_set_level
      then emit (free_call Fn.av_log_set_level (num (if enabled then 48 else 24) ∷ []))
          (emit (free_call Fn.av_log_set_callback (flag enabled ∷ [])) w)
      else w

  -- There must be one argument, and it a `boolean`.
  abbrev switch_of : List ℕ → Option Bool
  switch_of (v ∷ []) = host.get_bool v
  switch_of _ = none

  abbrev switched : Option Bool → World → Ret × World
  switched none w = (type_error "Expected diagnostic switch boolean", w)
  switched (some enabled) w = (
    undefined,
    configure_ffmpeg_trace enabled (record w {
      diagnostics = Diagnostics.set_enabled enabled (host.now w.trace) w.diagnostics;
    }),
  )

  unfoldable pub set_playback_diagnostics : List ℕ → World → Ret × World
  unfolding configure_ffmpeg_trace
  set_playback_diagnostics args w = switched (switch_of args) w
