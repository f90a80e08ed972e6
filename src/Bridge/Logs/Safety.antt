-- ===== src/Bridge/Logs/Safety.antt =====
-- The log switch of entry/src/main/cpp/vlc_napi.cpp keeps the account of references.
use vlc_harmony.Base.{
  ℕ, ◌≡◌, refl, ◌&&◌, Bool, Bool-cases, Option, none, some, inl, inr, List, arith,
}
use vlc_harmony.Diagnostics
use vlc_harmony.Bridge.World.{Ref, Fn, Host, World}
use vlc_harmony.Bridge.Ledger.{Dead, Inv, InvOf}
use vlc_harmony.Bridge.Ledger.Moves.{diagnostics-Inv}
use vlc_harmony.Bridge.Calls.Safety.{Good, Keeps, unchanged}
use vlc_harmony.Bridge.Calls.Stored.{free_call-Inv}
use vlc_harmony.Bridge.Logs.{configure_ffmpeg_trace, switch_of, switched, set_playback_diagnostics}

module _ ⦃dead : Dead⦄ where
  module _ (host : Host) where
    pub configure_ffmpeg_trace-Inv :
        (x : Ref → ℕ) (enabled : Bool) (w : World)
        → InvOf x w
        → InvOf x (configure_ffmpeg_trace host enabled w)
          × ((configure_ffmpeg_trace host enabled w).next_handle ≡ w.next_handle)
    unfolding configure_ffmpeg_trace
    configure_ffmpeg_trace-Inv x enabled w v =
        elim (Bool-cases (
          host.resolves Fn.av_log_set_callback
          && host.resolves Fn.av_log_default_callback
          && host.resolves Fn.av_log_set_level)) [
            | inl h ↦ rw h (free_call-Inv x _ _ _ (free_call-Inv x w _ _ v), refl)
            | inr h ↦ rw h (v, refl)
          ]

    switched-Good : (o : Option Bool) (w : World) → Inv w → Good w (switched host o w).1
    switched-Good none w v = unchanged w v
    switched-Good (some enabled) w v =
        let (v₁, n) =
          configure_ffmpeg_trace-Inv (λ _. 0) enabled _
            (diagnostics-Inv (λ _. 0) w
              (Diagnostics.set_enabled enabled (host.now w.trace) w.diagnostics) v) in
        (v₁, omega (arith, n))

    pub set_playback_diagnostics-Keeps :
        (args : List ℕ) → Keeps (set_playback_diagnostics host args)
    unfolding set_playback_diagnostics
    set_playback_diagnostics-Keeps args w v room = switched-Good (switch_of host args) w v
