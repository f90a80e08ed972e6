-- ===== src/Bridge/Api/Refusal/Control.antt =====
-- The setters and getters of a player in entry/src/main/cpp/vlc_napi.cpp refuse a
-- handle that stands for no entry.
use vlc_harmony.Base.{ℕ, ◌≡◌, refl, some, List, false, ap, ◌∙◌, arith}
use vlc_harmony.Bridge.World.{Host, World, need}
use vlc_harmony.Bridge.Calls.{u32_at, both, i32_at, bool_at}
use vlc_harmony.Bridge.Calls.Safety.{need_any}
use vlc_harmony.Bridge.Control.{
  get_int, get_real, get_rows, media_player_add_slave, media_player_clear_equalizer,
  media_player_clear_renderer, media_player_get_audio_delay, media_player_get_audio_track,
  media_player_get_audio_tracks, media_player_get_chapter, media_player_get_chapters,
  media_player_get_fps, media_player_get_length, media_player_get_position, media_player_get_rate,
  media_player_get_spu_delay, media_player_get_spu_track, media_player_get_spu_tracks,
  media_player_get_state, media_player_get_time, media_player_get_video_size,
  media_player_get_video_track, media_player_get_video_tracks, media_player_get_volume,
  media_player_pause, media_player_set_aspect_ratio, media_player_set_audio_delay,
  media_player_set_audio_track, media_player_set_chapter, media_player_set_equalizer,
  media_player_set_rate, media_player_set_renderer, media_player_set_scale,
  media_player_set_spu_delay, media_player_set_spu_track, media_player_set_video_track,
  media_player_set_video_vrr_allowed, media_player_set_volume,
}
use vlc_harmony.Bridge.Api.Refusal.{
  IsStale, both-first, player_of-Finds, refuse_alone, refuse_along, u32_at-dead,
}
use vlc_harmony.Bridge.Control.{optional, slave_args}
use vlc_harmony.Base.{Option-cases, inl, inr, nat_eq}
use vlc_harmony.Base.Table.{lookup}
use vlc_harmony.Bridge.World.{Fn, value, flag, renderer_of, from}
use vlc_harmony.Bridge.Calls.{on_player}
use vlc_harmony.Bridge.Api.Refusal.{on_player-refuses}

module _ (host : Host) (args : List ℕ) (w : World) (stale : IsStale host args w) where
  pub media_player_pause-refuses : (media_player_pause host args w).1 ≡ w
  unfolding media_player_pause
  media_player_pause-refuses = refuse_along host args w stale 1 _ _ _ _ _

  pub media_player_get_time-refuses : (media_player_get_time host args w).1 ≡ w
  unfolding media_player_get_time get_int
  media_player_get_time-refuses = refuse_alone host args w stale 1 _ _ _

  pub media_player_get_length-refuses : (media_player_get_length host args w).1 ≡ w
  unfolding media_player_get_length get_int
  media_player_get_length-refuses = refuse_alone host args w stale 1 _ _ _

  pub media_player_set_rate-refuses : (media_player_set_rate host args w).1 ≡ w
  unfolding media_player_set_rate
  media_player_set_rate-refuses = refuse_along host args w stale 2 _ _ _ _ _

  pub media_player_set_video_vrr_allowed-refuses :
      (media_player_set_video_vrr_allowed host args w).1 ≡ w
  unfolding media_player_set_video_vrr_allowed need
  media_player_set_video_vrr_allowed-refuses =
      need_any (λ u. u ≡ w) (both (u32_at host 2 0 args) (bool_at host 2 1 args))
        (value (flag false), w) _ refl
        λ a e.
          need_any (λ u. u ≡ w) (optional host Fn.media_player_set_ohos_video_vrr_allowed)
            (value (flag false), w) _ refl
            λ _ _.
              rw
                (player_of-Finds w a.0 (
                  u32_at-dead host args w stale 2 a.0
                    (both-first (u32_at host 2 0 args) (bool_at host 2 1 args) a e)))
                refl

  pub media_player_get_rate-refuses : (media_player_get_rate host args w).1 ≡ w
  unfolding media_player_get_rate get_real
  media_player_get_rate-refuses = refuse_alone host args w stale 1 _ _ _

  pub media_player_set_volume-refuses : (media_player_set_volume host args w).1 ≡ w
  unfolding media_player_set_volume
  media_player_set_volume-refuses = refuse_along host args w stale 2 _ _ _ _ _

  pub media_player_get_volume-refuses : (media_player_get_volume host args w).1 ≡ w
  unfolding media_player_get_volume get_int
  media_player_get_volume-refuses = refuse_alone host args w stale 1 _ _ _

  pub media_player_get_state-refuses : (media_player_get_state host args w).1 ≡ w
  unfolding media_player_get_state get_int
  media_player_get_state-refuses = refuse_alone host args w stale 1 _ _ _

  pub media_player_get_position-refuses : (media_player_get_position host args w).1 ≡ w
  unfolding media_player_get_position get_real
  media_player_get_position-refuses = refuse_alone host args w stale 1 _ _ _

  pub media_player_get_video_size-refuses : (media_player_get_video_size host args w).1 ≡ w
  unfolding media_player_get_video_size
  media_player_get_video_size-refuses = refuse_alone host args w stale 1 _ _ _

  pub media_player_get_fps-refuses : (media_player_get_fps host args w).1 ≡ w
  unfolding media_player_get_fps get_real
  media_player_get_fps-refuses = refuse_alone host args w stale 1 _ _ _

  pub media_player_set_scale-refuses : (media_player_set_scale host args w).1 ≡ w
  unfolding media_player_set_scale
  media_player_set_scale-refuses = refuse_along host args w stale 2 _ _ _ _ _

  pub media_player_set_aspect_ratio-refuses : (media_player_set_aspect_ratio host args w).1 ≡ w
  unfolding media_player_set_aspect_ratio
  media_player_set_aspect_ratio-refuses = refuse_along host args w stale 2 _ _ _ _ _

  pub media_player_add_slave-refuses : (media_player_add_slave host args w).1 ≡ w
  unfolding media_player_add_slave
  media_player_add_slave-refuses =
      on_player-refuses host args w stale (slave_args host args) _ _ _ λ a e.
        elim (Option-cases (both (u32_at host 3 0 args) (i32_at host 3 1 args))) [
          | inl c ↦ ground (arith, rw (slave_args, c) at e)
          | inr (b, c) ↦ u32_at-dead host args w stale 3 a.0 (
              both-first (u32_at host 3 0 args) (i32_at host 3 1 args) b c
              ∙ ap (λ q. from q λ d. some d.0) (rw (slave_args, c) at e))
        ]

  pub media_player_get_audio_tracks-refuses : (media_player_get_audio_tracks host args w).1 ≡ w
  unfolding media_player_get_audio_tracks get_rows
  media_player_get_audio_tracks-refuses = refuse_alone host args w stale 1 _ _ _

  pub media_player_get_spu_tracks-refuses : (media_player_get_spu_tracks host args w).1 ≡ w
  unfolding media_player_get_spu_tracks get_rows
  media_player_get_spu_tracks-refuses = refuse_alone host args w stale 1 _ _ _

  pub media_player_get_video_tracks-refuses : (media_player_get_video_tracks host args w).1 ≡ w
  unfolding media_player_get_video_tracks get_rows
  media_player_get_video_tracks-refuses = refuse_alone host args w stale 1 _ _ _

  pub media_player_get_audio_track-refuses : (media_player_get_audio_track host args w).1 ≡ w
  unfolding media_player_get_audio_track get_int
  media_player_get_audio_track-refuses = refuse_alone host args w stale 1 _ _ _

  pub media_player_get_spu_track-refuses : (media_player_get_spu_track host args w).1 ≡ w
  unfolding media_player_get_spu_track get_int
  media_player_get_spu_track-refuses = refuse_alone host args w stale 1 _ _ _

  pub media_player_get_video_track-refuses : (media_player_get_video_track host args w).1 ≡ w
  unfolding media_player_get_video_track get_int
  media_player_get_video_track-refuses = refuse_alone host args w stale 1 _ _ _

  pub media_player_set_audio_track-refuses : (media_player_set_audio_track host args w).1 ≡ w
  unfolding media_player_set_audio_track
  media_player_set_audio_track-refuses = refuse_along host args w stale 2 _ _ _ _ _

  pub media_player_set_spu_track-refuses : (media_player_set_spu_track host args w).1 ≡ w
  unfolding media_player_set_spu_track
  media_player_set_spu_track-refuses = refuse_along host args w stale 2 _ _ _ _ _

  pub media_player_set_video_track-refuses : (media_player_set_video_track host args w).1 ≡ w
  unfolding media_player_set_video_track
  media_player_set_video_track-refuses = refuse_along host args w stale 2 _ _ _ _ _

  pub media_player_set_spu_delay-refuses : (media_player_set_spu_delay host args w).1 ≡ w
  unfolding media_player_set_spu_delay
  media_player_set_spu_delay-refuses = refuse_along host args w stale 2 _ _ _ _ _

  pub media_player_get_spu_delay-refuses : (media_player_get_spu_delay host args w).1 ≡ w
  unfolding media_player_get_spu_delay get_int
  media_player_get_spu_delay-refuses = refuse_alone host args w stale 1 _ _ _

  pub media_player_set_audio_delay-refuses : (media_player_set_audio_delay host args w).1 ≡ w
  unfolding media_player_set_audio_delay
  media_player_set_audio_delay-refuses = refuse_along host args w stale 2 _ _ _ _ _

  pub media_player_get_audio_delay-refuses : (media_player_get_audio_delay host args w).1 ≡ w
  unfolding media_player_get_audio_delay get_int
  media_player_get_audio_delay-refuses = refuse_alone host args w stale 1 _ _ _

  pub media_player_get_chapters-refuses : (media_player_get_chapters host args w).1 ≡ w
  unfolding media_player_get_chapters
  media_player_get_chapters-refuses = refuse_along host args w stale 1 _ _ _ _ _

  pub media_player_get_chapter-refuses : (media_player_get_chapter host args w).1 ≡ w
  unfolding media_player_get_chapter get_int
  media_player_get_chapter-refuses = refuse_alone host args w stale 1 _ _ _

  pub media_player_set_chapter-refuses : (media_player_set_chapter host args w).1 ≡ w
  unfolding media_player_set_chapter
  media_player_set_chapter-refuses = refuse_along host args w stale 2 _ _ _ _ _

  pub media_player_set_renderer-refuses : (media_player_set_renderer host args w).1 ≡ w
  unfolding media_player_set_renderer need on_player
  media_player_set_renderer-refuses =
      need_any (λ u. u ≡ w) (both (u32_at host 2 0 args) (u32_at host 2 1 args))
        (value (flag false), w) _ refl
        λ a e.
          need_any (λ u. u ≡ w) (renderer_of a.1 w) (value (flag false), w) _ refl
            λ item _.
              rw
                (player_of-Finds w a.0 (
                  u32_at-dead host args w stale 2 a.0
                    (both-first (u32_at host 2 0 args) (u32_at host 2 1 args) a e)))
                refl

  pub media_player_clear_renderer-refuses : (media_player_clear_renderer host args w).1 ≡ w
  unfolding media_player_clear_renderer
  media_player_clear_renderer-refuses = refuse_along host args w stale 1 _ _ _ _ _

  pub media_player_set_equalizer-refuses : (media_player_set_equalizer host args w).1 ≡ w
  unfolding media_player_set_equalizer need on_player
  media_player_set_equalizer-refuses =
      need_any (λ u. u ≡ w) (both (u32_at host 2 0 args) (u32_at host 2 1 args))
        (value (flag false), w) _ refl
        λ a e.
          need_any (λ u. u ≡ w) (lookup a.1 w.eqs) (value (flag false), w) _ refl
            λ eq _.
              rw
                (player_of-Finds w a.0 (
                  u32_at-dead host args w stale 2 a.0
                    (both-first (u32_at host 2 0 args) (u32_at host 2 1 args) a e)))
                refl

  pub media_player_clear_equalizer-refuses : (media_player_clear_equalizer host args w).1 ≡ w
  unfolding media_player_clear_equalizer
  media_player_clear_equalizer-refuses = refuse_along host args w stale 1 _ _ _ _ _
