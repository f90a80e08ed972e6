-- ===== src/Bridge/Control/Safety.antt =====
-- The setters and getters of entry/src/main/cpp/vlc_napi.cpp keep the account of references.
use vlc_harmony.Base.{ℕ, ◌+◌, ◌≤◌, ◌≡◌, refl, Option, none, some, List, nat_eq, arith}
use vlc_harmony.Bridge.World.{Ref, Fn, player, Host, World, EqEntry, eq_of}
use vlc_harmony.Base.Table.{lookup}
use vlc_harmony.Bridge.Ledger.Owned.{player_of-owned, renderer_of-owned, eq_of-owned}
use vlc_harmony.Bridge.Ledger.{Dead, Inv, owners, hits, did-Inv, hits_self}
use vlc_harmony.Bridge.Ledger.Moves.{took-Inv, dropped-Inv}
use vlc_harmony.Bridge.Calls.Safety.{
  Keeps, Good, call-Good, call_with-Good, need-Good, unchanged, on_player-Keeps,
}
use vlc_harmony.Bridge.Control.{
  media_player_pause, media_player_get_time, media_player_get_length, media_player_set_rate,
  media_player_get_rate, media_player_set_volume, media_player_get_volume, media_player_get_state,
  media_player_get_position, media_player_get_fps, media_player_set_scale,
  media_player_set_aspect_ratio, media_player_add_slave, media_player_get_audio_tracks,
  media_player_get_spu_tracks, media_player_get_video_tracks, media_player_get_audio_track,
  media_player_get_spu_track, media_player_get_video_track, media_player_set_audio_track,
  media_player_set_spu_track, media_player_set_video_track, media_player_set_spu_delay,
  media_player_get_spu_delay, media_player_set_audio_delay, media_player_get_audio_delay,
  media_player_get_chapters, media_player_get_chapter, media_player_set_chapter,
  media_player_clear_renderer, media_player_clear_equalizer, media_player_get_video_size,
  media_player_set_renderer, hand_equalizer, media_player_set_equalizer,
  media_player_set_video_vrr_allowed,
}

eq_at :
    (h : ℕ) (e : EqEntry) (w : World) {p : ℕ}
    → lookup h w.eqs ≡ some e
    → e.eq ≡ some p
    → eq_of h w ≡ some p
unfolding eq_of
eq_at h e w at is = rw at is

module _ ⦃dead : Dead⦄ where
  module _ (host : Host) (args : List ℕ) where
    pub media_player_pause-Keeps : Keeps (media_player_pause host args)
    unfolding media_player_pause
    media_player_pause-Keeps = on_player-Keeps _ _ _ _

    pub media_player_get_time-Keeps : Keeps (media_player_get_time host args)
    unfolding media_player_get_time
    media_player_get_time-Keeps = on_player-Keeps _ _ _ _

    pub media_player_get_length-Keeps : Keeps (media_player_get_length host args)
    unfolding media_player_get_length
    media_player_get_length-Keeps = on_player-Keeps _ _ _ _

    pub media_player_set_rate-Keeps : Keeps (media_player_set_rate host args)
    unfolding media_player_set_rate
    media_player_set_rate-Keeps = on_player-Keeps _ _ _ _

    pub media_player_get_rate-Keeps : Keeps (media_player_get_rate host args)
    unfolding media_player_get_rate
    media_player_get_rate-Keeps = on_player-Keeps _ _ _ _

    pub media_player_set_volume-Keeps : Keeps (media_player_set_volume host args)
    unfolding media_player_set_volume
    media_player_set_volume-Keeps = on_player-Keeps _ _ _ _

    pub media_player_get_volume-Keeps : Keeps (media_player_get_volume host args)
    unfolding media_player_get_volume
    media_player_get_volume-Keeps = on_player-Keeps _ _ _ _

    pub media_player_get_state-Keeps : Keeps (media_player_get_state host args)
    unfolding media_player_get_state
    media_player_get_state-Keeps = on_player-Keeps _ _ _ _

    pub media_player_get_position-Keeps : Keeps (media_player_get_position host args)
    unfolding media_player_get_position
    media_player_get_position-Keeps = on_player-Keeps _ _ _ _

    pub media_player_get_fps-Keeps : Keeps (media_player_get_fps host args)
    unfolding media_player_get_fps
    media_player_get_fps-Keeps = on_player-Keeps _ _ _ _

    pub media_player_set_scale-Keeps : Keeps (media_player_set_scale host args)
    unfolding media_player_set_scale
    media_player_set_scale-Keeps = on_player-Keeps _ _ _ _

    pub media_player_set_aspect_ratio-Keeps : Keeps (media_player_set_aspect_ratio host args)
    unfolding media_player_set_aspect_ratio
    media_player_set_aspect_ratio-Keeps = on_player-Keeps _ _ _ _

    pub media_player_add_slave-Keeps : Keeps (media_player_add_slave host args)
    unfolding media_player_add_slave
    media_player_add_slave-Keeps = on_player-Keeps _ _ _ _

    pub media_player_get_audio_tracks-Keeps : Keeps (media_player_get_audio_tracks host args)
    unfolding media_player_get_audio_tracks
    media_player_get_audio_tracks-Keeps = on_player-Keeps _ _ _ _

    pub media_player_get_spu_tracks-Keeps : Keeps (media_player_get_spu_tracks host args)
    unfolding media_player_get_spu_tracks
    media_player_get_spu_tracks-Keeps = on_player-Keeps _ _ _ _

    pub media_player_get_video_tracks-Keeps : Keeps (media_player_get_video_tracks host args)
    unfolding media_player_get_video_tracks
    media_player_get_video_tracks-Keeps = on_player-Keeps _ _ _ _

    pub media_player_get_audio_track-Keeps : Keeps (media_player_get_audio_track host args)
    unfolding media_player_get_audio_track
    media_player_get_audio_track-Keeps = on_player-Keeps _ _ _ _

    pub media_player_get_spu_track-Keeps : Keeps (media_player_get_spu_track host args)
    unfolding media_player_get_spu_track
    media_player_get_spu_track-Keeps = on_player-Keeps _ _ _ _

    pub media_player_get_video_track-Keeps : Keeps (media_player_get_video_track host args)
    unfolding media_player_get_video_track
    media_player_get_video_track-Keeps = on_player-Keeps _ _ _ _

    pub media_player_set_audio_track-Keeps : Keeps (media_player_set_audio_track host args)
    unfolding media_player_set_audio_track
    media_player_set_audio_track-Keeps = on_player-Keeps _ _ _ _

    pub media_player_set_spu_track-Keeps : Keeps (media_player_set_spu_track host args)
    unfolding media_player_set_spu_track
    media_player_set_spu_track-Keeps = on_player-Keeps _ _ _ _

    pub media_player_set_video_track-Keeps : Keeps (media_player_set_video_track host args)
    unfolding media_player_set_video_track
    media_player_set_video_track-Keeps = on_player-Keeps _ _ _ _

    pub media_player_set_spu_delay-Keeps : Keeps (media_player_set_spu_delay host args)
    unfolding media_player_set_spu_delay
    media_player_set_spu_delay-Keeps = on_player-Keeps _ _ _ _

    pub media_player_get_spu_delay-Keeps : Keeps (media_player_get_spu_delay host args)
    unfolding media_player_get_spu_delay
    media_player_get_spu_delay-Keeps = on_player-Keeps _ _ _ _

    pub media_player_set_audio_delay-Keeps : Keeps (media_player_set_audio_delay host args)
    unfolding media_player_set_audio_delay
    media_player_set_audio_delay-Keeps = on_player-Keeps _ _ _ _

    pub media_player_get_audio_delay-Keeps : Keeps (media_player_get_audio_delay host args)
    unfolding media_player_get_audio_delay
    media_player_get_audio_delay-Keeps = on_player-Keeps _ _ _ _

    pub media_player_get_chapters-Keeps : Keeps (media_player_get_chapters host args)
    unfolding media_player_get_chapters
    media_player_get_chapters-Keeps = on_player-Keeps _ _ _ _

    pub media_player_get_chapter-Keeps : Keeps (media_player_get_chapter host args)
    unfolding media_player_get_chapter
    media_player_get_chapter-Keeps = on_player-Keeps _ _ _ _

    pub media_player_set_chapter-Keeps : Keeps (media_player_set_chapter host args)
    unfolding media_player_set_chapter
    media_player_set_chapter-Keeps = on_player-Keeps _ _ _ _

    pub media_player_clear_renderer-Keeps : Keeps (media_player_clear_renderer host args)
    unfolding media_player_clear_renderer
    media_player_clear_renderer-Keeps = on_player-Keeps _ _ _ _

    pub media_player_clear_equalizer-Keeps : Keeps (media_player_clear_equalizer host args)
    unfolding media_player_clear_equalizer
    media_player_clear_equalizer-Keeps = on_player-Keeps _ _ _ _

    pub media_player_get_video_size-Keeps : Keeps (media_player_get_video_size host args)
    unfolding media_player_get_video_size
    media_player_get_video_size-Keeps = on_player-Keeps _ _ _ _

    pub media_player_set_renderer-Keeps : Keeps (media_player_set_renderer host args)
    unfolding media_player_set_renderer
    media_player_set_renderer-Keeps w v room = need-Good w _ _ _ (unchanged w v) λ a e.
        need-Good w _ _ _ (unchanged w v) λ item at. need-Good w _ _ _ (unchanged w v) λ mp is.
          call_with-Good _ _ _ _ w v (player_of-owned a.0 w is) (renderer_of-owned a.1 w at)

    hand_equalizer-Good :
        (h mp : ℕ) (e : EqEntry) (o : Option ℕ) (w : World)
        → lookup h w.eqs ≡ some e
        → e.eq ≡ o
        → 1 ≤ owners (player mp) w
        → Inv w
        → Good w (hand_equalizer host mp o w).1
    unfolding hand_equalizer
    hand_equalizer-Good h mp e none w at is own v = call-Good _ _ _ w v own
    hand_equalizer-Good h mp e (some p) w at is own v =
        call_with-Good _ _ _ _ w v own (eq_of-owned h w (eq_at h e w at is))

    pub media_player_set_equalizer-Keeps : Keeps (media_player_set_equalizer host args)
    unfolding media_player_set_equalizer
    media_player_set_equalizer-Keeps w v room = need-Good w _ _ _ (unchanged w v) λ a e.
        need-Good w _ _ _ (unchanged w v) λ b at.
          need-Good w _ _ _ (unchanged w v)
            λ mp is. hand_equalizer-Good a.1 mp b b.eq w at refl (player_of-owned a.0 w is) v

    pub media_player_set_video_vrr_allowed-Keeps :
        Keeps (media_player_set_video_vrr_allowed host args)
    unfolding media_player_set_video_vrr_allowed
    media_player_set_video_vrr_allowed-Keeps w v room = need-Good w _ _ _ (unchanged w v) λ a e.
        need-Good w _ _ _ (unchanged w v) λ _ _. need-Good w _ _ _ (unchanged w v) λ mp p.
          let x : Ref → ℕ = λ r. hits r (player mp) + 0 in
          let v₁ = took-Inv (λ _. 0) w (player mp) v in
          let v₂ =
            did-Inv x _ v₁ Fn.media_player_set_ohos_video_vrr_allowed (player mp) _
              (omega (arith, hits_self (player mp))) in
          (dropped-Inv (λ _. 0) _ (player mp) v₂, omega arith)
