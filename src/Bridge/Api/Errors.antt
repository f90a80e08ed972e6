-- ===== src/Bridge/Api/Errors.antt =====
-- A call of a function of entry/src/main/cpp/vlc_napi.cpp with a handle that stands for nothing.
use vlc_harmony.Base.{ℕ, ◌≡◌, Bool, true, false, List, arith}
use vlc_harmony.Bridge.World.{Host, World}
use vlc_harmony.Bridge.Api.{Api, serve}
use vlc_harmony.Bridge.Api.Refusal.{IsStale}
use vlc_harmony.Bridge.Api.Refusal.Media as MediaRefusal
use vlc_harmony.Bridge.Api.Refusal.Player as PlayerRefusal
use vlc_harmony.Bridge.Api.Refusal.Control as ControlRefusal
use vlc_harmony.Bridge.Api.Refusal.Equalizer as EqualizerRefusal
use vlc_harmony.Bridge.Api.Refusal.Lists as ListsRefusal
use vlc_harmony.Bridge.Api.Refusal.Surfaces as SurfacesRefusal
use vlc_harmony.Bridge.Api.Refusal.Renderers as RenderersRefusal

-- The functions that get a handle first.
unfoldable pub takes_handle : Api → Bool
takes_handle Api.set_playback_diagnostics = false
takes_handle Api.libvlc_create = false
takes_handle Api.get_process_usage = false
takes_handle Api.has_native_window = false
takes_handle Api.equalizer_get_preset_count = false
takes_handle Api.equalizer_get_preset_name = false
takes_handle Api.equalizer_get_band_count = false
takes_handle Api.equalizer_get_band_frequency = false
takes_handle Api.equalizer_create = false
takes_handle Api.equalizer_create_from_preset = false
takes_handle _ = true

-- A function that gets a handle first and is called with one that stands for no entry of any table,
-- with a value that is no number, or with nothing, changes nothing and calls nothing: neither the
-- tables nor the list of the calls out differ after it.
pub stale_handle :
    (host : Host) (f : Api) (args : List ℕ) (w : World)
    → takes_handle f ≡ true
    → IsStale host args w
    → (serve host f args w).1 ≡ w
unfolding takes_handle serve
stale_handle host Api.set_playback_diagnostics args w t stale = ground (arith, t)
stale_handle host Api.libvlc_create args w t stale = ground (arith, t)
stale_handle host Api.libvlc_release args w t stale =
    MediaRefusal.libvlc_release-refuses host args w stale
stale_handle host Api.media_create_location args w t stale =
    MediaRefusal.media_create_location-refuses host args w stale
stale_handle host Api.media_create_path args w t stale =
    MediaRefusal.media_create_path-refuses host args w stale
stale_handle host Api.media_create_fd args w t stale =
    MediaRefusal.media_create_fd-refuses host args w stale
stale_handle host Api.media_release args w t stale =
    MediaRefusal.media_release-refuses host args w stale
stale_handle host Api.media_parse args w t stale =
    MediaRefusal.media_parse-refuses host args w stale
stale_handle host Api.media_get_meta args w t stale =
    MediaRefusal.media_get_meta-refuses host args w stale
stale_handle host Api.media_get_stats args w t stale =
    MediaRefusal.media_get_stats-refuses host args w stale
stale_handle host Api.media_add_option args w t stale =
    MediaRefusal.media_add_option-refuses host args w stale
stale_handle host Api.media_get_tracks_info args w t stale =
    MediaRefusal.media_get_tracks_info-refuses host args w stale
stale_handle host Api.media_add_slave args w t stale =
    MediaRefusal.media_add_slave-refuses host args w stale
stale_handle host Api.get_process_usage args w t stale = ground (arith, t)
stale_handle host Api.media_player_create args w t stale =
    PlayerRefusal.media_player_create-refuses host args w stale
stale_handle host Api.media_player_release args w t stale =
    PlayerRefusal.media_player_release-refuses host args w stale
stale_handle host Api.media_player_release_async args w t stale =
    PlayerRefusal.media_player_release_async-refuses host args w stale
stale_handle host Api.media_player_set_event_listener args w t stale =
    PlayerRefusal.media_player_set_event_listener-refuses host args w stale
stale_handle host Api.media_player_set_media args w t stale =
    PlayerRefusal.media_player_set_media-refuses host args w stale
stale_handle host Api.media_player_set_video_out args w t stale =
    SurfacesRefusal.media_player_set_video_out-refuses host args w stale
stale_handle host Api.media_player_set_osd_video_out args w t stale =
    SurfacesRefusal.media_player_set_osd_video_out-refuses host args w stale
stale_handle host Api.media_player_detach_views args w t stale =
    SurfacesRefusal.media_player_detach_views-refuses host args w stale
stale_handle host Api.has_native_window args w t stale = ground (arith, t)
stale_handle host Api.media_player_play args w t stale =
    SurfacesRefusal.media_player_play-refuses host args w stale
stale_handle host Api.media_player_pause args w t stale =
    ControlRefusal.media_player_pause-refuses host args w stale
stale_handle host Api.media_player_stop args w t stale =
    PlayerRefusal.media_player_stop-refuses host args w stale
stale_handle host Api.media_player_get_time args w t stale =
    ControlRefusal.media_player_get_time-refuses host args w stale
stale_handle host Api.media_player_set_time args w t stale =
    PlayerRefusal.media_player_set_time-refuses host args w stale
stale_handle host Api.media_player_set_position args w t stale =
    PlayerRefusal.media_player_set_position-refuses host args w stale
stale_handle host Api.media_player_get_length args w t stale =
    ControlRefusal.media_player_get_length-refuses host args w stale
stale_handle host Api.media_player_set_rate args w t stale =
    ControlRefusal.media_player_set_rate-refuses host args w stale
stale_handle host Api.media_player_set_video_vrr_allowed args w t stale =
    ControlRefusal.media_player_set_video_vrr_allowed-refuses host args w stale
stale_handle host Api.media_player_get_rate args w t stale =
    ControlRefusal.media_player_get_rate-refuses host args w stale
stale_handle host Api.media_player_set_volume args w t stale =
    ControlRefusal.media_player_set_volume-refuses host args w stale
stale_handle host Api.media_player_get_volume args w t stale =
    ControlRefusal.media_player_get_volume-refuses host args w stale
stale_handle host Api.media_player_get_state args w t stale =
    ControlRefusal.media_player_get_state-refuses host args w stale
stale_handle host Api.media_player_get_position args w t stale =
    ControlRefusal.media_player_get_position-refuses host args w stale
stale_handle host Api.media_player_get_video_size args w t stale =
    ControlRefusal.media_player_get_video_size-refuses host args w stale
stale_handle host Api.media_player_get_fps args w t stale =
    ControlRefusal.media_player_get_fps-refuses host args w stale
stale_handle host Api.media_player_set_scale args w t stale =
    ControlRefusal.media_player_set_scale-refuses host args w stale
stale_handle host Api.media_player_set_aspect_ratio args w t stale =
    ControlRefusal.media_player_set_aspect_ratio-refuses host args w stale
stale_handle host Api.media_player_add_slave args w t stale =
    ControlRefusal.media_player_add_slave-refuses host args w stale
stale_handle host Api.media_player_get_audio_tracks args w t stale =
    ControlRefusal.media_player_get_audio_tracks-refuses host args w stale
stale_handle host Api.media_player_get_spu_tracks args w t stale =
    ControlRefusal.media_player_get_spu_tracks-refuses host args w stale
stale_handle host Api.media_player_get_video_tracks args w t stale =
    ControlRefusal.media_player_get_video_tracks-refuses host args w stale
stale_handle host Api.media_player_get_audio_track args w t stale =
    ControlRefusal.media_player_get_audio_track-refuses host args w stale
stale_handle host Api.media_player_get_spu_track args w t stale =
    ControlRefusal.media_player_get_spu_track-refuses host args w stale
stale_handle host Api.media_player_get_video_track args w t stale =
    ControlRefusal.media_player_get_video_track-refuses host args w stale
stale_handle host Api.media_player_set_audio_track args w t stale =
    ControlRefusal.media_player_set_audio_track-refuses host args w stale
stale_handle host Api.media_player_set_spu_track args w t stale =
    ControlRefusal.media_player_set_spu_track-refuses host args w stale
stale_handle host Api.media_player_set_video_track args w t stale =
    ControlRefusal.media_player_set_video_track-refuses host args w stale
stale_handle host Api.media_player_set_spu_delay args w t stale =
    ControlRefusal.media_player_set_spu_delay-refuses host args w stale
stale_handle host Api.media_player_get_spu_delay args w t stale =
    ControlRefusal.media_player_get_spu_delay-refuses host args w stale
stale_handle host Api.media_player_set_audio_delay args w t stale =
    ControlRefusal.media_player_set_audio_delay-refuses host args w stale
stale_handle host Api.media_player_get_audio_delay args w t stale =
    ControlRefusal.media_player_get_audio_delay-refuses host args w stale
stale_handle host Api.media_player_get_chapters args w t stale =
    ControlRefusal.media_player_get_chapters-refuses host args w stale
stale_handle host Api.media_player_get_chapter args w t stale =
    ControlRefusal.media_player_get_chapter-refuses host args w stale
stale_handle host Api.media_player_set_chapter args w t stale =
    ControlRefusal.media_player_set_chapter-refuses host args w stale
stale_handle host Api.media_player_set_renderer args w t stale =
    ControlRefusal.media_player_set_renderer-refuses host args w stale
stale_handle host Api.media_player_clear_renderer args w t stale =
    ControlRefusal.media_player_clear_renderer-refuses host args w stale
stale_handle host Api.media_player_set_equalizer args w t stale =
    ControlRefusal.media_player_set_equalizer-refuses host args w stale
stale_handle host Api.media_player_clear_equalizer args w t stale =
    ControlRefusal.media_player_clear_equalizer-refuses host args w stale
stale_handle host Api.equalizer_get_preset_count args w t stale = ground (arith, t)
stale_handle host Api.equalizer_get_preset_name args w t stale = ground (arith, t)
stale_handle host Api.equalizer_get_band_count args w t stale = ground (arith, t)
stale_handle host Api.equalizer_get_band_frequency args w t stale = ground (arith, t)
stale_handle host Api.equalizer_create args w t stale = ground (arith, t)
stale_handle host Api.equalizer_create_from_preset args w t stale = ground (arith, t)
stale_handle host Api.equalizer_release args w t stale =
    EqualizerRefusal.equalizer_release-refuses host args w stale
stale_handle host Api.equalizer_set_pre_amp args w t stale =
    EqualizerRefusal.equalizer_set_pre_amp-refuses host args w stale
stale_handle host Api.equalizer_get_pre_amp args w t stale =
    EqualizerRefusal.equalizer_get_pre_amp-refuses host args w stale
stale_handle host Api.equalizer_set_amp args w t stale =
    EqualizerRefusal.equalizer_set_amp-refuses host args w stale
stale_handle host Api.equalizer_get_amp args w t stale =
    EqualizerRefusal.equalizer_get_amp-refuses host args w stale
stale_handle host Api.media_list_create args w t stale =
    ListsRefusal.media_list_create-refuses host args w stale
stale_handle host Api.media_list_release args w t stale =
    ListsRefusal.media_list_release-refuses host args w stale
stale_handle host Api.media_list_count args w t stale =
    ListsRefusal.media_list_count-refuses host args w stale
stale_handle host Api.media_list_add_media args w t stale =
    ListsRefusal.media_list_add_media-refuses host args w stale
stale_handle host Api.media_list_remove_index args w t stale =
    ListsRefusal.media_list_remove_index-refuses host args w stale
stale_handle host Api.media_list_item_at args w t stale =
    ListsRefusal.media_list_item_at-refuses host args w stale
stale_handle host Api.media_discoverer_create args w t stale =
    ListsRefusal.media_discoverer_create-refuses host args w stale
stale_handle host Api.media_discoverer_release args w t stale =
    ListsRefusal.media_discoverer_release-refuses host args w stale
stale_handle host Api.media_discoverer_start args w t stale =
    ListsRefusal.media_discoverer_start-refuses host args w stale
stale_handle host Api.media_discoverer_stop args w t stale =
    ListsRefusal.media_discoverer_stop-refuses host args w stale
stale_handle host Api.media_discoverer_media_list args w t stale =
    ListsRefusal.media_discoverer_media_list-refuses host args w stale
stale_handle host Api.renderer_discoverer_list args w t stale =
    RenderersRefusal.renderer_discoverer_list-refuses host args w stale
stale_handle host Api.renderer_discoverer_create args w t stale =
    RenderersRefusal.renderer_discoverer_create-refuses host args w stale
stale_handle host Api.renderer_discoverer_release args w t stale =
    RenderersRefusal.renderer_discoverer_release-refuses host args w stale
stale_handle host Api.renderer_discoverer_start args w t stale =
    RenderersRefusal.renderer_discoverer_start-refuses host args w stale
stale_handle host Api.renderer_discoverer_stop args w t stale =
    RenderersRefusal.renderer_discoverer_stop-refuses host args w stale
stale_handle host Api.renderer_discoverer_get_items args w t stale =
    RenderersRefusal.renderer_discoverer_get_items-refuses host args w stale
stale_handle host Api.renderer_item_release args w t stale =
    RenderersRefusal.renderer_item_release-refuses host args w stale
