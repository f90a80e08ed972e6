-- ===== src/Bridge/Api/Safety.antt =====
-- Every function that entry/src/main/cpp/vlc_napi.cpp registers keeps the account of references.
use vlc_harmony.Bridge.Ledger.{Dead}
use vlc_harmony.Base.{ℕ, List}
use vlc_harmony.Bridge.World.{Host}
use vlc_harmony.Bridge.Calls.Safety.{Keeps}
use vlc_harmony.Bridge.Api.{Api, serve}
use vlc_harmony.Bridge.Control.Safety as ControlSafety
use vlc_harmony.Bridge.Equalizer.Safety as EqualizerSafety
use vlc_harmony.Bridge.Lists.Safety as ListsSafety
use vlc_harmony.Bridge.Logs.Safety as LogsSafety
use vlc_harmony.Bridge.Media.Safety as MediaSafety
use vlc_harmony.Bridge.Player.Listener
use vlc_harmony.Bridge.Player.Safety as PlayerSafety
use vlc_harmony.Bridge.Renderers.Safety as RenderersSafety
use vlc_harmony.Bridge.Surfaces.Safety as SurfacesSafety
use vlc_harmony.Bridge.Usage.Safety as UsageSafety

module _ ⦃dead : Dead⦄ where
  module _ (host : Host) where
    pub serve-Keeps : (f : Api) (args : List ℕ) → Keeps (serve host f args)
    unfolding serve
    serve-Keeps Api.set_playback_diagnostics = LogsSafety.set_playback_diagnostics-Keeps host
    serve-Keeps Api.libvlc_create = MediaSafety.libvlc_create-Keeps host
    serve-Keeps Api.libvlc_release = MediaSafety.libvlc_release-Keeps host
    serve-Keeps Api.media_create_location = MediaSafety.media_create_location-Keeps host
    serve-Keeps Api.media_create_path = MediaSafety.media_create_path-Keeps host
    serve-Keeps Api.media_create_fd = MediaSafety.media_create_fd-Keeps host
    serve-Keeps Api.media_release = MediaSafety.media_release-Keeps host
    serve-Keeps Api.media_parse = MediaSafety.media_parse-Keeps host
    serve-Keeps Api.media_get_meta = MediaSafety.media_get_meta-Keeps host
    serve-Keeps Api.media_get_stats = MediaSafety.media_get_stats-Keeps host
    serve-Keeps Api.media_add_option = MediaSafety.media_add_option-Keeps host
    serve-Keeps Api.media_get_tracks_info = MediaSafety.media_get_tracks_info-Keeps host
    serve-Keeps Api.media_add_slave = MediaSafety.media_add_slave-Keeps host
    serve-Keeps Api.get_process_usage = UsageSafety.get_process_usage-Keeps host
    serve-Keeps Api.media_player_create = PlayerSafety.media_player_create-Keeps host
    serve-Keeps Api.media_player_release = PlayerSafety.media_player_release-Keeps host
    serve-Keeps Api.media_player_release_async = PlayerSafety.media_player_release_async-Keeps host
    serve-Keeps Api.media_player_set_event_listener =
        Listener.media_player_set_event_listener-Keeps host
    serve-Keeps Api.media_player_set_media = Listener.media_player_set_media-Keeps host
    serve-Keeps Api.media_player_set_video_out =
        SurfacesSafety.media_player_set_video_out-Keeps host
    serve-Keeps Api.media_player_set_osd_video_out =
        SurfacesSafety.media_player_set_osd_video_out-Keeps host
    serve-Keeps Api.media_player_detach_views = SurfacesSafety.media_player_detach_views-Keeps host
    serve-Keeps Api.has_native_window = SurfacesSafety.has_native_window_of-Keeps host
    serve-Keeps Api.media_player_play = SurfacesSafety.media_player_play-Keeps host
    serve-Keeps Api.media_player_pause = ControlSafety.media_player_pause-Keeps host
    serve-Keeps Api.media_player_stop = PlayerSafety.media_player_stop-Keeps host
    serve-Keeps Api.media_player_get_time = ControlSafety.media_player_get_time-Keeps host
    serve-Keeps Api.media_player_set_time = Listener.media_player_set_time-Keeps host
    serve-Keeps Api.media_player_set_position = Listener.media_player_set_position-Keeps host
    serve-Keeps Api.media_player_get_length = ControlSafety.media_player_get_length-Keeps host
    serve-Keeps Api.media_player_set_rate = ControlSafety.media_player_set_rate-Keeps host
    serve-Keeps Api.media_player_set_video_vrr_allowed =
        ControlSafety.media_player_set_video_vrr_allowed-Keeps host
    serve-Keeps Api.media_player_get_rate = ControlSafety.media_player_get_rate-Keeps host
    serve-Keeps Api.media_player_set_volume = ControlSafety.media_player_set_volume-Keeps host
    serve-Keeps Api.media_player_get_volume = ControlSafety.media_player_get_volume-Keeps host
    serve-Keeps Api.media_player_get_state = ControlSafety.media_player_get_state-Keeps host
    serve-Keeps Api.media_player_get_position = ControlSafety.media_player_get_position-Keeps host
    serve-Keeps Api.media_player_get_video_size =
        ControlSafety.media_player_get_video_size-Keeps host
    serve-Keeps Api.media_player_get_fps = ControlSafety.media_player_get_fps-Keeps host
    serve-Keeps Api.media_player_set_scale = ControlSafety.media_player_set_scale-Keeps host
    serve-Keeps Api.media_player_set_aspect_ratio =
        ControlSafety.media_player_set_aspect_ratio-Keeps host
    serve-Keeps Api.media_player_add_slave = ControlSafety.media_player_add_slave-Keeps host
    serve-Keeps Api.media_player_get_audio_tracks =
        ControlSafety.media_player_get_audio_tracks-Keeps host
    serve-Keeps Api.media_player_get_spu_tracks =
        ControlSafety.media_player_get_spu_tracks-Keeps host
    serve-Keeps Api.media_player_get_video_tracks =
        ControlSafety.media_player_get_video_tracks-Keeps host
    serve-Keeps Api.media_player_get_audio_track =
        ControlSafety.media_player_get_audio_track-Keeps host
    serve-Keeps Api.media_player_get_spu_track = ControlSafety.media_player_get_spu_track-Keeps host
    serve-Keeps Api.media_player_get_video_track =
        ControlSafety.media_player_get_video_track-Keeps host
    serve-Keeps Api.media_player_set_audio_track =
        ControlSafety.media_player_set_audio_track-Keeps host
    serve-Keeps Api.media_player_set_spu_track = ControlSafety.media_player_set_spu_track-Keeps host
    serve-Keeps Api.media_player_set_video_track =
        ControlSafety.media_player_set_video_track-Keeps host
    serve-Keeps Api.media_player_set_spu_delay = ControlSafety.media_player_set_spu_delay-Keeps host
    serve-Keeps Api.media_player_get_spu_delay = ControlSafety.media_player_get_spu_delay-Keeps host
    serve-Keeps Api.media_player_set_audio_delay =
        ControlSafety.media_player_set_audio_delay-Keeps host
    serve-Keeps Api.media_player_get_audio_delay =
        ControlSafety.media_player_get_audio_delay-Keeps host
    serve-Keeps Api.media_player_get_chapters = ControlSafety.media_player_get_chapters-Keeps host
    serve-Keeps Api.media_player_get_chapter = ControlSafety.media_player_get_chapter-Keeps host
    serve-Keeps Api.media_player_set_chapter = ControlSafety.media_player_set_chapter-Keeps host
    serve-Keeps Api.media_player_set_renderer = ControlSafety.media_player_set_renderer-Keeps host
    serve-Keeps Api.media_player_clear_renderer =
        ControlSafety.media_player_clear_renderer-Keeps host
    serve-Keeps Api.media_player_set_equalizer = ControlSafety.media_player_set_equalizer-Keeps host
    serve-Keeps Api.media_player_clear_equalizer =
        ControlSafety.media_player_clear_equalizer-Keeps host
    serve-Keeps Api.equalizer_get_preset_count =
        EqualizerSafety.equalizer_get_preset_count-Keeps host
    serve-Keeps Api.equalizer_get_preset_name = EqualizerSafety.equalizer_get_preset_name-Keeps host
    serve-Keeps Api.equalizer_get_band_count = EqualizerSafety.equalizer_get_band_count-Keeps host
    serve-Keeps Api.equalizer_get_band_frequency =
        EqualizerSafety.equalizer_get_band_frequency-Keeps host
    serve-Keeps Api.equalizer_create = EqualizerSafety.equalizer_create-Keeps host
    serve-Keeps Api.equalizer_create_from_preset =
        EqualizerSafety.equalizer_create_from_preset-Keeps host
    serve-Keeps Api.equalizer_release = EqualizerSafety.equalizer_release-Keeps host
    serve-Keeps Api.equalizer_set_pre_amp = EqualizerSafety.equalizer_set_pre_amp-Keeps host
    serve-Keeps Api.equalizer_get_pre_amp = EqualizerSafety.equalizer_get_pre_amp-Keeps host
    serve-Keeps Api.equalizer_set_amp = EqualizerSafety.equalizer_set_amp-Keeps host
    serve-Keeps Api.equalizer_get_amp = EqualizerSafety.equalizer_get_amp-Keeps host
    serve-Keeps Api.media_list_create = ListsSafety.media_list_create-Keeps host
    serve-Keeps Api.media_list_release = ListsSafety.media_list_release-Keeps host
    serve-Keeps Api.media_list_count = ListsSafety.media_list_count-Keeps host
    serve-Keeps Api.media_list_add_media = ListsSafety.media_list_add_media-Keeps host
    serve-Keeps Api.media_list_remove_index = ListsSafety.media_list_remove_index-Keeps host
    serve-Keeps Api.media_list_item_at = ListsSafety.media_list_item_at-Keeps host
    serve-Keeps Api.media_discoverer_create = ListsSafety.media_discoverer_create-Keeps host
    serve-Keeps Api.media_discoverer_release = ListsSafety.media_discoverer_release-Keeps host
    serve-Keeps Api.media_discoverer_start = ListsSafety.media_discoverer_start-Keeps host
    serve-Keeps Api.media_discoverer_stop = ListsSafety.media_discoverer_stop-Keeps host
    serve-Keeps Api.media_discoverer_media_list = ListsSafety.media_discoverer_media_list-Keeps host
    serve-Keeps Api.renderer_discoverer_list = RenderersSafety.renderer_discoverer_list-Keeps host
    serve-Keeps Api.renderer_discoverer_create =
        RenderersSafety.renderer_discoverer_create-Keeps host
    serve-Keeps Api.renderer_discoverer_release =
        RenderersSafety.renderer_discoverer_release-Keeps host
    serve-Keeps Api.renderer_discoverer_start = RenderersSafety.renderer_discoverer_start-Keeps host
    serve-Keeps Api.renderer_discoverer_stop = RenderersSafety.renderer_discoverer_stop-Keeps host
    serve-Keeps Api.renderer_discoverer_get_items =
        RenderersSafety.renderer_discoverer_get_items-Keeps host
    serve-Keeps Api.renderer_item_release = RenderersSafety.renderer_item_release-Keeps host
