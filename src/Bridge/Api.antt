-- ===== src/Bridge/Api.antt =====
-- The functions that entry/src/main/cpp/vlc_napi.cpp registers with N-API, the names that JavaScript
-- knows them by, and what a call of each does.
pub mod Safety
pub mod Names
pub mod Refusal
pub mod Errors
use vlc_harmony.Base.{ℕ, ℤ, String, Option, none, some, List, [], ◌∷◌}
use vlc_harmony.Xcomponent.{
  add_native_xcomponent, set_surface_ready_callback, set_surface_destroyed_callback,
}
use vlc_harmony.Bridge.World.{Host, World, Ret}
use vlc_harmony.Bridge.Control
use vlc_harmony.Bridge.Equalizer
use vlc_harmony.Bridge.Lists
use vlc_harmony.Bridge.Logs
use vlc_harmony.Bridge.Media
use vlc_harmony.Bridge.Player
use vlc_harmony.Bridge.Renderers
use vlc_harmony.Bridge.Surfaces
use vlc_harmony.Bridge.Usage

-- The functions of the module, by their C++ names.
pub data Api : Type 0 where
  set_playback_diagnostics libvlc_create libvlc_release media_create_location : Api
  media_create_path media_create_fd media_release media_parse media_get_meta : Api
  media_get_stats media_add_option media_get_tracks_info media_add_slave get_process_usage : Api
  media_player_create media_player_release media_player_release_async : Api
  media_player_set_event_listener media_player_set_media media_player_set_video_out : Api
  media_player_set_osd_video_out media_player_detach_views has_native_window : Api
  media_player_play media_player_pause media_player_stop media_player_get_time : Api
  media_player_set_time media_player_set_position media_player_get_length : Api
  media_player_set_rate media_player_set_video_vrr_allowed media_player_get_rate : Api
  media_player_set_volume media_player_get_volume media_player_get_state : Api
  media_player_get_position media_player_get_video_size media_player_get_fps : Api
  media_player_set_scale media_player_set_aspect_ratio media_player_add_slave : Api
  media_player_get_audio_tracks media_player_get_spu_tracks media_player_get_video_tracks : Api
  media_player_get_audio_track media_player_get_spu_track media_player_get_video_track : Api
  media_player_set_audio_track media_player_set_spu_track media_player_set_video_track : Api
  media_player_set_spu_delay media_player_get_spu_delay media_player_set_audio_delay : Api
  media_player_get_audio_delay media_player_get_chapters media_player_get_chapter : Api
  media_player_set_chapter media_player_set_renderer media_player_clear_renderer : Api
  media_player_set_equalizer media_player_clear_equalizer equalizer_get_preset_count : Api
  equalizer_get_preset_name equalizer_get_band_count equalizer_get_band_frequency : Api
  equalizer_create equalizer_create_from_preset equalizer_release equalizer_set_pre_amp : Api
  equalizer_get_pre_amp equalizer_set_amp equalizer_get_amp media_list_create : Api
  media_list_release media_list_count media_list_add_media media_list_remove_index : Api
  media_list_item_at media_discoverer_create media_discoverer_release : Api
  media_discoverer_start media_discoverer_stop media_discoverer_media_list : Api
  renderer_discoverer_list renderer_discoverer_create renderer_discoverer_release : Api
  renderer_discoverer_start renderer_discoverer_stop renderer_discoverer_get_items : Api
  renderer_item_release : Api

-- The table `desc` of `VlcNapiInit`.
unfoldable pub exports : List (String × Api)
exports =
    ("setPlaybackDiagnostics", Api.set_playback_diagnostics)
    ∷ ("libvlcCreate", Api.libvlc_create)
    ∷ ("libvlcRelease", Api.libvlc_release)
    ∷ ("mediaCreateLocation", Api.media_create_location)
    ∷ ("mediaCreatePath", Api.media_create_path)
    ∷ ("mediaCreateFd", Api.media_create_fd)
    ∷ ("mediaRelease", Api.media_release)
    ∷ ("mediaParse", Api.media_parse)
    ∷ ("mediaGetMeta", Api.media_get_meta)
    ∷ ("mediaGetStats", Api.media_get_stats)
    ∷ ("mediaAddOption", Api.media_add_option)
    ∷ ("mediaGetTracksInfo", Api.media_get_tracks_info)
    ∷ ("mediaAddSlave", Api.media_add_slave)
    ∷ ("getProcessUsage", Api.get_process_usage)
    ∷ ("mediaPlayerCreate", Api.media_player_create)
    ∷ ("mediaPlayerRelease", Api.media_player_release)
    ∷ ("mediaPlayerReleaseAsync", Api.media_player_release_async)
    ∷ ("mediaPlayerSetEventListener", Api.media_player_set_event_listener)
    ∷ ("mediaPlayerSetMedia", Api.media_player_set_media)
    ∷ ("mediaPlayerSetVideoOut", Api.media_player_set_video_out)
    ∷ ("mediaPlayerSetOsdVideoOut", Api.media_player_set_osd_video_out)
    ∷ ("mediaPlayerDetachViews", Api.media_player_detach_views)
    ∷ ("hasNativeWindow", Api.has_native_window)
    ∷ ("mediaPlayerPlay", Api.media_player_play)
    ∷ ("mediaPlayerPause", Api.media_player_pause)
    ∷ ("mediaPlayerStop", Api.media_player_stop)
    ∷ ("mediaPlayerGetTime", Api.media_player_get_time)
    ∷ ("mediaPlayerSetTime", Api.media_player_set_time)
    ∷ ("mediaPlayerSetPosition", Api.media_player_set_position)
    ∷ ("mediaPlayerGetLength", Api.media_player_get_length)
    ∷ ("mediaPlayerSetRate", Api.media_player_set_rate)
    ∷ ("mediaPlayerSetVideoVrrAllowed", Api.media_player_set_video_vrr_allowed)
    ∷ ("mediaPlayerGetRate", Api.media_player_get_rate)
    ∷ ("mediaPlayerSetVolume", Api.media_player_set_volume)
    ∷ ("mediaPlayerGetVolume", Api.media_player_get_volume)
    ∷ ("mediaPlayerGetState", Api.media_player_get_state)
    ∷ ("mediaPlayerGetPosition", Api.media_player_get_position)
    ∷ ("mediaPlayerGetVideoSize", Api.media_player_get_video_size)
    ∷ ("mediaPlayerGetFps", Api.media_player_get_fps)
    ∷ ("mediaPlayerSetScale", Api.media_player_set_scale)
    ∷ ("mediaPlayerSetAspectRatio", Api.media_player_set_aspect_ratio)
    ∷ ("mediaPlayerAddSlave", Api.media_player_add_slave)
    ∷ ("mediaPlayerGetAudioTracks", Api.media_player_get_audio_tracks)
    ∷ ("mediaPlayerGetSpuTracks", Api.media_player_get_spu_tracks)
    ∷ ("mediaPlayerGetVideoTracks", Api.media_player_get_video_tracks)
    ∷ ("mediaPlayerGetAudioTrack", Api.media_player_get_audio_track)
    ∷ ("mediaPlayerGetSpuTrack", Api.media_player_get_spu_track)
    ∷ ("mediaPlayerGetVideoTrack", Api.media_player_get_video_track)
    ∷ ("mediaPlayerSetAudioTrack", Api.media_player_set_audio_track)
    ∷ ("mediaPlayerSetSpuTrack", Api.media_player_set_spu_track)
    ∷ ("mediaPlayerSetVideoTrack", Api.media_player_set_video_track)
    ∷ ("mediaPlayerSetSpuDelay", Api.media_player_set_spu_delay)
    ∷ ("mediaPlayerGetSpuDelay", Api.media_player_get_spu_delay)
    ∷ ("mediaPlayerSetAudioDelay", Api.media_player_set_audio_delay)
    ∷ ("mediaPlayerGetAudioDelay", Api.media_player_get_audio_delay)
    ∷ ("mediaPlayerGetChapters", Api.media_player_get_chapters)
    ∷ ("mediaPlayerGetChapter", Api.media_player_get_chapter)
    ∷ ("mediaPlayerSetChapter", Api.media_player_set_chapter)
    ∷ ("mediaPlayerSetRenderer", Api.media_player_set_renderer)
    ∷ ("mediaPlayerClearRenderer", Api.media_player_clear_renderer)
    ∷ ("mediaPlayerSetEqualizer", Api.media_player_set_equalizer)
    ∷ ("mediaPlayerClearEqualizer", Api.media_player_clear_equalizer)
    ∷ ("equalizerGetPresetCount", Api.equalizer_get_preset_count)
    ∷ ("equalizerGetPresetName", Api.equalizer_get_preset_name)
    ∷ ("equalizerGetBandCount", Api.equalizer_get_band_count)
    ∷ ("equalizerGetBandFrequency", Api.equalizer_get_band_frequency)
    ∷ ("equalizerCreate", Api.equalizer_create)
    ∷ ("equalizerCreateFromPreset", Api.equalizer_create_from_preset)
    ∷ ("equalizerRelease", Api.equalizer_release)
    ∷ ("equalizerSetPreAmp", Api.equalizer_set_pre_amp)
    ∷ ("equalizerGetPreAmp", Api.equalizer_get_pre_amp)
    ∷ ("equalizerSetAmp", Api.equalizer_set_amp)
    ∷ ("equalizerGetAmp", Api.equalizer_get_amp)
    ∷ ("mediaListCreate", Api.media_list_create)
    ∷ ("mediaListRelease", Api.media_list_release)
    ∷ ("mediaListCount", Api.media_list_count)
    ∷ ("mediaListAddMedia", Api.media_list_add_media)
    ∷ ("mediaListRemoveIndex", Api.media_list_remove_index)
    ∷ ("mediaListItemAt", Api.media_list_item_at)
    ∷ ("mediaDiscovererCreate", Api.media_discoverer_create)
    ∷ ("mediaDiscovererRelease", Api.media_discoverer_release)
    ∷ ("mediaDiscovererStart", Api.media_discoverer_start)
    ∷ ("mediaDiscovererStop", Api.media_discoverer_stop)
    ∷ ("mediaDiscovererMediaList", Api.media_discoverer_media_list)
    ∷ ("rendererDiscovererList", Api.renderer_discoverer_list)
    ∷ ("rendererDiscovererCreate", Api.renderer_discoverer_create)
    ∷ ("rendererDiscovererRelease", Api.renderer_discoverer_release)
    ∷ ("rendererDiscovererStart", Api.renderer_discoverer_start)
    ∷ ("rendererDiscovererStop", Api.renderer_discoverer_stop)
    ∷ ("rendererDiscovererGetItems", Api.renderer_discoverer_get_items)
    ∷ ("rendererItemRelease", Api.renderer_item_release)
    ∷ []

module _ (host : Host) where
  unfoldable pub serve : Api → List ℕ → World → Ret × World
  serve Api.set_playback_diagnostics = Logs.set_playback_diagnostics host
  serve Api.libvlc_create = Media.libvlc_create host
  serve Api.libvlc_release = Media.libvlc_release host
  serve Api.media_create_location = Media.media_create_location host
  serve Api.media_create_path = Media.media_create_path host
  serve Api.media_create_fd = Media.media_create_fd host
  serve Api.media_release = Media.media_release host
  serve Api.media_parse = Media.media_parse host
  serve Api.media_get_meta = Media.media_get_meta host
  serve Api.media_get_stats = Media.media_get_stats host
  serve Api.media_add_option = Media.media_add_option host
  serve Api.media_get_tracks_info = Media.media_get_tracks_info host
  serve Api.media_add_slave = Media.media_add_slave host
  serve Api.get_process_usage = Usage.get_process_usage host
  serve Api.media_player_create = Player.media_player_create host
  serve Api.media_player_release = Player.media_player_release host
  serve Api.media_player_release_async = Player.media_player_release_async host
  serve Api.media_player_set_event_listener = Player.media_player_set_event_listener host
  serve Api.media_player_set_media = Player.media_player_set_media host
  serve Api.media_player_set_video_out = Surfaces.media_player_set_video_out host
  serve Api.media_player_set_osd_video_out = Surfaces.media_player_set_osd_video_out host
  serve Api.media_player_detach_views = Surfaces.media_player_detach_views host
  serve Api.has_native_window = Surfaces.has_native_window_of host
  serve Api.media_player_play = Surfaces.media_player_play host
  serve Api.media_player_pause = Control.media_player_pause host
  serve Api.media_player_stop = Player.media_player_stop host
  serve Api.media_player_get_time = Control.media_player_get_time host
  serve Api.media_player_set_time = Player.media_player_set_time host
  serve Api.media_player_set_position = Player.media_player_set_position host
  serve Api.media_player_get_length = Control.media_player_get_length host
  serve Api.media_player_set_rate = Control.media_player_set_rate host
  serve Api.media_player_set_video_vrr_allowed = Control.media_player_set_video_vrr_allowed host
  serve Api.media_player_get_rate = Control.media_player_get_rate host
  serve Api.media_player_set_volume = Control.media_player_set_volume host
  serve Api.media_player_get_volume = Control.media_player_get_volume host
  serve Api.media_player_get_state = Control.media_player_get_state host
  serve Api.media_player_get_position = Control.media_player_get_position host
  serve Api.media_player_get_video_size = Control.media_player_get_video_size host
  serve Api.media_player_get_fps = Control.media_player_get_fps host
  serve Api.media_player_set_scale = Control.media_player_set_scale host
  serve Api.media_player_set_aspect_ratio = Control.media_player_set_aspect_ratio host
  serve Api.media_player_add_slave = Control.media_player_add_slave host
  serve Api.media_player_get_audio_tracks = Control.media_player_get_audio_tracks host
  serve Api.media_player_get_spu_tracks = Control.media_player_get_spu_tracks host
  serve Api.media_player_get_video_tracks = Control.media_player_get_video_tracks host
  serve Api.media_player_get_audio_track = Control.media_player_get_audio_track host
  serve Api.media_player_get_spu_track = Control.media_player_get_spu_track host
  serve Api.media_player_get_video_track = Control.media_player_get_video_track host
  serve Api.media_player_set_audio_track = Control.media_player_set_audio_track host
  serve Api.media_player_set_spu_track = Control.media_player_set_spu_track host
  serve Api.media_player_set_video_track = Control.media_player_set_video_track host
  serve Api.media_player_set_spu_delay = Control.media_player_set_spu_delay host
  serve Api.media_player_get_spu_delay = Control.media_player_get_spu_delay host
  serve Api.media_player_set_audio_delay = Control.media_player_set_audio_delay host
  serve Api.media_player_get_audio_delay = Control.media_player_get_audio_delay host
  serve Api.media_player_get_chapters = Control.media_player_get_chapters host
  serve Api.media_player_get_chapter = Control.media_player_get_chapter host
  serve Api.media_player_set_chapter = Control.media_player_set_chapter host
  serve Api.media_player_set_renderer = Control.media_player_set_renderer host
  serve Api.media_player_clear_renderer = Control.media_player_clear_renderer host
  serve Api.media_player_set_equalizer = Control.media_player_set_equalizer host
  serve Api.media_player_clear_equalizer = Control.media_player_clear_equalizer host
  serve Api.equalizer_get_preset_count = Equalizer.equalizer_get_preset_count host
  serve Api.equalizer_get_preset_name = Equalizer.equalizer_get_preset_name host
  serve Api.equalizer_get_band_count = Equalizer.equalizer_get_band_count host
  serve Api.equalizer_get_band_frequency = Equalizer.equalizer_get_band_frequency host
  serve Api.equalizer_create = Equalizer.equalizer_create host
  serve Api.equalizer_create_from_preset = Equalizer.equalizer_create_from_preset host
  serve Api.equalizer_release = Equalizer.equalizer_release host
  serve Api.equalizer_set_pre_amp = Equalizer.equalizer_set_pre_amp host
  serve Api.equalizer_get_pre_amp = Equalizer.equalizer_get_pre_amp host
  serve Api.equalizer_set_amp = Equalizer.equalizer_set_amp host
  serve Api.equalizer_get_amp = Equalizer.equalizer_get_amp host
  serve Api.media_list_create = Lists.media_list_create host
  serve Api.media_list_release = Lists.media_list_release host
  serve Api.media_list_count = Lists.media_list_count host
  serve Api.media_list_add_media = Lists.media_list_add_media host
  serve Api.media_list_remove_index = Lists.media_list_remove_index host
  serve Api.media_list_item_at = Lists.media_list_item_at host
  serve Api.media_discoverer_create = Lists.media_discoverer_create host
  serve Api.media_discoverer_release = Lists.media_discoverer_release host
  serve Api.media_discoverer_start = Lists.media_discoverer_start host
  serve Api.media_discoverer_stop = Lists.media_discoverer_stop host
  serve Api.media_discoverer_media_list = Lists.media_discoverer_media_list host
  serve Api.renderer_discoverer_list = Renderers.renderer_discoverer_list host
  serve Api.renderer_discoverer_create = Renderers.renderer_discoverer_create host
  serve Api.renderer_discoverer_release = Renderers.renderer_discoverer_release host
  serve Api.renderer_discoverer_start = Renderers.renderer_discoverer_start host
  serve Api.renderer_discoverer_stop = Renderers.renderer_discoverer_stop host
  serve Api.renderer_discoverer_get_items = Renderers.renderer_discoverer_get_items host
  serve Api.renderer_item_release = Renderers.renderer_item_release host

-- `RegisterXComponentIfPresent`: the component, if there is one, and its id, if it has one. The
-- registration of the callbacks with the platform changes nothing here.
unfoldable pub register_xcomponent_if_present : Option ℕ → Option String → World → World
register_xcomponent_if_present none id w = w
register_xcomponent_if_present (some component) none w = w
register_xcomponent_if_present (some component) (some id) w = record w {
  manager =
      set_surface_destroyed_callback
        (set_surface_ready_callback (add_native_xcomponent id component w.manager));
}
