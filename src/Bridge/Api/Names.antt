-- ===== src/Bridge/Api/Names.antt =====
-- The names under which entry/src/main/cpp/vlc_napi.cpp registers its functions.
use vlc_harmony.Base.{
  ℕ, ◌≡◌, ◌↔◌, refl, sym, ap, ◌∙◌, String, Bool, true, false, ◌||◌, Option, none, some, List, [],
  ◌∷◌, ◌==◌, nat_beq, nat_eq, string_eq, if◌then◌else◌, arith,
}
use vlc_harmony.Base.Table.{lookup}
use vlc_harmony.Bridge.Api.{Api, exports}

-- A function's name in JavaScript: its C++ name with a small first letter.
unfoldable pub js_name : Api → String
js_name Api.set_playback_diagnostics = "setPlaybackDiagnostics"
js_name Api.libvlc_create = "libvlcCreate"
js_name Api.libvlc_release = "libvlcRelease"
js_name Api.media_create_location = "mediaCreateLocation"
js_name Api.media_create_path = "mediaCreatePath"
js_name Api.media_create_fd = "mediaCreateFd"
js_name Api.media_release = "mediaRelease"
js_name Api.media_parse = "mediaParse"
js_name Api.media_get_meta = "mediaGetMeta"
js_name Api.media_get_stats = "mediaGetStats"
js_name Api.media_add_option = "mediaAddOption"
js_name Api.media_get_tracks_info = "mediaGetTracksInfo"
js_name Api.media_add_slave = "mediaAddSlave"
js_name Api.get_process_usage = "getProcessUsage"
js_name Api.media_player_create = "mediaPlayerCreate"
js_name Api.media_player_release = "mediaPlayerRelease"
js_name Api.media_player_release_async = "mediaPlayerReleaseAsync"
js_name Api.media_player_set_event_listener = "mediaPlayerSetEventListener"
js_name Api.media_player_set_media = "mediaPlayerSetMedia"
js_name Api.media_player_set_video_out = "mediaPlayerSetVideoOut"
js_name Api.media_player_set_osd_video_out = "mediaPlayerSetOsdVideoOut"
js_name Api.media_player_detach_views = "mediaPlayerDetachViews"
js_name Api.has_native_window = "hasNativeWindow"
js_name Api.media_player_play = "mediaPlayerPlay"
js_name Api.media_player_pause = "mediaPlayerPause"
js_name Api.media_player_stop = "mediaPlayerStop"
js_name Api.media_player_get_time = "mediaPlayerGetTime"
js_name Api.media_player_set_time = "mediaPlayerSetTime"
js_name Api.media_player_set_position = "mediaPlayerSetPosition"
js_name Api.media_player_get_length = "mediaPlayerGetLength"
js_name Api.media_player_set_rate = "mediaPlayerSetRate"
js_name Api.media_player_set_video_vrr_allowed = "mediaPlayerSetVideoVrrAllowed"
js_name Api.media_player_get_rate = "mediaPlayerGetRate"
js_name Api.media_player_set_volume = "mediaPlayerSetVolume"
js_name Api.media_player_get_volume = "mediaPlayerGetVolume"
js_name Api.media_player_get_state = "mediaPlayerGetState"
js_name Api.media_player_get_position = "mediaPlayerGetPosition"
js_name Api.media_player_get_video_size = "mediaPlayerGetVideoSize"
js_name Api.media_player_get_fps = "mediaPlayerGetFps"
js_name Api.media_player_set_scale = "mediaPlayerSetScale"
js_name Api.media_player_set_aspect_ratio = "mediaPlayerSetAspectRatio"
js_name Api.media_player_add_slave = "mediaPlayerAddSlave"
js_name Api.media_player_get_audio_tracks = "mediaPlayerGetAudioTracks"
js_name Api.media_player_get_spu_tracks = "mediaPlayerGetSpuTracks"
js_name Api.media_player_get_video_tracks = "mediaPlayerGetVideoTracks"
js_name Api.media_player_get_audio_track = "mediaPlayerGetAudioTrack"
js_name Api.media_player_get_spu_track = "mediaPlayerGetSpuTrack"
js_name Api.media_player_get_video_track = "mediaPlayerGetVideoTrack"
js_name Api.media_player_set_audio_track = "mediaPlayerSetAudioTrack"
js_name Api.media_player_set_spu_track = "mediaPlayerSetSpuTrack"
js_name Api.media_player_set_video_track = "mediaPlayerSetVideoTrack"
js_name Api.media_player_set_spu_delay = "mediaPlayerSetSpuDelay"
js_name Api.media_player_get_spu_delay = "mediaPlayerGetSpuDelay"
js_name Api.media_player_set_audio_delay = "mediaPlayerSetAudioDelay"
js_name Api.media_player_get_audio_delay = "mediaPlayerGetAudioDelay"
js_name Api.media_player_get_chapters = "mediaPlayerGetChapters"
js_name Api.media_player_get_chapter = "mediaPlayerGetChapter"
js_name Api.media_player_set_chapter = "mediaPlayerSetChapter"
js_name Api.media_player_set_renderer = "mediaPlayerSetRenderer"
js_name Api.media_player_clear_renderer = "mediaPlayerClearRenderer"
js_name Api.media_player_set_equalizer = "mediaPlayerSetEqualizer"
js_name Api.media_player_clear_equalizer = "mediaPlayerClearEqualizer"
js_name Api.equalizer_get_preset_count = "equalizerGetPresetCount"
js_name Api.equalizer_get_preset_name = "equalizerGetPresetName"
js_name Api.equalizer_get_band_count = "equalizerGetBandCount"
js_name Api.equalizer_get_band_frequency = "equalizerGetBandFrequency"
js_name Api.equalizer_create = "equalizerCreate"
js_name Api.equalizer_create_from_preset = "equalizerCreateFromPreset"
js_name Api.equalizer_release = "equalizerRelease"
js_name Api.equalizer_set_pre_amp = "equalizerSetPreAmp"
js_name Api.equalizer_get_pre_amp = "equalizerGetPreAmp"
js_name Api.equalizer_set_amp = "equalizerSetAmp"
js_name Api.equalizer_get_amp = "equalizerGetAmp"
js_name Api.media_list_create = "mediaListCreate"
js_name Api.media_list_release = "mediaListRelease"
js_name Api.media_list_count = "mediaListCount"
js_name Api.media_list_add_media = "mediaListAddMedia"
js_name Api.media_list_remove_index = "mediaListRemoveIndex"
js_name Api.media_list_item_at = "mediaListItemAt"
js_name Api.media_discoverer_create = "mediaDiscovererCreate"
js_name Api.media_discoverer_release = "mediaDiscovererRelease"
js_name Api.media_discoverer_start = "mediaDiscovererStart"
js_name Api.media_discoverer_stop = "mediaDiscovererStop"
js_name Api.media_discoverer_media_list = "mediaDiscovererMediaList"
js_name Api.renderer_discoverer_list = "rendererDiscovererList"
js_name Api.renderer_discoverer_create = "rendererDiscovererCreate"
js_name Api.renderer_discoverer_release = "rendererDiscovererRelease"
js_name Api.renderer_discoverer_start = "rendererDiscovererStart"
js_name Api.renderer_discoverer_stop = "rendererDiscovererStop"
js_name Api.renderer_discoverer_get_items = "rendererDiscovererGetItems"
js_name Api.renderer_item_release = "rendererItemRelease"

number : Api → ℕ
number Api.set_playback_diagnostics = 0
number Api.libvlc_create = 1
number Api.libvlc_release = 2
number Api.media_create_location = 3
number Api.media_create_path = 4
number Api.media_create_fd = 5
number Api.media_release = 6
number Api.media_parse = 7
number Api.media_get_meta = 8
number Api.media_get_stats = 9
number Api.media_add_option = 10
number Api.media_get_tracks_info = 11
number Api.media_add_slave = 12
number Api.get_process_usage = 13
number Api.media_player_create = 14
number Api.media_player_release = 15
number Api.media_player_release_async = 16
number Api.media_player_set_event_listener = 17
number Api.media_player_set_media = 18
number Api.media_player_set_video_out = 19
number Api.media_player_set_osd_video_out = 20
number Api.media_player_detach_views = 21
number Api.has_native_window = 22
number Api.media_player_play = 23
number Api.media_player_pause = 24
number Api.media_player_stop = 25
number Api.media_player_get_time = 26
number Api.media_player_set_time = 27
number Api.media_player_set_position = 28
number Api.media_player_get_length = 29
number Api.media_player_set_rate = 30
number Api.media_player_set_video_vrr_allowed = 31
number Api.media_player_get_rate = 32
number Api.media_player_set_volume = 33
number Api.media_player_get_volume = 34
number Api.media_player_get_state = 35
number Api.media_player_get_position = 36
number Api.media_player_get_video_size = 37
number Api.media_player_get_fps = 38
number Api.media_player_set_scale = 39
number Api.media_player_set_aspect_ratio = 40
number Api.media_player_add_slave = 41
number Api.media_player_get_audio_tracks = 42
number Api.media_player_get_spu_tracks = 43
number Api.media_player_get_video_tracks = 44
number Api.media_player_get_audio_track = 45
number Api.media_player_get_spu_track = 46
number Api.media_player_get_video_track = 47
number Api.media_player_set_audio_track = 48
number Api.media_player_set_spu_track = 49
number Api.media_player_set_video_track = 50
number Api.media_player_set_spu_delay = 51
number Api.media_player_get_spu_delay = 52
number Api.media_player_set_audio_delay = 53
number Api.media_player_get_audio_delay = 54
number Api.media_player_get_chapters = 55
number Api.media_player_get_chapter = 56
number Api.media_player_set_chapter = 57
number Api.media_player_set_renderer = 58
number Api.media_player_clear_renderer = 59
number Api.media_player_set_equalizer = 60
number Api.media_player_clear_equalizer = 61
number Api.equalizer_get_preset_count = 62
number Api.equalizer_get_preset_name = 63
number Api.equalizer_get_band_count = 64
number Api.equalizer_get_band_frequency = 65
number Api.equalizer_create = 66
number Api.equalizer_create_from_preset = 67
number Api.equalizer_release = 68
number Api.equalizer_set_pre_amp = 69
number Api.equalizer_get_pre_amp = 70
number Api.equalizer_set_amp = 71
number Api.equalizer_get_amp = 72
number Api.media_list_create = 73
number Api.media_list_release = 74
number Api.media_list_count = 75
number Api.media_list_add_media = 76
number Api.media_list_remove_index = 77
number Api.media_list_item_at = 78
number Api.media_discoverer_create = 79
number Api.media_discoverer_release = 80
number Api.media_discoverer_start = 81
number Api.media_discoverer_stop = 82
number Api.media_discoverer_media_list = 83
number Api.renderer_discoverer_list = 84
number Api.renderer_discoverer_create = 85
number Api.renderer_discoverer_release = 86
number Api.renderer_discoverer_start = 87
number Api.renderer_discoverer_stop = 88
number Api.renderer_discoverer_get_items = 89
number Api.renderer_item_release = 90

-- The names of the rows of a function.
unfoldable pub names_of : Api → List (String × Api) → List String
unfolding number
names_of f [] = []
names_of f ((name, g) ∷ rows) =
    let rest = names_of f rows in if nat_beq (number g) (number f) then name ∷ rest else rest

stands_in : String → List String → Bool
stands_in name [] = false
stands_in name (n ∷ names) = n == name || stands_in name names

row_number : Api → Option Api → ℕ
row_number f none = number f
row_number f (some g) = number g

stands_in-row :
    (name n : String) (f g : Api) (rest : List String) (o : Option Api) (b c : Bool)
    → nat_beq (number g) (number f) ≡ b
    → (n == name) ≡ c
    → (if c then some g else o) ≡ some f
    → (o ≡ some f → stands_in name rest ≡ true)
    → stands_in name (if b then n ∷ rest else rest) ≡ true
unfolding stands_in row_number
stands_in-row name n f g rest o true true same is h k = rw is refl
stands_in-row name n f g rest o true false same is h k = rw (is, k h) refl
stands_in-row name n f g rest o false false same is h k = k h
stands_in-row name n f g rest o false true same is h k =
    let numbers = ap (row_number f) h in
    absurd (cc (same, (nat_eq.beq_iff (number g) (number f)).1 numbers))

-- A name that is found is one of the names of its function.
lookup-stands_in :
    (name : String) (f : Api) (rows : List (String × Api))
    → lookup name rows ≡ some f
    → stands_in name (names_of f rows) ≡ true
unfolding lookup names_of stands_in
lookup-stands_in name f [] h = cc
lookup-stands_in name f ((n, g) ∷ rows) h =
    stands_in-row name n f g (names_of f rows) (lookup name rows) _ _ refl refl h
      (lookup-stands_in name f rows)

names_of-exports : (f : Api) → names_of f exports ≡ js_name f ∷ []
unfolding names_of exports js_name
names_of-exports Api.set_playback_diagnostics = refl
names_of-exports Api.libvlc_create = refl
names_of-exports Api.libvlc_release = refl
names_of-exports Api.media_create_location = refl
names_of-exports Api.media_create_path = refl
names_of-exports Api.media_create_fd = refl
names_of-exports Api.media_release = refl
names_of-exports Api.media_parse = refl
names_of-exports Api.media_get_meta = refl
names_of-exports Api.media_get_stats = refl
names_of-exports Api.media_add_option = refl
names_of-exports Api.media_get_tracks_info = refl
names_of-exports Api.media_add_slave = refl
names_of-exports Api.get_process_usage = refl
names_of-exports Api.media_player_create = refl
names_of-exports Api.media_player_release = refl
names_of-exports Api.media_player_release_async = refl
names_of-exports Api.media_player_set_event_listener = refl
names_of-exports Api.media_player_set_media = refl
names_of-exports Api.media_player_set_video_out = refl
names_of-exports Api.media_player_set_osd_video_out = refl
names_of-exports Api.media_player_detach_views = refl
names_of-exports Api.has_native_window = refl
names_of-exports Api.media_player_play = refl
names_of-exports Api.media_player_pause = refl
names_of-exports Api.media_player_stop = refl
names_of-exports Api.media_player_get_time = refl
names_of-exports Api.media_player_set_time = refl
names_of-exports Api.media_player_set_position = refl
names_of-exports Api.media_player_get_length = refl
names_of-exports Api.media_player_set_rate = refl
names_of-exports Api.media_player_set_video_vrr_allowed = refl
names_of-exports Api.media_player_get_rate = refl
names_of-exports Api.media_player_set_volume = refl
names_of-exports Api.media_player_get_volume = refl
names_of-exports Api.media_player_get_state = refl
names_of-exports Api.media_player_get_position = refl
names_of-exports Api.media_player_get_video_size = refl
names_of-exports Api.media_player_get_fps = refl
names_of-exports Api.media_player_set_scale = refl
names_of-exports Api.media_player_set_aspect_ratio = refl
names_of-exports Api.media_player_add_slave = refl
names_of-exports Api.media_player_get_audio_tracks = refl
names_of-exports Api.media_player_get_spu_tracks = refl
names_of-exports Api.media_player_get_video_tracks = refl
names_of-exports Api.media_player_get_audio_track = refl
names_of-exports Api.media_player_get_spu_track = refl
names_of-exports Api.media_player_get_video_track = refl
names_of-exports Api.media_player_set_audio_track = refl
names_of-exports Api.media_player_set_spu_track = refl
names_of-exports Api.media_player_set_video_track = refl
names_of-exports Api.media_player_set_spu_delay = refl
names_of-exports Api.media_player_get_spu_delay = refl
names_of-exports Api.media_player_set_audio_delay = refl
names_of-exports Api.media_player_get_audio_delay = refl
names_of-exports Api.media_player_get_chapters = refl
names_of-exports Api.media_player_get_chapter = refl
names_of-exports Api.media_player_set_chapter = refl
names_of-exports Api.media_player_set_renderer = refl
names_of-exports Api.media_player_clear_renderer = refl
names_of-exports Api.media_player_set_equalizer = refl
names_of-exports Api.media_player_clear_equalizer = refl
names_of-exports Api.equalizer_get_preset_count = refl
names_of-exports Api.equalizer_get_preset_name = refl
names_of-exports Api.equalizer_get_band_count = refl
names_of-exports Api.equalizer_get_band_frequency = refl
names_of-exports Api.equalizer_create = refl
names_of-exports Api.equalizer_create_from_preset = refl
names_of-exports Api.equalizer_release = refl
names_of-exports Api.equalizer_set_pre_amp = refl
names_of-exports Api.equalizer_get_pre_amp = refl
names_of-exports Api.equalizer_set_amp = refl
names_of-exports Api.equalizer_get_amp = refl
names_of-exports Api.media_list_create = refl
names_of-exports Api.media_list_release = refl
names_of-exports Api.media_list_count = refl
names_of-exports Api.media_list_add_media = refl
names_of-exports Api.media_list_remove_index = refl
names_of-exports Api.media_list_item_at = refl
names_of-exports Api.media_discoverer_create = refl
names_of-exports Api.media_discoverer_release = refl
names_of-exports Api.media_discoverer_start = refl
names_of-exports Api.media_discoverer_stop = refl
names_of-exports Api.media_discoverer_media_list = refl
names_of-exports Api.renderer_discoverer_list = refl
names_of-exports Api.renderer_discoverer_create = refl
names_of-exports Api.renderer_discoverer_release = refl
names_of-exports Api.renderer_discoverer_start = refl
names_of-exports Api.renderer_discoverer_stop = refl
names_of-exports Api.renderer_discoverer_get_items = refl
names_of-exports Api.renderer_item_release = refl

lookup-js_name : (f : Api) → lookup (js_name f) exports ≡ some f
unfolding lookup exports js_name
lookup-js_name Api.set_playback_diagnostics = refl
lookup-js_name Api.libvlc_create = refl
lookup-js_name Api.libvlc_release = refl
lookup-js_name Api.media_create_location = refl
lookup-js_name Api.media_create_path = refl
lookup-js_name Api.media_create_fd = refl
lookup-js_name Api.media_release = refl
lookup-js_name Api.media_parse = refl
lookup-js_name Api.media_get_meta = refl
lookup-js_name Api.media_get_stats = refl
lookup-js_name Api.media_add_option = refl
lookup-js_name Api.media_get_tracks_info = refl
lookup-js_name Api.media_add_slave = refl
lookup-js_name Api.get_process_usage = refl
lookup-js_name Api.media_player_create = refl
lookup-js_name Api.media_player_release = refl
lookup-js_name Api.media_player_release_async = refl
lookup-js_name Api.media_player_set_event_listener = refl
lookup-js_name Api.media_player_set_media = refl
lookup-js_name Api.media_player_set_video_out = refl
lookup-js_name Api.media_player_set_osd_video_out = refl
lookup-js_name Api.media_player_detach_views = refl
lookup-js_name Api.has_native_window = refl
lookup-js_name Api.media_player_play = refl
lookup-js_name Api.media_player_pause = refl
lookup-js_name Api.media_player_stop = refl
lookup-js_name Api.media_player_get_time = refl
lookup-js_name Api.media_player_set_time = refl
lookup-js_name Api.media_player_set_position = refl
lookup-js_name Api.media_player_get_length = refl
lookup-js_name Api.media_player_set_rate = refl
lookup-js_name Api.media_player_set_video_vrr_allowed = refl
lookup-js_name Api.media_player_get_rate = refl
lookup-js_name Api.media_player_set_volume = refl
lookup-js_name Api.media_player_get_volume = refl
lookup-js_name Api.media_player_get_state = refl
lookup-js_name Api.media_player_get_position = refl
lookup-js_name Api.media_player_get_video_size = refl
lookup-js_name Api.media_player_get_fps = refl
lookup-js_name Api.media_player_set_scale = refl
lookup-js_name Api.media_player_set_aspect_ratio = refl
lookup-js_name Api.media_player_add_slave = refl
lookup-js_name Api.media_player_get_audio_tracks = refl
lookup-js_name Api.media_player_get_spu_tracks = refl
lookup-js_name Api.media_player_get_video_tracks = refl
lookup-js_name Api.media_player_get_audio_track = refl
lookup-js_name Api.media_player_get_spu_track = refl
lookup-js_name Api.media_player_get_video_track = refl
lookup-js_name Api.media_player_set_audio_track = refl
lookup-js_name Api.media_player_set_spu_track = refl
lookup-js_name Api.media_player_set_video_track = refl
lookup-js_name Api.media_player_set_spu_delay = refl
lookup-js_name Api.media_player_get_spu_delay = refl
lookup-js_name Api.media_player_set_audio_delay = refl
lookup-js_name Api.media_player_get_audio_delay = refl
lookup-js_name Api.media_player_get_chapters = refl
lookup-js_name Api.media_player_get_chapter = refl
lookup-js_name Api.media_player_set_chapter = refl
lookup-js_name Api.media_player_set_renderer = refl
lookup-js_name Api.media_player_clear_renderer = refl
lookup-js_name Api.media_player_set_equalizer = refl
lookup-js_name Api.media_player_clear_equalizer = refl
lookup-js_name Api.equalizer_get_preset_count = refl
lookup-js_name Api.equalizer_get_preset_name = refl
lookup-js_name Api.equalizer_get_band_count = refl
lookup-js_name Api.equalizer_get_band_frequency = refl
lookup-js_name Api.equalizer_create = refl
lookup-js_name Api.equalizer_create_from_preset = refl
lookup-js_name Api.equalizer_release = refl
lookup-js_name Api.equalizer_set_pre_amp = refl
lookup-js_name Api.equalizer_get_pre_amp = refl
lookup-js_name Api.equalizer_set_amp = refl
lookup-js_name Api.equalizer_get_amp = refl
lookup-js_name Api.media_list_create = refl
lookup-js_name Api.media_list_release = refl
lookup-js_name Api.media_list_count = refl
lookup-js_name Api.media_list_add_media = refl
lookup-js_name Api.media_list_remove_index = refl
lookup-js_name Api.media_list_item_at = refl
lookup-js_name Api.media_discoverer_create = refl
lookup-js_name Api.media_discoverer_release = refl
lookup-js_name Api.media_discoverer_start = refl
lookup-js_name Api.media_discoverer_stop = refl
lookup-js_name Api.media_discoverer_media_list = refl
lookup-js_name Api.renderer_discoverer_list = refl
lookup-js_name Api.renderer_discoverer_create = refl
lookup-js_name Api.renderer_discoverer_release = refl
lookup-js_name Api.renderer_discoverer_start = refl
lookup-js_name Api.renderer_discoverer_stop = refl
lookup-js_name Api.renderer_discoverer_get_items = refl
lookup-js_name Api.renderer_item_release = refl

only-js_name : (name : String) (f : Api) → stands_in name (js_name f ∷ []) ≡ true → name ≡ js_name f
unfolding stands_in
only-js_name name f h = ground (arith, string_eq.beq_iff (js_name f) name)

-- Each function has exactly one row in the table, its own name is the one in that row, and a name is
-- found to stand for it if and only if it is that name: no function has two names, no two functions
-- share one, and no other name is known.
pub lookup-names :
    (name : String) (f : Api)
    → (names_of f exports ≡ js_name f ∷ []) × ((lookup name exports ≡ some f) ↔ (name ≡ js_name f))
lookup-names name f = (
  names_of-exports f,
  (
    λ h.
        only-js_name name f
          (ap (stands_in name) (sym (names_of-exports f)) ∙ lookup-stands_in name f exports h),
    λ h. ap (λ n. lookup n exports) h ∙ lookup-js_name f,
  ),
)
