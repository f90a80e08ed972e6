-- ===== src/Bridge/World.antt =====
-- The state of entry/src/main/cpp/vlc_napi.cpp and what is not of this repository: libVLC and N-API.
-- Addresses of foreign objects are numbers, a null pointer is `none`, a `napi_value` is a number that
-- only N-API can read, a `float` or `double` is its bit pattern.
use vlc_harmony.Base.{
  ℕ, ◌+◌, ◌%◌, ◌^◌, String, Bool, Option, none, some, List, [], ◌∷◌, ℤ, ltb, get_elem?, length,
  if◌then◌else◌, nat_eq,
}
use vlc_harmony.Base.Table.{lookup, insert}
use vlc_harmony.Seek.{SeekWorker}
use vlc_harmony.Xcomponent.{Manager}
use vlc_harmony.Xcomponent
use vlc_harmony.Diagnostics.{PlaybackDiagnostics}
use vlc_harmony.Diagnostics

-- A counted reference, or a thing that is allocated and freed: what `new`, `dup` or a creating
-- call gives and what the matching call takes back. `user` and `rd_user` are the heap boxes that
-- event callbacks get, by the handle in the box.
pub data Ref : Type 0 where
  inst media fd player equalizer media_list discoverer renderer renderer_discoverer : ℕ → Ref
  tsfn js_ref user rd_user : ℕ → Ref

-- The calls that neither give nor take back a reference, by their names in libVLC and N-API.
pub data Fn : Type 0 where
  log_set media_new_location media_new_path media_new_fd lseek media_parse_with_options : Fn
  media_get_parsed_status media_tracks_get media_get_meta media_get_duration media_get_stats
        media_add_option :
      Fn
  media_slaves_add media_player_new media_player_event_manager event_attach event_detach : Fn
  media_player_stop media_player_set_media media_player_set_ohos_nativewindow_ptr : Fn
  media_player_set_ohos_osd_nativewindow_ptr media_player_play media_player_set_pause : Fn
  media_player_set_time media_player_set_position media_player_get_time : Fn
  media_player_get_length media_player_get_rate media_player_set_rate : Fn
  media_player_set_ohos_video_vrr_allowed audio_set_volume audio_get_volume : Fn
  media_player_get_state media_player_get_position video_get_size media_player_get_fps : Fn
  video_set_scale video_set_aspect_ratio media_player_add_slave : Fn
  audio_get_track_description video_get_spu_description video_get_track_description : Fn
  audio_get_track video_get_spu video_get_track audio_set_track video_set_spu video_set_track : Fn
  video_set_spu_delay video_get_spu_delay audio_set_delay audio_get_delay : Fn
  media_player_get_full_chapter_descriptions media_player_get_chapter : Fn
  media_player_set_chapter media_player_set_renderer media_player_set_equalizer : Fn
  video_set_ohos_window_size : Fn
  audio_equalizer_new audio_equalizer_new_from_preset audio_equalizer_set_preamp : Fn
  audio_equalizer_get_preamp audio_equalizer_set_amp_at_index audio_equalizer_get_amp_at_index : Fn
  media_list_new media_list_count media_list_add_media media_list_remove_index : Fn
  media_list_item_at_index media_discoverer_new media_discoverer_media_list : Fn
  media_discoverer_start media_discoverer_stop renderer_discoverer_new : Fn
  renderer_discoverer_list_get renderer_discoverer_event_manager renderer_discoverer_start : Fn
  renderer_discoverer_stop renderer_item_name renderer_item_type : Fn
  av_log_set_callback av_log_set_level av_log_default_callback : Fn
  audio_equalizer_get_preset_count audio_equalizer_get_preset_name : Fn
  audio_equalizer_get_band_count audio_equalizer_get_band_frequency : Fn
  libvlc_new dup new_threadsafe_function new_reference call_threadsafe_function : Fn
  acquire_threadsafe_function : Fn

-- The types of libVLC events that the bridge knows, by their names without `libvlc_MediaPlayer`.
pub data EventType : Type 0 where
  playing paused stopped end_reached encountered_error length_changed time_changed : EventType
  position_changed vout buffering es_added es_deleted es_selected other : EventType

-- An argument of a foreign call, or a value handed to JavaScript.
pub data Arg : Type 0 where
  num : ℕ → Arg
  int : ℤ → Arg
  bits : ℕ → Arg
  text : String → Arg
  flag : Bool → Arg
  ptr : Option ℕ → Arg
  event_type : EventType → Arg

-- What happened outside, newest first: a reference was taken, or given back, or a function was
-- called on an object.
pub data Call : Type 0 where
  took dropped : Ref → Call
  did : Fn → Ref → List Arg → Call
  -- a call on an object (the first) that is handed another one
  did_with : Fn → Ref → Ref → List Arg → Call
  -- a call on no object
  free_call : Fn → List Arg → Call

-- A `libvlc_media_track_t`: the last two are there for an audio and for a video track.
pub record Track : Type 0 where
  pub id : ℤ
  pub kind : ℕ
  pub codec : ℕ
  pub description : Option String
  pub language : Option String
  pub bitrate : ℕ
  pub audio : Option (ℕ × ℕ)
  pub video : Option (ℕ × ℕ × ℕ × ℕ)

-- The answers of N-API, libVLC and the C library. They may depend on all that happened before.
pub record Host : Type 0 where
  pub get_uint32 : ℕ → Option ℕ
  pub get_int32 : ℕ → Option ℤ
  pub get_int64 : ℕ → Option ℤ
  pub get_double : ℕ → Option ℕ
  pub get_bool : ℕ → Option Bool
  pub get_string : ℕ → String
  pub is_function : ℕ → Bool
  pub get_array : ℕ → Option (List ℕ)
  -- `static_cast<float>` of a `double`, and the widening back
  pub to_float : ℕ → ℕ
  pub to_double : ℕ → ℕ
  pub double_of_int : ℤ → ℕ
  -- `fabs(a - b) < 0.000001f`
  pub near : ℕ → ℕ → Bool
  -- a call that answers with a pointer, `none` for a null one
  pub make : List Call → Fn → List Arg → Option ℕ
  -- a call that answers with an integer, or a floating point number
  pub ask : List Call → Fn → Ref → List Arg → ℤ
  pub ask_real : List Call → Fn → Ref → List Arg → ℕ
  -- a call that answers with text or with rows of fields
  pub ask_rows : List Call → Fn → Ref → List Arg → List (List (String × Arg))
  -- a call that answers with a text, or with a list of texts, of which each may be null
  pub ask_text : List Call → Fn → Ref → Option String
  pub ask_names : List Call → Fn → Ref → List (Option String)
  -- the same for calls on no object
  pub free_num : List Call → Fn → List Arg → ℕ
  pub free_real : List Call → Fn → List Arg → ℕ
  pub free_text : List Call → Fn → List Arg → Option String
  -- the size that `libvlc_video_get_size` gives, if it succeeds
  pub video_size : List Call → ℕ → Option (ℕ × ℕ)
  -- the steady clock, in nanoseconds
  pub now : List Call → ℕ
  -- milliseconds since the start of a parse, when the n-th status is read
  pub elapsed : List Call → ℕ → ℕ
  -- the tracks of a media, if libVLC gives an array, in which a pointer may be null
  pub tracks : List Call → ℕ → Option (List (Option Track))
  -- a text of the meta data, and the values of the statistics, in the order of the struct
  pub meta : List Call → ℕ → String → Option String
  pub stats : List Call → ℕ → Option (List Arg)
  -- whether an optional symbol of libvlc.so.5 is found
  pub resolves : Fn → Bool
  -- the plugin path found by `dladdr`
  pub plugin_path : String
  -- the first line of /proc/self/stat and the lines of /proc/self/status, if they can be opened
  pub stat_line : List Call → Option String
  pub status_lines : List Call → List String
  -- `sscanf` for the two times of the process, and for the number behind a label
  pub scan_ticks : String → Option (ℕ × ℕ)
  pub scan_number : String → Option ℤ
  -- `sysconf(_SC_CLK_TCK)`
  pub clk_tck : ℤ

pub record LibEntry : Type 0 where
  pub inst : Option ℕ

pub record MediaEntry : Type 0 where
  pub media : Option ℕ
  pub owned_fd : Option ℕ
  pub lib_handle : ℕ

pub record PlayerEntry : Type 0 where
  pub mp : Option ℕ
  pub lib_handle : ℕ
  pub media_handle : ℕ
  pub video_out_id : String
  pub osd_out_id : String
  pub window_bound : Bool
  pub osd_window_bound : Bool
  pub bound_surface_generation : ℕ
  pub bound_osd_surface_generation : ℕ
  pub seek_worker : Option ℕ
  pub tsfn : Option ℕ
  pub js_callback_ref : Option ℕ

pub record EqEntry : Type 0 where
  pub eq : Option ℕ

pub record MediaListEntry : Type 0 where
  pub list : Option ℕ

pub record MediaDiscovererEntry : Type 0 where
  pub md : Option ℕ
  pub list_handle : ℕ

pub record RendererItemEntry : Type 0 where
  pub item : Option ℕ
  pub rd_handle : ℕ

pub record RendererDiscovererEntry : Type 0 where
  pub rd : Option ℕ
  pub lib_handle : ℕ
  pub item_handles : List ℕ
  pub tsfn : Option ℕ
  pub js_callback_ref : Option ℕ

-- A detached thread that stops and releases a player, before it runs.
pub record StopJob : Type 0 where
  pub mp : ℕ
  pub seek_worker : Option ℕ

-- The globals of the file, the seek workers by the order of their creation (a `shared_ptr` to one is
-- its number), the detached threads, the surface manager, the log queue, and what happened outside.
pub record World : Type 0 where
  pub next_handle : ℕ
  pub libs : List (ℕ × LibEntry)
  pub medias : List (ℕ × MediaEntry)
  pub players : List (ℕ × PlayerEntry)
  pub eqs : List (ℕ × EqEntry)
  pub lists : List (ℕ × MediaListEntry)
  pub mds : List (ℕ × MediaDiscovererEntry)
  pub renderers : List (ℕ × RendererItemEntry)
  pub rds : List (ℕ × RendererDiscovererEntry)
  pub event_users : List (ℕ × ℕ)
  pub rd_event_users : List (ℕ × ℕ)
  pub next_worker : ℕ
  pub workers : List (ℕ × SeekWorker)
  pub jobs : List (ℕ × StopJob)
  pub next_job : ℕ
  pub manager : Manager
  pub diagnostics : PlaybackDiagnostics
  pub trace : List Call

abbrev pub initial : World
initial = record {
  next_handle = 1;
  libs = [];
  medias = [];
  players = [];
  eqs = [];
  lists = [];
  mds = [];
  renderers = [];
  rds = [];
  event_users = [];
  rd_event_users = [];
  next_worker = 0;
  workers = [];
  jobs = [];
  next_job = 0;
  manager = Xcomponent.empty;
  diagnostics = Diagnostics.new;
  trace = [];
}

-- What a function of the module hands back to JavaScript; `undefined` is a null `napi_value`.
pub data Ret : Type 0 where
  undefined : Ret
  -- a `TypeError` that is thrown
  type_error : String → Ret
  value : Arg → Ret
  object : List (String × Arg) → Ret
  array : List (List (String × Arg)) → Ret
  values : List Arg → Ret
  -- elements by their indices, where some are left out
  sparse : List (ℕ × List (String × Arg)) → Ret

abbrev pub handle_mod : ℕ
handle_mod = 2 ^ 32

-- `AllocHandleLocked` gives out `next_handle` and counts it up, as a `uint32_t`.
abbrev pub bump : ℕ → ℕ
bump n = (n + 1) % handle_mod

abbrev pub emit : Call → World → World
emit c w = record w { trace = c ∷ w.trace }

-- `if (no value) return d;`
unfoldable pub need {ℓ κ} : {A : Type ℓ} {B : Type κ} → Option A → B → (A → B) → B
need none d k = d
need (some a) d k = k a

abbrev pub from {ℓ κ} : {A : Type ℓ} {B : Type κ} → Option A → (A → Option B) → Option B
from none k = none
from (some a) k = k a

-- `argc >= n` and a reading of `argv[i]` that succeeds.
abbrev pub arg {ℓ} : {A : Type ℓ} → (ℕ → Option A) → ℕ → ℕ → List ℕ → Option A
arg read n i args = if ltb (length args) n then none else from (get_elem? args i) read

-- The object behind a handle, if there is an entry and its pointer is not null.
unfoldable pub inst_of : ℕ → World → Option ℕ
inst_of h w = from (lookup h w.libs) (λ e. e.inst)

unfoldable pub media_of : ℕ → World → Option ℕ
media_of h w = from (lookup h w.medias) (λ e. e.media)

unfoldable pub player_of : ℕ → World → Option ℕ
player_of h w = from (lookup h w.players) (λ e. e.mp)

unfoldable pub eq_of : ℕ → World → Option ℕ
eq_of h w = from (lookup h w.eqs) (λ e. e.eq)

unfoldable pub list_of : ℕ → World → Option ℕ
list_of h w = from (lookup h w.lists) (λ e. e.list)

unfoldable pub md_of : ℕ → World → Option ℕ
md_of h w = from (lookup h w.mds) (λ e. e.md)

unfoldable pub renderer_of : ℕ → World → Option ℕ
renderer_of h w = from (lookup h w.renderers) (λ e. e.item)

unfoldable pub rd_of : ℕ → World → Option ℕ
rd_of h w = from (lookup h w.rds) (λ e. e.rd)

-- `h = AllocHandleLocked(); g_medias[h] = entry;`, and so for each table.
unfoldable pub store_lib : LibEntry → World → World
store_lib e w = record w { next_handle = bump w.next_handle; libs = insert w.next_handle e w.libs }

unfoldable pub store_media : MediaEntry → World → World
store_media e w = record w {
  next_handle = bump w.next_handle;
  medias = insert w.next_handle e w.medias;
}

unfoldable pub store_player : PlayerEntry → World → World
store_player e w = record w {
  next_handle = bump w.next_handle;
  players = insert w.next_handle e w.players;
}

unfoldable pub store_eq : EqEntry → World → World
store_eq e w = record w { next_handle = bump w.next_handle; eqs = insert w.next_handle e w.eqs }

unfoldable pub store_list : MediaListEntry → World → World
store_list e w = record w {
  next_handle = bump w.next_handle;
  lists = insert w.next_handle e w.lists;
}

unfoldable pub store_md : MediaDiscovererEntry → World → World
store_md e w = record w { next_handle = bump w.next_handle; mds = insert w.next_handle e w.mds }

unfoldable pub store_renderer : RendererItemEntry → World → World
store_renderer e w = record w {
  next_handle = bump w.next_handle;
  renderers = insert w.next_handle e w.renderers;
}

unfoldable pub store_rd : RendererDiscovererEntry → World → World
store_rd e w = record w { next_handle = bump w.next_handle; rds = insert w.next_handle e w.rds }

-- A new object with its own number, for what the program holds by a `shared_ptr` or a thread.
unfoldable pub store_worker : SeekWorker → World → World
store_worker e w = record w {
  next_worker = w.next_worker + 1;
  workers = insert w.next_worker e w.workers;
}

unfoldable pub store_job : StopJob → World → World
store_job e w = record w { next_job = w.next_job + 1; jobs = insert w.next_job e w.jobs }
