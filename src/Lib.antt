-- ===== src/Lib.antt =====
-- The native module of vlc-harmony (entry/src/main/cpp), which gives JavaScript the objects of
-- libVLC behind integer handles.
--
-- The parts, and the files that model them:
-- - Base, Base/Tests, Base/Table, Base/Lists: names of the library passed on, Boolean tests,
--   `std::unordered_map` as an association list with its lemmas on counting.
-- - Seek: the seek worker of vlc_napi.cpp, one thread for each player. `QueueSeek` is `queue_seek`,
--   one turn of the thread in `RunSeekWorker` is `turn`, `ShutdownSeekWorker` is `stop` and `join`.
--   Seek/Order, Seek/Latest and Seek/Shutdown have the theorems, Seek/Turns what a turn can do.
-- - Diagnostics: the bounded log queue of playback_diagnostics.h. `Submit` is `submit`, a round of
--   `Run` is `take_entry` and `report_dropped`. Diagnostics/Bounds and Diagnostics/Fifo prove.
-- - Xcomponent: the surface manager of xcomponent_manager.h and xcomponent_manager.cpp. Its callbacks
--   are `on_surface_created`, `on_surface_changed`, `on_surface_destroyed`; Xcomponent/History proves.
-- - Bridge: vlc_napi.cpp. Bridge/World has the globals as a record, and libVLC, N-API and the C
--   library as the parameter `Host`: whatever they answer, as a function of all calls made before.
--   The state keeps the list of these calls, each with the object that it was made on and with the
--   counted one that it was handed, if any. Bridge/Calls has the checks of arguments in front of a
--   call. Each function of the module is a function of its name in snake case in Bridge/Media,
--   Bridge/Player, Bridge/Control, Bridge/Equalizer, Bridge/Lists, Bridge/Surfaces,
--   Bridge/Renderers, Bridge/Logs or Bridge/Usage. Bridge/Events has the events of a player,
--   Bridge/Windows what happens when the platform reports a surface or takes it away, which the
--   callbacks of Xcomponent start. Bridge/Surfaces/Screen is what an app thinks of the picture of a
--   player, Bridge/Surfaces/Refinement runs of both side by side. Bridge/Api has the table of
--   functions that JavaScript gets, and the registration. Bridge/Ledger has the account of references
--   and handles and its steps, the files called Safety, Bridge/Renderers/Found and
--   Bridge/Player/Listener, that each function keeps it, Bridge/Api/Refusal what a function does with
--   a handle that stands for nothing, Bridge/Run runs of all of them in any order.
--
-- How it is modelled. Pointers, `napi_value`s and bit patterns of floating point numbers are numbers,
-- a null pointer is `none`. A locked section is one step. A function of the module is one step of the
-- Bridge as well, as they all run on the one JavaScript thread, and so is a callback for a surface,
-- which the platform makes on the same thread; what other threads do to the tables in
-- its unlocked moments is not modelled: the functions that set a window give the lock up while they
-- call libVLC, and `on_player_event` between reading the function that it calls and acquiring it,
-- which is one step in Bridge/Run, and which Bridge/Player/Race takes apart. The seek threads and
-- the detached threads that stop a player take steps of their own. In Seek and Diagnostics, any order
-- of the steps of the threads is a run. Times are numbers that a step is given.
-- The account of references has a handle `Dead` as an instance argument, of which it shows that no
-- table ever has an entry for it again: 0, or one whose object has gone.
--
-- Bounds and fuel. Serials and generations are counted modulo 2^64, handles modulo 2^32; theorems
-- that need counters not to wrap say so. A join is three turns of the thread, and `MediaParse` polls
-- a number of times that its timeout gives; that both are enough is proved.
--
-- Not modelled: the resolution of optional symbols with dlopen and dlsym, libVLC, N-API and the
-- system, which are parameters; the lines that the module writes to the system log on its own
-- behalf; the lines of FFmpeg and libVLC are filtered in Bridge/Logs, but their arrival is no action
-- of Bridge/Run; what `call_js` makes of an event for JavaScript; the ArkTS application,
-- but for the names that it has for events (Bridge/Events/Names).
pub mod Base
pub mod Seek
pub mod Bridge
pub mod Diagnostics
pub mod Xcomponent
