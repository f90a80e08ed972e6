-- ===== src/Bridge/Media.antt =====
-- The instance and media functions of entry/src/main/cpp/vlc_napi.cpp. `libvlc_free` of the texts of
-- a media's meta data and the release of the track array are left out: the texts are values here.
pub mod Safety
pub mod Parse
use vlc_harmony.Base.{
  ℕ, zero, suc, ◌+◌, ◌/◌, ◌-◌, ◌%◌, ◌^◌, String, Bool, true, false, not, ◌||◌, Option, none, some,
  List, [], ◌∷◌, ◌++◌, map, ℤ, ltb, nat_beq, is_zero, if◌then◌else◌, ◌==◌, string_eq, nat_eq,
}
use Prim.Native.String.{◌++◌ as ◌str++◌}
use vlc_harmony.Base.Table.{lookup, erase}
use vlc_harmony.Xcomponent.{set_surface_ready_callback, set_surface_destroyed_callback}
use vlc_harmony.Bridge.World.{
  Ref, inst, media, fd, Fn, Arg, num, int, bits, text, flag, ptr, Host, Track, World, LibEntry,
  MediaEntry, Ret, undefined, value, object, array, sparse, did, did_with, took, dropped, free_call,
  emit, need, from, inst_of, media_of, store_lib, store_media,
}
use vlc_harmony.Bridge.Logs.{configure_ffmpeg_trace}
use vlc_harmony.Bridge.Calls.{both, u32_at, i32_at, string_at, or_else, call, drop}

-- The answer 0 of the functions that create something, for a failure.
abbrev pub zero_handle : Ret
zero_handle = value (num 0)

-- `static_cast<unsigned>` of an `int`.
abbrev to_unsigned : ℤ → ℕ
to_unsigned (ℤ.pos n) = n % 2 ^ 32
to_unsigned (ℤ.negsuc n) = 2 ^ 32 - 1 - n % 2 ^ 32

module _ (host : Host) where
  -- The options handed to `libvlc_new`: five of its own, then the caller's, if they are an array.
  create_options : Bool → List ℕ → List Arg
  create_options trace args =
      text ("--plugin-path=" str++ host.plugin_path)
      ∷ text (if trace then "--verbose=2" else "--verbose=0")
      ∷ text "--no-media-library"
      ∷ text "--ignore-config"
      ∷ text "--stats"
      ∷ map (λ v. text (host.get_string v))
          (elim args [ [] ↦ [] | v ∷ rest ↦ or_else host (host.get_array v) [] ])

  unfoldable pub libvlc_create : List ℕ → World → Ret × World
  unfolding create_options
  libvlc_create args w =
      let options = create_options w.diagnostics.enabled args in
      let w₁ = emit (free_call Fn.libvlc_new options) w in
      need (host.make w.trace Fn.libvlc_new options) (zero_handle, w₁)
        λ i.
          let w₂ = emit (did Fn.log_set (inst i) []) (emit (took (inst i)) w₁) in
          let w₃ =
            store_lib (record { inst = some i })
              (configure_ffmpeg_trace host w.diagnostics.enabled w₂) in
          (
            value (num w.next_handle),
            record w₃ {
              manager = set_surface_destroyed_callback (set_surface_ready_callback w₃.manager);
            },
          )

  unfoldable pub libvlc_release : List ℕ → World → Ret × World
  libvlc_release args w =
      need (u32_at host 1 0 args) (undefined, w)
        λ h.
          need (lookup h w.libs) (undefined, w)
            λ e. (undefined, drop inst e.inst (record w { libs = erase h w.libs }))

  -- `MediaCreateLocation` and `MediaCreatePath` differ in the function called alone.
  unfoldable pub media_create : Fn → List ℕ → World → Ret × World
  media_create f args w =
      need (u32_at host 2 0 args) (zero_handle, w)
        λ lib.
          need (inst_of lib w) (zero_handle, w)
            λ i.
              let name = text (string_at host 1 args) ∷ [] in
              let w₁ = emit (did f (inst i) name) w in
              need (host.make w.trace f name) (zero_handle, w₁)
                λ m. (
                  value (num w.next_handle),
                  store_media (record { media = some m; owned_fd = none; lib_handle = lib })
                      (emit (took (media m)) w₁),
                )

  unfoldable pub media_create_location : List ℕ → World → Ret × World
  unfolding media_create
  media_create_location = media_create Fn.media_new_location

  unfoldable pub media_create_path : List ℕ → World → Ret × World
  unfolding media_create
  media_create_path = media_create Fn.media_new_path

  -- A file descriptor is no negative number.
  abbrev fd_at : List ℕ → Option ℕ
  fd_at args = from (i32_at host 2 1 args) λ n. elim n [ ℤ.pos k ↦ some k | ℤ.negsuc k ↦ none ]

  -- The part of `MediaCreateFd` that has the duplicate, which is closed where no media comes of it.
  unfoldable pub media_of_fd : ℕ → ℕ → ℕ → World → Ret × World
  media_of_fd lib i d w =
      let w₁ = emit (did_with Fn.media_new_fd (inst i) (fd d) []) w in
      need (host.make w.trace Fn.media_new_fd (num d ∷ [])) (zero_handle, emit (dropped (fd d)) w₁)
        λ m. (
          value (num w.next_handle),
          store_media (record { media = some m; owned_fd = some d; lib_handle = lib })
              (emit (took (media m)) w₁),
        )

  unfoldable pub media_create_fd : List ℕ → World → Ret × World
  media_create_fd args w =
      need (both (u32_at host 2 0 args) (fd_at args)) (zero_handle, w)
        λ (lib, n).
          need (inst_of lib w) (zero_handle, w)
            λ i.
              let w₁ = emit (free_call Fn.dup (num n ∷ [])) w in
              need (host.make w.trace Fn.dup (num n ∷ [])) (zero_handle, w₁)
                λ d. media_of_fd lib i d (emit (did Fn.lseek (fd d) []) (emit (took (fd d)) w₁))

  unfoldable pub media_release : List ℕ → World → Ret × World
  media_release args w =
      need (u32_at host 1 0 args) (undefined, w)
        λ h.
          need (lookup h w.medias) (undefined, w)
            λ e. (
              undefined,
              drop fd e.owned_fd (drop media e.media (record w { medias = erase h w.medias })),
            )

  unfoldable pub media_add_option : List ℕ → World → Ret × World
  media_add_option args w =
      need (u32_at host 2 0 args) (value (flag false), w)
        λ h.
          let option = string_at host 1 args in
          need (media_of h w) (value (flag false), w)
            λ m.
              need (if option == "" then none else some (tt {0})) (value (flag false), w)
                λ _.
                  call Fn.media_add_option (media m) (text option ∷ []) (λ _. value (flag true)) w

  -- The priority is 4 where it is missing or no number.
  unfoldable pub media_add_slave : List ℕ → World → Ret × World
  media_add_slave args w =
      need (both (u32_at host 3 0 args) (i32_at host 3 1 args)) (value (flag false), w)
        λ (h, kind).
          need (media_of h w) (value (flag false), w)
            λ m.
              let slave =
                int kind
                ∷ num (to_unsigned (or_else host (i32_at host 4 3 args) (ℤ.pos 4)))
                ∷ text (string_at host 2 args)
                ∷ [] in
              call Fn.media_slaves_add (media m) slave
                (λ w. value (flag (is_zero (host.ask w.trace Fn.media_slaves_add (media m) slave))))
                w

abbrev or_empty : Option String → Arg
or_empty none = text ""
or_empty (some s) = text s

-- The fields that only an audio, or only a video track has.
abbrev audio_fields : Track → List (String × Arg)
audio_fields t =
    if nat_beq t.kind 0
    then elim t.audio [
      | none ↦ []
      | some (channels, rate) ↦ ("channels", num channels) ∷ ("sampleRate", num rate) ∷ []
    ]
    else []

abbrev video_fields : Track → List (String × Arg)
video_fields t =
    if nat_beq t.kind 1
    then elim t.video [
      | none ↦ []
      | some (width, height, frames, per) ↦
          ("videoWidth", num width)
          ∷ ("videoHeight", num height)
          ∷ ("frameRateNum", num frames)
          ∷ ("frameRateDen", num per)
          ∷ []
    ]
    else []

track_fields : Track → List (String × Arg)
track_fields t =
    ("id", int t.id)
    ∷ ("type", num t.kind)
    ∷ ("codecFourcc", num t.codec)
    ∷ ("codecDesc", or_empty t.description)
    ∷ ("language", or_empty t.language)
    ∷ ("bitrate", num t.bitrate)
    ∷ (audio_fields t ++ video_fields t)

-- Each track goes to its own index; a null pointer leaves a gap.
track_rows : ℕ → List (Option Track) → List (ℕ × List (String × Arg))
unfolding track_fields
track_rows i [] = []
track_rows i (none ∷ ts) = track_rows (i + 1) ts
track_rows i (some t ∷ ts) = (i, track_fields t) ∷ track_rows (i + 1) ts

stat_names : List String
stat_names =
    "readBytes" ∷ "inputBitrate" ∷ "demuxReadBytes" ∷ "demuxBitrate" ∷ "demuxCorrupted"
    ∷ "demuxDiscontinuity" ∷ "decodedVideo" ∷ "decodedAudio" ∷ "displayedPictures" ∷ "lostPictures"
    ∷ "playedAbuffers" ∷ "lostAbuffers" ∷ "sentPackets" ∷ "sentBytes" ∷ "sendBitrate" ∷ []

label : List String → List Arg → List (String × Arg)
label (n ∷ ns) (a ∷ as') = (n, a) ∷ label ns as'
label [] as' = []
label (n ∷ ns) [] = []

module _ (host : Host) where
  unfoldable pub media_get_tracks_info : List ℕ → World → Ret × World
  unfolding track_rows
  media_get_tracks_info args w =
      need (u32_at host 1 0 args) (undefined, w)
        λ h.
          need (media_of h w) (undefined, w)
            λ m.
              call Fn.media_tracks_get (media m) []
                (λ w.
                  sparse (elim (host.tracks w.trace m) [ none ↦ [] | some ts ↦ track_rows 0 ts ]))
                w

  unfoldable pub media_get_meta : List ℕ → World → Ret × World
  media_get_meta args w =
      need (u32_at host 1 0 args) (undefined, w)
        λ h.
          need (media_of h w) (undefined, w)
            λ m.
              let w₁ = emit (did Fn.media_get_meta (media m) (text "Title" ∷ [])) w in
              let w₂ = emit (did Fn.media_get_meta (media m) (text "Artist" ∷ [])) w₁ in
              let w₃ = emit (did Fn.media_get_meta (media m) (text "Album" ∷ [])) w₂ in
              call Fn.media_get_duration (media m) []
                (λ w₃. object (
                  ("title", or_empty (host.meta w.trace m "Title"))
                  ∷ ("artist", or_empty (host.meta w₁.trace m "Artist"))
                  ∷ ("album", or_empty (host.meta w₂.trace m "Album"))
                  ∷ ("duration", int (host.ask w₃.trace Fn.media_get_duration (media m) []))
                  ∷ []))
                w₃

  unfoldable pub media_get_stats : List ℕ → World → Ret × World
  unfolding label stat_names
  media_get_stats args w =
      need (u32_at host 1 0 args) (undefined, w)
        λ h.
          need (media_of h w) (undefined, w)
            λ m.
              call Fn.media_get_stats (media m) []
                (λ w. elim (host.stats w.trace m) [
                  | none ↦ undefined
                  | some values ↦ object (label stat_names values)
                ])
                w

-- `elapsed > timeoutMs + 500`: a sum that leaves `int` wraps to a negative number, which every time
-- is above.
abbrev is_late : ℤ → ℕ → Bool
is_late (ℤ.pos timeout) ms = ltb (2 ^ 31) (timeout + 501) || ltb (timeout + 500) ms
is_late (ℤ.negsuc n) ms = ltb 500 (ms + n + 1)

-- As many rounds of 20 ms as can pass before it is late, and two more.
abbrev pub polls : ℤ → ℕ
polls (ℤ.pos timeout) = (timeout + 500) / 20 + 2
polls (ℤ.negsuc n) = 500 / 20 + 2

-- `libvlc_media_parsed_status_t`: 1 skipped, 2 failed, 3 timeout, 4 done; the rest is unfinished.
abbrev is_final : ℤ → Bool
is_final (ℤ.pos n) = nat_beq n 4 || nat_beq n 2 || nat_beq n 3 || nat_beq n 1
is_final (ℤ.negsuc n) = false

abbrev is_done : ℤ → Bool
is_done (ℤ.pos n) = nat_beq n 4
is_done (ℤ.negsuc n) = false

module _ (host : Host) where
  -- The loop that waits for the parser: `none` only if the rounds run out (`Parse`). `n` is the
  -- number of the round.
  unfoldable pub parse_wait : ℕ → ℕ → ℤ → ℕ → World → Option Bool × World
  parse_wait zero n timeout m w = (none, w)
  parse_wait (suc rounds) n timeout m w =
      let status = host.ask w.trace Fn.media_get_parsed_status (media m) [] in
      let w₁ = emit (did Fn.media_get_parsed_status (media m) []) w in
      let rest = parse_wait rounds (n + 1) timeout m w₁ in
      if is_final status
      then (some (is_done status), w₁)
      else if is_late timeout (host.elapsed w₁.trace n)
      then (some false, w₁)
      else rest

  abbrev or_false : Option Bool × World → Ret × World
  or_false (o, w) = (value (flag (or_else host o false)), w)

  -- The media is retained while the lock is not held.
  unfoldable pub media_parse : List ℕ → World → Ret × World
  media_parse args w =
      need (u32_at host 1 0 args) (value (flag false), w)
        λ h.
          let timeout = or_else host (i32_at host 2 1 args) (ℤ.pos 5000) in
          need (media_of h w) (value (flag false), w)
            λ m.
              let w₁ = emit (took (media m)) w in
              let w₂ = emit (did Fn.media_parse_with_options (media m) (int timeout ∷ [])) w₁ in
              let rc = host.ask w₁.trace Fn.media_parse_with_options (media m) (int timeout ∷ []) in
              let (o, w₃) =
                if is_zero rc then parse_wait (polls timeout) 0 timeout m w₂ else (none, w₂) in
              or_false (o, emit (dropped (media m)) w₃)
