-- ===== src/Bridge/Control.antt =====
-- The functions of entry/src/main/cpp/vlc_napi.cpp that set or read something of a player: they check
-- their arguments, find the player, and make one call. A setter that answers says whether libVLC
-- answered 0; a getter has a default for a bad argument and for an unknown handle. The lists that
-- libVLC allocates for an answer, and frees at once, are rows of fields.
pub mod Safety
use vlc_harmony.Base.{
  ℕ, String, Bool, true, false, ◌||◌, Option, none, some, List, [], ◌∷◌, ℤ, nat_beq, is_zero,
  nat_eq, if◌then◌else◌, ◌==◌, string_eq,
}
use vlc_harmony.Bridge.World.{
  Ref, player, renderer, equalizer, Fn, Arg, num, int, bits, text, flag, ptr, Host, World, Ret,
  undefined, value, object, array, did, took, dropped, emit, need, from, arg, player_of,
  renderer_of,
}
use vlc_harmony.Base.Table.{lookup}
use vlc_harmony.Bridge.Calls.{
  both, u32_at, i32_at, i64_at, f64_at, bool_at, string_at, or_else, on_player, call, call_with,
}

-- The bit pattern of the `double` 1.0.
abbrev one_bits : ℕ
one_bits = 0x3ff0000000000000

abbrev pub alone : Option ℕ → Option (ℕ × List Arg)
alone none = none
alone (some h) = some (h, [])

abbrev pub along : {A : Type 0} → (A → Arg) → Option (ℕ × A) → Option (ℕ × List Arg)
along f none = none
along f (some (h, a)) = some (h, f a ∷ [])

-- `ResolveSetOhosVideoVrrAllowed`, and so for the other symbols of libvlc.so.5 that may be missing.
abbrev pub optional : Host → Fn → Option (Unit {0})
optional host f = if host.resolves f then some tt else none

module _ (host : Host) where
  abbrev int_answer : Fn → ℕ → List Arg → World → Ret
  int_answer f mp args w = value (int (host.ask w.trace f (player mp) args))

  abbrev real_answer : Fn → ℕ → List Arg → World → Ret
  real_answer f mp args w = value (bits (host.to_double (host.ask_real w.trace f (player mp) args)))

  abbrev ok_answer : Fn → ℕ → List Arg → World → Ret
  ok_answer f mp args w = value (flag (is_zero (host.ask w.trace f (player mp) args)))

  abbrev rows_answer : Fn → ℕ → List Arg → World → Ret
  rows_answer f mp args w = array (host.ask_rows w.trace f (player mp) args)

  abbrev no_answer : ℕ → List Arg → World → Ret
  no_answer mp args w = undefined

  -- A getter of an `int`, `int64_t`, `float`, and of rows, with its default.
  unfoldable pub get_int : Fn → ℤ → List ℕ → World → Ret × World
  get_int f d args = on_player (alone (u32_at host 1 0 args)) (value (int d)) f (int_answer f)

  unfoldable pub get_real : Fn → ℕ → List ℕ → World → Ret × World
  get_real f d args = on_player (alone (u32_at host 1 0 args)) (value (bits d)) f (real_answer f)

  unfoldable pub get_rows : Fn → List ℕ → World → Ret × World
  get_rows f args = on_player (alone (u32_at host 1 0 args)) (array []) f (rows_answer f)

  unfoldable pub media_player_pause : List ℕ → World → Ret × World
  media_player_pause args =
      on_player (along (λ _. int (ℤ.pos 1)) (both (u32_at host 1 0 args) (some tt))) undefined
        Fn.media_player_set_pause no_answer

  unfoldable pub media_player_get_time : List ℕ → World → Ret × World
  unfolding get_int
  media_player_get_time args = get_int Fn.media_player_get_time (ℤ.negsuc 0) args

  unfoldable pub media_player_get_length : List ℕ → World → Ret × World
  unfolding get_int
  media_player_get_length args = get_int Fn.media_player_get_length (ℤ.negsuc 0) args

  unfoldable pub media_player_set_rate : List ℕ → World → Ret × World
  media_player_set_rate args =
      on_player
        (along (λ r. bits (host.to_float r)) (both (u32_at host 2 0 args) (f64_at host 2 1 args)))
        undefined Fn.media_player_set_rate no_answer

  unfoldable pub media_player_get_rate : List ℕ → World → Ret × World
  unfolding get_real
  media_player_get_rate args = get_real Fn.media_player_get_rate one_bits args

  unfoldable pub media_player_set_volume : List ℕ → World → Ret × World
  media_player_set_volume args =
      on_player (along int (both (u32_at host 2 0 args) (i32_at host 2 1 args))) undefined
        Fn.audio_set_volume no_answer

  unfoldable pub media_player_get_volume : List ℕ → World → Ret × World
  unfolding get_int
  media_player_get_volume args = get_int Fn.audio_get_volume (ℤ.negsuc 0) args

  unfoldable pub media_player_get_state : List ℕ → World → Ret × World
  unfolding get_int
  media_player_get_state args = get_int Fn.media_player_get_state (ℤ.pos 0) args

  unfoldable pub media_player_get_position : List ℕ → World → Ret × World
  unfolding get_real
  media_player_get_position args = get_real Fn.media_player_get_position 0 args

  unfoldable pub media_player_get_fps : List ℕ → World → Ret × World
  unfolding get_real
  media_player_get_fps args = get_real Fn.media_player_get_fps 0 args

  unfoldable pub media_player_set_scale : List ℕ → World → Ret × World
  media_player_set_scale args =
      on_player
        (along (λ r. bits (host.to_float r)) (both (u32_at host 2 0 args) (f64_at host 2 1 args)))
        undefined Fn.video_set_scale no_answer

  abbrev text_or_null : String → Arg
  text_or_null s = if s == "" then ptr none else text s

  unfoldable pub media_player_set_aspect_ratio : List ℕ → World → Ret × World
  media_player_set_aspect_ratio args =
      on_player (along text_or_null (both (u32_at host 2 0 args) (some (string_at host 1 args))))
        undefined Fn.video_set_aspect_ratio no_answer

  -- The fourth argument is `true` where it is missing or no boolean.
  abbrev pub slave_args : List ℕ → Option (ℕ × List Arg)
  slave_args args = elim (both (u32_at host 3 0 args) (i32_at host 3 1 args)) [
    | none ↦ none
    | some (h, kind) ↦ some (
      h,
      int kind
          ∷ text (string_at host 2 args)
          ∷ flag (or_else host (bool_at host 4 3 args) true)
          ∷ [],
    )
  ]

  unfoldable pub media_player_add_slave : List ℕ → World → Ret × World
  media_player_add_slave args =
      on_player (slave_args args) (value (flag false)) Fn.media_player_add_slave
        (ok_answer Fn.media_player_add_slave)

  unfoldable pub media_player_get_audio_tracks : List ℕ → World → Ret × World
  unfolding get_rows
  media_player_get_audio_tracks args = get_rows Fn.audio_get_track_description args

  unfoldable pub media_player_get_spu_tracks : List ℕ → World → Ret × World
  unfolding get_rows
  media_player_get_spu_tracks args = get_rows Fn.video_get_spu_description args

  unfoldable pub media_player_get_video_tracks : List ℕ → World → Ret × World
  unfolding get_rows
  media_player_get_video_tracks args = get_rows Fn.video_get_track_description args

  unfoldable pub media_player_get_audio_track : List ℕ → World → Ret × World
  unfolding get_int
  media_player_get_audio_track args = get_int Fn.audio_get_track (ℤ.negsuc 0) args

  unfoldable pub media_player_get_spu_track : List ℕ → World → Ret × World
  unfolding get_int
  media_player_get_spu_track args = get_int Fn.video_get_spu (ℤ.negsuc 0) args

  unfoldable pub media_player_get_video_track : List ℕ → World → Ret × World
  unfolding get_int
  media_player_get_video_track args = get_int Fn.video_get_track (ℤ.negsuc 0) args

  unfoldable pub media_player_set_audio_track : List ℕ → World → Ret × World
  media_player_set_audio_track args =
      on_player (along int (both (u32_at host 2 0 args) (i32_at host 2 1 args)))
        (value (flag false)) Fn.audio_set_track (ok_answer Fn.audio_set_track)

  unfoldable pub media_player_set_spu_track : List ℕ → World → Ret × World
  media_player_set_spu_track args =
      on_player (along int (both (u32_at host 2 0 args) (i32_at host 2 1 args)))
        (value (flag false)) Fn.video_set_spu (ok_answer Fn.video_set_spu)

  unfoldable pub media_player_set_video_track : List ℕ → World → Ret × World
  media_player_set_video_track args =
      on_player (along int (both (u32_at host 2 0 args) (i32_at host 2 1 args)))
        (value (flag false)) Fn.video_set_track (ok_answer Fn.video_set_track)

  unfoldable pub media_player_set_spu_delay : List ℕ → World → Ret × World
  media_player_set_spu_delay args =
      on_player (along int (both (u32_at host 2 0 args) (i64_at host 2 1 args)))
        (value (flag false)) Fn.video_set_spu_delay (ok_answer Fn.video_set_spu_delay)

  unfoldable pub media_player_get_spu_delay : List ℕ → World → Ret × World
  unfolding get_int
  media_player_get_spu_delay args = get_int Fn.video_get_spu_delay (ℤ.negsuc 0) args

  unfoldable pub media_player_set_audio_delay : List ℕ → World → Ret × World
  media_player_set_audio_delay args =
      on_player (along int (both (u32_at host 2 0 args) (i64_at host 2 1 args)))
        (value (flag false)) Fn.audio_set_delay (ok_answer Fn.audio_set_delay)

  unfoldable pub media_player_get_audio_delay : List ℕ → World → Ret × World
  unfolding get_int
  media_player_get_audio_delay args = get_int Fn.audio_get_delay (ℤ.negsuc 0) args

  -- The title is -1, the current one, where it is missing or no number.
  unfoldable pub media_player_get_chapters : List ℕ → World → Ret × World
  media_player_get_chapters args =
      on_player
        (along int
          (both (u32_at host 1 0 args) (some (or_else host (i32_at host 2 1 args) (ℤ.negsuc 0)))))
        (array []) Fn.media_player_get_full_chapter_descriptions
        (rows_answer Fn.media_player_get_full_chapter_descriptions)

  unfoldable pub media_player_get_chapter : List ℕ → World → Ret × World
  unfolding get_int
  media_player_get_chapter args = get_int Fn.media_player_get_chapter (ℤ.negsuc 0) args

  unfoldable pub media_player_set_chapter : List ℕ → World → Ret × World
  media_player_set_chapter args =
      on_player (along int (both (u32_at host 2 0 args) (i32_at host 2 1 args))) undefined
        Fn.media_player_set_chapter no_answer

  unfoldable pub media_player_clear_renderer : List ℕ → World → Ret × World
  media_player_clear_renderer args =
      on_player (along (λ _. ptr none) (both (u32_at host 1 0 args) (some tt))) (value (flag false))
        Fn.media_player_set_renderer (ok_answer Fn.media_player_set_renderer)

  unfoldable pub media_player_clear_equalizer : List ℕ → World → Ret × World
  media_player_clear_equalizer args =
      on_player (along (λ _. ptr none) (both (u32_at host 1 0 args) (some tt))) (value (flag false))
        Fn.media_player_set_equalizer (ok_answer Fn.media_player_set_equalizer)

  -- The size is an object only where libVLC knows both sides.
  abbrev size_answer : ℕ → List Arg → World → Ret
  size_answer mp args w = elim (host.video_size w.trace mp) [
    | none ↦ undefined
    | some (px, py) ↦
        if nat_beq px 0 || nat_beq py 0
        then undefined
        else object (("width", num px) ∷ ("height", num py) ∷ [])
  ]

  unfoldable pub media_player_get_video_size : List ℕ → World → Ret × World
  media_player_get_video_size args =
      on_player (alone (u32_at host 1 0 args)) undefined Fn.video_get_size size_answer

  -- The renderer is looked up with the player; the call is made only if both are there.
  unfoldable pub media_player_set_renderer : List ℕ → World → Ret × World
  media_player_set_renderer args w =
      need (both (u32_at host 2 0 args) (u32_at host 2 1 args)) (value (flag false), w)
        λ (ph, rh).
          need (renderer_of rh w) (value (flag false), w)
            λ item.
              need (player_of ph w) (value (flag false), w)
                λ mp.
                  call_with Fn.media_player_set_renderer (player mp) (renderer item) []
                    (ok_answer Fn.media_player_set_renderer mp (ptr (some item) ∷ [])) w

  -- `libvlc_media_player_set_equalizer`, which takes a null pointer as well.
  unfoldable pub hand_equalizer : ℕ → Option ℕ → World → Ret × World
  hand_equalizer mp none =
      call Fn.media_player_set_equalizer (player mp) (ptr none ∷ [])
        (ok_answer Fn.media_player_set_equalizer mp (ptr none ∷ []))
  hand_equalizer mp (some p) =
      call_with Fn.media_player_set_equalizer (player mp) (equalizer p) []
        (ok_answer Fn.media_player_set_equalizer mp (ptr (some p) ∷ []))

  -- The entry of the equalizer has to be there, its pointer is handed on as it is.
  unfoldable pub media_player_set_equalizer : List ℕ → World → Ret × World
  unfolding hand_equalizer
  media_player_set_equalizer args w =
      need (both (u32_at host 2 0 args) (u32_at host 2 1 args)) (value (flag false), w)
        λ (ph, eh).
          need (lookup eh w.eqs) (value (flag false), w)
            λ e. need (player_of ph w) (value (flag false), w) λ mp. hand_equalizer mp e.eq w

  -- The player is retained across the call, which an older libVLC may not have.
  unfoldable pub media_player_set_video_vrr_allowed : List ℕ → World → Ret × World
  media_player_set_video_vrr_allowed args w =
      need (both (u32_at host 2 0 args) (bool_at host 2 1 args)) (value (flag false), w)
        λ (h, allowed).
          need (optional host Fn.media_player_set_ohos_video_vrr_allowed) (value (flag false), w)
            λ _.
              need (player_of h w) (value (flag false), w)
                λ mp. (
                  value (flag true),
                  emit (dropped (player mp)) (
                      emit
                        (did Fn.media_player_set_ohos_video_vrr_allowed (player mp)
                          (flag allowed ∷ []))
                        (emit (took (player mp)) w)),
                )
