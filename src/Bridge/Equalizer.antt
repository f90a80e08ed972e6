-- ===== src/Bridge/Equalizer.antt =====
-- The equalizer functions of entry/src/main/cpp/vlc_napi.cpp.
pub mod Safety
use vlc_harmony.Base.{
  ℕ, zero, String, Bool, false, Option, none, some, List, [], ◌∷◌, ℤ, is_zero, nat_eq,
}
use vlc_harmony.Base.Table.{lookup, erase}
use vlc_harmony.Bridge.World.{
  Ref, equalizer, Fn, Arg, num, bits, flag, text, Host, World, EqEntry, Ret, undefined, value, took,
  free_call, emit, need, from, arg, eq_of, store_eq,
}
use vlc_harmony.Bridge.Calls.{both, u32_at, f64_at, or_else, call, drop}

-- The queries of presets and bands are calls on no object.
query : Fn → List Arg → Ret → World → Ret × World
query f args answer w = (answer, emit (free_call f args) w)

module _ (host : Host) where
  -- `EqualizerCreate` and `EqualizerCreateFromPreset` differ in the call.
  equalizer_new : Fn → List Arg → World → Ret × World
  equalizer_new f args w =
      let w₁ = emit (free_call f args) w in
      need (host.make w.trace f args) (value (num 0), w₁)
        λ p. (
          value (num w.next_handle),
          store_eq (record { eq = some p }) (emit (took (equalizer p)) w₁),
        )

  unfoldable pub equalizer_create : List ℕ → World → Ret × World
  unfolding equalizer_new
  equalizer_create args = equalizer_new Fn.audio_equalizer_new []

  -- The preset is 0 where it is missing or no number.
  unfoldable pub equalizer_create_from_preset : List ℕ → World → Ret × World
  unfolding equalizer_new
  equalizer_create_from_preset args =
      equalizer_new Fn.audio_equalizer_new_from_preset
        (num (or_else host (u32_at host 1 0 args) 0) ∷ [])

  unfoldable pub equalizer_release : List ℕ → World → Ret × World
  equalizer_release args w =
      need (u32_at host 1 0 args) (undefined, w)
        λ h.
          need (lookup h w.eqs) (undefined, w)
            λ e. (undefined, drop equalizer e.eq (record w { eqs = erase h w.eqs }))

  unfoldable pub equalizer_set_pre_amp : List ℕ → World → Ret × World
  equalizer_set_pre_amp args w =
      need (both (u32_at host 2 0 args) (f64_at host 2 1 args)) (value (flag false), w)
        λ (h, pre).
          need (eq_of h w) (value (flag false), w)
            λ p.
              let a = bits (host.to_float pre) ∷ [] in
              call Fn.audio_equalizer_set_preamp (equalizer p) a
                (λ w.
                  value (
                    flag
                      (is_zero (host.ask w.trace Fn.audio_equalizer_set_preamp (equalizer p) a))))
                w

  unfoldable pub equalizer_get_pre_amp : List ℕ → World → Ret × World
  equalizer_get_pre_amp args w =
      need (u32_at host 1 0 args) (value (bits 0), w)
        λ h.
          need (eq_of h w) (value (bits 0), w)
            λ p.
              call Fn.audio_equalizer_get_preamp (equalizer p) []
                (λ w. value (
                  bits (
                    host.to_double
                      (host.ask_real w.trace Fn.audio_equalizer_get_preamp (equalizer p) []))))
                w

  unfoldable pub equalizer_set_amp : List ℕ → World → Ret × World
  equalizer_set_amp args w =
      need (both (u32_at host 3 0 args) (both (u32_at host 3 1 args) (f64_at host 3 2 args)))
        (value (flag false), w)
        λ (h, band_amp).
          need (eq_of h w) (value (flag false), w)
            λ p.
              let a = bits (host.to_float band_amp.1) ∷ num band_amp.0 ∷ [] in
              call Fn.audio_equalizer_set_amp_at_index (equalizer p) a
                (λ w. value (
                  flag (
                    is_zero
                      (host.ask w.trace Fn.audio_equalizer_set_amp_at_index (equalizer p) a))))
                w

  unfoldable pub equalizer_get_amp : List ℕ → World → Ret × World
  equalizer_get_amp args w =
      need (both (u32_at host 2 0 args) (u32_at host 2 1 args)) (value (bits 0), w)
        λ (h, band).
          need (eq_of h w) (value (bits 0), w)
            λ p.
              let a = num band ∷ [] in
              call Fn.audio_equalizer_get_amp_at_index (equalizer p) a
                (λ w. value (
                  bits (
                    host.to_double
                      (host.ask_real w.trace Fn.audio_equalizer_get_amp_at_index (equalizer p) a))))
                w

  -- The index, 0 where it is missing or no number.
  index : List ℕ → List Arg
  index args = num (or_else host (u32_at host 1 0 args) 0) ∷ []

  abbrev name_answer : Option String → Ret
  name_answer none = value (text "")
  name_answer (some n) = value (text n)

  unfoldable pub equalizer_get_preset_count : List ℕ → World → Ret × World
  unfolding query
  equalizer_get_preset_count args w =
      query Fn.audio_equalizer_get_preset_count []
        (value (num (host.free_num w.trace Fn.audio_equalizer_get_preset_count []))) w

  unfoldable pub equalizer_get_preset_name : List ℕ → World → Ret × World
  unfolding query index
  equalizer_get_preset_name args w =
      query Fn.audio_equalizer_get_preset_name (index args)
        (name_answer (host.free_text w.trace Fn.audio_equalizer_get_preset_name (index args))) w

  unfoldable pub equalizer_get_band_count : List ℕ → World → Ret × World
  unfolding query
  equalizer_get_band_count args w =
      query Fn.audio_equalizer_get_band_count []
        (value (num (host.free_num w.trace Fn.audio_equalizer_get_band_count []))) w

  unfoldable pub equalizer_get_band_frequency : List ℕ → World → Ret × World
  unfolding query index
  equalizer_get_band_frequency args w =
      query Fn.audio_equalizer_get_band_frequency (index args)
        (value (
          bits (
            host.to_double
              (host.free_real w.trace Fn.audio_equalizer_get_band_frequency (index args)))))
        w
