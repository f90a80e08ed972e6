-- ===== src/Bridge/Equalizer/Safety.antt =====
-- The equalizer functions of entry/src/main/cpp/vlc_napi.cpp keep the account of references.
use vlc_harmony.Base.{ℕ, refl, List, [], arith, nat_eq}
use vlc_harmony.Bridge.World.{equalizer, Fn, Arg, Host, World, Ret}
use vlc_harmony.Bridge.Ledger.{Dead, Inv}
use vlc_harmony.Bridge.Ledger.Moves.{took-Inv, hand-Inv}
use vlc_harmony.Bridge.Ledger.Tables.{erase_eq-Inv}
use vlc_harmony.Bridge.Ledger.Owned.{eq_of-owned}
use vlc_harmony.Bridge.Calls.Safety.{Good, Keeps, need-Good, unchanged, call-Good}
use vlc_harmony.Bridge.Calls.Stored.{free_call-Inv, drop-Good, store_eq-Good}
use vlc_harmony.Bridge.Equalizer.{
  query, equalizer_get_preset_count, equalizer_get_preset_name, equalizer_get_band_count,
  equalizer_get_band_frequency, equalizer_new, equalizer_create, equalizer_create_from_preset,
  equalizer_release, equalizer_set_pre_amp, equalizer_get_pre_amp, equalizer_set_amp,
  equalizer_get_amp,
}

module _ ⦃dead : Dead⦄ where
  query-Good :
      (f : Fn) (a : List Arg) (answer : Ret) (w : World) → Inv w → Good w (query f a answer w).1
  unfolding query
  query-Good f a answer w v = (free_call-Inv (λ _. 0) w f a v, omega arith)

  module _ (host : Host) where
    equalizer_new-Keeps : (f : Fn) (a : List Arg) → Keeps (equalizer_new host f a)
    unfolding equalizer_new
    equalizer_new-Keeps f a w v room =
        let v₁ = free_call-Inv (λ _. 0) w f a v in
        need-Good w _ _ _ (v₁, omega arith)
          λ p made.
            store_eq-Good w _ refl room _
              (hand-Inv (λ r. omega arith) (took-Inv (λ _. 0) _ (equalizer p) v₁))

  module _ (host : Host) (args : List ℕ) where
    pub equalizer_create-Keeps : Keeps (equalizer_create host args)
    unfolding equalizer_create
    equalizer_create-Keeps = equalizer_new-Keeps host Fn.audio_equalizer_new []

    pub equalizer_create_from_preset-Keeps : Keeps (equalizer_create_from_preset host args)
    unfolding equalizer_create_from_preset
    equalizer_create_from_preset-Keeps =
        equalizer_new-Keeps host Fn.audio_equalizer_new_from_preset _

    pub equalizer_release-Keeps : Keeps (equalizer_release host args)
    unfolding equalizer_release
    equalizer_release-Keeps w v room = need-Good w _ _ _ (unchanged w v) λ h e.
        need-Good w _ _ _ (unchanged w v) λ entry at.
          drop-Good w equalizer entry.eq _ (omega arith) (erase_eq-Inv (λ _. 0) w h entry at v)

    pub equalizer_set_pre_amp-Keeps : Keeps (equalizer_set_pre_amp host args)
    unfolding equalizer_set_pre_amp
    equalizer_set_pre_amp-Keeps w v room =
        need-Good w _ _ _ (unchanged w v) λ a e.
          need-Good w _ _ _ (unchanged w v) λ p at. call-Good _ _ _ w v (eq_of-owned a.0 w at)

    pub equalizer_get_pre_amp-Keeps : Keeps (equalizer_get_pre_amp host args)
    unfolding equalizer_get_pre_amp
    equalizer_get_pre_amp-Keeps w v room =
        need-Good w _ _ _ (unchanged w v)
          λ a e. need-Good w _ _ _ (unchanged w v) λ p at. call-Good _ _ _ w v (eq_of-owned a w at)

    pub equalizer_set_amp-Keeps : Keeps (equalizer_set_amp host args)
    unfolding equalizer_set_amp
    equalizer_set_amp-Keeps w v room =
        need-Good w _ _ _ (unchanged w v) λ a e.
          need-Good w _ _ _ (unchanged w v) λ p at. call-Good _ _ _ w v (eq_of-owned a.0 w at)

    pub equalizer_get_amp-Keeps : Keeps (equalizer_get_amp host args)
    unfolding equalizer_get_amp
    equalizer_get_amp-Keeps w v room =
        need-Good w _ _ _ (unchanged w v) λ a e.
          need-Good w _ _ _ (unchanged w v) λ p at. call-Good _ _ _ w v (eq_of-owned a.0 w at)

    pub equalizer_get_preset_count-Keeps : Keeps (equalizer_get_preset_count host args)
    unfolding equalizer_get_preset_count
    equalizer_get_preset_count-Keeps w v room = query-Good _ _ Ret.undefined w v

    pub equalizer_get_preset_name-Keeps : Keeps (equalizer_get_preset_name host args)
    unfolding equalizer_get_preset_name
    equalizer_get_preset_name-Keeps w v room = query-Good _ _ Ret.undefined w v

    pub equalizer_get_band_count-Keeps : Keeps (equalizer_get_band_count host args)
    unfolding equalizer_get_band_count
    equalizer_get_band_count-Keeps w v room = query-Good _ _ Ret.undefined w v

    pub equalizer_get_band_frequency-Keeps : Keeps (equalizer_get_band_frequency host args)
    unfolding equalizer_get_band_frequency
    equalizer_get_band_frequency-Keeps w v room = query-Good _ _ Ret.undefined w v
