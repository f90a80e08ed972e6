-- ===== src/Bridge/Api/Refusal/Equalizer.antt =====
-- The functions of equalizers in entry/src/main/cpp/vlc_napi.cpp refuse a
-- handle that stands for no entry.
use vlc_harmony.Base.{ℕ, ◌≡◌, List}
use vlc_harmony.Bridge.World.{Host, World}
use vlc_harmony.Bridge.Equalizer.{
  equalizer_get_amp, equalizer_get_pre_amp, equalizer_release, equalizer_set_amp,
  equalizer_set_pre_amp,
}
use vlc_harmony.Bridge.Api.Refusal.{IsStale, eq-Finds, eq_of-Finds, refuse, refuse_both}

module _ (host : Host) (args : List ℕ) (w : World) (stale : IsStale host args w) where
  pub equalizer_release-refuses : (equalizer_release host args w).1 ≡ w
  unfolding equalizer_release
  equalizer_release-refuses = refuse host args w stale 1 _ _ _ _ (eq-Finds w)

  pub equalizer_set_pre_amp-refuses : (equalizer_set_pre_amp host args w).1 ≡ w
  unfolding equalizer_set_pre_amp
  equalizer_set_pre_amp-refuses = refuse_both host args w stale 2 _ _ _ _ _ (eq_of-Finds w)

  pub equalizer_get_pre_amp-refuses : (equalizer_get_pre_amp host args w).1 ≡ w
  unfolding equalizer_get_pre_amp
  equalizer_get_pre_amp-refuses = refuse host args w stale 1 _ _ _ _ (eq_of-Finds w)

  pub equalizer_set_amp-refuses : (equalizer_set_amp host args w).1 ≡ w
  unfolding equalizer_set_amp
  equalizer_set_amp-refuses = refuse_both host args w stale 3 _ _ _ _ _ (eq_of-Finds w)

  pub equalizer_get_amp-refuses : (equalizer_get_amp host args w).1 ≡ w
  unfolding equalizer_get_amp
  equalizer_get_amp-refuses = refuse_both host args w stale 2 _ _ _ _ _ (eq_of-Finds w)
