-- ===== src/Bridge/Usage/Safety.antt =====
-- `GetProcessUsage` of entry/src/main/cpp/vlc_napi.cpp changes nothing.
use vlc_harmony.Bridge.Ledger.{Dead}
use vlc_harmony.Base.{ℕ, List}
use vlc_harmony.Bridge.World.{Host}
use vlc_harmony.Bridge.Calls.Safety.{Keeps, unchanged}
use vlc_harmony.Bridge.Usage.{get_process_usage}

module _ ⦃dead : Dead⦄ where
  pub get_process_usage-Keeps : (host : Host) (args : List ℕ) → Keeps (get_process_usage host args)
  unfolding get_process_usage
  get_process_usage-Keeps host args w v room = unchanged w v
