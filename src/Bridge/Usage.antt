-- ===== src/Bridge/Usage.antt =====
-- `GetProcessUsage` of entry/src/main/cpp/vlc_napi.cpp: processor time and memory of the process, from
-- the files of /proc. `sscanf` is a parameter.
pub mod Safety
use vlc_harmony.Base.{
  ℕ, ◌+◌, ◌-◌, ◌%◌, ◌^◌, String, Bool, true, false, ◌||◌, Option, none, some, List, [], ◌∷◌, ℤ, ltb,
  leb, if◌then◌else◌, is_zero,
}
use Prim.Native.String as Str
use text.Mathlib.Text.{starts_with, find?}
use vlc_harmony.Bridge.World.{int, Host, World, Ret, object, from}

-- The bit patterns of `long long` and `int32_t`, as integers.
abbrev pub wrap : ℕ → ℕ → ℤ
wrap half n =
    if ltb (n % (half + half)) half
    then ℤ.pos (n % (half + half))
    else ℤ.negsuc (half + half - n % (half + half) - 1)

-- `static_cast<int32_t>` of a `long`.
abbrev pub to_int32 : ℤ → ℤ
to_int32 (ℤ.pos n) = wrap (2 ^ 31) n
to_int32 (ℤ.negsuc n) = wrap (2 ^ 31) (2 ^ 32 - 1 - n % 2 ^ 32)

-- The text `n` bytes further on.
abbrev pub from_byte : ℕ → String → String
from_byte n s = Str.slice s n (Str.len s)

-- What stands two bytes behind the first closing parenthesis.
unfoldable pub after_name : String → Option String
after_name line = from (find? line ")") (λ i. some (from_byte (i + 2) line))

abbrev sum_of : ℕ × ℕ → ℤ
sum_of (utime, stime) = wrap (2 ^ 63) (utime + stime)

abbrev or_zero : Option ℤ → ℤ
or_zero none = ℤ.pos 0
or_zero (some n) = n

-- The first line with the label counts, also where no number follows.
unfoldable pub rss_of : (String → Option ℤ) → List String → ℤ
rss_of scan [] = ℤ.pos 0
rss_of scan (line ∷ lines) =
    if starts_with line "VmRSS:" then or_zero (scan (from_byte 6 line)) else rss_of scan lines

-- A clock rate that is not known is 100.
abbrev pub rate_of : ℤ → ℤ
rate_of (ℤ.negsuc n) = ℤ.pos 100
rate_of (ℤ.pos n) = if is_zero (ℤ.pos n) then ℤ.pos 100 else to_int32 (ℤ.pos n)

module _ (host : Host) where
  cpu_ticks : World → ℤ
  unfolding after_name
  cpu_ticks w = or_zero (
      from (host.stat_line w.trace) λ line.
        from (after_name line) λ rest. from (host.scan_ticks rest) λ times. some (sum_of times))

  unfoldable pub get_process_usage : List ℕ → World → Ret × World
  unfolding cpu_ticks rss_of
  get_process_usage args w = (
    object (
        ("cpuTicks", int (cpu_ticks w))
        ∷ ("rssKb", int (rss_of host.scan_number (host.status_lines w.trace)))
        ∷ ("clkTck", int (rate_of host.clk_tck))
        ∷ []),
    w,
  )
