-- ===== src/Bridge/Media/Parse.antt =====
-- The loop of `MediaParse` in entry/src/main/cpp/vlc_napi.cpp ends.
use vlc_harmony.Base.{
  ℕ, zero, suc, ◌+◌, ◌*◌, ◌≤◌, ◌≡◌, refl, if◌then◌else◌, Bool, true, false, Option, some, List, [],
  ℤ, arith,
}
use vlc_harmony.Bridge.World.{media, Fn, Call, did, Host, World, emit}
use vlc_harmony.Bridge.Media.{is_late, polls, is_final, is_done, parse_wait}

-- Each round takes its 20 ms of sleep, by the steady clock.
abbrev pub SleepsBetween : Host → Type 0
SleepsBetween host = (t : List Call) (n : ℕ) → 20 * n ≤ host.elapsed t n

late_bound :
    (timeout : ℤ) (ms n : ℕ) → 20 * n ≤ ms → is_late timeout ms ≡ false → n + 2 ≤ polls timeout
late_bound (ℤ.pos t) ms n l e = ground arith
late_bound (ℤ.negsuc t) ms n l e = ground arith

-- It is over at this round, or the rest of the rounds decides.
decided :
    (c d : Bool) (x : Bool) (w : World) (rest : Option Bool × World)
    → (d ≡ false → (b : Bool) × (rest.0 ≡ some b))
    → (b : Bool) × ((if c then (some x, w) else if d then (some false, w) else rest).0 ≡ some b)
decided true d x w rest f = (x, refl)
decided false true x w rest f = (false, refl)
decided false false x w rest f = f refl

module _ (host : Host) (sleeps : SleepsBetween host) where
  waits :
      (rounds n : ℕ) (timeout : ℤ) (m : ℕ) (w : World)
      → 1 ≤ rounds
      → n + rounds ≡ polls timeout
      → (b : Bool) × ((parse_wait host rounds n timeout m w).0 ≡ some b)
  unfolding parse_wait
  waits zero n timeout m w r e = absurd (omega arith)
  waits (suc rounds) n timeout m w r e =
      let w₁ = emit (did Fn.media_get_parsed_status (media m) []) w in
      decided (is_final (host.ask w.trace Fn.media_get_parsed_status (media m) []))
        (is_late timeout (host.elapsed w₁.trace n))
        (is_done (host.ask w.trace Fn.media_get_parsed_status (media m) [])) w₁
        (parse_wait host rounds (n + 1) timeout m w₁)
        λ early.
          waits rounds (n + 1) timeout m w₁
            (omega
              (arith, late_bound timeout (host.elapsed w₁.trace n) n (sleeps w₁.trace n) early))
            (omega arith)

  -- If every round of the loop takes its 20 ms at least, then the rounds that the model gives the
  -- loop, a number that depends on the timeout alone, are enough: it ends with an answer, whatever
  -- the parser does.
  pub parse_wait_ends :
      (timeout : ℤ) (m : ℕ) (w : World)
      → (b : Bool) × ((parse_wait host (polls timeout) 0 timeout m w).0 ≡ some b)
  parse_wait_ends timeout m w =
      waits (polls timeout) 0 timeout m w (some_polls timeout) (omega arith)
    where
      some_polls : (timeout : ℤ) → 1 ≤ polls timeout
      some_polls (ℤ.pos t) = omega arith
      some_polls (ℤ.negsuc t) = omega arith
