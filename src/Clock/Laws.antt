-- ===== src/Clock/Laws.antt =====
-- The limits of a run, and the schedule of safepoints.
use chip_eight_jit.Common.{
  ℕ, zero, suc, ◌+◌, ◌*◌, ◌%◌, ◌^◌, ◌≤◌, ◌<◌, ◌≡◌, ◌⊎◌, false, ◌∙◌, some, arith,
}
use native.Mathlib.Decide.{dec_lt}
use chip_eight_jit.Clock.{
  Clock, safepoint_interval, clock_cap_factor, bench_tick, bench_done, advance,
  bench_advance_safepoint,
}

-- Where the loop stops: past the retired count, a whole number of intervals on, and no further
-- than the first such point.
abbrev pub NextSafepoint : ℕ → ℕ → ℕ → Type 0
NextSafepoint start retired next =
    (retired < next)
    × (next % safepoint_interval ≡ start % safepoint_interval)
    × (start < next)
    × ((next ≡ start + safepoint_interval) ⊎ (next ≤ retired + safepoint_interval))

stops :
    (fuel start retired : ℕ)
    → retired < start + safepoint_interval
    → advance (suc fuel) start retired ≡ some (start + safepoint_interval)
unfolding advance
stops fuel start retired h = ground arith

goes_on :
    (fuel start retired : ℕ)
    → start + safepoint_interval ≤ retired
    → advance (suc fuel) start retired ≡ advance fuel (start + safepoint_interval) retired
unfolding advance
goes_on fuel start retired h = ground arith

advance-NextSafepoint :
    (fuel start retired : ℕ)
    → retired < fuel + start + safepoint_interval
    → (next : ℕ) × (advance (suc fuel) start retired ≡ some next) × NextSafepoint start retired next
advance-NextSafepoint zero start retired h =
    (start + safepoint_interval, stops 0 start retired (omega arith), omega arith)
advance-NextSafepoint (suc fuel) start retired h =
    elim (dec_lt retired (start + safepoint_interval)) [
      | yes p ↦ (start + safepoint_interval, stops (suc fuel) start retired p, omega arith)
      | no p ↦
          let (next, runs, found) =
            advance-NextSafepoint fuel (start + safepoint_interval) retired (omega arith) in
          (next, goes_on (suc fuel) start retired (omega arith) ∙ runs, omega arith)
    ]

bench_advance_safepoint-some :
    (c : Clock) {next : ℕ}
    → advance (suc c.retired) c.next_safepoint c.retired ≡ some next
    → bench_advance_safepoint c ≡ some (record c { next_safepoint = next })
unfolding bench_advance_safepoint
bench_advance_safepoint-some c e = ground arith

-- `bench_advance_safepoint` returns, and moves the next safepoint to the first point past the
-- retired instructions that is a whole number of intervals, one at least, from where it was; it
-- changes nothing else.
pub bench_advance_safepoint_lem :
    (c : Clock)
    → (next : ℕ) × (bench_advance_safepoint c ≡ some (record c { next_safepoint = next }))
      × NextSafepoint c.next_safepoint c.retired next
bench_advance_safepoint_lem c =
    let (next, runs, found) =
      advance-NextSafepoint c.retired c.next_safepoint c.retired (omega arith) in
    (next, bench_advance_safepoint-some c runs, found)

-- If the budget is at most 67,108,864,000, and the cap of the clock is the one that `bench_parse_args`
-- sets for it: until the run is over, the tick is below 2^31, so that the cast to the `int` that
-- `bench_tick` returns loses nothing.
pub bench_tick-lt-int_max :
    (c : Clock)
    → c.clock_cap ≡ c.budget * clock_cap_factor
    → c.budget ≤ 67_108_864_000
    → bench_done c ≡ false
    → bench_tick c < 2 ^ 31
unfolding bench_tick bench_done
bench_tick-lt-int_max c e h d = ground arith
