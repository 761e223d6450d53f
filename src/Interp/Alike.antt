-- ===== src/Interp/Alike.antt =====
-- When two machines differ only in what the engines are free to choose: how far the timers of
-- src/interp.c are caught up, when the keys of src/bench_io.c were looked at last, and where the next
-- safepoint is.
pub mod Later
mod Untimed
mod Timers
pub mod Look
mod Keys
pub mod Step
use chip_eight_jit.Common.{ℕ, ◌-◌, ◌<◌, ◌≡◌, false, some, max, if◌then◌else◌}
use chip_eight_jit.Clock.{Clock, bench_tick, same_tick}
use chip_eight_jit.Machine.{Machine, u8}
use chip_eight_jit.Interp.Outcome.{Outcome, stepped, failed, undefined, hangs}

pub record Times : Type 0 where
  pub delay : ℕ
  pub sound : ℕ
  pub last : ℕ
  pub clock : Clock

abbrev pub times : Machine → Times
times m = record {
  delay = m.delay_timer;
  sound = m.sound_timer;
  last = m.last_tick;
  clock = m.clock;
}

abbrev pub retimed : Times → Machine → Machine
retimed t m = record m {
  delay_timer = t.delay;
  sound_timer = t.sound;
  last_tick = t.last;
  clock = t.clock;
}

-- The keys that are masked off in the tick.
abbrev pub masked_now : Clock → ℕ
masked_now c = if same_tick c.cleared_tick (bench_tick c) then c.cleared else 0

-- Looked at now.
abbrev pub level_clock : Clock → Clock
level_clock c = record c {
  next_safepoint = 0;
  cleared = masked_now c;
  cleared_tick = some (bench_tick c);
}

-- Caught up now.
abbrev pub leveled : Times → Times
leveled t =
    let passed = bench_tick t.clock - t.last in
    record {
      delay = t.delay - passed;
      sound = t.sound - passed;
      last = max t.last (bench_tick t.clock);
      clock = level_clock t.clock;
    }

-- No key was masked off in a tick still to come.
abbrev pub OnTime : Clock → Type 0
OnTime c = (u : ℕ) → bench_tick c < u → same_tick c.cleared_tick u ≡ false

pub record IsFit (t : Times) : Type 0 where
  pub delay_lt : t.delay < u8
  pub sound_lt : t.sound < u8
  pub on_time : OnTime t.clock

pub record AlikeTimes (t u : Times) : Type 0 where
  pub first_fit : IsFit t
  pub second_fit : IsFit u
  pub same_level : leveled t ≡ leveled u

-- The machines are the same but for the times, and the times the same when leveled.
pub record Alike (m n : Machine) : Type 0 where
  pub same_else : retimed (times n) m ≡ n
  pub alike_times : AlikeTimes (times m) (times n)

-- Both fail with one code, or both step, or neither returns.
abbrev pub AlikeOutcome : Outcome → Outcome → Type 0
AlikeOutcome (stepped m) (stepped n) = Alike m n
AlikeOutcome (failed m c) (failed n d) = Alike m n × (c ≡ d)
AlikeOutcome undefined undefined = Unit
AlikeOutcome hangs hangs = Unit
AlikeOutcome _ _ = ⊥
