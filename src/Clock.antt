-- ===== src/Clock.antt =====
-- src/bench_io.c without its screen: the virtual clock, the run's limits, the synthetic keyboard
-- and the schedule of safepoints. `long long` and `int` values are numbers, in the range that the
-- limits of a run keep them in.
pub mod Laws
pub mod Keys
use chip_eight_jit.Common.{
  ℕ, zero, suc, ◌+◌, ◌-◌, ◌*◌, ◌/◌, ◌%◌, ◌^◌, Bool, true, false, ◌||◌, Option, none, some, ltb, leb,
  ◌==◌, if◌then◌else◌, bit_and, bit_or,
}

abbrev pub instr_per_tick : ℕ
instr_per_tick = 2000

abbrev pub safepoint_interval : ℕ
safepoint_interval = 64

abbrev pub poll_cost : ℕ
poll_cost = 1

abbrev pub clock_cap_factor : ℕ
clock_cap_factor = 64

pub data KeyMode : Type 0 where
  keys_none keys_rotate : KeyMode

-- `cleared_tick` is `none` for its initial -1, which no tick equals.
pub record Clock : Type 0 where
  pub retired : ℕ
  pub poll_clock : ℕ
  pub budget : ℕ
  pub clock_cap : ℕ
  pub next_safepoint : ℕ
  pub key_mode : KeyMode
  pub cleared : ℕ
  pub cleared_tick : Option ℕ

-- The limits that `bench_parse_args` sets from `--instructions budget` and `--keys mode`.
abbrev pub fresh_clock : ℕ → KeyMode → Clock
fresh_clock budget mode = record {
  retired = 0;
  poll_clock = 0;
  budget = budget;
  clock_cap = budget * clock_cap_factor;
  next_safepoint = safepoint_interval;
  key_mode = mode;
  cleared = 0;
  cleared_tick = none;
}

-- `bench_now ()`
abbrev pub bench_now : Clock → ℕ
bench_now c = c.retired + c.poll_clock

-- The cast to `int` is left out: it changes nothing up to 2^31 - 1 ticks, and with a budget of at most
-- 67,108,864,000 a run has no more. A longer run is beyond this model.
unfoldable pub bench_tick : Clock → ℕ
bench_tick c = bench_now c / instr_per_tick

unfoldable pub bench_done : Clock → Bool
bench_done c = leb c.budget c.retired || leb c.clock_cap (bench_now c)

-- Whether `cleared_tick` is the tick `t`.
abbrev pub same_tick : Option ℕ → ℕ → Bool
same_tick none t = false
same_tick (some u) t = u == t

unfoldable pub roll_tick : ℕ → Clock → Clock
roll_tick t c =
    if same_tick c.cleared_tick t then c else record c { cleared = 0; cleared_tick = some t }

-- What the keyboard shows at tick `t`, with the keys of `cleared` masked off.
unfoldable pub keys_at : KeyMode → ℕ → ℕ → ℕ
keys_at keys_none t cleared = 0
keys_at keys_rotate t cleared =
    if leb 2 (t % 4) then 0 else bit_and (2 ^ (t / 4 % 16)) (2 ^ 32 - 1 - cleared)

unfoldable pub bench_keys_now : Clock → ℕ × Clock
unfolding roll_tick keys_at
bench_keys_now c =
    let t = bench_now c / instr_per_tick in
    let c' = roll_tick t c in (keys_at c'.key_mode t c'.cleared, c')

-- Called with `key < 32` only: `1u << key` is undefined beyond, and `Interp` stops before it.
unfoldable pub bench_clear_key : ℕ → Clock → Clock
unfolding roll_tick
bench_clear_key key c =
    let c' = roll_tick (bench_now c / instr_per_tick) c in
    record c' { cleared = bit_or c'.cleared (2 ^ key) }

unfoldable pub bench_poll_keys : Clock → ℕ × Clock
unfolding bench_keys_now
bench_poll_keys c = bench_keys_now (record c { poll_clock = c.poll_clock + poll_cost })

-- The loop of `bench_advance_safepoint`: the body runs first, the test follows. `none` when the fuel
-- runs out.
unfoldable pub advance : ℕ → ℕ → ℕ → Option ℕ
advance zero next retired = none
advance (suc fuel) next retired =
    let next' = next + safepoint_interval in
    let rest = advance fuel next' retired in if leb next' retired then rest else some next'

unfoldable pub bench_advance_safepoint : Clock → Option Clock
unfolding advance
bench_advance_safepoint c = elim (advance (suc c.retired) c.next_safepoint c.retired) [
  | none ↦ none
  | some next ↦ some (record c { next_safepoint = next })
]
