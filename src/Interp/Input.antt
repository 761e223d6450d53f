-- ===== src/Interp/Input.antt =====
-- The handlers of src/interp.c that read the keyboard.
pub mod Laws
use chip_eight_jit.Common.{
  ℕ, zero, suc, ◌+◌, ◌-◌, ◌*◌, ◌%◌, Bool, true, false, not, Option, none, some, ltb, leb, ◌==◌,
  if◌then◌else◌,
}
use chip_eight_jit.Common.Bits.{test_bit}
use chip_eight_jit.Clock.{
  Clock, bench_now, bench_done, bench_keys_now, bench_clear_key, bench_poll_keys,
}
use chip_eight_jit.Machine.{Machine, x_of, set_reg, skip}
use chip_eight_jit.Interp.Outcome.{Outcome, undefined, hangs, step_on, error}

-- `all_keys_down`
unfoldable pub all_keys_down : Machine → ℕ × Machine
all_keys_down m = let (keys, c) = bench_keys_now m.clock in (keys, record m { clock = c })

-- `clear_key`
unfoldable pub clear_key : ℕ → Machine → Machine
clear_key key m = record m { clock = bench_clear_key key m.clock }

-- `down ^ up` of two truth values.
abbrev pub differs : Bool → Bool → Bool
differs true up = not up
differs false up = up

-- `1 << (regs[x])` is evaluated first. The condition is true if the key is down and `up` is 0, or the
-- key is not down and `up` is 1.
unfoldable pub skip_key_x : Bool → ℕ → Machine → Outcome
skip_key_x up op m =
    let vx = m.regs (x_of op) in
    let (keys, s) = all_keys_down m in
    if leb 32 vx
    then undefined
    else if differs (test_bit keys vx) up
    then step_on (skip (clear_key vx s))
    else step_on s

-- The loop that waits for a key. It stops on a key, or when the run is over.
unfoldable pub poll : ℕ → Clock → Option (ℕ × Clock)
poll zero c = none
poll (suc fuel) c =
    let (keys, c') = bench_poll_keys c in
    let rest = poll fuel c' in
    if bench_done c' then some (keys, c') else if keys == 0 then rest else some (keys, c')

-- The loop over the sixteen keys, from key `i` on, with `left` rounds to go.
unfoldable pub latch : ℕ → ℕ → ℕ → ℕ → Machine → Machine
latch keys x zero i m = m
latch keys x (suc left) i m =
    let s = clear_key i m in
    latch keys x left (i + 1) (if test_bit keys i then set_reg x i s else s)

-- What follows the wait: the keys are latched, and the quit key is an error.
unfoldable pub take_keys : ℕ → ℕ → Machine → Outcome
take_keys op keys m =
    let s = latch keys (x_of op) 16 0 m in if test_bit keys 31 then error op s else step_on s

-- Every poll moves the clock on, so this fuel lasts until the clock meets its cap.
unfoldable pub load_on_key : ℕ → Machine → Outcome
load_on_key op m = elim (poll (suc (m.clock.clock_cap - bench_now m.clock)) m.clock) [
  | none ↦ hangs
  | some (keys, c) ↦ take_keys op keys (record m { clock = c })
]
