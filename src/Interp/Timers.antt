-- ===== src/Interp/Timers.antt =====
-- `tick`, `sync_timers` and `interrupt` of src/interp.c under -DBENCH, and the opcodes that use the
-- timers.
pub mod Laws
use chip_eight_jit.Common.{ℕ, ◌-◌, ◌%◌, ltb, if◌then◌else◌}
use chip_eight_jit.Clock.{bench_tick}
use chip_eight_jit.Machine.{Machine, u8, x_of, set_reg}
use chip_eight_jit.Interp.Outcome.{Outcome, step_on}

-- `(timer > elapsed) ? (uint8_t) (timer - elapsed) : 0`
abbrev pub count_down : ℕ → ℕ → ℕ
count_down timer elapsed = if ltb elapsed timer then (timer - elapsed) % u8 else 0

-- `elapsed > 0` is `last_tick < now`, and `elapsed` is read only then.
unfoldable pub sync_timers : Machine → Machine
sync_timers m =
    let now = bench_tick m.clock in
    let elapsed = now - m.last_tick in
    if ltb m.last_tick now
    then record m {
      delay_timer = count_down m.delay_timer elapsed;
      sound_timer = count_down m.sound_timer elapsed;
      last_tick = now;
    }
    else m

unfoldable pub interrupt : Machine → Machine
interrupt m = sync_timers m

unfoldable pub get_delay_timer : ℕ → Machine → Outcome
get_delay_timer op m = let s = sync_timers m in step_on (set_reg (x_of op) s.delay_timer s)

unfoldable pub set_delay_timer : ℕ → Machine → Outcome
set_delay_timer op m =
    let s = sync_timers m in step_on (record s { delay_timer = s.regs (x_of op) })

unfoldable pub set_sound_timer : ℕ → Machine → Outcome
set_sound_timer op m =
    let s = sync_timers m in step_on (record s { sound_timer = s.regs (x_of op) })
