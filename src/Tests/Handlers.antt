-- ===== src/Tests/Handlers.antt =====
-- Runs of single handlers.
use chip_eight_jit.Common.{ℕ, ◌+◌, ◌*◌, ◌-◌, ◌<◌, ◌≡◌, ◌≢◌, refl, [], arith, update}
use chip_eight_jit.Clock.{Clock, fresh_clock, keys_rotate, bench_tick}
use chip_eight_jit.Machine.{Machine, IsWellFormed, u8, set_mem, set_reg, set_flags, skip}
use chip_eight_jit.Interp.Outcome.{stepped}
use chip_eight_jit.Interp.Timers.{sync_timers, interrupt, set_delay_timer, get_delay_timer}
use chip_eight_jit.Interp.Timers.Laws.{sync_timers_twice, get_delay_timer-set_delay_timer}
use chip_eight_jit.Interp.Alu.{add_register, sub_register, subn_register, shift_right, shift_left}
use chip_eight_jit.Interp.Alu.Laws.{
  add_register_lem, sub_register_lem, subn_register_lem, shift_lem,
}
use chip_eight_jit.Interp.Control.{call, retern}
use chip_eight_jit.Interp.Control.Laws.{retern-call}
use chip_eight_jit.Interp.Transfer.{
  store_bcd, save_from, save_registers, restore_from, restore_registers,
}
use chip_eight_jit.Interp.Transfer.Laws.{store_bcd_lem, restore_registers-save_registers}
use chip_eight_jit.Tests.{machine, machine-IsWellFormed}

-- No program, and 200 in every register.
abbrev full : Machine
full = machine [] 200

full-IsWellFormed : IsWellFormed full
full-IsWellFormed = machine-IsWellFormed [] 200 tt (omega arith)

-- The clock after `n` instructions.
abbrev after : ℕ → Clock
after n = record (fresh_clock 100 keys_rotate) { retired = n }

add_register_lem_example : 144 + u8 * 1 ≡ 200 + 200
unfolding add_register
add_register_lem_example =
    add_register_lem 0x8124 full (skip (set_flags 1 (set_reg 1 144 full))) full-IsWellFormed
      (omega arith) refl

sub_register_run : (0 + 200 ≡ 200 + u8 * (1 - 1)) × (1 < 2)
unfolding sub_register
sub_register_run =
    sub_register_lem 0x8125 full (skip (set_flags 1 (set_reg 1 0 full))) full-IsWellFormed
      (omega arith) refl

subn_register_run : (0 + 200 ≡ 200 + u8 * (1 - 1)) × (1 < 2)
unfolding subn_register
subn_register_run =
    subn_register_lem 0x8127 full (skip (set_flags 1 (set_reg 1 0 full))) full-IsWellFormed
      (omega arith) refl

shift_lem_example : (2 * 100 + 0 ≡ 200) × (u8 * 1 + 144 ≡ 2 * 200)
unfolding shift_right shift_left
shift_lem_example =
    shift_lem 0x8106 full (skip (set_flags 0 (set_reg 1 100 full))) full-IsWellFormed (omega arith)
      (skip (set_flags 1 (set_reg 1 144 full))) refl refl

sync_timers_twice_example :
    sync_timers (record (sync_timers (record full { clock = after 4000 })) { clock = after 9000 })
    ≡ sync_timers (record full { clock = after 9000 })
unfolding bench_tick
sync_timers_twice_example =
    sync_timers_twice full (after 4000) (after 9000) full-IsWellFormed (omega arith)

-- 200 ticks, of which three pass.
get_delay_timer-set_delay_timer_example : 197 ≡ 200 - (3 - 0)
unfolding set_delay_timer get_delay_timer sync_timers bench_tick
get_delay_timer-set_delay_timer_example =
    let set = skip (record full { delay_timer = 200 }) in
    get_delay_timer-set_delay_timer 0xf115 0xf207 full set
      (skip (set_reg 2 197 (record set { delay_timer = 197; last_tick = 3; clock = after 6000 })))
      (after 6000) full-IsWellFormed (omega arith) (omega arith) refl refl

-- Called from 0x200 to 0x345, and back.
abbrev called : Machine
called = record full {
  stack = update full.stack 0 0x202;
  stack_pointer = 1;
  program_counter = 0x345;
}

retern-call_example :
    (u : Machine) × (retern 0x00ee called ≡ stepped u)
    × (u.program_counter ≡ 0x202)
    × (u.stack_pointer ≡ 0)
    × (called.program_counter ≡ 0x345)
unfolding call interrupt sync_timers bench_tick
retern-call_example = retern-call 0x2345 0x00ee full called called refl refl refl

-- 0xf133 with the address register at 0xfff: the digits wrap round the end of the memory.
abbrev at_end : Machine
at_end = record full { addr = 0xfff }

at_end-IsWellFormed : IsWellFormed at_end
at_end-IsWellFormed = ground (arith, full-IsWellFormed)

abbrev digits : Machine
digits =
    skip
      (record at_end { memory = set_mem (set_mem (set_mem full.memory 0xfff 2) 0x1000 0) 0x1001 0 })

store_bcd_lem_example :
    (100 * 2 + 10 * 0 + 0 ≡ 200)
    × (0 < 10)
    × (0 < 10)
    × ((a : ℕ) → a ≢ 0xfff → a ≢ 0 → a ≢ 1 → digits.memory a ≡ full.memory a)
unfolding store_bcd
store_bcd_lem_example = store_bcd_lem 0xf133 at_end digits at_end-IsWellFormed refl

-- V0 and V1 saved at 0x300, all registers cleared, and both restored.
abbrev source : Machine
source = record full { addr = 0x300 }

abbrev saved : Machine
saved = skip (record source { memory = set_mem (set_mem full.memory 0x300 200) 0x301 200 })

abbrev cleared : Machine
cleared = record saved { regs = λ _. 0 }

abbrev restored : Machine
restored = skip (record cleared { regs = update (update (λ _. 0) 0 200) 1 200 })

restore_registers-save_registers_example : restored.regs 1 ≡ 200
unfolding save_registers save_from restore_registers restore_from
restore_registers-save_registers_example =
    restore_registers-save_registers 0xf155 source saved cleared restored 1 refl refl refl refl
