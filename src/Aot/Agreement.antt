-- ===== src/Aot/Agreement.antt =====
-- Where a compiled block and the interpreter agree.
use chip_eight_jit.Common.{
  ℕ, ◌+◌, ◌%◌, ◌≤◌, ◌<◌, ◌≡◌, Bool, true, false, ◌||◌, arith, leb, ◌==◌, if◌then◌else◌,
}
use chip_eight_jit.Machine.{
  Machine, x_of, y_of, high_nibble, immediate_four, immediate_eight, immediate_twelve, u16,
}
use chip_eight_jit.Interp.Outcome.{stepped}
use chip_eight_jit.Interp.Timers.{sync_timers, interrupt}
use chip_eight_jit.Interp.Alu.{
  load_immediate, add_immediate, move, or_register, and_register, xor_register, add_register,
  sub_register, shift_right, subn_register, shift_left, random_byte,
}
use chip_eight_jit.Interp.Control.{
  jump, retern, call, skip_eq_immediate, skip_neq_immediate, skip_eq_register, skip_neq_register,
  branch,
}
use chip_eight_jit.Interp.Transfer.{
  load_addr_immediate, add_addr, load_sprite_addr, store_bcd, save_registers, restore_registers,
}
use chip_eight_jit.Interp.Draw.{clearscreen}
use chip_eight_jit.Interp.Step.{arithmetic, miscellaneous, dispatch, execute}
use chip_eight_jit.Aot.Host.{Host}
use chip_eight_jit.Aot.Services.{aot_return, aot_call, aot_alu, aot_random, aot_f_machine, aot_f}
use chip_eight_jit.Aot.Blocks.{block, dispatched, with_machine, exec, exec_all}

-- The low bytes of `Fx??` that touch neither timer nor keyboard.
abbrev pub is_transfer : ℕ → Bool
is_transfer kk = kk == 0x1e || kk == 0x29 || kk == 0x33 || kk == 0x55 || kk == 0x65

arithmetic-aot_alu :
    (op : ℕ) (m s : Machine)
    → arithmetic op m ≡ stepped s
    → record (aot_alu (x_of op) (y_of op) (immediate_four op) m) {
      program_counter = (m.program_counter + 2) % u16;
    }
      ≡ s
unfolding arithmetic move or_register and_register xor_register add_register sub_register
    shift_right subn_register shift_left aot_alu
arithmetic-aot_alu op m s e = ground arith

miscellaneous-aot_f_machine :
    (op : ℕ) (m s : Machine)
    → is_transfer (immediate_eight op) ≡ true
    → miscellaneous op m ≡ stepped s
    → record (aot_f_machine (x_of op) (immediate_eight op) m) {
      program_counter = (m.program_counter + 2) % u16;
    }
      ≡ s
unfolding miscellaneous add_addr load_sprite_addr store_bcd save_registers restore_registers
    aot_f_machine
miscellaneous-aot_f_machine op m s h e = ground arith

module _ (op : ℕ) (m s : Machine) (synced : sync_timers m ≡ m) where
  jump-synced : jump op m ≡ stepped s → record m { program_counter = immediate_twelve op } ≡ s
  unfolding jump interrupt
  jump-synced e = ground (arith, synced)

  retern-aot_return : retern op m ≡ stepped s → aot_return m ≡ s
  unfolding retern interrupt aot_return
  retern-aot_return e = ground (arith, synced)

  call-aot_call :
      m.program_counter < 0x1000
      → call op m ≡ stepped s
      → aot_call (immediate_twelve op) (m.program_counter + 2) m ≡ s
  unfolding call interrupt aot_call
  call-aot_call low e = ground (arith, synced)

-- The opcodes that touch neither timer nor keyboard nor the frame sync of a drawing.
abbrev pub is_plain : ℕ → Bool
is_plain op =
    let nibble = high_nibble op in
    if leb nibble 0xc
    then true
    else if nibble == 0xf
    then is_transfer (immediate_eight op)
    else false

module _ (fuel op : ℕ) (h : Host) (s : Machine) (lt : op < u16)
    (low : h.machine.program_counter < 0x1000) (synced : sync_timers h.machine ≡ h.machine)
    (e : execute op h.machine ≡ stepped s) where
  control-block :
      high_nibble op < 6
      → exec_all fuel (block h.machine.program_counter op) h ≡ dispatched (with_machine h s)
  unfolding execute dispatch clearscreen skip_eq_immediate skip_neq_immediate skip_eq_register block
      exec exec_all
  control-block k =
      let m = h.machine in
      ground (
        arith,
        jump-synced op m s synced,
        retern-aot_return op m s synced,
        call-aot_call op m s synced low,
      )

  register-block :
      6 ≤ high_nibble op
      → high_nibble op < 0xd
      → exec_all fuel (block h.machine.program_counter op) h ≡ dispatched (with_machine h s)
  unfolding execute dispatch load_immediate add_immediate load_addr_immediate branch random_byte
      skip_neq_register aot_random block exec exec_all
  register-block j k = ground (arith, arithmetic-aot_alu op h.machine s)

  transfer-block :
      high_nibble op ≡ 0xf
      → is_transfer (immediate_eight op) ≡ true
      → exec_all fuel (block h.machine.program_counter op) h ≡ dispatched (with_machine h s)
  unfolding execute dispatch aot_f block exec exec_all
  transfer-block j k = ground (arith, miscellaneous-aot_f_machine op h.machine s)

-- For an opcode of sixteen bits, at an address below 0x1000, that touches neither timer nor keyboard
-- nor the frame sync: where the interpreter steps, with its timers up to date, the compiled block
-- of the opcode brings the machine into the same state, and goes back to the dispatcher. The head of
-- the block, which counts the instruction, is not part of it.
pub execute-block :
    (fuel op : ℕ) (h : Host) (s : Machine)
    → op < u16
    → h.machine.program_counter < 0x1000
    → is_plain op ≡ true
    → sync_timers h.machine ≡ h.machine
    → execute op h.machine ≡ stepped s
    → exec_all fuel (block h.machine.program_counter op) h ≡ dispatched (with_machine h s)
execute-block fuel op h s lt low plain synced e = ground (
  arith,
  control-block fuel op h s lt low synced e,
  register-block fuel op h s lt low synced e,
  transfer-block fuel op h s lt low synced e,
)
