-- ===== src/Interp/Step.antt =====
-- `basic_block` of src/interp.c: fetch, decode and dispatch.
pub mod WellFormed
pub mod Errors
use chip_eight_jit.Common.{ℕ, ◌%◌, ◌^◌, true, false, ◌==◌, if◌then◌else◌}
use chip_eight_jit.Machine.{Machine, opcode_at, high_nibble, immediate_four, immediate_eight}
use chip_eight_jit.Interp.Outcome.{Outcome, error}
use chip_eight_jit.Interp.Timers.{get_delay_timer, set_delay_timer, set_sound_timer}
use chip_eight_jit.Interp.Alu.{
  load_immediate, add_immediate, move, or_register, and_register, xor_register, add_register,
  sub_register, shift_right, subn_register, shift_left, random_byte,
}
use chip_eight_jit.Interp.Control.{
  jump, retern, call, skip_eq_immediate, skip_neq_immediate, skip_eq_register, skip_neq_register,
  branch,
}
use chip_eight_jit.Interp.Transfer.{
  load_addr_immediate, add_addr, load_sprite_addr, store_bcd, save_registers, restore_registers,
}
use chip_eight_jit.Interp.Input.{skip_key_x, load_on_key}
use chip_eight_jit.Interp.Draw.{clearscreen, draw}

-- `case 0x8`, by the low nibble.
unfoldable pub arithmetic : ℕ → Machine → Outcome
arithmetic op m =
    let n = immediate_four op in
    if n == 0x0
    then move op m
    else if n == 0x1
    then or_register op m
    else if n == 0x2
    then and_register op m
    else if n == 0x3
    then xor_register op m
    else if n == 0x4
    then add_register op m
    else if n == 0x5
    then sub_register op m
    else if n == 0x6
    then shift_right op m
    else if n == 0x7
    then subn_register op m
    else if n == 0xe
    then shift_left op m
    else error op m

-- `case 0xe`, by the low byte.
unfoldable pub keyboard : ℕ → Machine → Outcome
keyboard op m =
    let kk = immediate_eight op in
    if kk == 0x9e
    then skip_key_x false op m
    else if kk == 0xa1
    then skip_key_x true op m
    else error op m

-- `case 0xf`, by the low byte.
unfoldable pub miscellaneous : ℕ → Machine → Outcome
miscellaneous op m =
    let kk = immediate_eight op in
    if kk == 0x07
    then get_delay_timer op m
    else if kk == 0x0a
    then load_on_key op m
    else if kk == 0x15
    then set_delay_timer op m
    else if kk == 0x18
    then set_sound_timer op m
    else if kk == 0x1e
    then add_addr op m
    else if kk == 0x29
    then load_sprite_addr op m
    else if kk == 0x33
    then store_bcd op m
    else if kk == 0x55
    then save_registers op m
    else if kk == 0x65
    then restore_registers op m
    else error op m

-- The outer `switch`, on the high nibble.
unfoldable pub dispatch : ℕ → ℕ → Machine → Outcome
dispatch nibble op m =
    if nibble == 0x0
    then jump op m
    else if nibble == 0x1
    then jump op m
    else if nibble == 0x2
    then call op m
    else if nibble == 0x3
    then skip_eq_immediate op m
    else if nibble == 0x4
    then skip_neq_immediate op m
    else if nibble == 0x5
    then skip_eq_register op m
    else if nibble == 0x6
    then load_immediate op m
    else if nibble == 0x7
    then add_immediate op m
    else if nibble == 0x8
    then arithmetic op m
    else if nibble == 0x9
    then skip_neq_register op m
    else if nibble == 0xa
    then load_addr_immediate op m
    else if nibble == 0xb
    then branch op m
    else if nibble == 0xc
    then random_byte op m
    else if nibble == 0xd
    then draw op m
    else if nibble == 0xe
    then keyboard op m
    else if nibble == 0xf
    then miscellaneous op m
    else error op m

-- `basic_block` on the opcode that it has fetched.
unfoldable pub execute : ℕ → Machine → Outcome
execute op m =
    if op == 0x00e0
    then clearscreen op m
    else if op == 0x00ee
    then retern op m
    else dispatch (high_nibble op) op m

unfoldable pub basic_block : Machine → Outcome
basic_block m = execute (opcode_at m.memory m.program_counter) m
