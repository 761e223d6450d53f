-- ===== src/Interp/Step/WellFormed.antt =====
-- Every instruction keeps the machine well formed and the limits of the run as they are.
mod Parts
mod Handlers
mod Devices
pub use Parts.{Keeps, Ends, Keeps-refl, Keeps-trans}
pub use Devices.{all_keys_down-Keeps}
use chip_eight_jit.Common.{ℕ, ◌<◌, false, true, arith}
use chip_eight_jit.Machine.{Machine, IsWellFormed, opcode_at, high_nibble}
use chip_eight_jit.Interp.Outcome.{error}
use chip_eight_jit.Interp.Step.{arithmetic, keyboard, miscellaneous, dispatch, execute, basic_block}
use Handlers.{
  load_immediate-Keeps, add_immediate-Keeps, move-Keeps, or_register-Keeps, and_register-Keeps,
  xor_register-Keeps, add_register-Keeps, sub_register-Keeps, shift_right-Keeps,
  subn_register-Keeps, shift_left-Keeps, random_byte-Keeps, jump-Keeps, retern-Keeps, call-Keeps,
  skip_eq_immediate-Keeps, skip_neq_immediate-Keeps, skip_eq_register-Keeps,
  skip_neq_register-Keeps, branch-Keeps, get_delay_timer-Keeps, set_delay_timer-Keeps,
  set_sound_timer-Keeps,
}
use Devices.{
  load_addr_immediate-Keeps, add_addr-Keeps, load_sprite_addr-Keeps, store_bcd-Keeps,
  save_registers-Keeps, restore_registers-Keeps, clearscreen-Keeps, draw-Keeps, skip_key_x-Keeps,
  load_on_key-Keeps,
}

module _ (op : ℕ) (m : Machine) (w : IsWellFormed m) where
  error-Keeps : Ends (Keeps m) (error op m)
  error-Keeps = Keeps-refl m w

  arithmetic-Keeps : Ends (Keeps m) (arithmetic op m)
  unfolding arithmetic
  arithmetic-Keeps = ground (
    arith,
    error-Keeps,
    move-Keeps op m w,
    or_register-Keeps op m w,
    and_register-Keeps op m w,
    xor_register-Keeps op m w,
    add_register-Keeps op m w,
    sub_register-Keeps op m w,
    shift_right-Keeps op m w,
    subn_register-Keeps op m w,
    shift_left-Keeps op m w,
  )

  keyboard-Keeps : Ends (Keeps m) (keyboard op m)
  unfolding keyboard
  keyboard-Keeps =
      ground (arith, error-Keeps, skip_key_x-Keeps op m w true, skip_key_x-Keeps op m w false)

  miscellaneous-Keeps : Ends (Keeps m) (miscellaneous op m)
  unfolding miscellaneous
  miscellaneous-Keeps = ground (
    arith,
    error-Keeps,
    get_delay_timer-Keeps op m w,
    load_on_key-Keeps op m w,
    set_delay_timer-Keeps op m w,
    set_sound_timer-Keeps op m w,
    add_addr-Keeps op m w,
    load_sprite_addr-Keeps op m w,
    store_bcd-Keeps op m w,
    save_registers-Keeps op m w,
    restore_registers-Keeps op m w,
  )

  dispatch-Keeps : (nibble : ℕ) → Ends (Keeps m) (dispatch nibble op m)
  unfolding dispatch
  dispatch-Keeps nibble = ground (
    arith,
    error-Keeps,
    jump-Keeps op m w,
    call-Keeps op m w,
    skip_eq_immediate-Keeps op m w,
    skip_neq_immediate-Keeps op m w,
    skip_eq_register-Keeps op m w,
    load_immediate-Keeps op m w,
    add_immediate-Keeps op m w,
    arithmetic-Keeps,
    skip_neq_register-Keeps op m w,
    load_addr_immediate-Keeps op m w,
    branch-Keeps op m w,
    random_byte-Keeps op m w,
    draw-Keeps op m w,
    keyboard-Keeps,
    miscellaneous-Keeps,
  )

  execute-Keeps : Ends (Keeps m) (execute op m)
  unfolding execute
  execute-Keeps =
      ground (arith, clearscreen-Keeps op m w, retern-Keeps op m w, dispatch-Keeps (high_nibble op))

-- From a well-formed machine every instruction that returns, with or without an error, leaves a
-- well-formed machine, and changes neither the count of retired instructions nor the limits of the
-- run nor the mode of the keyboard.
pub basic_block-Keeps : (m : Machine) → IsWellFormed m → Ends (Keeps m) (basic_block m)
unfolding basic_block
basic_block-Keeps m w = execute-Keeps (opcode_at m.memory m.program_counter) m w
