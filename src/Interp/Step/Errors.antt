-- ===== src/Interp/Step/Errors.antt =====
-- When an instruction fails, and with which code.
pub mod Verdicts
pub mod Codes
use chip_eight_jit.Common.{
  ℕ, suc, ◌+◌, ◌-◌, ◌*◌, ◌/◌, ◌%◌, ◌^◌, ◌≤◌, ◌<◌, ◌≡◌, ◌≢◌, refl, Bool, true, false, ◌||◌, arith,
  if◌then◌else◌, leb, ltb, ◌==◌,
}
use chip_eight_jit.Machine.{
  Machine, IsWellFormed, u16, stack_size, x_of, high_nibble, immediate_four, immediate_eight,
  opcode_at,
}
use chip_eight_jit.Interp.Outcome.{Outcome, stepped, failed, undefined, hangs, error}
use chip_eight_jit.Interp.Step.{arithmetic, keyboard, miscellaneous, dispatch, execute, basic_block}
use chip_eight_jit.Interp.Control.{call}
use Verdicts.{
  Verdict, steps, fails, no_meaning, verdict, alu-steps, control-steps, transfer-steps,
  retern-verdict, call-verdict, skip_key_x-verdict, load_on_key-verdict, error-CodeOf,
  retern-CodeOf, call-CodeOf, error_of_fails,
}

-- The low bytes that follow the high nibble 0xf.
abbrev pub is_miscellaneous : ℕ → Bool
is_miscellaneous kk =
    kk == 0x07
    || kk == 0x0a
    || kk == 0x15
    || kk == 0x18
    || kk == 0x1e
    || kk == 0x29
    || kk == 0x33
    || kk == 0x55
    || kk == 0x65

-- The instruction set of the interpreter: which opcodes stand for an instruction.
abbrev pub is_instruction : ℕ → Bool
is_instruction op =
    let nibble = high_nibble op in
    if nibble == 0x8
    then leb (immediate_four op) 7 || immediate_four op == 0xe
    else if nibble == 0xe
    then immediate_eight op == 0x9e || immediate_eight op == 0xa1
    else if nibble == 0xf
    then is_miscellaneous (immediate_eight op)
    else true

-- How an instruction is meant to end.
abbrev pub expected : ℕ → Machine → Verdict
expected op m =
    if op == 0x00ee
    then (if m.stack_pointer == 0 then fails else steps)
    else if high_nibble op == 0x2
    then (if ltb m.stack_pointer stack_size then steps else fails)
    else if is_instruction op
    then (if high_nibble op == 0xe
        then (if leb 32 (m.regs (x_of op)) then no_meaning else steps)
        else steps)
    else fails

module _ (op : ℕ) (m : Machine) where
  arithmetic-verdict :
      verdict (arithmetic op m)
      ≡ (if leb (immediate_four op) 7 || immediate_four op == 0xe then steps else fails)
  unfolding arithmetic
  arithmetic-verdict = ground (arith, alu-steps op m)

  keyboard-verdict : verdict (keyboard op m) ≡ (
      if immediate_eight op == 0x9e || immediate_eight op == 0xa1
      then (if leb 32 (m.regs (x_of op)) then no_meaning else steps)
      else fails)
  unfolding keyboard
  keyboard-verdict = ground (arith, skip_key_x-verdict op m true, skip_key_x-verdict op m false)

  miscellaneous-verdict :
      verdict (miscellaneous op m)
      ≡ (if is_miscellaneous (immediate_eight op) then steps else fails)
  unfolding miscellaneous
  miscellaneous-verdict = ground (arith, transfer-steps op m, load_on_key-verdict op m)

  -- Four of the sixteen nibbles decide more than a step.
  dispatch-verdict :
      (nibble : ℕ)
      → nibble < 16
      → verdict (dispatch nibble op m) ≡ (
          if nibble == 0x2
          then verdict (call op m)
          else if nibble == 0x8
          then verdict (arithmetic op m)
          else if nibble == 0xe
          then verdict (keyboard op m)
          else if nibble == 0xf
          then verdict (miscellaneous op m)
          else steps)
  unfolding dispatch
  dispatch-verdict nibble h =
      ground (arith, alu-steps op m, control-steps op m, transfer-steps op m)

  pub execute-verdict : verdict (execute op m) ≡ expected op m
  unfolding execute
  execute-verdict = ground (
    arith,
    transfer-steps op m,
    retern-verdict op m,
    call-verdict op m,
    arithmetic-verdict,
    keyboard-verdict,
    miscellaneous-verdict,
    dispatch-verdict (high_nibble op),
  )

-- An instruction fails exactly if its opcode stands for none, or it returns from an empty stack, or
-- calls into a full one. It is undefined exactly if it tests a key number of 32 or more. Otherwise it
-- steps; it never hangs.
pub basic_block-verdict :
    (m : Machine) → verdict (basic_block m) ≡ expected (opcode_at m.memory m.program_counter) m
unfolding basic_block
basic_block-verdict m = execute-verdict (opcode_at m.memory m.program_counter) m
