-- ===== src/Interp/Step/Errors/Codes.antt =====
-- The code with which a failing instruction ends the main loop.
use chip_eight_jit.Common.{
  ℕ, ◌+◌, ◌*◌, ◌%◌, ◌<◌, ◌≡◌, sym, ◌≢◌, Bool, true, false, arith, if◌then◌else◌, Array, Below,
}
use chip_eight_jit.Common.Bits.{bit_or-lt}
use chip_eight_jit.Machine.{Machine, IsWellFormed, u8, u16, opcode_at, high_nibble}
use chip_eight_jit.Interp.Outcome.{Outcome, failed}
use chip_eight_jit.Interp.Step.{arithmetic, keyboard, miscellaneous, dispatch, execute, basic_block}
use chip_eight_jit.Interp.Step.Errors.{expected, basic_block-verdict}
use chip_eight_jit.Interp.Step.Errors.Verdicts.{
  steps, fails, no_meaning, verdict, CodeOf, error-CodeOf, retern-CodeOf, call-CodeOf,
  error_of_fails, alu-steps, control-steps, transfer-steps, load_on_key-verdict, skip_key_x-verdict,
}

pub opcode_at-lt : (memory : Array) (pc : ℕ) → Below u8 memory → opcode_at memory pc < u16
unfolding opcode_at
opcode_at-lt memory pc h =
    bit_or-lt 16 _ _ (omega (arith, h (pc % 4096))) (omega (arith, h ((pc + 1) % 4096)))

-- `CodeOf`, for an outcome that is known not to fail.
stepping : (op : ℕ) (o : Outcome) → verdict o ≡ steps → CodeOf op o
stepping op o h = error_of_fails op o (ground arith)

skipping :
    (op : ℕ) (o : Outcome) (b : Bool) → verdict o ≡ (if b then no_meaning else steps) → CodeOf op o
skipping op o b h = error_of_fails op o (ground arith)

module _ (op : ℕ) (m : Machine) (h : op < u16) (k : m.program_counter < u16) where
  arithmetic-CodeOf : CodeOf op (arithmetic op m)
  unfolding arithmetic
  arithmetic-CodeOf =
      let a = alu-steps op m in
      ground (
        arith,
        error-CodeOf op m h k,
        stepping op _ a.2,
        stepping op _ a.3,
        stepping op _ a.4,
        stepping op _ a.5,
        stepping op _ a.6,
        stepping op _ a.7,
        stepping op _ a.8,
        stepping op _ a.9,
        stepping op _ a.10,
      )

  keyboard-CodeOf : CodeOf op (keyboard op m)
  unfolding keyboard
  keyboard-CodeOf = ground (
    arith,
    error-CodeOf op m h k,
    skipping op _ _ (skip_key_x-verdict op m true),
    skipping op _ _ (skip_key_x-verdict op m false),
  )

  miscellaneous-CodeOf : CodeOf op (miscellaneous op m)
  unfolding miscellaneous
  miscellaneous-CodeOf =
      let t = transfer-steps op m in
      ground (
        arith,
        error-CodeOf op m h k,
        stepping op _ (load_on_key-verdict op m),
        stepping op _ t.1,
        stepping op _ t.2,
        stepping op _ t.3,
        stepping op _ t.4,
        stepping op _ t.5,
        stepping op _ t.6,
        stepping op _ t.7,
        stepping op _ t.8,
      )

  dispatch-CodeOf : (nibble : ℕ) → CodeOf op (dispatch nibble op m)
  unfolding dispatch
  dispatch-CodeOf nibble =
      let a = alu-steps op m in
      let c = control-steps op m in
      let t = transfer-steps op m in
      ground (
        arith,
        error-CodeOf op m h k,
        call-CodeOf op m h k,
        arithmetic-CodeOf,
        keyboard-CodeOf,
        miscellaneous-CodeOf,
        stepping op _ a.0,
        stepping op _ a.1,
        stepping op _ a.11,
        stepping op _ c.0,
        stepping op _ c.1,
        stepping op _ c.2,
        stepping op _ c.3,
        stepping op _ c.4,
        stepping op _ c.5,
        stepping op _ t.0,
        stepping op _ t.10,
      )

  execute-CodeOf : CodeOf op (execute op m)
  unfolding execute
  execute-CodeOf = ground (
    arith,
    retern-CodeOf op m h k,
    dispatch-CodeOf (high_nibble op),
    stepping op _ (transfer-steps op m).9,
  )

unfolded-CodeOf :
    (m : Machine) → IsWellFormed m → CodeOf (opcode_at m.memory m.program_counter) (basic_block m)
unfolding basic_block
unfolded-CodeOf m w =
    execute-CodeOf (opcode_at m.memory m.program_counter) m
      (opcode_at-lt m.memory m.program_counter w.memory_bytes) w.program_counter_lt

-- The opcode 0 is a jump.
fails-ne-zero : (op : ℕ) (m : Machine) → expected op m ≡ fails → op ≢ 0
fails-ne-zero op m h = ground arith

-- Where an instruction of a well-formed machine fails, its code is the opcode above the program
-- counter, and is not 0: the main loop does stop.
pub basic_block-CodeOf :
    (m s : Machine) (code : ℕ)
    → IsWellFormed m
    → basic_block m ≡ failed s code
    → (code ≡ opcode_at m.memory m.program_counter * u16 + s.program_counter) × (0 < code)
basic_block-CodeOf m s code w e =
    let op = opcode_at m.memory m.program_counter in
    let coded = rw e at (unfolded-CodeOf m w) in
    let ended = rw e at (basic_block-verdict m) in
    ground (arith, coded, fails-ne-zero op m (sym ended))
