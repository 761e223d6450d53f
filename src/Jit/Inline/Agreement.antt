-- ===== src/Jit/Inline/Agreement.antt =====
-- The straight-line code of a trace against the interpreter.
use chip_eight_jit.Common.{
  ℕ, ◌+◌, ◌*◌, ◌/◌, ◌%◌, ◌^◌, ◌<◌, ◌≡◌, refl, Bool, true, ◌||◌, ◌&&◌, List, [], ◌∷◌, ◌++◌, fun_ext,
  arith, Array, Below, update, leb, ltb, ◌==◌, if◌then◌else◌, bit_and,
}
use chip_eight_jit.Common.Bits.{bit_and_step, bit_and_zero, bit_and_power}
use chip_eight_jit.Machine.{Machine, u8, u16, x_of, y_of, immediate_four, immediate_eight}
use chip_eight_jit.Interp.Outcome.{Outcome, stepped}
use chip_eight_jit.Interp.Timers.{sync_timers, get_delay_timer, set_delay_timer, set_sound_timer}
use chip_eight_jit.Interp.Alu.{
  load_immediate, add_immediate, move, or_register, and_register, xor_register, add_register,
  sub_register, shift_right, subn_register, shift_left,
}
use chip_eight_jit.Interp.Transfer.{load_addr_immediate, add_addr, load_sprite_addr}
use chip_eight_jit.Interp.Step.{arithmetic, miscellaneous, dispatch, execute}
use chip_eight_jit.Jit.Marks.{Marks}
use chip_eight_jit.Jit.Trace.{
  Piece, call_host, inline, sync_timers_fn, goes_on, emit, emit_arithmetic, emit_misc,
}
use chip_eight_jit.Jit.Inline.{
  BinaryOp, Comparison, documented_operate, documented_compares, Statement, run_all, add_code,
  sub_code, shr_code, subn_code, shl_code, inline_arithmetic, inline_misc, inline_code,
}

-- The statements, with the operations of the documentation.
abbrev run_documented : List Statement → Array → Machine → Machine
run_documented = run_all documented_operate documented_compares

low_bit : (a : ℕ) → bit_and a 1 ≡ a % 2
low_bit a = omega (arith, bit_and_step a 1, bit_and_zero (a / 2) (a / 2) (omega arith))

low_nibble : (a : ℕ) → bit_and a 0x0f ≡ a % 16
low_nibble a = omega (
  arith,
  bit_and_step a 15,
  bit_and_step (a / 2) 7,
  bit_and_step (a / 2 / 2) 3,
  bit_and_step (a / 2 / 2 / 2) 1,
  bit_and_zero (a / 2 / 2 / 2 / 2) (a / 2 / 2 / 2 / 2) (omega arith),
)

high_bit : (a : ℕ) → a < u8 → bit_and a 0x80 / 0x80 ≡ a / 0x80 % 2
high_bit a h = omega (arith, bit_and_power a 7)

-- `STEP`, without the loads and stores in between.
abbrev pub stepped_to : Machine → Outcome
stepped_to m = stepped (record m { program_counter = (m.program_counter + 2) % u16 })

module _ (op id : ℕ) (m : Machine) (locals : Array) (bytes : Below u8 m.regs) where
  -- The code does what the interpreter does, but for the program counter.
  abbrev Does : Outcome → List Statement → Type 0
  Does o code = o ≡ stepped_to (run_documented code locals m)

  abbrev vx : ℕ
  vx = m.regs (x_of op)

  abbrev vy : ℕ
  vy = m.regs (y_of op)

  -- The values of the two snapshots.
  both_locals :
      (a b : ℕ)
      → (update (update locals id a) (id + 1) b id ≡ a)
        × (update (update locals id a) (id + 1) b (id + 1) ≡ b)
  both_locals a b = ground arith

  one_local : (a : ℕ) → update locals id a id ≡ a
  one_local a = ground arith

  add-Does : Does (add_register op m) (add_code op id)
  unfolding add_register
  add-Does =
      let (p, q) = both_locals vx vy in
      let sum : (vx % u16 + vy % u16) % u16 ≡ vx + vy =
        omega (arith, bytes (x_of op), bytes (y_of op)) in
      let flag : (if ltb 0xff (vx + vy) then 1 else 0) % u8
          ≡ (if ltb 0xff (vx + vy) then 1 else 0) =
        ground arith in
      rw (p, q, sum, flag) refl

  sub-Does : Does (sub_register op m) (sub_code op id)
  unfolding sub_register
  sub-Does =
      let (p, q) = both_locals vx vy in
      let flag : (if leb vy vx then 1 else 0) % u8 ≡ (if leb vy vx then 1 else 0) = ground arith in
      rw (p, q, flag) refl

  subn-Does : Does (subn_register op m) (subn_code op id)
  unfolding subn_register
  subn-Does =
      let (p, q) = both_locals vx vy in
      let flag : (if leb vx vy then 1 else 0) % u8 ≡ (if leb vx vy then 1 else 0) = ground arith in
      rw (p, q, flag) refl

  shr-Does : Does (shift_right op m) (shr_code op id)
  unfolding shift_right
  shr-Does = rw (one_local vx, low_bit vx) refl

  shl-Does : Does (shift_left op m) (shl_code op id)
  unfolding shift_left
  shl-Does = rw (one_local vx, high_bit vx (bytes (x_of op))) refl

  arithmetic-Does :
      (leb (immediate_four op) 7 || immediate_four op == 0xe) ≡ true
      → Does (arithmetic op m) (inline_arithmetic op id)
  unfolding arithmetic inline_arithmetic move or_register and_register xor_register
  arithmetic-Does valid = ground (arith, add-Does, sub-Does, subn-Does, shr-Does, shl-Does)

-- The low bytes of `Fx??` with straight-line code that uses no timer, and that uses one.
abbrev pub uses_timer : ℕ → Bool
uses_timer kk = kk == 0x07 || kk == 0x15 || kk == 0x18

abbrev pub uses_addr : ℕ → Bool
uses_addr kk = kk == 0x1e || kk == 0x29

-- The call of `sync_timers` that stands in front of the code of a timer's opcode.
abbrev pub synced : ℕ → Machine → Machine
synced op m = if op / 2 ^ 12 == 0xf && uses_timer (immediate_eight op) then sync_timers m else m

module _ (op id : ℕ) (m : Machine) (locals : Array) (bytes : Below u8 m.regs) where
  timer-Does :
      uses_timer (immediate_eight op) ≡ true
      → miscellaneous op m ≡ stepped_to (run_documented (inline_misc op) locals (sync_timers m))
  unfolding miscellaneous get_delay_timer set_delay_timer set_sound_timer inline_misc
  timer-Does h = ground arith

  addr-Does :
      uses_addr (immediate_eight op) ≡ true
      → miscellaneous op m ≡ stepped_to (run_documented (inline_misc op) locals m)
  unfolding miscellaneous add_addr load_sprite_addr inline_misc
  addr-Does h =
      let v = m.regs (x_of op) in
      let small = bytes (x_of op) in
      let wide : v % u16 ≡ v = omega (arith, small) in
      let digit : bit_and v 0x0f * 5 % u16 ≡ v % 16 * 5 = omega (arith, low_nibble v) in
      ground (arith, wide, digit)

-- The call of `sync_timers`, as it is emitted.
abbrev pub timer_call : ℕ → List Piece
timer_call op =
    if op / 2 ^ 12 == 0xf && uses_timer (immediate_eight op)
    then call_host sync_timers_fn ∷ []
    else []

-- The opcodes that a trace runs by straight-line code and goes on.
abbrev pub is_inline : ℕ → Bool
is_inline op =
    let nibble = op / 2 ^ 12 in
    let n = immediate_four op in
    let kk = immediate_eight op in
    (nibble == 0x6 || nibble == 0x7 || nibble == 0xa)
    || (nibble == 0x8 && (leb n 7 || n == 0xe))
    || (nibble == 0xf && (uses_timer kk || uses_addr kk))

module _ (op id : ℕ) (m : Machine) (locals : Array) (small : op < u16)
    (bytes : Below u8 m.regs) where
  documented :
      is_inline op ≡ true
      → execute op m ≡ stepped_to (run_documented (inline_code op id) locals (synced op m))
  unfolding execute dispatch load_immediate add_immediate load_addr_immediate inline_code
  documented h = ground (
    arith,
    arithmetic-Does op id m locals bytes,
    timer-Does op id m locals bytes,
    addr-Does op id m locals bytes,
  )

emit_inline :
    (op pc op_count fused_op : ℕ) (seen : Marks)
    → is_inline op ≡ true
    → emit op pc op_count seen fused_op ≡ goes_on (timer_call op ++ inline op ∷ []) ((pc + 2) % u16)
unfolding emit emit_arithmetic emit_misc
emit_inline op pc op_count fused_op seen h = ground arith

-- For every opcode that a trace runs by straight-line code, if the operations of libgccjit are those of its
-- documentation: codegen emits this code, behind a call of sync_timers where the opcode uses a timer, and goes on with the
-- next instruction; and the code leaves what the interpreter leaves in every variable of the machine, but for the
-- program counter, which the interpreter also moves to the next instruction.
pub execute-inline_code :
    (operate : BinaryOp → ℕ → ℕ → ℕ → ℕ) (compares : Comparison → ℕ → ℕ → ℕ)
    → ((o : BinaryOp) (w a b : ℕ) → operate o w a b ≡ documented_operate o w a b)
    → ((c : Comparison) (a b : ℕ) → compares c a b ≡ documented_compares c a b)
    → (op id pc op_count fused_op : ℕ) (seen : Marks) (m : Machine) (locals : Array) → op < u16
    → Below u8 m.regs
    → is_inline op ≡ true
    → (emit op pc op_count seen fused_op
        ≡ goes_on (timer_call op ++ inline op ∷ []) ((pc + 2) % u16))
      × (execute op m
          ≡ stepped_to (run_all operate compares (inline_code op id) locals (synced op m)))
execute-inline_code operate compares p q op id pc op_count fused_op seen m locals small bytes h =
    let p' : operate ≡ documented_operate =
      fun_ext λ o. fun_ext λ w. fun_ext λ a. fun_ext λ b. p o w a b in
    let q' : compares ≡ documented_compares = fun_ext λ c. fun_ext λ a. fun_ext λ b. q c a b in
    (
      emit_inline op pc op_count fused_op seen h,
      rw (p', q') (documented op id m locals small bytes h),
    )
