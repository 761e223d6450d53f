-- ===== src/Jit/Inline.antt =====
-- The straight-line code that `codegen` of src/libgccjit_jit.c emits for an opcode, as statements of
-- libgccjit. What its operations compute is a parameter.
pub mod Agreement
use chip_eight_jit.Common.{
  ℕ, ◌+◌, ◌-◌, ◌*◌, ◌/◌, ◌%◌, ◌^◌, Bool, List, [], ◌∷◌, Array, update, ltb, leb, ◌==◌, ◌||◌,
  if◌then◌else◌, bit_and, bit_or, bit_xor,
}
use chip_eight_jit.Machine.{
  Machine, u8, u16, x_of, y_of, immediate_four, immediate_eight, immediate_twelve, set_reg,
}

-- `mem (..)`: the variables of the machine that the code reads and writes.
pub data Place : Type 0 where
  reg_at : ℕ → Place
  addr_place : Place
  delay_place : Place
  sound_place : Place
  pc_place : Place

-- The operations of `gcc_jit_binary_op` and `gcc_jit_comparison` that are used.
pub data BinaryOp : Type 0 where
  plus : BinaryOp
  minus : BinaryOp
  mult : BinaryOp
  bitwise_and : BinaryOp
  bitwise_or : BinaryOp
  bitwise_xor : BinaryOp
  lshift : BinaryOp
  rshift : BinaryOp

pub data Comparison : Type 0 where
  gt : Comparison
  ge : Comparison
  eq : Comparison
  ne : Comparison

-- An rvalue. `local` is a snapshot; an operation has the width of its type as a number of values.
pub data Rvalue : Type 0 where
  from_int : ℕ → Rvalue
  value_at : Place → Rvalue
  local : ℕ → Rvalue
  cast : ℕ → Rvalue → Rvalue
  binary_op : BinaryOp → ℕ → Rvalue → Rvalue → Rvalue
  comparison : Comparison → Rvalue → Rvalue → Rvalue

-- `add_assignment`, `add_assignment_op`, and the assignment of `snapshot` to its local variable.
pub data Statement : Type 0 where
  assign : Place → Rvalue → Statement
  assign_op : Place → BinaryOp → Rvalue → Statement
  snapshot : ℕ → Place → Statement

abbrev pub width : Place → ℕ
width (reg_at x) = u8
width addr_place = u16
width delay_place = u8
width sound_place = u8
width pc_place = u16

abbrev pub read : Place → Machine → ℕ
read (reg_at x) m = m.regs x
read addr_place m = m.addr
read delay_place m = m.delay_timer
read sound_place m = m.sound_timer
read pc_place m = m.program_counter

abbrev pub write : Place → ℕ → Machine → Machine
write (reg_at x) v m = set_reg x v m
write addr_place v m = record m { addr = v }
write delay_place v m = record m { delay_timer = v }
write sound_place v m = record m { sound_timer = v }
write pc_place v m = record m { program_counter = v }

-- What the documentation of libgccjit says of the operations on unsigned types, whose width is given as a number
-- of values: they are those of C, and a comparison is 0 or 1.
abbrev pub documented_operate : BinaryOp → ℕ → ℕ → ℕ → ℕ
documented_operate plus w a b = (a + b) % w
documented_operate minus w a b = (a + w - b) % w
documented_operate mult w a b = a * b % w
documented_operate bitwise_and w a b = bit_and a b
documented_operate bitwise_or w a b = bit_or a b
documented_operate bitwise_xor w a b = bit_xor a b
documented_operate lshift w a b = a * 2 ^ b % w
documented_operate rshift w a b = a / 2 ^ b

abbrev pub documented_compares : Comparison → ℕ → ℕ → ℕ
documented_compares gt a b = if ltb b a then 1 else 0
documented_compares ge a b = if leb b a then 1 else 0
documented_compares eq a b = if a == b then 1 else 0
documented_compares ne a b = if a == b then 0 else 1

module _ (operate : BinaryOp → ℕ → ℕ → ℕ → ℕ) (compares : Comparison → ℕ → ℕ → ℕ) where
  abbrev pub eval : Rvalue → Array → Machine → ℕ
  eval (from_int n) locals m = n
  eval (value_at p) locals m = read p m
  eval (local i) locals m = locals i
  eval (cast w v) locals m = eval v locals m % w
  eval (binary_op o w a b) locals m = operate o w (eval a locals m) (eval b locals m)
  eval (comparison c a b) locals m = compares c (eval a locals m) (eval b locals m)

  abbrev pub run_all : List Statement → Array → Machine → Machine
  run_all [] locals m = m
  run_all (assign p v ∷ ss) locals m = run_all ss locals (write p (eval v locals m) m)
  run_all (assign_op p o v ∷ ss) locals m =
      run_all ss locals (write p (operate o (width p) (read p m) (eval v locals m)) m)
  run_all (snapshot i p ∷ ss) locals m = run_all ss (update locals i (read p m)) m

-- The code of an opcode with two registers; a local is numbered from `id` on.
module _ (op id : ℕ) where
  abbrev pub rx : Place
  rx = reg_at (x_of op)

  abbrev pub ry : Place
  ry = reg_at (y_of op)

  abbrev pub rf : Place
  rf = reg_at 0xf

  abbrev pub add_code : List Statement
  add_code =
      let sum16 = binary_op plus u16 (cast u16 (local id)) (cast u16 (local (id + 1))) in
      snapshot id rx
      ∷ snapshot (id + 1) ry
      ∷ assign rx (cast u8 sum16)
      ∷ assign rf (cast u8 (comparison gt sum16 (from_int 0xff)))
      ∷ []

  abbrev pub sub_code : List Statement
  sub_code =
      let vx = local id in
      let vy = local (id + 1) in
      snapshot id rx
      ∷ snapshot (id + 1) ry
      ∷ assign rx (binary_op minus u8 vx vy)
      ∷ assign rf (cast u8 (comparison ge vx vy))
      ∷ []

  abbrev pub shr_code : List Statement
  shr_code =
      let vx = local id in
      let one = from_int 1 in
      snapshot id rx
      ∷ assign rx (binary_op rshift u8 vx one)
      ∷ assign rf (binary_op bitwise_and u8 vx one)
      ∷ []

  abbrev pub subn_code : List Statement
  subn_code =
      let vx = local id in
      let vy = local (id + 1) in
      snapshot id rx
      ∷ snapshot (id + 1) ry
      ∷ assign rx (binary_op minus u8 vy vx)
      ∷ assign rf (cast u8 (comparison ge vy vx))
      ∷ []

  abbrev pub shl_code : List Statement
  shl_code =
      let vx = local id in
      let hi = binary_op bitwise_and u8 vx (from_int 0x80) in
      snapshot id rx
      ∷ assign rx (binary_op lshift u8 vx (from_int 1))
      ∷ assign rf (binary_op rshift u8 hi (from_int 7))
      ∷ []

  -- `case 0x8`
  unfoldable pub inline_arithmetic : List Statement
  inline_arithmetic =
      let n = immediate_four op in
      if n == 0x0
      then assign rx (value_at ry) ∷ []
      else if n == 0x1
      then assign_op rx bitwise_or (value_at ry) ∷ []
      else if n == 0x2
      then assign_op rx bitwise_and (value_at ry) ∷ []
      else if n == 0x3
      then assign_op rx bitwise_xor (value_at ry) ∷ []
      else if n == 0x4
      then add_code
      else if n == 0x5
      then sub_code
      else if n == 0x6
      then shr_code
      else if n == 0x7
      then subn_code
      else shl_code

-- `Fx07`, `Fx15`, `Fx18`, `Fx1E` and `Fx29`.
unfoldable pub inline_misc : ℕ → List Statement
inline_misc op =
    let kk = immediate_eight op in
    let vx = value_at (reg_at (x_of op)) in
    if kk == 0x07
    then assign (reg_at (x_of op)) (value_at delay_place) ∷ []
    else if kk == 0x15
    then assign delay_place vx ∷ []
    else if kk == 0x18
    then assign sound_place vx ∷ []
    else if kk == 0x1e
    then assign_op addr_place plus (cast u16 vx) ∷ []
    else assign addr_place
        (binary_op mult u16 (binary_op bitwise_and u16 (cast u16 vx) (from_int 0x0f)) (from_int 5))
      ∷ []

-- The statements behind the piece `inline op`, for the opcodes that have one. `id` is `local_id`.
unfoldable pub inline_code : ℕ → ℕ → List Statement
inline_code op id =
    let nibble = op / 2 ^ 12 in
    let rx = reg_at (x_of op) in
    if nibble == 0x6
    then assign rx (from_int (immediate_eight op)) ∷ []
    else if nibble == 0x7
    then assign_op rx plus (from_int (immediate_eight op)) ∷ []
    else if nibble == 0x8
    then inline_arithmetic op id
    else if nibble == 0xa
    then assign addr_place (from_int (immediate_twelve op)) ∷ []
    else if nibble == 0xb
    then assign pc_place
        (binary_op plus u16 (from_int (immediate_twelve op)) (cast u16 (value_at (reg_at 0))))
      ∷ []
    else inline_misc op

-- The condition of a skip.
unfoldable pub skip_condition : ℕ → Rvalue
skip_condition op =
    let nibble = op / 2 ^ 12 in
    let cmp = if nibble == 0x3 || nibble == 0x5 then eq else ne in
    let rhs =
      if nibble == 0x3 || nibble == 0x4
      then from_int (immediate_eight op)
      else value_at (reg_at (y_of op)) in
    comparison cmp (value_at (reg_at (x_of op))) rhs
