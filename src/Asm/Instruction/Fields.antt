-- ===== src/Asm/Instruction/Fields.antt =====
-- The fields of an opcode that `instruction` puts together, and which opcodes stand for an instruction.
use chip_eight_jit.Common.{
  ℕ, ◌*◌, ◌/◌, ◌%◌, ◌^◌, ◌≤◌, ◌<◌, ◌≡◌, Bool, true, ◌&&◌, ◌||◌, List, [], ◌∷◌, length, arith, leb,
  ◌==◌, bit_or,
}
use chip_eight_jit.Common.Bits.{bit_or-lt}
use chip_eight_jit.Common.Fields.{
  bit_or-high, bit_or-low_byte, bit_or-low_nibble, bit_or-low_nibble_left,
}
use chip_eight_jit.Machine.{u16}
use chip_eight_jit.Interp.Step.Errors.{is_instruction}
use chip_eight_jit.Asm.Result.{
  Result, ok, fail, ◌>>=◌, Returns, Returns-bind, Returns-bind_any, Returns-branch,
}
use chip_eight_jit.Asm.Lexer.{Text}
use chip_eight_jit.Asm.Values.{Symbol, value_of, reg, in_range}
use chip_eight_jit.Asm.Instruction.{need, with_x, with_y, operand, or_operand, or_reg}

-- An opcode of sixteen bits that stands for an instruction.
abbrev pub IsOpcode : ℕ → Type 0
IsOpcode op = (op < u16) × (is_instruction op ≡ true)

-- The high nibbles below which every opcode is one.
abbrev pub free : ℕ → Bool
free nibble = leb nibble 0x7 || (leb 0x9 nibble && leb nibble 0xd)

pub reg-lt : (s : Text) → Returns (λ x. x < 16) (reg s)
unfolding reg
reg-lt [] = tt
reg-lt (c ∷ []) = tt
reg-lt (c ∷ d ∷ []) = ground arith
reg-lt (c ∷ d ∷ e ∷ s) = tt

pub in_range-le : (max n : ℕ) → Returns (λ z. z ≤ max) (in_range max n)
in_range-le max n = ground arith

-- What a register in its place does to an opcode.
pub with_x-fields :
    (op x : ℕ)
    → op < u16
    → x < 16
    → (with_x op x < u16)
      × (with_x op x / 0x1000 ≡ op / 0x1000)
      × (with_x op x % 0x100 ≡ op % 0x100)
with_x-fields op x h k = omega (
  arith,
  bit_or-lt 16 op (x * 2 ^ 8) (omega arith) (omega arith),
  bit_or-high op (x * 2 ^ 8) (omega arith),
  bit_or-low_byte op (x * 2 ^ 8) (omega arith),
)

pub with_y-fields :
    (op y : ℕ)
    → op < u16
    → y < 16
    → (with_y op y < u16) × (with_y op y / 0x1000 ≡ op / 0x1000) × (with_y op y % 0x10 ≡ op % 0x10)
with_y-fields op y h k = omega (
  arith,
  bit_or-lt 16 op (y * 2 ^ 4) (omega arith) (omega arith),
  bit_or-high op (y * 2 ^ 4) (omega arith),
  bit_or-low_nibble op (y * 2 ^ 4) (omega arith),
)

pub free-IsOpcode : (op : ℕ) → op < u16 → free (op / 0x1000) ≡ true → IsOpcode op
free-IsOpcode op h k = ground arith

pub or-IsOpcode :
    (base z : ℕ) → base < u16 → free (base / 0x1000) ≡ true → z < 0x1000 → IsOpcode (bit_or base z)
or-IsOpcode base z h k l =
    let small : bit_or base z < u16 =
      omega (arith, bit_or-lt 16 base z (omega arith) (omega arith)) in
    free-IsOpcode (bit_or base z) small (rw (bit_or-high base z l) k)

pub or_operand-IsOpcode :
    (symbols : List Symbol) (resolve : Bool) (base max : ℕ) (s : Text)
    → base < u16
    → free (base / 0x1000) ≡ true
    → max < 0x1000
    → Returns IsOpcode (or_operand symbols resolve base max s)
or_operand-IsOpcode symbols resolve base max s h k l =
    Returns-bind (λ z. z ≤ max) IsOpcode (operand symbols resolve max s) _
      (Returns-bind_any _ (value_of symbols resolve s) _ (in_range-le max))
      (λ z p. or-IsOpcode base z h k (omega arith))

pub or_reg-IsOpcode :
    (base : ℕ) (s : Text)
    → base < u16
    → ((x : ℕ) → x < 16 → IsOpcode (with_x base x))
    → Returns IsOpcode (or_reg base s)
or_reg-IsOpcode base s h k = Returns-bind (λ x. x < 16) IsOpcode (reg s) _ (reg-lt s) k

-- `Ex??` and `Fx??`.
pub misc-IsOpcode :
    (base x : ℕ)
    → base < u16
    → IsOpcode base
    → 0xe ≤ base / 0x1000
    → x < 16
    → IsOpcode (with_x base x)
misc-IsOpcode base x h b e k = ground (arith, with_x-fields base x h k)

-- `8xyn`.
pub low_nibble-IsOpcode :
    (base x y : ℕ)
    → base < u16
    → base / 0x1000 ≡ 8
    → x < 16
    → y < 16
    → leb (base % 0x10) 7 ≡ true
    → IsOpcode (with_y (with_x base x) y)
low_nibble-IsOpcode base x y h k p q n =
    let fx = with_x-fields base x h p in
    let fy = with_y-fields (with_x base x) y fx.0 q in ground (arith, fx, fy)

-- `8xyn` with the low nibble put in last.
pub logic-IsOpcode :
    (x y low : ℕ)
    → x < 16
    → y < 16
    → low < 16
    → (leb low 7 || low == 0xe) ≡ true
    → IsOpcode (bit_or (with_y (with_x 0x8000 x) y) low)
logic-IsOpcode x y low p q l n =
    let fx = with_x-fields 0x8000 x (omega arith) p in
    let fy = with_y-fields (with_x 0x8000 x) y fx.0 q in
    let op = with_y (with_x 0x8000 x) y in
    ground (
      arith,
      fx,
      fy,
      bit_or-lt 16 op low fy.0 (omega arith),
      bit_or-high op low (omega arith),
      bit_or-low_nibble_left op low (omega (arith, fx, fy)),
    )

pub need-IsOpcode :
    (k : ℕ) (t : List Text) (r : Result ℕ) → Returns IsOpcode r → Returns IsOpcode (need k t r)
need-IsOpcode k t r h = Returns-branch IsOpcode (length t == k) r fail h tt

-- An operand that follows a register, and a second register.
pub after_x-IsOpcode :
    (symbols : List Symbol) (resolve : Bool) (base x max : ℕ) (s : Text)
    → base < u16
    → free (base / 0x1000) ≡ true
    → x < 16
    → max < 0x1000
    → Returns IsOpcode (or_operand symbols resolve (with_x base x) max s)
after_x-IsOpcode symbols resolve base x max s h k p l =
    let f = with_x-fields base x h p in
    or_operand-IsOpcode symbols resolve (with_x base x) max s f.0 (rw f.1 k) l

pub after_y-IsOpcode :
    (base x : ℕ) (s : Text)
    → ((y : ℕ) → y < 16 → IsOpcode (with_y (with_x base x) y))
    → Returns IsOpcode (reg s >>= λ y. ok (with_y (with_x base x) y))
after_y-IsOpcode base x s k = Returns-bind (λ y. y < 16) IsOpcode (reg s) _ (reg-lt s) k

pub free_y-IsOpcode :
    (base x y : ℕ)
    → base < u16
    → free (base / 0x1000) ≡ true
    → x < 16
    → y < 16
    → IsOpcode (with_y (with_x base x) y)
free_y-IsOpcode base x y h k p q =
    let fx = with_x-fields base x h p in
    let fy = with_y-fields (with_x base x) y fx.0 q in ground (arith, fx, fy)
