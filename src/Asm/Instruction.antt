-- ===== src/Asm/Instruction.antt =====
-- `instruction` of src/asm.c: the opcode of one line.
pub mod Fields
pub mod Opcodes
pub mod Unresolved
use Prim.Native.String.{String}
use chip_eight_jit.Common.{
  ℕ, ◌*◌, ◌^◌, Bool, false, ◌||◌, List, [], ◌∷◌, length, get_or, ◌==◌, if◌then◌else◌, bit_or,
}
use chip_eight_jit.Asm.Result.{Result, ok, fail, ◌>>=◌}
use chip_eight_jit.Asm.Lexer.{Text, text, same}
use chip_eight_jit.Asm.Values.{Symbol, value_of, reg, in_range}

-- `t[i]`
abbrev pub at : List Text → ℕ → Text
at t i = get_or t i []

-- `OP`, or any comparison with a keyword.
abbrev pub is_text : Text → String → Bool
is_text s k = same s (text k)

-- `t[i][0] == 'V'`
abbrev pub starts_v : Text → Bool
starts_v [] = false
starts_v (c ∷ cs) = c == b'V'

-- `NEED`
abbrev pub need : ℕ → List Text → Result ℕ → Result ℕ
need k t r = if length t == k then r else fail

abbrev pub with_x : ℕ → ℕ → ℕ
with_x op x = bit_or op (x * 2 ^ 8)

abbrev pub with_y : ℕ → ℕ → ℕ
with_y op y = bit_or op (y * 2 ^ 4)

-- `base | (reg (t) << 8)`
abbrev pub or_reg : ℕ → Text → Result ℕ
or_reg base s = do x ← reg s; ok (with_x base x)

-- `OR`, `AND`, `XOR`, `SUB` and `SUBN`, by their low nibble.
unfoldable pub logic_of : ℕ → List Text → Result ℕ
logic_of low t =
    need 3 t (do x ← reg (at t 1); y ← reg (at t 2); ok (bit_or (with_y (with_x 0x8000 x) y) low))

-- `SHR` and `SHL`, whose second register is optional.
unfoldable pub shift_of : ℕ → List Text → Result ℕ
shift_of low t =
    if length t == 2 || length t == 3
    then (do
      x ← reg (at t 1)
      y ← if length t == 3 then reg (at t 2) else ok 0
      ok (bit_or (with_y (with_x 0x8000 x) y) low))
    else fail

module _ (symbols : List Symbol) (resolve : Bool) where
  -- `z = value (t, resolve); range (z, max, ..)`
  abbrev pub operand : ℕ → Text → Result ℕ
  operand max s = value_of symbols resolve s >>= in_range max

  -- `base | z` for an operand
  abbrev pub or_operand : ℕ → ℕ → Text → Result ℕ
  or_operand base max s = do z ← operand max s; ok (bit_or base z)

  unfoldable pub jump_of : List Text → Result ℕ
  jump_of t =
      if length t == 2
      then or_operand 0x1000 0xfff (at t 1)
      else need 3 t (if is_text (at t 1) "V0" then or_operand 0xb000 0xfff (at t 2) else fail)

  -- `SE` and `SNE`, by their opcodes for a register and for a byte.
  unfoldable pub skip_of : ℕ → ℕ → List Text → Result ℕ
  skip_of for_reg for_byte t = need 3 t (do
    x ← reg (at t 1)
    if starts_v (at t 2)
        then (do y ← reg (at t 2); ok (with_y (with_x for_reg x) y))
        else or_operand (with_x for_byte x) 0xff (at t 2))

  -- `LD` with a register as its first operand.
  unfoldable pub load_reg : List Text → Result ℕ
  load_reg t = do
    x ← reg (at t 1)
    if is_text (at t 2) "DT"
        then ok (with_x 0xf007 x)
        else if is_text (at t 2) "K"
        then ok (with_x 0xf00a x)
        else if is_text (at t 2) "[I]"
        then ok (with_x 0xf065 x)
        else if starts_v (at t 2)
        then (do y ← reg (at t 2); ok (with_y (with_x 0x8000 x) y))
        else or_operand (with_x 0x6000 x) 0xff (at t 2)

  unfoldable pub load_of : List Text → Result ℕ
  load_of t = need 3 t (
      if is_text (at t 1) "I"
      then or_operand 0xa000 0xfff (at t 2)
      else if is_text (at t 1) "DT"
      then or_reg 0xf015 (at t 2)
      else if is_text (at t 1) "ST"
      then or_reg 0xf018 (at t 2)
      else if is_text (at t 1) "F"
      then or_reg 0xf029 (at t 2)
      else if is_text (at t 1) "B"
      then or_reg 0xf033 (at t 2)
      else if is_text (at t 1) "[I]"
      then or_reg 0xf055 (at t 2)
      else load_reg t)

  unfoldable pub add_of : List Text → Result ℕ
  add_of t = need 3 t (
      if is_text (at t 1) "I" then or_reg 0xf01e (at t 2) else (do
        x ← reg (at t 1)
        if starts_v (at t 2)
            then (do y ← reg (at t 2); ok (with_y (with_x 0x8004 x) y))
            else or_operand (with_x 0x7000 x) 0xff (at t 2)))

  unfoldable pub random_of : List Text → Result ℕ
  random_of t = need 3 t (do x ← reg (at t 1); or_operand (with_x 0xc000 x) 0xff (at t 2))

  unfoldable pub draw_of : List Text → Result ℕ
  draw_of t =
      need 4 t (do
        x ← reg (at t 1)
        y ← reg (at t 2)
        or_operand (with_y (with_x 0xd000 x) y) 0xf (at t 3))

  unfoldable pub instruction : List Text → Result ℕ
  instruction t =
      let op = at t 0 in
      if is_text op "CLS"
      then need 1 t (ok 0x00e0)
      else if is_text op "RET"
      then need 1 t (ok 0x00ee)
      else if is_text op "JP"
      then jump_of t
      else if is_text op "CALL"
      then need 2 t (or_operand 0x2000 0xfff (at t 1))
      else if is_text op "SE"
      then skip_of 0x5000 0x3000 t
      else if is_text op "SNE"
      then skip_of 0x9000 0x4000 t
      else if is_text op "LD"
      then load_of t
      else if is_text op "ADD"
      then add_of t
      else if is_text op "OR"
      then logic_of 1 t
      else if is_text op "AND"
      then logic_of 2 t
      else if is_text op "XOR"
      then logic_of 3 t
      else if is_text op "SUB"
      then logic_of 5 t
      else if is_text op "SUBN"
      then logic_of 7 t
      else if is_text op "SHR"
      then shift_of 6 t
      else if is_text op "SHL"
      then shift_of 0xe t
      else if is_text op "RND"
      then random_of t
      else if is_text op "DRW"
      then draw_of t
      else if is_text op "SKP"
      then need 2 t (or_reg 0xe09e (at t 1))
      else if is_text op "SKNP"
      then need 2 t (or_reg 0xe0a1 (at t 1))
      else fail
