-- ===== src/Disas/Printing/Reads/Misc.antt =====
-- The same for the lines with one register, with an address, or with no operand.
use chip_eight_jit.Common.{ℕ, ◌+◌, ◌*◌, ◌<◌, ◌≡◌, refl, true, List, [], ◌∷◌, arith}
use chip_eight_jit.Common.Fields.{bit_or-add, bit_or-add_mid, bit_or-add_low}
use chip_eight_jit.Asm.Result.{Result, ok}
use chip_eight_jit.Asm.Lexer.{Text, text}
use chip_eight_jit.Asm.Values.{Symbol, value_of}
use chip_eight_jit.Asm.Instruction.{jump_of, load_reg, load_of, add_of, draw_of, instruction}
use chip_eight_jit.Disas.Format.{reg_text}
use chip_eight_jit.Disas.Format.Numbers.{upper_number, reg-reg_text, value_of-number1}

module _ (symbols : List Symbol) where
  abbrev of : List Text → Result ℕ
  of = instruction symbols true

  pub cls : of (text "CLS" ∷ []) ≡ ok 0x00e0
  unfolding instruction
  cls = refl

  pub ret : of (text "RET" ∷ []) ≡ ok 0x00ee
  unfolding instruction
  ret = refl

  module _ (x : ℕ) (p : x < 16) where
    pub skp : of (text "SKP" ∷ reg_text x ∷ []) ≡ ok (0xe000 + x * 0x100 + 0x9e)
    unfolding instruction
    skp = ground (arith, reg-reg_text x p, bit_or-add_mid 0xe09e x refl p)

    pub sknp : of (text "SKNP" ∷ reg_text x ∷ []) ≡ ok (0xe000 + x * 0x100 + 0xa1)
    unfolding instruction
    sknp = ground (arith, reg-reg_text x p, bit_or-add_mid 0xe0a1 x refl p)

    pub ld_delay : of (text "LD" ∷ reg_text x ∷ text "DT" ∷ []) ≡ ok (0xf000 + x * 0x100 + 0x07)
    unfolding instruction load_of load_reg
    ld_delay = ground (arith, reg-reg_text x p, bit_or-add_mid 0xf007 x refl p)

    pub ld_key : of (text "LD" ∷ reg_text x ∷ text "K" ∷ []) ≡ ok (0xf000 + x * 0x100 + 0x0a)
    unfolding instruction load_of load_reg
    ld_key = ground (arith, reg-reg_text x p, bit_or-add_mid 0xf00a x refl p)

    pub ld_saved : of (text "LD" ∷ reg_text x ∷ text "[I]" ∷ []) ≡ ok (0xf000 + x * 0x100 + 0x65)
    unfolding instruction load_of load_reg
    ld_saved = ground (arith, reg-reg_text x p, bit_or-add_mid 0xf065 x refl p)

    pub ld_dt : of (text "LD" ∷ text "DT" ∷ reg_text x ∷ []) ≡ ok (0xf000 + x * 0x100 + 0x15)
    unfolding instruction load_of
    ld_dt = ground (arith, reg-reg_text x p, bit_or-add_mid 0xf015 x refl p)

    pub ld_st : of (text "LD" ∷ text "ST" ∷ reg_text x ∷ []) ≡ ok (0xf000 + x * 0x100 + 0x18)
    unfolding instruction load_of
    ld_st = ground (arith, reg-reg_text x p, bit_or-add_mid 0xf018 x refl p)

    pub ld_f : of (text "LD" ∷ text "F" ∷ reg_text x ∷ []) ≡ ok (0xf000 + x * 0x100 + 0x29)
    unfolding instruction load_of
    ld_f = ground (arith, reg-reg_text x p, bit_or-add_mid 0xf029 x refl p)

    pub ld_b : of (text "LD" ∷ text "B" ∷ reg_text x ∷ []) ≡ ok (0xf000 + x * 0x100 + 0x33)
    unfolding instruction load_of
    ld_b = ground (arith, reg-reg_text x p, bit_or-add_mid 0xf033 x refl p)

    pub ld_save : of (text "LD" ∷ text "[I]" ∷ reg_text x ∷ []) ≡ ok (0xf000 + x * 0x100 + 0x55)
    unfolding instruction load_of
    ld_save = ground (arith, reg-reg_text x p, bit_or-add_mid 0xf055 x refl p)

    pub add_i : of (text "ADD" ∷ text "I" ∷ reg_text x ∷ []) ≡ ok (0xf000 + x * 0x100 + 0x1e)
    unfolding instruction add_of
    add_i = ground (arith, reg-reg_text x p, bit_or-add_mid 0xf01e x refl p)

  pub drw :
      (x y n : ℕ)
      → x < 16
      → y < 16
      → n < 0x10
      → of (text "DRW" ∷ reg_text x ∷ reg_text y ∷ upper_number 1 n ∷ [])
        ≡ ok (0xd000 + x * 0x100 + y * 0x10 + n)
  unfolding instruction draw_of
  drw x y n p q l = ground (
    arith,
    reg-reg_text x p,
    reg-reg_text y q,
    value_of-number1 n symbols true l,
    bit_or-add_mid 0xd000 x refl p,
    bit_or-add_low (0xd000 + x * 0x100) y (omega arith) q,
    bit_or-add 4 (0xd000 + x * 0x100 + y * 0x10) n (omega arith) l,
  )

  -- An operand that is read as an address of twelve bits.
  module _ (s : Text) (n : ℕ) (l : n < 0x1000) (v : value_of symbols true s ≡ ok n) where
    pub jp : of (text "JP" ∷ s ∷ []) ≡ ok (0x1000 + n)
    unfolding instruction jump_of
    jp = ground (arith, v, bit_or-add 12 0x1000 n refl l)

    pub jp_v0 : of (text "JP" ∷ text "V0" ∷ s ∷ []) ≡ ok (0xb000 + n)
    unfolding instruction jump_of
    jp_v0 = ground (arith, v, bit_or-add 12 0xb000 n refl l)

    pub call : of (text "CALL" ∷ s ∷ []) ≡ ok (0x2000 + n)
    unfolding instruction
    call = ground (arith, v, bit_or-add 12 0x2000 n refl l)

    pub ld_i : of (text "LD" ∷ text "I" ∷ s ∷ []) ≡ ok (0xa000 + n)
    unfolding instruction load_of
    ld_i = ground (arith, v, bit_or-add 12 0xa000 n refl l)
