-- ===== src/Disas/Printing/Reads/Forms.antt =====
-- The opcodes that the assembler makes of the operands that the disassembler prints.
use chip_eight_jit.Common.{ℕ, ◌+◌, ◌*◌, ◌<◌, ◌≡◌, refl, true, List, [], ◌∷◌, arith}
use chip_eight_jit.Common.Fields.{bit_or-add, bit_or-add_mid, bit_or-add_low}
use chip_eight_jit.Asm.Result.{Result, ok}
use chip_eight_jit.Asm.Lexer.{Text, text}
use chip_eight_jit.Asm.Values.{Symbol, reg}
use chip_eight_jit.Asm.Instruction.{
  skip_of, load_reg, load_of, add_of, logic_of, shift_of, random_of, instruction,
}
use chip_eight_jit.Disas.Format.{reg_text}
use chip_eight_jit.Disas.Format.Numbers.{upper_number, reg-reg_text, value_of-number2}

module _ (symbols : List Symbol) (x y kk : ℕ) (p : x < 16) (q : y < 16) (l : kk < 0x100) where
  regs_in : (reg (reg_text x) ≡ ok x) × (reg (reg_text y) ≡ ok y)
  regs_in = (reg-reg_text x p, reg-reg_text y q)

  abbrev made : List Text → Result ℕ
  made = instruction symbols true

  pub se_byte :
      made (text "SE" ∷ reg_text x ∷ upper_number 2 kk ∷ []) ≡ ok (0x3000 + x * 0x100 + kk)
  unfolding instruction skip_of
  se_byte = ground (
    arith,
    regs_in,
    value_of-number2 kk symbols true l,
    bit_or-add_mid 0x3000 x refl p,
    bit_or-add 8 (0x3000 + x * 0x100) kk (omega arith) l,
  )

  pub sne_byte :
      made (text "SNE" ∷ reg_text x ∷ upper_number 2 kk ∷ []) ≡ ok (0x4000 + x * 0x100 + kk)
  unfolding instruction skip_of
  sne_byte = ground (
    arith,
    regs_in,
    value_of-number2 kk symbols true l,
    bit_or-add_mid 0x4000 x refl p,
    bit_or-add 8 (0x4000 + x * 0x100) kk (omega arith) l,
  )

  pub ld_byte :
      made (text "LD" ∷ reg_text x ∷ upper_number 2 kk ∷ []) ≡ ok (0x6000 + x * 0x100 + kk)
  unfolding instruction load_of load_reg
  ld_byte = ground (
    arith,
    regs_in,
    value_of-number2 kk symbols true l,
    bit_or-add_mid 0x6000 x refl p,
    bit_or-add 8 (0x6000 + x * 0x100) kk (omega arith) l,
  )

  pub add_byte :
      made (text "ADD" ∷ reg_text x ∷ upper_number 2 kk ∷ []) ≡ ok (0x7000 + x * 0x100 + kk)
  unfolding instruction add_of
  add_byte = ground (
    arith,
    regs_in,
    value_of-number2 kk symbols true l,
    bit_or-add_mid 0x7000 x refl p,
    bit_or-add 8 (0x7000 + x * 0x100) kk (omega arith) l,
  )

  pub rnd_byte :
      made (text "RND" ∷ reg_text x ∷ upper_number 2 kk ∷ []) ≡ ok (0xc000 + x * 0x100 + kk)
  unfolding instruction random_of
  rnd_byte = ground (
    arith,
    regs_in,
    value_of-number2 kk symbols true l,
    bit_or-add_mid 0xc000 x refl p,
    bit_or-add 8 (0xc000 + x * 0x100) kk (omega arith) l,
  )

  pub se_regs :
      made (text "SE" ∷ reg_text x ∷ reg_text y ∷ []) ≡ ok (0x5000 + x * 0x100 + y * 0x10 + 0)
  unfolding instruction skip_of
  se_regs = ground (
    arith,
    regs_in,
    bit_or-add_mid 0x5000 x refl p,
    bit_or-add_low (0x5000 + x * 0x100) y (omega arith) q,
  )

  pub sne_regs :
      made (text "SNE" ∷ reg_text x ∷ reg_text y ∷ []) ≡ ok (0x9000 + x * 0x100 + y * 0x10 + 0)
  unfolding instruction skip_of
  sne_regs = ground (
    arith,
    regs_in,
    bit_or-add_mid 0x9000 x refl p,
    bit_or-add_low (0x9000 + x * 0x100) y (omega arith) q,
  )

  pub ld_regs :
      made (text "LD" ∷ reg_text x ∷ reg_text y ∷ []) ≡ ok (0x8000 + x * 0x100 + y * 0x10 + 0)
  unfolding instruction load_of load_reg
  ld_regs = ground (
    arith,
    regs_in,
    bit_or-add_mid 0x8000 x refl p,
    bit_or-add_low (0x8000 + x * 0x100) y (omega arith) q,
  )

  pub or_regs :
      made (text "OR" ∷ reg_text x ∷ reg_text y ∷ []) ≡ ok (0x8000 + x * 0x100 + y * 0x10 + 1)
  unfolding instruction logic_of
  or_regs = ground (
    arith,
    regs_in,
    bit_or-add_mid 0x8000 x refl p,
    bit_or-add_low (0x8000 + x * 0x100) y (omega arith) q,
    bit_or-add 4 (0x8000 + x * 0x100 + y * 0x10) 1 (omega arith) (omega arith),
  )

  pub and_regs :
      made (text "AND" ∷ reg_text x ∷ reg_text y ∷ []) ≡ ok (0x8000 + x * 0x100 + y * 0x10 + 2)
  unfolding instruction logic_of
  and_regs = ground (
    arith,
    regs_in,
    bit_or-add_mid 0x8000 x refl p,
    bit_or-add_low (0x8000 + x * 0x100) y (omega arith) q,
    bit_or-add 4 (0x8000 + x * 0x100 + y * 0x10) 2 (omega arith) (omega arith),
  )

  pub xor_regs :
      made (text "XOR" ∷ reg_text x ∷ reg_text y ∷ []) ≡ ok (0x8000 + x * 0x100 + y * 0x10 + 3)
  unfolding instruction logic_of
  xor_regs = ground (
    arith,
    regs_in,
    bit_or-add_mid 0x8000 x refl p,
    bit_or-add_low (0x8000 + x * 0x100) y (omega arith) q,
    bit_or-add 4 (0x8000 + x * 0x100 + y * 0x10) 3 (omega arith) (omega arith),
  )

  pub add_regs :
      made (text "ADD" ∷ reg_text x ∷ reg_text y ∷ []) ≡ ok (0x8000 + x * 0x100 + y * 0x10 + 4)
  unfolding instruction add_of
  add_regs = ground (
    arith,
    regs_in,
    bit_or-add_mid 0x8004 x refl p,
    bit_or-add_low (0x8004 + x * 0x100) y (omega arith) q,
  )

  pub sub_regs :
      made (text "SUB" ∷ reg_text x ∷ reg_text y ∷ []) ≡ ok (0x8000 + x * 0x100 + y * 0x10 + 5)
  unfolding instruction logic_of
  sub_regs = ground (
    arith,
    regs_in,
    bit_or-add_mid 0x8000 x refl p,
    bit_or-add_low (0x8000 + x * 0x100) y (omega arith) q,
    bit_or-add 4 (0x8000 + x * 0x100 + y * 0x10) 5 (omega arith) (omega arith),
  )

  pub shr_regs :
      made (text "SHR" ∷ reg_text x ∷ reg_text y ∷ []) ≡ ok (0x8000 + x * 0x100 + y * 0x10 + 6)
  unfolding instruction shift_of
  shr_regs = ground (
    arith,
    regs_in,
    bit_or-add_mid 0x8000 x refl p,
    bit_or-add_low (0x8000 + x * 0x100) y (omega arith) q,
    bit_or-add 4 (0x8000 + x * 0x100 + y * 0x10) 6 (omega arith) (omega arith),
  )

  pub subn_regs :
      made (text "SUBN" ∷ reg_text x ∷ reg_text y ∷ []) ≡ ok (0x8000 + x * 0x100 + y * 0x10 + 7)
  unfolding instruction logic_of
  subn_regs = ground (
    arith,
    regs_in,
    bit_or-add_mid 0x8000 x refl p,
    bit_or-add_low (0x8000 + x * 0x100) y (omega arith) q,
    bit_or-add 4 (0x8000 + x * 0x100 + y * 0x10) 7 (omega arith) (omega arith),
  )

  pub shl_regs :
      made (text "SHL" ∷ reg_text x ∷ reg_text y ∷ []) ≡ ok (0x8000 + x * 0x100 + y * 0x10 + 14)
  unfolding instruction shift_of
  shl_regs = ground (
    arith,
    regs_in,
    bit_or-add_mid 0x8000 x refl p,
    bit_or-add_low (0x8000 + x * 0x100) y (omega arith) q,
    bit_or-add 4 (0x8000 + x * 0x100 + y * 0x10) 14 (omega arith) (omega arith),
  )
