-- ===== src/Disas/Printing/Reads/Cases.antt =====
-- The cases of the switch of `disassemble`, in the format of the assembler.
use chip_eight_jit.Common.{
  ℕ, ◌+◌, ◌*◌, ◌/◌, ◌^◌, ◌<◌, ◌≡◌, refl, ◌∙◌, ap, Bool, true, false, List, [], ◌∷◌, ◌++◌, some,
  arith, ◌==◌, if◌then◌else◌,
}
use chip_eight_jit.Machine.{x_of, y_of, immediate_four, immediate_eight, immediate_twelve}
use chip_eight_jit.Asm.Result.{ok}
use chip_eight_jit.Asm.Lexer.{Text, text}
use chip_eight_jit.Asm.Values.{Symbol, lookup}
use chip_eight_jit.Asm.Instruction.{instruction}
use chip_eight_jit.Disas.Analysis.{Flags}
use chip_eight_jit.Disas.Format.{hex, reg_text}
use chip_eight_jit.Disas.Format.Numbers.{number, upper_number, block_name}
use chip_eight_jit.Disas.Format.Reading.{comma}
use chip_eight_jit.Disas.Printing.{Style, raw_word}
use chip_eight_jit.Disas.Printing.Reads.{Reads, is_mnemonic, Operand-word, Reads-one, Reads-two}
use chip_eight_jit.Disas.Printing.Reads.Words.{Reads-comment, Reads-word}
use chip_eight_jit.Disas.Printing.Reads.Operands.{Operand-reg, Operand-number2}

-- The style of `--asm`.
abbrev pub asm_style : Flags → Flags → Style
asm_style leader reach = record { asm = true; leader = leader; reach = reach }

-- Each label that the listing has is in the table of the assembler, with its address.
abbrev pub Labelled : List Symbol → Flags → Type 0
Labelled symbols leader = (a : ℕ) → leader a ≡ true → lookup symbols (block_name a) ≡ some a

-- What both branches have.
pub branch {ℓ κ} :
    {A : Type ℓ} (P : A → Type κ) (b : Bool) {t e : A}
    → (b ≡ true → P t)
    → (b ≡ false → P e)
    → P (if b then t else e)
branch P true h k = h refl
branch P false h k = k refl

module _ (symbols : List Symbol) (op : ℕ) (small : op < 0x10000) where
  abbrev x : ℕ
  x = x_of op

  abbrev y : ℕ
  y = y_of op

  abbrev n : ℕ
  n = immediate_four op

  abbrev kk : ℕ
  kk = immediate_eight op

  abbrev nnn : ℕ
  nnn = immediate_twelve op

  x_lt : x < 16
  x_lt = omega arith

  y_lt : y < 16
  y_lt = omega arith

  kk_lt : kk < 0x100
  kk_lt = omega arith

  abbrev Fits : Text → Type 0
  Fits t = Reads symbols t op

  abbrev Made : List Text → ℕ → Type 0
  Made words v = instruction symbols true words ≡ ok v

  pub two_regs :
      (m : Text) (d low : ℕ)
      → is_mnemonic m ≡ true
      → (op / 2 ^ 12 == d) ≡ true
      → (n == low) ≡ true
      → Made (m ∷ reg_text x ∷ reg_text y ∷ []) (d * 0x1000 + x * 0x100 + y * 0x10 + low)
      → Fits (m ++ (b' ' ∷ (reg_text x ++ comma (reg_text y))))
  two_regs m d low t h k e =
      Reads-two symbols op m t (reg_text x) (reg_text x) (reg_text y) (reg_text y)
        (Operand-reg x x_lt) (Operand-reg y y_lt) (e ∙ ap ok (ground arith))

  pub with_number :
      (m : Text) (d : ℕ)
      → is_mnemonic m ≡ true
      → (op / 2 ^ 12 == d) ≡ true
      → Made (m ∷ reg_text x ∷ upper_number 2 kk ∷ []) (d * 0x1000 + x * 0x100 + kk)
      → Fits (m ++ (b' ' ∷ (reg_text x ++ comma (number 2 kk))))
  with_number m d t h e =
      Reads-two symbols op m t (reg_text x) (reg_text x) (number 2 kk) (upper_number 2 kk)
        (Operand-reg x x_lt) (Operand-number2 kk) (e ∙ ap ok (ground arith))

  -- The lines with one register, whose low byte is fixed.
  pub only_reg :
      (m : Text) (low : ℕ)
      → is_mnemonic m ≡ true
      → (op / 2 ^ 12 == 0xe) ≡ true
      → (kk == low) ≡ true
      → Made (m ∷ reg_text x ∷ []) (0xe000 + x * 0x100 + low)
      → Fits (m ++ (b' ' ∷ reg_text x))
  only_reg m low t h k e =
      Reads-one symbols op m t (reg_text x) (reg_text x) (Operand-reg x x_lt)
        (e ∙ ap ok (ground arith))

  pub reg_then :
      (m a : Text) (low : ℕ)
      → is_mnemonic m ≡ true
      → is_mnemonic a ≡ true
      → (op / 2 ^ 12 == 0xf) ≡ true
      → (kk == low) ≡ true
      → Made (m ∷ reg_text x ∷ a ∷ []) (0xf000 + x * 0x100 + low)
      → Fits (m ++ (b' ' ∷ (reg_text x ++ comma a)))
  reg_then m a low t u h k e =
      Reads-two symbols op m t (reg_text x) (reg_text x) a a (Operand-reg x x_lt) (Operand-word a u)
        (e ∙ ap ok (ground arith))

  pub then_reg :
      (m a : Text) (low : ℕ)
      → is_mnemonic m ≡ true
      → is_mnemonic a ≡ true
      → (op / 2 ^ 12 == 0xf) ≡ true
      → (kk == low) ≡ true
      → Made (m ∷ a ∷ reg_text x ∷ []) (0xf000 + x * 0x100 + low)
      → Fits (m ++ (b' ' ∷ (a ++ comma (reg_text x))))
  then_reg m a low t u h k e =
      Reads-two symbols op m t a a (reg_text x) (reg_text x) (Operand-word a u) (Operand-reg x x_lt)
        (e ∙ ap ok (ground arith))

  module _ (leader reach : Flags) (pc : ℕ) where
    abbrev s : Style
    s = asm_style leader reach

    pub raw_Fits : Fits (raw_word s pc op)
    raw_Fits =
        Reads-comment symbols (text ".word 0x" ++ hex 4 op) (text " unrecognized opcode") op
          (Reads-word symbols op small)
