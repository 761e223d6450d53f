-- ===== src/Disas/Printing/Reads/Switch.antt =====
-- The other cases of the switch of `disassemble`, in the format of the assembler.
use chip_eight_jit.Common.{
  ℕ, ◌+◌, ◌*◌, ◌/◌, ◌^◌, ◌<◌, ◌≡◌, refl, ◌∙◌, ap, true, List, [], ◌∷◌, ◌++◌, arith, ◌==◌,
  if◌then◌else◌,
}
use chip_eight_jit.Machine.{x_of, y_of, immediate_four, immediate_eight, immediate_twelve}
use chip_eight_jit.Asm.Result.{ok}
use chip_eight_jit.Asm.Lexer.{Text, text}
use chip_eight_jit.Asm.Values.{Symbol, value_of}
use chip_eight_jit.Asm.Instruction.{instruction}
use chip_eight_jit.Disas.Analysis.{Flags}
use chip_eight_jit.Disas.Format.{hex, reg_text, block_text}
use chip_eight_jit.Disas.Format.Numbers.{
  number, upper_number, block_name, value_of-number3, value_of-block_name,
}
use chip_eight_jit.Disas.Printing.{Style, raw_word}
use chip_eight_jit.Disas.Printing.Reads.{
  Reads, is_mnemonic, Operand-word, Reads-one, Reads-two, Reads-three,
}
use chip_eight_jit.Disas.Printing.Reads.Words.{Reads-comment}
use chip_eight_jit.Disas.Printing.Reads.Operands.{
  Operand-reg, Operand-number1, Operand-number3, Operand-block,
}
use chip_eight_jit.Disas.Printing.Reads.Misc
use chip_eight_jit.Disas.Printing.Reads.Cases.{asm_style, Labelled, branch, raw_Fits}

module _ (symbols : List Symbol) (op : ℕ) (small : op < 0x10000) where
  abbrev x : ℕ
  x = x_of op

  abbrev y : ℕ
  y = y_of op

  abbrev kk : ℕ
  kk = immediate_eight op

  abbrev nnn : ℕ
  nnn = immediate_twelve op

  x_lt : x < 16
  x_lt = omega arith

  y_lt : y < 16
  y_lt = omega arith

  kk_lt : kk < 0x100
  kk_lt = omega arith

  nnn_lt : nnn < 0x1000
  nnn_lt = omega arith

  abbrev Fits : Text → Type 0
  Fits t = Reads symbols t op

  module _ (leader reach : Flags) (pc : ℕ) where
    abbrev s : Style
    s = asm_style leader reach

    abbrev raw : Fits (raw_word s pc op)
    raw = raw_Fits symbols op small leader reach pc

    -- The operand is the name of a block, or the number.
    module _ (known : Labelled symbols leader) where
      pub address_Fits :
          (m : Text) (d : ℕ)
          → is_mnemonic m ≡ true
          → (op / 2 ^ 12 == d) ≡ true
          → ((b : Text)
              → value_of symbols true b ≡ ok nnn
              → instruction symbols true (m ∷ b ∷ []) ≡ ok (d * 0x1000 + nnn))
          → Fits (if leader nnn then m ++ (b' ' ∷ block_text nnn) else m ++ (b' ' ∷ number 3 nnn))
      address_Fits m d t h e =
          branch Fits (leader nnn)
            (λ k. Reads-one symbols op m t (block_text nnn) (block_name nnn) (Operand-block nnn) (
              e (block_name nnn) (value_of-block_name nnn symbols true (known nnn k))
              ∙ ap ok (ground arith)))
            (λ _.
              Reads-one symbols op m t (number 3 nnn) (upper_number 3 nnn) (Operand-number3 nnn) (
                e (upper_number 3 nnn) (value_of-number3 nnn symbols true nnn_lt)
                ∙ ap ok (ground arith)))

      pub load_address_Fits :
          (op / 2 ^ 12 == 0xa) ≡ true
          → Fits (
              if leader nnn then text "LD I, " ++ block_text nnn else text "LD I, " ++ number 3 nnn)
      load_address_Fits h =
          branch Fits (leader nnn)
            (λ k.
              Reads-two symbols op (text "LD") refl (text "I") (text "I") (block_text nnn)
                (block_name nnn) (Operand-word (text "I") refl) (Operand-block nnn)
                (Misc.ld_i symbols (block_name nnn) nnn nnn_lt
                    (value_of-block_name nnn symbols true (known nnn k))
                  ∙ ap ok (ground arith)))
            (λ _.
              Reads-two symbols op (text "LD") refl (text "I") (text "I") (number 3 nnn)
                (upper_number 3 nnn) (Operand-word (text "I") refl) (Operand-number3 nnn)
                (Misc.ld_i symbols (upper_number 3 nnn) nnn nnn_lt
                    (value_of-number3 nnn symbols true nnn_lt)
                  ∙ ap ok (ground arith)))

      pub indirect_Fits :
          (op / 2 ^ 12 == 0xb) ≡ true
          → Fits (
              text "JP V0, 0x"
              ++ hex 3 nnn
              ++ text " ; WARNING: indirect jump, block analysis may be incomplete")
      indirect_Fits h =
          Reads-comment symbols (text "JP V0, 0x" ++ hex 3 nnn)
            (text " WARNING: indirect jump, block analysis may be incomplete") op
            (Reads-two symbols op (text "JP") refl (text "V0") (text "V0") (number 3 nnn)
              (upper_number 3 nnn) (Operand-word (text "V0") refl) (Operand-number3 nnn)
              (Misc.jp_v0 symbols (upper_number 3 nnn) nnn nnn_lt
                  (value_of-number3 nnn symbols true nnn_lt)
                ∙ ap ok (ground arith)))

      pub draw_Fits :
          (op / 2 ^ 12 == 0xd) ≡ true
          → Fits (
              text "DRW "
              ++ reg_text x
              ++ text ", "
              ++ reg_text y
              ++ text ", 0x"
              ++ hex 1 (immediate_four op))
      draw_Fits h =
          let n = immediate_four op in
          Reads-three symbols op (text "DRW") refl (reg_text x) (reg_text x) (reg_text y)
            (reg_text y) (number 1 n) (upper_number 1 n) (Operand-reg x x_lt) (Operand-reg y y_lt)
            (Operand-number1 n)
            (Misc.drw symbols x y n x_lt y_lt (omega arith) ∙ ap ok (ground arith))
