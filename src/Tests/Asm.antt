-- ===== src/Tests/Asm.antt =====
-- Runs of the assembler.
use chip_eight_jit.Common.{true, ℕ, ◌+◌, ◌≤◌, ◌≡◌, refl, false, List, [], ◌∷◌, length}
use chip_eight_jit.Asm.Result.{ok}
use chip_eight_jit.Asm.Lexer.{Text, text, normalize, tokens_of, tokenize, is_name}
use chip_eight_jit.Asm.Lexer.Comments.{tokens_of_glued}
use chip_eight_jit.Asm.Values.{Symbol, lookup, define, strtoul_whole, value_of, reg}
use chip_eight_jit.Asm.Instruction.Fields.{IsOpcode}
use chip_eight_jit.Asm.Instruction.Opcodes.{instruction-IsOpcode}
use chip_eight_jit.Asm.Instruction.{instruction, jump_of, load_of, load_reg}
use chip_eight_jit.Asm.Passes.{
  origin, byte_values, org_line, directive, line_size, define_label, Pass, first_line, first,
  printed, second, assemble, memory_end,
}
use chip_eight_jit.Asm.Passes.Agree.{assemble-fits}

-- A jump to a label that is defined after it, a gap, and data.
abbrev program : List Text
program =
    text "jp end ; forward" ∷ text ".org 0x205" ∷ text "end: .byte 1, 2" ∷ text "LD v3, 0x2a" ∷ []

abbrev code : List ℕ
code = 0x12 ∷ 0x05 ∷ 0 ∷ 0 ∷ 0 ∷ 1 ∷ 2 ∷ 0x63 ∷ 0x2a ∷ []

abbrev labels : List Symbol
labels = record { name = text "END"; value = 0x205 } ∷ []

output_of_program : assemble program ≡ ok code
unfolding assemble first first_line second tokenize tokens_of normalize define_label define is_name
    lookup line_size directive byte_values org_line instruction jump_of load_of load_reg value_of
    strtoul_whole reg printed
output_of_program = refl

assemble-fits_example :
    (p : Pass) × (first (record { symbols = []; pc = origin }) program ≡ ok p)
    × (origin + length code ≡ p.pc)
    × (p.pc ≤ memory_end)
assemble-fits_example = assemble-fits program code output_of_program

tokens_of_glued_example :
    tokens_of false [] (text "CLS;CLEAR IT") ≡ text "CLS" ∷ text "CLEAR" ∷ text "IT" ∷ []
unfolding tokens_of
tokens_of_glued_example =
    tokens_of_glued b'C' (text "LS") (text "CLEAR IT") (refl, (refl, (refl, tt)))

instruction-IsOpcode_example : IsOpcode 0x632a
unfolding instruction load_of load_reg value_of strtoul_whole reg
instruction-IsOpcode_example =
    instruction-IsOpcode [] true (text "LD" ∷ text "V3" ∷ text "0X2A" ∷ []) 0x632a refl
