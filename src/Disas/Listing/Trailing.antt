-- ===== src/Disas/Listing/Trailing.antt =====
-- The last byte of a ROM of odd size, as both passes of the assembler read it.
use chip_eight_jit.Common.{ℕ, ◌+◌, ◌≤◌, ◌<◌, ◌≡◌, true, false, List, [], ◌∷◌, ◌++◌, arith}
use chip_eight_jit.Asm.Result.{ok}
use chip_eight_jit.Asm.Lexer.{Text, text, normalize, tokenize}
use chip_eight_jit.Asm.Values.{Symbol}
use chip_eight_jit.Asm.Passes.{
  line_size, define_label, first_line, first, printed, second, memory_end,
}
use chip_eight_jit.Disas.Format.{hex}
use chip_eight_jit.Disas.Listing.{newline}
use chip_eight_jit.Asm.Passes.{byte_values, directive}
use chip_eight_jit.Disas.Format.Numbers.{
  number, upper_number, number-IsToken, normalize-number, value_of-number2,
}
use chip_eight_jit.Disas.Format.Reading.{tokens_of_one}
use chip_eight_jit.Disas.Listing.Passes.{at_pc}
use chip_eight_jit.Disas.Listing.Words.{newline-Stops}

abbrev pub byte_line : ℕ → Text
byte_line v = text "        .byte 0x" ++ hex 2 v ++ newline

tokenize-byte_line : (v : ℕ) → tokenize (byte_line v) ≡ ok (text ".BYTE" ∷ upper_number 2 v ∷ [])
unfolding tokenize normalize
tokenize-byte_line v =
    let (_, t, _, _) = number-IsToken v in
    let (_, u, _, _) = normalize-number v in
    let e = tokens_of_one (text ".byte") (number 2 v) newline (ground arith) t newline-Stops in
    ground (arith, e, u)

pub first-byte_line :
    (symbols : List Symbol) (pc v : ℕ)
    → v < 0x100
    → pc + 1 ≤ memory_end
    → first (at_pc symbols pc) (byte_line v ∷ []) ≡ ok (at_pc symbols (pc + 1))
unfolding first first_line define_label line_size directive byte_values
first-byte_line symbols pc v h room =
    ground (arith, tokenize-byte_line v, value_of-number2 v symbols false h)

pub second-byte_line :
    (all : List Symbol) (pc v : ℕ) → v < 0x100 → second all pc (byte_line v ∷ []) ≡ ok (v ∷ [])
unfolding second printed line_size directive byte_values
second-byte_line all pc v h = ground (arith, tokenize-byte_line v, value_of-number2 v all true h)
