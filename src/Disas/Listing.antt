-- ===== src/Disas/Listing.antt =====
-- `main` of src/disas.c, from the loaded ROM on: what is printed to the standard output.
pub mod Labels
pub mod Words
pub mod Passes
pub mod Trailing
pub mod Loops
pub mod RoundTrip
pub mod Whole
use chip_eight_jit.Common.{
  ℕ, zero, suc, ◌+◌, ◌-◌, ◌*◌, ◌/◌, ◌%◌, Bool, true, false, not, ◌&&◌, Option, none, some, List, [],
  ◌∷◌, ◌++◌, Array, ltb, ◌==◌, if◌then◌else◌,
}
use chip_eight_jit.Asm.Lexer.{Text, text}
use chip_eight_jit.Disas.Opcodes.{rom_start, memory_limit, word_at}
use chip_eight_jit.Disas.Analysis.{Flags, analyze, glue_unreachable}
use chip_eight_jit.Disas.Descent.{Map, descend}
use chip_eight_jit.Disas.Format.{hex, block_text}
use chip_eight_jit.Disas.Printing.{Style, output, disassemble}

abbrev pub newline : Text
newline = b'\n' ∷ []

-- The label of a block, if the address has one.
abbrev pub label_lines : Style → ℕ → List Text
label_lines s pc = if s.asm && s.leader pc then (block_text pc ++ text ":" ++ newline) ∷ [] else []

-- A word that no path reaches.
abbrev pub data_word : Style → ℕ → ℕ → Text
data_word s pc op =
    if s.asm
    then text "        .word 0x" ++ hex 4 op ++ text " ; data (unreachable)"
    else output s pc (text "data word " ++ hex 4 op)

-- The body of the loop; `decode` is `decode_unreachable`.
unfoldable pub word_lines : Style → Bool → ℕ → ℕ → List Text
word_lines s decode pc op =
    label_lines s pc
    ++ ((if not decode && not (s.reach pc) then data_word s pc op else disassemble s pc op)
        ++ newline)
      ∷ []

-- The loop from `pc` on, with `left` words to go.
unfoldable pub lines_from : Style → Bool → Array → ℕ → ℕ → List Text
lines_from s decode memory zero pc = []
lines_from s decode memory (suc left) pc =
    word_lines s decode pc (word_at memory pc) ++ lines_from s decode memory left (pc + 2)

-- The last byte of a ROM of odd size.
unfoldable pub trailing_lines : Style → Array → ℕ → List Text
trailing_lines s memory size =
    let pc = rom_start + size - 1 in
    if size % 2 == 0
    then []
    else label_lines s pc
      ++ ((if s.asm
            then text "        .byte 0x" ++ hex 2 (memory pc)
            else output s pc
                (text "trailing byte " ++ hex 2 (memory pc) ++ text " at pc 0x" ++ hex 4 pc))
          ++ newline)
        ∷ []

unfoldable pub listing : Style → Bool → Array → ℕ → List Text
listing s decode memory size =
    lines_from s decode memory (size / 2) rom_start ++ trailing_lines s memory size

-- The globals after the analysis.
abbrev pub style_of : Bool → Array → ℕ → Map → Style
style_of asm memory size m = record {
  asm = asm;
  leader = glue_unreachable m.reach size (analyze memory size);
  reach = m.reach;
}

unfoldable pub disassembly : Bool → Bool → Array → ℕ → Option (List Text)
disassembly asm decode memory size = elim (descend memory size) [
  | none ↦ none
  | some m ↦ some (listing (style_of asm memory size m) decode memory size)
]

-- The loop of `main` that gives up what is unknown, on the kinds of the bytes.
abbrev pub settle : Bool → ℕ → Map → Map
settle decode size m = if decode then m else record m {
  kinds = λ a.
      if not (ltb a rom_start) && ltb a (rom_start + size) && ltb a memory_limit && m.kinds a == 0
      then 2
      else m.kinds a;
}
