-- ===== src/Disas/Listing/Passes.antt =====
-- The passes of the assembler over the words of a listing.
use mathlib.Core.List.{append-nil}
use chip_eight_jit.Common.{
  ℕ, ◌+◌, ◌≤◌, ◌<◌, ◌≡◌, refl, false, none, List, [], ◌∷◌, ◌++◌, length, arith, Bool-cases, inl,
  inr,
}
use chip_eight_jit.Asm.Result.{ok}
use chip_eight_jit.Asm.Lexer.{Text, text}
use chip_eight_jit.Asm.Values.{Symbol, lookup, define}
use chip_eight_jit.Asm.Passes.{
  bytes_of_word, line_size, has_label, after_label, define_label, Pass, first_line, first, printed,
  second, memory_end,
}
use chip_eight_jit.Asm.Passes.Sizes.{Extends}
use chip_eight_jit.Disas.Analysis.{Flags}
use chip_eight_jit.Disas.Format.{block_text}
use chip_eight_jit.Disas.Format.Numbers.{block_name}
use chip_eight_jit.Disas.Printing.Reads.Cases.{asm_style}
use chip_eight_jit.Disas.Listing.{newline, label_lines}
use chip_eight_jit.Disas.Listing.Labels.{tokenize-label, block_name-is_name, label_of, symbol_at}
use chip_eight_jit.Disas.Listing.Words.{Holds}

abbrev pub at_pc : List Symbol → ℕ → Pass
at_pc symbols pc = record { symbols = symbols; pc = pc }

after_bare : (words : List Text) → has_label words ≡ false → after_label words ≡ words
after_bare [] h = refl
after_bare (t ∷ ts) h = ground (arith, h)

-- A line that defines no label and holds an opcode.
pub first-Holds :
    (all symbols : List Symbol) (line : Text) (op pc : ℕ) (rest : List Text)
    → Holds all line op
    → Extends symbols all
    → pc + 2 ≤ memory_end
    → first (at_pc symbols pc) (line ∷ rest) ≡ first (at_pc symbols (pc + 2)) rest
unfolding first first_line define_label
first-Holds all symbols line op pc rest w ext room =
    let (o, sized) = w.counted symbols pc ext in
    ground (arith, w.splits, w.bare, after_bare w.words w.bare, sized)

pub second-Holds :
    (all : List Symbol) (line : Text) (op pc : ℕ) (rest : List Text) (out : List ℕ)
    → Holds all line op
    → second all (pc + 2) rest ≡ ok out
    → second all pc (line ∷ rest) ≡ ok (bytes_of_word op ++ out)
unfolding second printed
second-Holds all line op pc rest out w later =
    ground (arith, w.splits, w.kept, after_bare w.words w.bare, w.made pc, later)

-- The line of a label, whose name is not in the table yet.
first-label :
    (symbols : List Symbol) (pc : ℕ) (rest : List Text)
    → lookup symbols (block_name pc) ≡ none
    → length symbols < 2048
    → pc ≤ memory_end
    → first (at_pc symbols pc) ((block_text pc ++ text ":" ++ newline) ∷ rest)
      ≡ first (at_pc (symbols ++ symbol_at pc ∷ []) pc) rest
unfolding first first_line define_label define line_size
first-label symbols pc rest fresh few room =
    ground (arith, tokenize-label pc, block_name-is_name pc, fresh)

second-label :
    (all : List Symbol) (pc : ℕ) (rest : List Text) (out : List ℕ)
    → second all pc rest ≡ ok out
    → second all pc ((block_text pc ++ text ":" ++ newline) ∷ rest) ≡ ok out
unfolding second printed line_size
second-label all pc rest out later = ground (arith, tokenize-label pc, later)

-- The lines of one address, of which the last one is given.
pub first-labelled :
    (leader reach : Flags) (symbols : List Symbol) (pc : ℕ) (lines : List Text)
    → lookup symbols (block_name pc) ≡ none
    → length symbols < 2048
    → pc ≤ memory_end
    → first (at_pc symbols pc) (label_lines (asm_style leader reach) pc ++ lines)
      ≡ first (at_pc (symbols ++ label_of leader pc) pc) lines
first-labelled leader reach symbols pc lines fresh few room = elim (Bool-cases (leader pc)) [
  | inl on ↦ rw (on) (first-label symbols pc lines fresh few room)
  | inr off ↦ rw (off, append-nil symbols) refl
]

pub second-labelled :
    (leader reach : Flags) (all : List Symbol) (pc : ℕ) (lines : List Text) (out : List ℕ)
    → second all pc lines ≡ ok out
    → second all pc (label_lines (asm_style leader reach) pc ++ lines) ≡ ok out
second-labelled leader reach all pc lines out later = elim (Bool-cases (leader pc)) [
  | inl on ↦ rw (on) (second-label all pc lines out later)
  | inr off ↦ rw (off) later
]
