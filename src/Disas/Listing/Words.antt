-- ===== src/Disas/Listing/Words.antt =====
-- The lines of a word, as both passes of the assembler read them.
use mathlib.Core.List.{append_assoc}
use chip_eight_jit.Common.{
  ℕ, ◌<◌, ◌≡◌, refl, Bool, true, false, not, ◌&&◌, List, [], ◌∷◌, ◌++◌, ltb, if◌then◌else◌,
}
use chip_eight_jit.Asm.Result.{ok}
use chip_eight_jit.Asm.Lexer.{Text, text, tokenize, tokens_of}
use chip_eight_jit.Asm.Values.{Symbol}
use chip_eight_jit.Asm.Instruction.{at, is_text}
use chip_eight_jit.Asm.Passes.{line_size, has_label}
use chip_eight_jit.Asm.Passes.Sizes.{Extends}
use chip_eight_jit.Disas.Analysis.{Flags}
use chip_eight_jit.Disas.Format.{hex}
use chip_eight_jit.Disas.Format.Reading.{Stops, indent}
use chip_eight_jit.Disas.Printing.{Style, output, body, disassemble}
use chip_eight_jit.Disas.Printing.Reads.{word_line, Reads}
use chip_eight_jit.Disas.Printing.Reads.Words.{Reads-word}
use chip_eight_jit.Disas.Printing.Reads.Cases.{asm_style, Labelled, branch}
use chip_eight_jit.Disas.Printing.Reads.Whole.{body-Reads}
use chip_eight_jit.Disas.Listing.{newline, data_word}

-- A whole line, with its end, that holds an opcode.
pub record Holds (symbols : List Symbol) (line : Text) (op : ℕ) : Type 0 where
  pub words : List Text
  pub splits : tokenize line ≡ ok words
  pub bare : has_label words ≡ false
  pub kept : is_text (at words 0) ".ORG" ≡ false
  pub made : (pc : ℕ) → line_size symbols true pc words ≡ ok (word_line op)
  pub counted :
      (old : List Symbol) (pc : ℕ)
      → Extends old symbols
      → (o : ℕ) × (line_size old false pc words ≡ ok (word_line o))

pub newline-Stops : Stops newline
unfolding tokens_of
newline-Stops into = refl

comment-Stops : (d : Text) → Stops (b' ' ∷ b';' ∷ d)
unfolding tokens_of
comment-Stops d into = refl

module _ (symbols : List Symbol) (op : ℕ) where
  Reads-Holds :
      (body rest : Text)
      → Stops rest
      → Reads symbols body op
      → Holds symbols (indent ++ (body ++ rest)) op
  Reads-Holds body rest stops r = record {
    words = r.words;
    splits = r.splits rest stops;
    bare = r.bare;
    kept = r.kept;
    made = r.made;
    counted = r.counted;
  }

  module _ (small : op < 0x10000) (leader reach : Flags) (known : Labelled symbols leader)
      (pc : ℕ) where
    abbrev s : Style
    s = asm_style leader reach

    abbrev tail : Text
    tail = if ltb pc 0x1000 && not (reach pc) then text " ; unreachable" else []

    tail-Stops : Stops (tail ++ newline)
    tail-Stops =
        branch (λ t. Stops (t ++ newline)) (ltb pc 0x1000 && not (reach pc))
          (λ _. comment-Stops (text " unreachable" ++ newline)) (λ _. newline-Stops)

    disassemble-Holds : Holds symbols (disassemble s pc op ++ newline) op
    unfolding disassemble output
    disassemble-Holds = rw (append_assoc (body s pc op) tail newline) (
        Reads-Holds (body s pc op) (tail ++ newline) tail-Stops
          (body-Reads symbols op small leader reach pc known))

    data_word-Holds : Holds symbols (data_word s pc op ++ newline) op
    data_word-Holds =
        Reads-Holds (text ".word 0x" ++ hex 4 op) (text " ; data (unreachable)" ++ newline)
          (comment-Stops (text " data (unreachable)" ++ newline)) (Reads-word symbols op small)

    pub word-Holds :
        (decode : Bool)
        → Holds symbols
            ((if not decode && not (reach pc) then data_word s pc op else disassemble s pc op)
              ++ newline)
            op
    word-Holds decode =
        branch (λ t. Holds symbols (t ++ newline) op) (not decode && not (reach pc))
          (λ _. data_word-Holds) (λ _. disassemble-Holds)
