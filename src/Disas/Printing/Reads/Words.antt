-- ===== src/Disas/Printing/Reads/Words.antt =====
-- Comments behind a line, and words that are written as numbers.
use mathlib.Core.List.{append_assoc}
use chip_eight_jit.Common.{ℕ, ◌<◌, refl, ◌∙◌, ap, true, false, List, [], ◌∷◌, ◌++◌, arith}
use chip_eight_jit.Asm.Lexer.{Text, text, tokens_of, normalize, tokenize}
use chip_eight_jit.Asm.Values.{Symbol}
use chip_eight_jit.Asm.Passes.{directive, word_values, line_size}
use chip_eight_jit.Disas.Format.{hex}
use chip_eight_jit.Disas.Format.Numbers.{
  number, upper_number, number-IsToken, normalize-number, value_of-number4,
}
use chip_eight_jit.Disas.Format.Reading.{Stops, indent, tokens_of_one}
-- The line of two bytes that hold an opcode.
use chip_eight_jit.Disas.Printing.Reads.{Reads, tokenize_few}

comment-Stops : (d : Text) → Stops (b' ' ∷ b';' ∷ d)
unfolding tokens_of
comment-Stops d into = refl

-- A comment behind a line leaves it as it is.
pub Reads-comment :
    (symbols : List Symbol) (body d : Text) (op : ℕ)
    → Reads symbols body op
    → Reads symbols (body ++ (b' ' ∷ b';' ∷ d)) op
Reads-comment symbols body d op r = record {
  words = r.words;
  splits = λ rest stops.
      ap (λ t. tokenize (indent ++ t)) (append_assoc body (b' ' ∷ b';' ∷ d) rest)
      ∙ r.splits (b' ' ∷ b';' ∷ (d ++ rest)) (comment-Stops (d ++ rest));
  bare = r.bare;
  kept = r.kept;
  made = r.made;
  counted = r.counted;
}

-- A word that is written as a number.
pub Reads-word :
    (symbols : List Symbol) (op : ℕ) → op < 0x10000 → Reads symbols (text ".word 0x" ++ hex 4 op) op
unfolding line_size directive word_values normalize
Reads-word symbols op h =
    let (_, _, _, t) = number-IsToken op in
    let (_, _, _, u) = normalize-number op in
    record {
      words = text ".WORD" ∷ upper_number 4 op ∷ [];
      splits = λ rest stops.
          tokenize_few (indent ++ (text ".word 0x" ++ hex 4 op ++ rest))
            (text ".word" ∷ number 4 op ∷ []) (text ".WORD" ∷ upper_number 4 op ∷ [])
            (tokens_of_one (text ".word") (number 4 op) rest (ground arith) t stops) (omega arith)
            (ap (λ v. text ".WORD" ∷ v ∷ []) u);
      bare = refl;
      kept = refl;
      made = λ pc. ground (arith, value_of-number4 op symbols true h);
      counted = λ old pc ext. (op, ground (arith, value_of-number4 op old false h));
    }
