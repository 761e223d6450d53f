-- ===== src/Disas/Printing/Reads.antt =====
-- When src/asm.c reads what src/disas.c prints for an instruction back as that instruction.
pub mod Forms
pub mod Misc
pub mod Operands
pub mod Words
pub mod Cases
pub mod Tables
pub mod Switch
pub mod Whole
use mathlib.Core.List.{append_assoc}
use chip_eight_jit.Common.{
  ℕ, ◌+◌, ◌*◌, ◌/◌, ◌%◌, ◌^◌, ◌<◌, ◌≡◌, refl, ◌∙◌, ap, Bool, true, false, not, ◌&&◌, ◌||◌, List, [],
  ◌∷◌, ◌++◌, arith, map, length, ltb, ◌==◌, if◌then◌else◌,
}
use chip_eight_jit.Asm.Result.{Result, ok, fail, ◌>>=◌}
use chip_eight_jit.Asm.Lexer.{
  Text, text, tokens_of, normalize, tokenize, toupper, separates, starts_comment,
}
use chip_eight_jit.Asm.Lexer.Comments.{IsWord}
use chip_eight_jit.Asm.Values.{Symbol, value_of, in_range}
use chip_eight_jit.Asm.Passes.Sizes.{Extends}
use chip_eight_jit.Asm.Instruction.Unresolved.{instruction-Follows}
use chip_eight_jit.Asm.Instruction.{at, is_text, instruction}
use chip_eight_jit.Asm.Passes.{
  Line, bytes_of_word, directive, word_values, line_size, has_label, is_label,
}
use chip_eight_jit.Disas.Format.{hex}
use chip_eight_jit.Disas.Format.Numbers.{
  number, upper_number, number-IsToken, normalize-number, value_of-number4,
}
use chip_eight_jit.Disas.Format.Reading.{
  IsToken, Stops, indent, tokens_of_none, tokens_of_one, tokens_of_two, tokens_of_three, comma,
}

-- The line of two bytes that hold an opcode.
abbrev pub word_line : ℕ → Line
word_line op = record { size = 2; out = bytes_of_word op }

-- The text, indented and with the end of a line or a comment behind it, is a line of the assembler that
-- has no label and holds the opcode, wherever it stands. The first pass counts two bytes for it.
pub record Reads (symbols : List Symbol) (body : Text) (op : ℕ) : Type 0 where
  pub words : List Text
  pub splits : (rest : Text) → Stops rest → tokenize (indent ++ (body ++ rest)) ≡ ok words
  pub bare : has_label words ≡ false
  pub kept : is_text (at words 0) ".ORG" ≡ false
  pub made : (pc : ℕ) → line_size symbols true pc words ≡ ok (word_line op)
  pub counted :
      (old : List Symbol) (pc : ℕ)
      → Extends old symbols
      → (o : ℕ) × (line_size old false pc words ≡ ok (word_line o))

abbrev no_directive : List Text → Bool
no_directive [] = false
no_directive (t ∷ ts) =
    if is_text t ".ORG"
    then false
    else if is_text t ".BYTE"
    then false
    else if is_text t ".WORD"
    then false
    else true

line_of_instruction :
    (symbols : List Symbol) (resolve : Bool) (pc op : ℕ) (words : List Text)
    → no_directive words ≡ true
    → instruction symbols resolve words ≡ ok op
    → line_size symbols resolve pc words ≡ ok (word_line op)
unfolding line_size directive
line_of_instruction symbols resolve pc op [] n e = cc
line_of_instruction symbols resolve pc op (t ∷ ts) n e = ground (arith, e)

no_org : (t : Text) (ts : List Text) → no_directive (t ∷ ts) ≡ true → is_text t ".ORG" ≡ false
no_org t ts h = ground arith

pub tokenize_few :
    (line : Text) (tokens words : List Text)
    → tokens_of false [] line ≡ tokens
    → length tokens < 5
    → map normalize tokens ≡ words
    → tokenize line ≡ ok words
unfolding tokenize
tokenize_few line tokens words e l n = ground (arith, e, l, n)

-- A text that is a token in capitals, and no label or directive.
abbrev all_capital : Text → Bool
all_capital [] = true
all_capital (c ∷ cs) =
    (not (separates c || starts_comment c) && toupper c == c && not (c == b':')) && all_capital cs

abbrev pub is_mnemonic : Text → Bool
is_mnemonic [] = false
is_mnemonic (c ∷ cs) = all_capital (c ∷ cs) && no_directive ((c ∷ cs) ∷ [])

all_capital-IsWord : (m : Text) → all_capital m ≡ true → IsWord m
all_capital-IsWord [] h = tt
all_capital-IsWord (c ∷ cs) h = ground (arith, all_capital-IsWord cs)

all_capital-normalize : (m : Text) → all_capital m ≡ true → normalize m ≡ m
unfolding normalize
all_capital-normalize [] h = refl
all_capital-normalize (c ∷ cs) h = ground (arith, all_capital-normalize cs)

all_capital-is_label : (m : Text) → all_capital m ≡ true → is_label m ≡ false
all_capital-is_label [] h = refl
all_capital-is_label (c ∷ []) h = ground arith
all_capital-is_label (c ∷ d ∷ cs) h = all_capital-is_label (d ∷ cs) (ground arith)

-- What the lines below need of their mnemonic.
mnemonic_lem :
    (m : Text)
    → is_mnemonic m ≡ true
    → IsToken m × (normalize m ≡ m) × (is_label m ≡ false) × (no_directive (m ∷ []) ≡ true)
mnemonic_lem [] h = cc
mnemonic_lem (c ∷ cs) h =
    let all : all_capital (c ∷ cs) ≡ true = ground arith in
    (
      all_capital-IsWord (c ∷ cs) all,
      all_capital-normalize (c ∷ cs) all,
      all_capital-is_label (c ∷ cs) all,
      ground arith,
    )

-- An operand as it is printed, and as it is read.
pub record Operand (a b : Text) : Type 0 where
  pub token : IsToken a
  pub upper : normalize a ≡ b

-- A word in capitals, as an operand.
pub Operand-word : (m : Text) → is_mnemonic m ≡ true → Operand m m
Operand-word m h = let (t, k, _, _) = mnemonic_lem m h in record { token = t; upper = k }

module _ (symbols : List Symbol) (op : ℕ) (m : Text) (h : is_mnemonic m ≡ true) where
  -- A line whose tokens are the mnemonic and its operands.
  reads :
      (body : Text) (operands words : List Text)
      → length operands < 4
      → ((rest : Text) → Stops rest → tokens_of false [] (indent ++ (body ++ rest)) ≡ m ∷ operands)
      → map normalize operands ≡ words
      → instruction symbols true (m ∷ words) ≡ ok op
      → Reads symbols body op
  reads body operands words l split u e =
      let (_, k, f, d) = mnemonic_lem m h in
      record {
        words = m ∷ words;
        splits = λ rest stops.
            tokenize_few (indent ++ (body ++ rest)) (m ∷ operands) (m ∷ words) (split rest stops)
              (omega arith) (ground (arith, k, u));
        bare = f;
        kept = no_org m words d;
        made = λ pc. line_of_instruction symbols true pc op (m ∷ words) d e;
        counted = λ old pc ext.
            let (o, f') = instruction-Follows old symbols ext (m ∷ words) op e in
            (o, line_of_instruction old false pc o (m ∷ words) d f');
      }

  pub Reads-none : instruction symbols true (m ∷ []) ≡ ok op → Reads symbols m op
  Reads-none e =
      let (t, _, _, _) = mnemonic_lem m h in
      reads m [] [] (omega arith) (λ rest stops. tokens_of_none m rest t stops) refl e

  pub Reads-one :
      (a b : Text)
      → Operand a b
      → instruction symbols true (m ∷ b ∷ []) ≡ ok op
      → Reads symbols (m ++ (b' ' ∷ a)) op
  Reads-one a b p e =
      let (t, _, _, _) = mnemonic_lem m h in
      reads (m ++ (b' ' ∷ a)) (a ∷ []) (b ∷ []) (omega arith)
        (λ rest stops.
          ap (λ u. tokens_of false [] (indent ++ u)) (append_assoc m (b' ' ∷ a) rest)
          ∙ tokens_of_one m a rest t p.token stops)
        (ap (λ u. u ∷ []) p.upper) e

  pub Reads-two :
      (a b c d : Text)
      → Operand a b
      → Operand c d
      → instruction symbols true (m ∷ b ∷ d ∷ []) ≡ ok op
      → Reads symbols (m ++ (b' ' ∷ (a ++ comma c))) op
  Reads-two a b c d p q e =
      let (t, _, _, _) = mnemonic_lem m h in
      reads (m ++ (b' ' ∷ (a ++ comma c))) (a ∷ c ∷ []) (b ∷ d ∷ []) (omega arith)
        (λ rest stops.
          ap (λ u. tokens_of false [] (indent ++ u))
            (append_assoc m (b' ' ∷ (a ++ comma c)) rest
              ∙ ap (λ u. m ++ (b' ' ∷ u)) (append_assoc a (comma c) rest))
          ∙ tokens_of_two m a c rest t p.token q.token stops)
        (ground (arith, p.upper, q.upper)) e

  pub Reads-three :
      (a b c d f g : Text)
      → Operand a b
      → Operand c d
      → Operand f g
      → instruction symbols true (m ∷ b ∷ d ∷ g ∷ []) ≡ ok op
      → Reads symbols (m ++ (b' ' ∷ (a ++ comma (c ++ comma f)))) op
  Reads-three a b c d f g p q r e =
      let (t, _, _, _) = mnemonic_lem m h in
      reads (m ++ (b' ' ∷ (a ++ comma (c ++ comma f)))) (a ∷ c ∷ f ∷ []) (b ∷ d ∷ g ∷ [])
        (omega arith)
        (λ rest stops.
          ap (λ u. tokens_of false [] (indent ++ u))
            (append_assoc m (b' ' ∷ (a ++ comma (c ++ comma f))) rest
              ∙ ap (λ u. m ++ (b' ' ∷ u))
                  (append_assoc a (comma (c ++ comma f)) rest
                    ∙ ap (λ u. a ++ comma u) (append_assoc c (comma f) rest)))
          ∙ tokens_of_three m a c f rest t p.token q.token r.token stops)
        (ground (arith, p.upper, q.upper, r.upper)) e
