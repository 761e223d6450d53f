-- ===== src/Disas/Listing/Loops.antt =====
-- The passes of the assembler over the words of a listing, as loops.
use mathlib.Core.List.{append_assoc, append-nil}
use chip_eight_jit.Common.{
  ℕ, zero, suc, ◌+◌, ◌*◌, ◌^◌, ◌≤◌, ◌<◌, ◌≡◌, refl, sym, ◌∙◌, ap, Bool, not, ◌&&◌, List, [], ◌∷◌,
  ◌++◌, length, arith, if◌then◌else◌, Array, Below, length-append, subst,
}
use chip_eight_jit.Common.Bits.{bit_or-lt, bit_or_shifted}
use chip_eight_jit.Disas.Opcodes.{word_at}
use chip_eight_jit.Asm.Result.{ok}
use chip_eight_jit.Asm.Lexer.{Text}
use chip_eight_jit.Asm.Values.{Symbol}
use chip_eight_jit.Asm.Passes.{bytes_of_word, first, second}
use chip_eight_jit.Asm.Passes.Sizes.{Extends}
use chip_eight_jit.Disas.Analysis.{Flags}
use chip_eight_jit.Disas.Printing.{Style, disassemble}
use chip_eight_jit.Disas.Printing.Reads.Cases.{asm_style, Labelled}
use chip_eight_jit.Disas.Listing.{lines_from, newline, label_lines, data_word, word_lines}
use chip_eight_jit.Disas.Listing.Labels.{
  label_of, length-label_of, labels_of, Fresh, Fresh-label_of,
}
use chip_eight_jit.Disas.Listing.Words.{word-Holds}
use chip_eight_jit.Disas.Listing.Passes.{
  at_pc, first-Holds, second-Holds, first-labelled, second-labelled,
}
use chip_eight_jit.Asm.Passes.Sizes.{lookup-append}

-- The lines of a word, one after the other.
word_lines_then :
    (s : Style) (decode : Bool) (pc op : ℕ) (lines rest : List Text)
    → word_lines s decode pc op ++ lines ++ rest
      ≡ label_lines s pc
        ++ ((if not decode && not (s.reach pc) then data_word s pc op else disassemble s pc op)
            ++ newline)
          ∷ (lines ++ rest)
unfolding word_lines
word_lines_then s decode pc op lines rest =
    let w =
      (if not decode && not (s.reach pc) then data_word s pc op else disassemble s pc op)
      ++ newline in
    append_assoc (label_lines s pc ++ w ∷ []) lines rest
    ∙ append_assoc (label_lines s pc) (w ∷ []) (lines ++ rest)

Extends-first : (old new all : List Symbol) → Extends (old ++ new) all → Extends old all
Extends-first old new all ext name v h = ext name v (lookup-append old new name v h)

abbrev pub double : ℕ → ℕ
double zero = zero
double (suc n) = suc (suc (double n))

pub double_lem : (n : ℕ) → double n ≡ 2 * n
double_lem zero = refl
double_lem (suc n) = omega (arith, double_lem n)

-- The bytes of the memory from `pc` on.
abbrev pub bytes_from : Array → ℕ → ℕ → List ℕ
bytes_from memory zero pc = []
bytes_from memory (suc n) pc = memory pc ∷ bytes_from memory n (pc + 1)

word_at-lt : (memory : Array) (pc : ℕ) → Below 0x100 memory → word_at memory pc < 0x10000
unfolding word_at
word_at-lt memory pc h =
    bit_or-lt 16 (memory pc * 2 ^ 8) (memory (pc + 1)) (omega (arith, h pc))
      (omega (arith, h (pc + 1)))

word_at-bytes :
    (memory : Array) (pc : ℕ)
    → Below 0x100 memory
    → bytes_of_word (word_at memory pc) ≡ memory pc ∷ memory (pc + 1) ∷ []
unfolding word_at
word_at-bytes memory pc h =
    let sum = bit_or_shifted 8 (memory pc) (memory (pc + 1)) (omega (arith, h (pc + 1))) in
    rw (sum) (ground (arith, h pc, h (pc + 1)))

module _ (leader reach : Flags) (decode : Bool) (memory : Array) (below : Below 0x100 memory) where
  abbrev s : Style
  s = asm_style leader reach

  pub first_words :
      (all symbols : List Symbol) (left pc : ℕ) (rest : List Text)
      → Labelled all leader
      → Extends (symbols ++ labels_of leader left pc) all
      → Fresh symbols pc
      → 2 * length symbols + 0x200 ≤ pc
      → pc + 2 * left ≤ 0x1000
      → first (at_pc symbols pc) (lines_from s decode memory left pc ++ rest)
        ≡ first (at_pc (symbols ++ labels_of leader left pc) (pc + 2 * left)) rest
  unfolding lines_from
  first_words all symbols zero pc rest known ext fresh few room =
      rw (append-nil symbols) (ap (λ a. first (at_pc symbols a) rest) (omega arith))
  first_words all symbols (suc left) pc rest known ext fresh few room =
      let op = word_at memory pc in
      let after = symbols ++ label_of leader pc in
      let lines = lines_from s decode memory left (pc + 2) in
      let w =
        (if not decode && not (reach pc) then data_word s pc op else disassemble s pc op)
        ++ newline in
      let assoc = append_assoc symbols (label_of leader pc) (labels_of leader left (pc + 2)) in
      let ext' : Extends (after ++ labels_of leader left (pc + 2)) all =
        subst (λ t. Extends t all) (sym assoc) ext in
      let holds = word-Holds all op (word_at-lt memory pc below) leader reach known pc decode in
      ap (first (at_pc symbols pc)) (word_lines_then s decode pc op lines rest)
      ∙ first-labelled leader reach symbols pc (w ∷ (lines ++ rest))
          (fresh pc (omega arith) (omega arith)) (omega arith) (omega arith)
      ∙ first-Holds all after w op pc (lines ++ rest) holds
          (Extends-first after (labels_of leader left (pc + 2)) all ext') (omega arith)
      ∙ first_words all after left (pc + 2) rest known ext' (Fresh-label_of symbols leader pc fresh)
          (omega (arith, length-append symbols (label_of leader pc), length-label_of leader pc))
          (omega arith)
      ∙ ap (λ t. first (at_pc t (pc + 2 + 2 * left)) rest) assoc
      ∙ ap (λ a. first (at_pc (symbols ++ labels_of leader (suc left) pc) a) rest) (omega arith)

  pub second_words :
      (all : List Symbol) (left pc : ℕ) (rest : List Text) (out : List ℕ)
      → Labelled all leader
      → second all (pc + 2 * left) rest ≡ ok out
      → second all pc (lines_from s decode memory left pc ++ rest)
        ≡ ok (bytes_from memory (double left) pc ++ out)
  unfolding lines_from
  second_words all zero pc rest out known later =
      subst (λ a. second all a rest ≡ ok out) (omega arith) later
  second_words all (suc left) pc rest out known later =
      let op = word_at memory pc in
      let lines = lines_from s decode memory left (pc + 2) in
      let w =
        (if not decode && not (reach pc) then data_word s pc op else disassemble s pc op)
        ++ newline in
      let holds = word-Holds all op (word_at-lt memory pc below) leader reach known pc decode in
      let rest_of =
        second_words all left (pc + 2) rest out known
          (subst (λ a. second all a rest ≡ ok out) (omega arith) later) in
      let bytes : bytes_of_word op ++ (bytes_from memory (double left) (pc + 2) ++ out)
          ≡ bytes_from memory (double (suc left)) pc ++ out =
        ap (λ t. t ++ (bytes_from memory (double left) (pc + 2) ++ out))
          (word_at-bytes memory pc below)
        ∙ ap (λ a. memory pc ∷ memory (pc + 1) ∷ (bytes_from memory (double left) a ++ out))
            (omega arith) in
      let lines_read =
        second-labelled leader reach all pc (w ∷ (lines ++ rest))
          (bytes_of_word op ++ (bytes_from memory (double left) (pc + 2) ++ out))
          (second-Holds all w op pc (lines ++ rest)
            (bytes_from memory (double left) (pc + 2) ++ out) holds rest_of) in
      ap (second all pc) (word_lines_then s decode pc op lines rest) ∙ lines_read ∙ ap ok bytes
