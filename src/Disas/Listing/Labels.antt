-- ===== src/Disas/Listing/Labels.antt =====
-- The labels that a listing defines, as the assembler reads them.
use mathlib.Core.List.{append_assoc, append-nil}
use chip_eight_jit.Common.{
  ℕ, zero, suc, ◌+◌, ◌*◌, ◌/◌, ◌%◌, ◌≤◌, ◌<◌, ◌≡◌, refl, sym, ◌∙◌, ap, true, ◌||◌, none, some, List,
  [], ◌∷◌, ◌++◌, length, length-append, arith, ◌==◌, Bool-cases, inl, inr, if◌then◌else◌,
}
use chip_eight_jit.Asm.Result.{ok}
use chip_eight_jit.Asm.Lexer.{
  Text, text, same, isalpha, isdigit, is_name, normalize, tokenize, tokens_of,
}
use chip_eight_jit.Asm.Values.{Symbol, lookup}
use chip_eight_jit.Asm.Passes.{is_label, without_last}
use chip_eight_jit.Disas.Analysis.{Flags}
use chip_eight_jit.Disas.Format.{hex_digit, block_text}
use chip_eight_jit.Disas.Format.Numbers.{block_name, plain}
use chip_eight_jit.Disas.Format.Reading.{IsToken, digit_value-hex_digit, token_then}
use chip_eight_jit.Disas.Listing.{newline}

-- The digit of the name, at any place.
digits_apart : (d e : ℕ) → d < 16 → e < 16 → (hex_digit d == hex_digit e) ≡ true → d ≡ e
digits_apart d e h k eq = ground (arith, digit_value-hex_digit d h, digit_value-hex_digit e k)

pub names_apart :
    (a b : ℕ) → a < 0x1000 → b < 0x1000 → same (block_name a) (block_name b) ≡ true → a ≡ b
names_apart a b h k eq =
    let p = digits_apart (a % 16) (b % 16) (omega arith) (omega arith) in
    let q = digits_apart (a / 16 % 16) (b / 16 % 16) (omega arith) (omega arith) in
    let r = digits_apart (a / 16 / 16 % 16) (b / 16 / 16 % 16) (omega arith) (omega arith) in
    ground (arith, p, q, r)

same_refl : (s : Text) → same s s ≡ true
same_refl [] = refl
same_refl (c ∷ s) = ground (arith, same_refl s)

digit_in_name :
    (d : ℕ)
    → d < 16
    → (isalpha (hex_digit d) || isdigit (hex_digit d) || hex_digit d == b'_') ≡ true
unfolding hex_digit
digit_in_name d h = ground arith

pub block_name-is_name : (a : ℕ) → is_name (block_name a) ≡ true
unfolding is_name
block_name-is_name a = ground (
  arith,
  digit_in_name (a % 16) (omega arith),
  digit_in_name (a / 16 % 16) (omega arith),
  digit_in_name (a / 16 / 16 % 16) (omega arith),
)

module _ (a : ℕ) where
  abbrev pub label_token : Text
  label_token = block_name a ++ (b':' ∷ [])

  pub tokenize-label : tokenize (block_text a ++ text ":" ++ newline) ≡ ok (label_token ∷ [])
  unfolding tokenize normalize tokens_of
  tokenize-label =
      let t : IsToken (block_text a ++ text ":") =
        ground (arith, plain a, plain (a / 16), plain (a / 16 / 16)) in
      let e = token_then (block_text a ++ text ":") [] b'\n' t refl in
      ground (arith, e, plain a, plain (a / 16), plain (a / 16 / 16))

  pub label_lem : (is_label label_token ≡ true) × (without_last label_token ≡ block_name a)
  label_lem = (refl, refl)

abbrev pub symbol_at : ℕ → Symbol
symbol_at a = record { name = block_name a; value = a }

abbrev pub label_of : Flags → ℕ → List Symbol
label_of leader pc = if leader pc then symbol_at pc ∷ [] else []

-- The labels of a run of words.
abbrev pub labels_of : Flags → ℕ → ℕ → List Symbol
labels_of leader zero pc = []
labels_of leader (suc left) pc = label_of leader pc ++ labels_of leader left (pc + 2)

-- No address from `pc` on has its label in the table.
abbrev pub Fresh : List Symbol → ℕ → Type 0
Fresh symbols pc = (a : ℕ) → pc ≤ a → a < 0x1000 → lookup symbols (block_name a) ≡ none

lookup-append_none :
    (old new : List Symbol) (name : Text)
    → lookup old name ≡ none
    → lookup (old ++ new) name ≡ lookup new name
unfolding lookup
lookup-append_none [] new name h = refl
lookup-append_none (s ∷ ss) new name h = ground (arith, lookup-append_none ss new name)

lookup-one : (a b : ℕ) → a < b → b < 0x1000 → lookup (symbol_at a ∷ []) (block_name b) ≡ none
unfolding lookup
lookup-one a b h k = elim (Bool-cases (same (block_name a) (block_name b))) [
  | inl on ↦ absurd (omega (arith, names_apart a b (omega arith) k on))
  | inr off ↦ rw (off) refl
]

lookup-label_of :
    (leader : Flags) (pc a : ℕ)
    → pc < a
    → a < 0x1000
    → lookup (label_of leader pc) (block_name a) ≡ none
unfolding lookup
lookup-label_of leader pc a h k = ground (arith, lookup-one pc a h k)

pub Fresh-label_of :
    (symbols : List Symbol) (leader : Flags) (pc : ℕ)
    → Fresh symbols pc
    → Fresh (symbols ++ label_of leader pc) (pc + 2)
unfolding lookup
Fresh-label_of symbols leader pc fresh a h k =
    lookup-append_none symbols (label_of leader pc) (block_name a) (fresh a (omega arith) k)
    ∙ lookup-label_of leader pc a (omega arith) k

lookup_here : (a : ℕ) (rest : List Symbol) → lookup (symbol_at a ∷ rest) (block_name a) ≡ some a
unfolding lookup
lookup_here a rest = ground (arith, same_refl (block_name a))

-- An even address of the run, with the same parity as its start, has its label in the table.
pub lookup-labels_of :
    (leader : Flags) (left pc a : ℕ)
    → pc ≤ a
    → a < pc + 2 * left
    → a % 2 ≡ pc % 2
    → pc + 2 * left ≤ 0x1000
    → leader a ≡ true
    → lookup (labels_of leader left pc) (block_name a) ≡ some a
lookup-labels_of leader zero pc a h l e k on = absurd (omega arith)
lookup-labels_of leader (suc left) pc a h l e k on = elim (Bool-cases (a == pc)) [
  | inl here ↦
      let at_pc : a ≡ pc = ground arith in
      rw (sym at_pc, on) (lookup_here a (labels_of leader left (a + 2)))
  | inr later ↦
      let after : pc + 2 ≤ a = ground arith in
      let none_here : lookup (label_of leader pc) (block_name a) ≡ none =
        lookup-label_of leader pc a (omega arith) (omega arith) in
      lookup-append_none (label_of leader pc) (labels_of leader left (pc + 2)) (block_name a)
        none_here
      ∙ lookup-labels_of leader left (pc + 2) a after (omega arith) (omega arith) (omega arith) on
]

pub labels_of-last :
    (leader : Flags) (n pc : ℕ)
    → labels_of leader (suc n) pc ≡ labels_of leader n pc ++ label_of leader (pc + 2 * n)
labels_of-last leader zero pc = append-nil (label_of leader pc) ∙ ap (label_of leader) (omega arith)
labels_of-last leader (suc n) pc =
    ap (λ u. label_of leader pc ++ u)
      (labels_of-last leader n (pc + 2)
        ∙ ap (λ a. labels_of leader n (pc + 2) ++ label_of leader a) (omega arith))
    ∙ sym (
        append_assoc (label_of leader pc) (labels_of leader n (pc + 2))
          (label_of leader (pc + 2 * suc n)))

-- The labels of a run take their places only, and are no more than its words.
pub labels_of-Fresh :
    (leader : Flags) (left pc : ℕ)
    → pc + 2 * left ≤ 0x1000
    → Fresh (labels_of leader left pc) (pc + 2 * left)
unfolding lookup
labels_of-Fresh leader zero pc room a h k = refl
labels_of-Fresh leader (suc left) pc room a h k =
    lookup-append_none (label_of leader pc) (labels_of leader left (pc + 2)) (block_name a)
      (lookup-label_of leader pc a (omega arith) k)
    ∙ labels_of-Fresh leader left (pc + 2) (omega arith) a (omega arith) k

pub length-label_of : (leader : Flags) (pc : ℕ) → length (label_of leader pc) ≤ 1
length-label_of leader pc = ground arith

pub length-labels_of : (leader : Flags) (left pc : ℕ) → length (labels_of leader left pc) ≤ left
length-labels_of leader zero pc = omega arith
length-labels_of leader (suc left) pc = omega (
  arith,
  length-append (label_of leader pc) (labels_of leader left (pc + 2)),
  length-label_of leader pc,
  length-labels_of leader left (pc + 2),
)
