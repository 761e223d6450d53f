-- ===== src/Asm/Passes/Sizes.antt =====
-- The two passes place every line at the same address.
use chip_eight_jit.Common.{
  ℕ, zero, suc, ◌*◌, ◌≡◌, refl, sym, ◌∙◌, ap, ◌⊎◌, inl, inr, Bool, true, false, some, List, [], ◌∷◌,
  ◌++◌, length, arith, Bool-cases, Option-cases, if◌then◌else◌,
}
use chip_eight_jit.Asm.Result.{ok, ◌>>=◌, bind-ok, each_result}
use chip_eight_jit.Asm.Lexer.{Text}
use chip_eight_jit.Asm.Values.{Symbol, lookup, define, value_of, in_range}
use chip_eight_jit.Asm.Instruction.{at, is_text}
use chip_eight_jit.Asm.Passes.{
  Line, byte_values, word_values, org_line, directive, line_size, define_label, has_label,
  without_last, zeros, printed,
}

-- Every symbol of the first table has its value in the second.
abbrev pub Extends : List Symbol → List Symbol → Type 0
Extends old new = (name : Text) (v : ℕ) → lookup old name ≡ some v → lookup new name ≡ some v

pub lookup-append :
    (old new : List Symbol) (name : Text) (v : ℕ)
    → lookup old name ≡ some v
    → lookup (old ++ new) name ≡ some v
unfolding lookup
lookup-append [] new name v h = cc
lookup-append (s ∷ ss) new name v h = ground (arith, lookup-append ss new name v)

define-Extends :
    (name : Text) (v : ℕ) (old new : List Symbol) → define name v old ≡ ok new → Extends old new
unfolding define
define-Extends name v old new e other w h =
    let appended = lookup-append old (record { name = name; value = v } ∷ []) other w h in
    ground (arith, appended)

pub define_label-Extends :
    (tokens : List Text) (pc : ℕ) (old new : List Symbol)
    → define_label tokens pc old ≡ ok new
    → Extends old new
unfolding define_label
define_label-Extends tokens pc old new e = elim (Bool-cases (has_label tokens)) [
  | inl on ↦ define-Extends (without_last (at tokens 0)) pc old new (rw (on, define_label) at e)
  | inr off ↦ λ name v h. ground (arith, e, off, h)
]

length-byte_values :
    (symbols : List Symbol) (resolve : Bool) (ss : List Text) (bytes : List ℕ)
    → byte_values symbols resolve ss ≡ ok bytes
    → length bytes ≡ length ss
unfolding byte_values
length-byte_values symbols resolve [] bytes e = ground arith
length-byte_values symbols resolve (s ∷ ss) bytes e =
    let (v, _, f) = bind-ok (value_of symbols resolve s >>= in_range 0xff) _ e in
    let (rest, g, k) = bind-ok (byte_values symbols resolve ss) _ f in
    ground (arith, length-byte_values symbols resolve ss rest g)

length-word_values :
    (symbols : List Symbol) (resolve : Bool) (ss : List Text) (bytes : List ℕ)
    → word_values symbols resolve ss ≡ ok bytes
    → length bytes ≡ 2 * length ss
unfolding word_values
length-word_values symbols resolve [] bytes e = ground arith
length-word_values symbols resolve (s ∷ ss) bytes e =
    let (v, _, f) = bind-ok (value_of symbols resolve s >>= in_range 0xffff) _ e in
    let (rest, g, k) = bind-ok (word_values symbols resolve ss) _ f in
    ground (arith, length-word_values symbols resolve ss rest g)

-- An operand that the first pass cannot resolve is 0 there.
value_of-Extends :
    (old new : List Symbol) (s : Text) (v w : ℕ)
    → Extends old new
    → value_of old false s ≡ ok v
    → value_of new true s ≡ ok w
    → (v ≡ w) ⊎ (v ≡ 0)
unfolding value_of
value_of-Extends old new s v w ext e f = elim (Option-cases (lookup old s)) [
  | inl missing ↦ ground (arith, missing)
  | inr (u, found) ↦ ground (arith, found, ext s u found)
]

org_line-agrees :
    (old new : List Symbol) (pc : ℕ) (s : Text) (l k : Line)
    → Extends old new
    → org_line old false pc s ≡ ok l
    → org_line new true pc s ≡ ok k
    → l.size ≡ k.size
unfolding org_line
org_line-agrees old new pc s l k ext e f =
    let (v, p, e') = bind-ok (value_of old false s) _ e in
    let (w, q, f') = bind-ok (value_of new true s) _ f in
    ground (arith, value_of-Extends old new s v w ext p q)

-- How many bytes a line that is no `.ORG` holds.
abbrev byte_count : Text → List Text → ℕ
byte_count name operands =
    if is_text name ".BYTE"
    then length operands
    else if is_text name ".WORD"
    then 2 * length operands
    else 2

directive-byte_count :
    (symbols : List Symbol) (resolve : Bool) (pc : ℕ) (name : Text) (operands : List Text)
    (l : Line)
    → is_text name ".ORG" ≡ false
    → directive symbols resolve pc name operands ≡ ok l
    → (l.size ≡ byte_count name operands) × (length l.out ≡ l.size)
unfolding directive
directive-byte_count symbols resolve pc name operands l off e = ground (
  arith,
  each_result (λ bytes. length bytes ≡ length operands) (byte_values symbols resolve operands)
      (length-byte_values symbols resolve operands),
  each_result (λ bytes. length bytes ≡ 2 * length operands) (word_values symbols resolve operands)
      (length-word_values symbols resolve operands),
)

directive_org :
    (old new : List Symbol) (pc : ℕ) (name : Text) (operands : List Text) (l k : Line)
    → is_text name ".ORG" ≡ true
    → Extends old new
    → directive old false pc name operands ≡ ok l
    → directive new true pc name operands ≡ ok k
    → l.size ≡ k.size
unfolding directive
directive_org old new pc name operands l k on ext e f =
    ground (arith, org_line-agrees old new pc (at operands 0) l k ext)

directive-agrees :
    (old new : List Symbol) (pc : ℕ) (name : Text) (operands : List Text) (l k : Line)
    → Extends old new
    → directive old false pc name operands ≡ ok l
    → directive new true pc name operands ≡ ok k
    → l.size ≡ k.size
directive-agrees old new pc name operands l k ext e f = elim (Bool-cases (is_text name ".ORG")) [
  | inl on ↦ directive_org old new pc name operands l k on ext e f
  | inr off ↦
      let (p, _) = directive-byte_count old false pc name operands l off e in
      let (q, _) = directive-byte_count new true pc name operands k off f in p ∙ sym q
]

pub line_size-agrees :
    (old new : List Symbol) (pc : ℕ) (t : List Text) (l k : Line)
    → Extends old new
    → line_size old false pc t ≡ ok l
    → line_size new true pc t ≡ ok k
    → l.size ≡ k.size
unfolding line_size
line_size-agrees old new pc [] l k ext e f = ground (arith, e, f)
line_size-agrees old new pc (name ∷ operands) l k ext e f =
    directive-agrees old new pc name operands l k ext e f

length-zeros : (n : ℕ) → length (zeros n) ≡ n
length-zeros zero = refl
length-zeros (suc n) = ap suc (length-zeros n)

-- The second pass prints as many bytes as it counts.
pub length-printed :
    (symbols : List Symbol) (pc : ℕ) (t : List Text) (l : Line)
    → line_size symbols true pc t ≡ ok l
    → length (printed t l) ≡ l.size
unfolding line_size printed
length-printed symbols pc [] l e = ground (arith, e)
length-printed symbols pc (name ∷ operands) l e = elim (Bool-cases (is_text name ".ORG")) [
  | inl on ↦ ground (arith, on, length-zeros l.size)
  | inr off ↦ ground (arith, off, directive-byte_count symbols true pc name operands l off e)
]
