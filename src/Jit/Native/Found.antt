-- ===== src/Jit/Native/Found.antt =====
-- Every block of a trace of src/libgccjit_jit.c begins an instruction of it, and every branch finds its block.
use chip_eight_jit.Common.{
  ℕ, zero, suc, ◌+◌, ◌%◌, ◌≡◌, refl, sym, ap, ◌∙◌, subst, true, false, none, some, List, [], ◌∷◌,
  ◌++◌, Array, update, arith, Bool-cases, inl, inr, leb, ◌==◌,
}
use mathlib.Core.List.{append_assoc, append-nil}
use chip_eight_jit.Machine.{u16, memory_size, opcode_at}
use chip_eight_jit.Jit.Marks.{Marks}
use chip_eight_jit.Jit.Trace.{
  Piece, at_block, safepoint, retire, set_pc, call_host, inline, skip_out, skip_fused, Ending, Next,
  goes_on, ends, bails, front, Compiled, compiled, bailed, outside, endless, prepend, carry_on,
  codegen_from, codegen,
}
use chip_eight_jit.Jit.Native.{opens, find_block}
use chip_eight_jit.Jit.Native.Shape.{
  emitted_at, AllBlocks, Follows, falls, goes, halts, NoBlock, NoBlockIn, emit-NoBlock,
}

find_past : (a : ℕ) (ps qs : List Piece) → NoBlock ps → find_block a (ps ++ qs) ≡ find_block a qs
find_past a [] qs h = refl
find_past a (at_block pc ∷ ps) qs h = absurd h
find_past a (safepoint ∷ ps) qs h = find_past a ps qs h
find_past a (retire n ∷ ps) qs h = find_past a ps qs h
find_past a (set_pc n ∷ ps) qs h = find_past a ps qs h
find_past a (call_host f ∷ ps) qs h = find_past a ps qs h
find_past a (inline op ∷ ps) qs h = find_past a ps qs h
find_past a (skip_out op n ∷ ps) qs h = find_past a ps qs h
find_past a (skip_fused op n b ∷ ps) qs h = find_past a ps qs h

find_none : (a : ℕ) (ps : List Piece) → NoBlock ps → find_block a ps ≡ none
find_none a ps h = ap (find_block a) (sym (append-nil ps)) ∙ find_past a ps [] h

find_here :
    (pc a op_count : ℕ) (ps : List Piece)
    → (pc == a) ≡ true
    → find_block a (front pc op_count ++ ps) ≡ some (front pc op_count ++ ps)
find_here pc a op_count ps h = ground (arith, h)

find_later :
    (pc a op_count : ℕ) (ps : List Piece)
    → (pc == a) ≡ false
    → find_block a (front pc op_count ++ ps) ≡ find_block a ps
find_later pc a op_count ps h = ground (arith, h)

body-NoBlock :
    (memory : Array) (pc op_count next : ℕ) (seen : Marks) (body : List Piece)
    → emitted_at memory pc op_count seen ≡ goes_on body next
    → NoBlock body
body-NoBlock memory pc op_count next seen body e =
    subst NoBlockIn e
      (emit-NoBlock (opcode_at memory pc) pc op_count (opcode_at memory ((pc + 2) % u16)) seen)

last-NoBlock :
    (memory : Array) (pc op_count : ℕ) (seen : Marks) (body : List Piece) (f : Ending)
    → emitted_at memory pc op_count seen ≡ ends body f
    → NoBlock body
last-NoBlock memory pc op_count seen body f e =
    subst NoBlockIn e
      (emit-NoBlock (opcode_at memory pc) pc op_count (opcode_at memory ((pc + 2) % u16)) seen)

pub some_inj : {ps qs : List Piece} → some ps ≡ some qs → ps ≡ qs
some_inj h = cc

module _ (memory : Array) (trace : List Piece) where
  moved :
      {pc a : ℕ} {ps qs : List Piece} {e : Ending}
      → pc ≡ a
      → ps ≡ qs
      → Follows memory trace pc ps e
      → Follows memory trace a qs e
  moved {pc} {a} {ps} {qs} {e} p q f =
      subst (λ b. Follows memory trace b qs e) p (subst (λ rs. Follows memory trace pc rs e) q f)

  -- What is found behind a block follows its address.
  pub Follows-find_block :
      {pc : ℕ} {ps : List Piece} {e : Ending} (a : ℕ) (qs : List Piece)
      → Follows memory trace pc ps e
      → find_block a ps ≡ some qs
      → Follows memory trace a qs e
  Follows-find_block a qs (falls block) found = cc
  Follows-find_block a qs (goes {pc} {next} {body} {rest} {e} op_count seen blocks emitted rests)
        found =
      elim (Bool-cases (pc == a)) [
        | inl here ↦
            moved (ground (arith, here))
              (some_inj (sym (find_here pc a op_count (body ++ rest) here) ∙ found))
              (goes op_count seen blocks emitted rests)
        | inr later ↦ Follows-find_block a qs rests (
            sym (find_past a body rest (body-NoBlock memory pc op_count next seen body emitted))
            ∙ sym (find_later pc a op_count (body ++ rest) later)
            ∙ found)
      ]
  Follows-find_block a qs (halts {pc} {body} {e} op_count seen blocks emitted) found =
      elim (Bool-cases (pc == a)) [
        | inl here ↦
            moved (ground (arith, here))
              (some_inj (sym (find_here pc a op_count body here) ∙ found))
              (halts op_count seen blocks emitted)
        | inr later ↦ absurd (
            nothing (
              sym (find_none a body (last-NoBlock memory pc op_count seen body e emitted))
              ∙ sym (find_later pc a op_count body later)
              ∙ found))
      ]
    where
      nothing : {ps : List Piece} → none ≡ some ps → ⊥
      nothing h = cc

-- A block is found in a part of the trace.
abbrev HasIn : ℕ → List Piece → Type 0
HasIn a ps = (qs : List Piece) × (find_block a ps ≡ some qs)

has_before : (a : ℕ) (ps qs : List Piece) → HasIn a ps → HasIn a (ps ++ qs)
has_before a [] qs (rs, h) = cc
has_before a (p ∷ ps) qs (rs, h) = elim (Bool-cases (opens a p)) [
  | inl here ↦ ((p ∷ ps) ++ qs, rw (here) refl)
  | inr later ↦
      let (found, e) = has_before a ps qs (rs, ground (arith, h, later)) in (found, rw (later) e)
]

has_behind : (a : ℕ) (ps qs : List Piece) → HasIn a qs → HasIn a (ps ++ qs)
has_behind a [] qs h = h
has_behind a (p ∷ ps) qs h = elim (Bool-cases (opens a p)) [
  | inl here ↦ ((p ∷ ps) ++ qs, rw (here) refl)
  | inr later ↦ let (found, e) = has_behind a ps qs h in (found, rw (later) e)
]

has_here : (pc op_count : ℕ) (ps : List Piece) → HasIn pc (front pc op_count ++ ps)
has_here pc op_count ps = (front pc op_count ++ ps, find_here pc pc op_count ps (ground arith))

-- The blocks that are set when the loop comes to an instruction stand in the pieces before it.
abbrev SetIn : Marks → List Piece → Type 0
SetIn seen before = (b : ℕ) → seen b ≡ true → HasIn b before

module _ (memory : Array) (trace : List Piece) where
  -- What a compiled rest of the trace is.
  abbrev Shaped : List Piece → ℕ → Compiled → Type 0
  Shaped before pc (compiled code ps e) = trace ≡ before ++ ps → Follows memory trace pc ps e
  Shaped before pc (bailed code) = Unit
  Shaped before pc outside = Unit
  Shaped before pc endless = Unit

  SetIn-AllBlocks :
      (seen : Marks) (before ps : List Piece)
      → SetIn seen before
      → trace ≡ before ++ ps
      → AllBlocks memory trace seen
  SetIn-AllBlocks seen before ps set whole b on =
      subst (HasIn b) (sym whole) (has_before b before ps (set b on))

  SetIn-update :
      (seen : Marks) (before ps : List Piece) (pc op_count : ℕ)
      → SetIn seen before
      → SetIn (update seen pc true) (before ++ (front pc op_count ++ ps))
  SetIn-update seen before ps pc op_count set b on = elim (Bool-cases (pc == b)) [
    | inl here ↦
        let same : pc ≡ b = ground (arith, here) in
        has_behind b before (front pc op_count ++ ps)
          (subst (λ a. HasIn a (front pc op_count ++ ps)) same (has_here pc op_count ps))
    | inr other ↦ has_before b before (front pc op_count ++ ps) (set b (ground (arith, on, other)))
  ]

  prepend-Shaped :
      (before body : List Piece) (pc op_count next : ℕ) (seen : Marks) (c : Compiled)
      → SetIn (update seen pc true) (before ++ (front pc op_count ++ body))
      → emitted_at memory pc op_count (update seen pc true) ≡ goes_on body next
      → Shaped (before ++ (front pc op_count ++ body)) next c
      → Shaped before pc (prepend (front pc op_count ++ body) c)
  prepend-Shaped before body pc op_count next seen (compiled code ps e) set emitted rests = λ whole.
      let regroup = append_assoc (front pc op_count) body ps in
      let there : trace ≡ (before ++ (front pc op_count ++ body)) ++ ps =
        whole ∙ sym (append_assoc before (front pc op_count ++ body) ps) in
      subst (λ qs. Follows memory trace pc qs e) (sym regroup)
        (goes op_count (update seen pc true)
          (SetIn-AllBlocks (update seen pc true) (before ++ (front pc op_count ++ body)) ps set
            there)
          emitted (rests there))
  prepend-Shaped before body pc op_count next seen (bailed code) set emitted rests = tt
  prepend-Shaped before body pc op_count next seen outside set emitted rests = tt
  prepend-Shaped before body pc op_count next seen endless set emitted rests = tt

  carry_on-Shaped :
      (before : List Piece) (pc op_count : ℕ) (seen code : Marks) (rest : ℕ → Compiled) (n : Next)
      → SetIn seen before
      → emitted_at memory pc op_count (update seen pc true) ≡ n
      → ((body : List Piece) (next : ℕ)
          → SetIn (update seen pc true) (before ++ (front pc op_count ++ body))
          → Shaped (before ++ (front pc op_count ++ body)) next (rest next))
      → Shaped before pc (carry_on (front pc op_count) code rest n)
  carry_on-Shaped before pc op_count seen code rest (goes_on body next) set emitted rests =
      let set' = SetIn-update seen before body pc op_count set in
      prepend-Shaped before body pc op_count next seen (rest next) set' emitted
        (rests body next set')
  carry_on-Shaped before pc op_count seen code rest (ends body e) set emitted rests = λ whole.
      let set' = SetIn-update seen before body pc op_count set in
      halts op_count (update seen pc true) (λ b on. subst (HasIn b) (sym whole) (set' b on)) emitted
  carry_on-Shaped before pc op_count seen code rest bails set emitted rests = tt

  codegen_from-Shaped :
      (fuel pc op_count : ℕ) (seen code : Marks) (before : List Piece)
      → SetIn seen before
      → Shaped before pc (codegen_from memory fuel pc op_count seen code)
  unfolding codegen_from
  codegen_from-Shaped zero pc op_count seen code before set = tt
  codegen_from-Shaped (suc fuel) pc op_count seen code before set =
      elim (Bool-cases (leb memory_size pc)) [
        | inl out ↦ rw (out) tt
        | inr inside ↦ elim (Bool-cases (seen pc)) [
          | inl again ↦
              rw (inside, again) (λ whole. falls (SetIn-AllBlocks seen before _ set whole pc again))
          | inr new ↦
              rw (inside, new)
                (carry_on-Shaped before pc op_count seen _ _ _ set refl (λ body next set'.
                  codegen_from-Shaped fuel next (op_count + 1) (update seen pc true) _ _ set'))
        ]
      ]

-- A compiled trace follows its address.
pub codegen-Follows :
    (memory : Array) (pc : ℕ) (before after : Marks) (ps : List Piece) (e : Ending)
    → codegen memory pc before ≡ compiled after ps e
    → Follows memory ps pc ps e
unfolding codegen
codegen-Follows memory pc before after ps e made =
    subst (Shaped memory ps [] pc) made
      (codegen_from-Shaped memory ps (memory_size + 1) pc 0 (λ a. false) before [] (λ b on. cc))
      refl
