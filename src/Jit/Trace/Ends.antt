-- ===== src/Jit/Trace/Ends.antt =====
-- `codegen` of src/libgccjit_jit.c ends.
use chip_eight_jit.Common.{
  ℕ, zero, suc, ◌+◌, ◌%◌, ◌≤◌, ◌<◌, ◌≡◌, refl, true, false, arith, Array, update, leb, ◌==◌,
  if◌then◌else◌, Bool-cases, inl, inr, List,
}
use chip_eight_jit.Machine.{u16, memory_size, opcode_at}
use chip_eight_jit.Jit.Marks.{Marks}
use chip_eight_jit.Jit.Trace.{
  Piece, Next, goes_on, ends, bails, Compiled, compiled, bailed, outside, endless, prepend,
  carry_on, mark_read, emit, codegen_from, codegen,
}

-- How many addresses below `n` have no block yet.
unfoldable unseen : Marks → ℕ → ℕ
unseen seen zero = 0
unseen seen (suc n) = unseen seen n + (if seen n then 0 else 1)

unseen_above : (seen : Marks) (n a : ℕ) → n ≤ a → unseen (update seen a true) n ≡ unseen seen n
unfolding unseen
unseen_above seen zero a h = refl
unseen_above seen (suc n) a h = ground (arith, unseen_above seen n a (omega arith))

unseen-update :
    (seen : Marks) (n a : ℕ)
    → a < n
    → seen a ≡ false
    → unseen (update seen a true) n + 1 ≡ unseen seen n
unfolding unseen
unseen-update seen zero a h new = absurd (omega arith)
unseen-update seen (suc n) a h new = elim (Bool-cases (a == n)) [
  | inl here ↦
      let at_n : a ≡ n = ground arith in ground (arith, unseen_above seen n a (omega arith))
  | inr later ↦
      let before : a < n = ground arith in ground (arith, unseen-update seen n a before new)
]

unseen_all : (n : ℕ) → unseen (λ a. false) n ≡ n
unfolding unseen
unseen_all zero = refl
unseen_all (suc n) = omega (arith, unseen_all n)

abbrev IsFinished : Compiled → Type 0
IsFinished (compiled code ps e) = Unit
IsFinished (bailed code) = Unit
IsFinished outside = Unit
IsFinished endless = ⊥

not_endless : (c : Compiled) → IsFinished c → ¬ (c ≡ endless)
not_endless (compiled code ps e) h eq = cc
not_endless (bailed code) h eq = cc
not_endless outside h eq = cc
not_endless endless h eq = h

prepend-IsFinished : (ps : List Piece) (c : Compiled) → IsFinished c → IsFinished (prepend ps c)
prepend-IsFinished ps (compiled code qs e) h = tt
prepend-IsFinished ps (bailed code) h = tt
prepend-IsFinished ps outside h = tt
prepend-IsFinished ps endless h = h

carry_on-IsFinished :
    (ps : List Piece) (code : Marks) (rest : ℕ → Compiled) (n : Next)
    → ((next : ℕ) → IsFinished (rest next))
    → IsFinished (carry_on ps code rest n)
carry_on-IsFinished ps code rest (goes_on qs next) h = prepend-IsFinished _ (rest next) (h next)
carry_on-IsFinished ps code rest (ends qs e) h = tt
carry_on-IsFinished ps code rest bails h = tt

codegen_from-IsFinished :
    (memory : Array) (fuel pc op_count : ℕ) (seen code : Marks)
    → unseen seen memory_size < fuel
    → IsFinished (codegen_from memory fuel pc op_count seen code)
unfolding codegen_from
codegen_from-IsFinished memory zero pc op_count seen code h = absurd (omega arith)
codegen_from-IsFinished memory (suc fuel) pc op_count seen code h =
    elim (Bool-cases (leb memory_size pc)) [
      | inl out ↦ rw (out) tt
      | inr inside ↦ elim (Bool-cases (seen pc)) [
        | inl again ↦ rw (inside, again) tt
        | inr new ↦
            let fewer = unseen-update seen memory_size pc (ground arith) new in
            let op = opcode_at memory pc in
            rw (inside, new)
              (carry_on-IsFinished _ _ _
                (emit op pc op_count (update seen pc true) (opcode_at memory ((pc + 2) % u16)))
                (λ next.
                  codegen_from-IsFinished memory fuel next (op_count + 1) (update seen pc true)
                    (mark_read op pc code) (omega (arith, fewer))))
      ]
    ]

pub codegen-ends : (memory : Array) (pc : ℕ) (code : Marks) → ¬ (codegen memory pc code ≡ endless)
unfolding codegen
codegen-ends memory pc code e =
    let done =
      codegen_from-IsFinished memory (memory_size + 1) pc 0 (λ a. false) code
        (omega (arith, unseen_all memory_size)) in
    not_endless (codegen_from memory (memory_size + 1) pc 0 (λ a. false) code) done e
