-- ===== src/Jit/Trace/Anywhere.antt =====
-- The trace that `codegen` of src/libgccjit_jit.c makes does not depend on which bytes are marked before.
use chip_eight_jit.Common.{
  ℕ, zero, suc, ◌+◌, ◌%◌, ◌≡◌, refl, ap, true, false, Array, update, leb, Bool-cases, inl, inr,
  List, ◌++◌,
}
use chip_eight_jit.Machine.{u16, memory_size, opcode_at}
use chip_eight_jit.Jit.Marks.{Marks}
use chip_eight_jit.Jit.Trace.{
  Piece, Ending, Next, goes_on, ends, bails, Compiled, compiled, bailed, outside, endless, prepend,
  carry_on, mark_read, emit, codegen_from, codegen,
}

-- The results are traces of the same pieces, or are none.
abbrev Alike : Compiled → Compiled → Type 0
Alike (compiled code ps e) d = (after : Marks) × (d ≡ compiled after ps e)
Alike (bailed code) d = (after : Marks) × (d ≡ bailed after)
Alike outside d = d ≡ outside
Alike endless d = d ≡ endless

prepend-Alike : (ps : List Piece) (c d : Compiled) → Alike c d → Alike (prepend ps c) (prepend ps d)
prepend-Alike ps (compiled code qs e) d (after, h) = (after, ap (prepend ps) h)
prepend-Alike ps (bailed code) d (after, h) = (after, ap (prepend ps) h)
prepend-Alike ps outside d h = ap (prepend ps) h
prepend-Alike ps endless d h = ap (prepend ps) h

carry_on-Alike :
    (ps : List Piece) (code marks : Marks) (rest other : ℕ → Compiled) (n : Next)
    → ((next : ℕ) → Alike (rest next) (other next))
    → Alike (carry_on ps code rest n) (carry_on ps marks other n)
carry_on-Alike ps code marks rest other (goes_on qs next) h =
    prepend-Alike (ps ++ qs) (rest next) (other next) (h next)
carry_on-Alike ps code marks rest other (ends qs e) h = (marks, refl)
carry_on-Alike ps code marks rest other bails h = (marks, refl)

codegen_from-Alike :
    (memory : Array) (fuel pc op_count : ℕ) (seen code marks : Marks)
    → Alike
        (codegen_from memory fuel pc op_count seen code)
        (codegen_from memory fuel pc op_count seen marks)
unfolding codegen_from
codegen_from-Alike memory zero pc op_count seen code marks = refl
codegen_from-Alike memory (suc fuel) pc op_count seen code marks =
    elim (Bool-cases (leb memory_size pc)) [
      | inl out ↦ rw (out) refl
      | inr inside ↦ elim (Bool-cases (seen pc)) [
        | inl again ↦ rw (inside, again) (_, refl)
        | inr new ↦
            let op = opcode_at memory pc in
            rw (inside, new)
              (carry_on-Alike _ _ _ _ _
                (emit op pc op_count (update seen pc true) (opcode_at memory ((pc + 2) % u16)))
                (λ next.
                  codegen_from-Alike memory fuel next (op_count + 1) (update seen pc true)
                    (mark_read op pc code) (mark_read op pc marks)))
      ]
    ]

Alike-compiled :
    (c d : Compiled) (after : Marks) (ps : List Piece) (e : Ending)
    → Alike c d
    → c ≡ compiled after ps e
    → (other : Marks) × (d ≡ compiled other ps e)
Alike-compiled (compiled code qs f) d after ps e (other, h) eq = (other, cc)
Alike-compiled (bailed code) d after ps e h eq = cc
Alike-compiled outside d after ps e h eq = cc
Alike-compiled endless d after ps e h eq = cc

-- The same trace comes out whichever bytes are marked before.
pub codegen-anywhere :
    (memory : Array) (pc : ℕ) (code marks after : Marks) (ps : List Piece) (e : Ending)
    → codegen memory pc code ≡ compiled after ps e
    → (other : Marks) × (codegen memory pc marks ≡ compiled other ps e)
unfolding codegen
codegen-anywhere memory pc code marks after ps e eq =
    Alike-compiled _ _ after ps e
      (codegen_from-Alike memory (memory_size + 1) pc 0 (λ a. false) code marks) eq
