-- ===== src/Jit/Trace/Reads.antt =====
-- What `codegen` of src/libgccjit_jit.c depends on: the bytes that it marks, and no other.
use chip_eight_jit.Common.{
  ℕ, zero, suc, ◌+◌, ◌%◌, ◌≡◌, refl, sym, ◌∙◌, ap, true, false, arith, Array, update, leb,
  Bool-cases, inl, inr, List, [], ◌∷◌, ◌++◌,
}
use chip_eight_jit.Machine.{u16, memory_size, opcode_at}
use chip_eight_jit.Jit.Marks.{Marks, mark_code, Within, mark_code_two}
use chip_eight_jit.Jit.Trace.Grows.{
  carry_on-Marked, mark_read-Within, codegen_from-Marked, Marked-result,
}
use chip_eight_jit.Jit.Trace.{
  Piece, Ending, Next, goes_on, ends, bails, Compiled, compiled, bailed, outside, endless,
  safepoint, set_pc, closed, prepend, carry_on, is_skip, mark_read, front, emit, codegen_from,
  codegen,
}

-- The memories hold the same in each byte that is marked.
abbrev pub Agree : Marks → Array → Array → Type 0
Agree code memory other = (a : ℕ) → code a ≡ true → memory a ≡ other a

prepend-Repeats :
    (qs : List Piece) (c d : Compiled) (after : Marks)
    → ((ps : List Piece) (e : Ending) → c ≡ compiled after ps e → d ≡ compiled after ps e)
    → (ps : List Piece) (e : Ending) → prepend qs c ≡ compiled after ps e
    → prepend qs d ≡ compiled after ps e
prepend-Repeats qs (compiled code rs f) d after h ps e eq =
    let a : code ≡ after = cc in
    let same : d ≡ compiled after rs f = h rs f (ap (λ m. compiled m rs f) a) in
    ap (prepend qs) same ∙ ap (λ m. compiled m (qs ++ rs) f) (sym a) ∙ eq
prepend-Repeats qs (bailed code) d after h ps e eq = cc
prepend-Repeats qs outside d after h ps e eq = cc
prepend-Repeats qs endless d after h ps e eq = cc

opcode_at-Agree :
    (memory other : Array) (pc : ℕ) (code after : Marks)
    → Within (mark_code pc 2 code) after
    → Agree after memory other
    → opcode_at memory pc ≡ opcode_at other pc
unfolding opcode_at
opcode_at-Agree memory other pc code after w agree =
    let (p, q) = mark_code_two pc code in
    rw (agree (pc % memory_size) (w _ p), agree ((pc + 1) % memory_size) (w _ q)) refl

-- Only a skip looks ahead.
emit_straight :
    (op pc op_count a b : ℕ) (seen : Marks)
    → is_skip op ≡ false
    → emit op pc op_count seen a ≡ emit op pc op_count seen b
unfolding emit
emit_straight op pc op_count a b seen off = ground (arith, off)

carry_on-same :
    (qs : List Piece) (code after : Marks) (rest other : ℕ → Compiled) (n : Next)
    → ((next : ℕ) (ps : List Piece) (e : Ending)
        → rest next ≡ compiled after ps e
        → other next ≡ compiled after ps e)
    → (ps : List Piece) (e : Ending) → carry_on qs code rest n ≡ compiled after ps e
    → carry_on qs code other n ≡ compiled after ps e
carry_on-same qs code after rest other (goes_on rs next) h ps e eq =
    prepend-Repeats (qs ++ rs) (rest next) (other next) after (h next) ps e eq
carry_on-same qs code after rest other (ends rs f) h ps e eq = eq
carry_on-same qs code after rest other bails h ps e eq = cc

-- The emission repeats on a memory that agrees on what the round has marked.
emit_same :
    (memory other : Array) (pc op_count op : ℕ) (seen code after : Marks)
    → Within (mark_read op pc code) after
    → Agree after memory other
    → emit op pc op_count seen (opcode_at memory ((pc + 2) % u16))
      ≡ emit op pc op_count seen (opcode_at other ((pc + 2) % u16))
emit_same memory other pc op_count op seen code after w agree = elim (Bool-cases (is_skip op)) [
  | inl on ↦
      let ahead : Within (mark_code ((pc + 2) % u16) 2 (mark_code pc 2 code)) after =
        rw (on) at w in
      ap (emit op pc op_count seen)
        (opcode_at-Agree memory other ((pc + 2) % u16) (mark_code pc 2 code) after ahead agree)
  | inr off ↦ emit_straight op pc op_count _ _ seen off
]

-- One round of the loop.
module _ (memory : Array) (fuel pc op_count : ℕ) (seen code : Marks) where
  codegen_from_out :
      leb memory_size pc ≡ true → codegen_from memory (suc fuel) pc op_count seen code ≡ outside
  unfolding codegen_from
  codegen_from_out out = rw (out) refl

  codegen_from_again :
      leb memory_size pc ≡ false
      → seen pc ≡ true
      → codegen_from memory (suc fuel) pc op_count seen code
        ≡ compiled (mark_code pc 2 code) (safepoint ∷ set_pc pc ∷ []) (closed pc)
  unfolding codegen_from
  codegen_from_again inside again = rw (inside, again) refl

  codegen_from_new :
      leb memory_size pc ≡ false
      → seen pc ≡ false
      → codegen_from memory (suc fuel) pc op_count seen code
        ≡ carry_on
            (front pc op_count)
            (mark_read (opcode_at memory pc) pc code)
            (λ next.
              codegen_from memory fuel next
                (op_count + 1)
                (update seen pc true)
                (mark_read (opcode_at memory pc) pc code))
            (emit
              (opcode_at memory pc)
              pc
              op_count
              (update seen pc true)
              (opcode_at memory ((pc + 2) % u16)))
  unfolding codegen_from
  codegen_from_new inside new = rw (inside, new) refl

pub codegen_from-same :
    (memory other : Array) (fuel pc op_count : ℕ) (seen code after : Marks) (ps : List Piece)
    (e : Ending)
    → Agree after memory other
    → codegen_from memory fuel pc op_count seen code ≡ compiled after ps e
    → codegen_from other fuel pc op_count seen code ≡ compiled after ps e
unfolding codegen_from
codegen_from-same memory other zero pc op_count seen code after ps e agree eq = cc
codegen_from-same memory other (suc fuel) pc op_count seen code after ps e agree eq =
    elim (Bool-cases (leb memory_size pc)) [
      | inl out ↦
          codegen_from_out other fuel pc op_count seen code out
          ∙ sym (codegen_from_out memory fuel pc op_count seen code out)
          ∙ eq
      | inr inside ↦ elim (Bool-cases (seen pc)) [
        | inl again ↦
            codegen_from_again other fuel pc op_count seen code inside again
            ∙ sym (codegen_from_again memory fuel pc op_count seen code inside again)
            ∙ eq
        | inr new ↦
            let op = opcode_at memory pc in
            let seen' = update seen pc true in
            let marks = mark_read op pc code in
            let rest = λ (next : ℕ). codegen_from memory fuel next (op_count + 1) seen' marks in
            let opens = codegen_from_new memory fuel pc op_count seen code inside new in
            let all : Within marks after =
              Marked-result marks after ps e _
                (carry_on-Marked (front pc op_count) marks rest _
                  (λ next. codegen_from-Marked memory fuel next (op_count + 1) seen' marks))
                (sym opens ∙ eq) in
            let same_op : op ≡ opcode_at other pc =
              opcode_at-Agree memory other pc code after
                (λ a h. all a (mark_read-Within op pc code a h)) agree in
            let again_rest =
              λ (next : ℕ). codegen_from other fuel next (op_count + 1) seen' marks in
            let ahead = opcode_at other ((pc + 2) % u16) in
            codegen_from_new other fuel pc op_count seen code inside new
            ∙ ap
                (λ o.
                  carry_on (front pc op_count) (mark_read o pc code)
                    (λ next.
                      codegen_from other fuel next (op_count + 1) seen' (mark_read o pc code))
                    (emit o pc op_count seen' ahead))
                (sym same_op)
            ∙ ap (carry_on (front pc op_count) marks again_rest)
                (sym (emit_same memory other pc op_count op seen' code after all agree))
            ∙ carry_on-same (front pc op_count) marks after rest again_rest _
                (λ next qs f h.
                  codegen_from-same memory other fuel next (op_count + 1) seen' marks after qs f
                    agree h)
                ps e (sym opens ∙ eq)
      ]
    ]

-- If a trace is compiled, it is compiled in the same way, with the same marks, from every memory that
-- holds the same in each byte that is marked then.
pub codegen-same :
    (memory other : Array) (pc : ℕ) (code after : Marks) (ps : List Piece) (e : Ending)
    → Agree after memory other
    → codegen memory pc code ≡ compiled after ps e
    → codegen other pc code ≡ compiled after ps e
unfolding codegen
codegen-same memory other pc code after ps e agree eq =
    codegen_from-same memory other (memory_size + 1) pc 0 (λ a. false) code after ps e agree eq
