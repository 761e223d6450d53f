-- ===== src/Jit/Trace/Grows.antt =====
-- `codegen` of src/libgccjit_jit.c takes no mark away.
use chip_eight_jit.Common.{
  ℕ, zero, suc, ◌+◌, ◌%◌, ◌≡◌, subst, true, false, Array, update, leb, Bool-cases, inl, inr, List,
}
use chip_eight_jit.Machine.{u16, memory_size, opcode_at}
use chip_eight_jit.Jit.Marks.{Marks, mark_code, Within, mark_code-Within}
use chip_eight_jit.Jit.Trace.{
  Piece, Ending, Next, goes_on, ends, bails, Compiled, compiled, bailed, outside, endless, prepend,
  carry_on, is_skip, mark_read, emit, codegen_from, codegen,
}

-- The result has all marks.
abbrev pub Marked : Marks → Compiled → Type 0
Marked code (compiled after ps e) = Within code after
Marked code (bailed after) = Unit
Marked code outside = Unit
Marked code endless = Unit

prepend-Marked :
    (code : Marks) (ps : List Piece) (c : Compiled) → Marked code c → Marked code (prepend ps c)
prepend-Marked code ps (compiled after qs e) h = h
prepend-Marked code ps (bailed after) h = tt
prepend-Marked code ps outside h = tt
prepend-Marked code ps endless h = tt

Marked-Within :
    (code other : Marks) (c : Compiled) → Within code other → Marked other c → Marked code c
Marked-Within code other (compiled after ps e) w h = λ a on. h a (w a on)
Marked-Within code other (bailed after) w h = tt
Marked-Within code other outside w h = tt
Marked-Within code other endless w h = tt

pub carry_on-Marked :
    (ps : List Piece) (code : Marks) (rest : ℕ → Compiled) (n : Next)
    → ((next : ℕ) → Marked code (rest next))
    → Marked code (carry_on ps code rest n)
carry_on-Marked ps code rest (goes_on qs next) h = prepend-Marked code _ (rest next) (h next)
carry_on-Marked ps code rest (ends qs e) h = λ a on. on
carry_on-Marked ps code rest bails h = tt

pub mark_read-Within :
    (op pc : ℕ) (code : Marks) → Within (mark_code pc 2 code) (mark_read op pc code)
mark_read-Within op pc code = elim (Bool-cases (is_skip op)) [
  | inl on ↦ λ a h. rw (on) (mark_code-Within ((pc + 2) % u16) 2 (mark_code pc 2 code) a h)
  | inr off ↦ λ a h. rw (off) h
]

pub codegen_from-Marked :
    (memory : Array) (fuel pc op_count : ℕ) (seen code : Marks)
    → Marked code (codegen_from memory fuel pc op_count seen code)
unfolding codegen_from
codegen_from-Marked memory zero pc op_count seen code = tt
codegen_from-Marked memory (suc fuel) pc op_count seen code =
    elim (Bool-cases (leb memory_size pc)) [
      | inl out ↦ rw (out) tt
      | inr inside ↦ elim (Bool-cases (seen pc)) [
        | inl again ↦ rw (inside, again) (mark_code-Within pc 2 code)
        | inr new ↦
            let op = opcode_at memory pc in
            let seen' = update seen pc true in
            let marks = mark_read op pc code in
            let n = emit op pc op_count seen' (opcode_at memory ((pc + 2) % u16)) in
            let more : Within code marks =
              λ a h. mark_read-Within op pc code a (mark_code-Within pc 2 code a h) in
            rw (inside, new)
              (Marked-Within code marks (carry_on _ marks _ n) more (
                carry_on-Marked _ marks _ n
                  (λ next. codegen_from-Marked memory fuel next (op_count + 1) seen' marks)))
      ]
    ]

pub Marked-result :
    (code after : Marks) (ps : List Piece) (e : Ending) (c : Compiled)
    → Marked code c
    → c ≡ compiled after ps e
    → Within code after
Marked-result code after ps e c h eq = subst (Marked code) eq h

-- The marks that a trace leaves contain those that were there before.
pub codegen-Within :
    (memory : Array) (pc : ℕ) (code after : Marks) (ps : List Piece) (e : Ending)
    → codegen memory pc code ≡ compiled after ps e
    → Within code after
unfolding codegen
codegen-Within memory pc code after ps e eq =
    Marked-result code after ps e _
      (codegen_from-Marked memory (memory_size + 1) pc 0 (λ a. false) code) eq
