-- ===== src/Jit/Native/Skips.antt =====
-- The skips of a trace of src/libgccjit_jit.c, with a jump folded in or not, against src/interp.c.
use chip_eight_jit.Common.{
  ℕ, ◌+◌, ◌%◌, ◌/◌, ◌^◌, ◌<◌, ◌≡◌, refl, sym, ap, ◌∙◌, subst, Bool, true, List, Array, Below, arith,
  Bool-cases, inl, inr, ◌==◌, if◌then◌else◌,
}
use chip_eight_jit.Machine.{Machine, u8, u16, opcode_at, immediate_twelve}
use chip_eight_jit.Interp.Outcome.{Outcome, stepped, failed, undefined, hangs}
use chip_eight_jit.Interp.Step.{execute, dispatch, basic_block}
use chip_eight_jit.Interp.Control.{
  jump, skip_eq_immediate, skip_neq_immediate, skip_eq_register, skip_neq_register,
}
use chip_eight_jit.Interp.Run.{retire}
use chip_eight_jit.Interp.Run.Instructions.{instruction}
use chip_eight_jit.Interp.Alike.{IsFit, times, Alike, AlikeOutcome}
use chip_eight_jit.Interp.Alike.Step.{fetch-Alike, basic_block-Alike}
use chip_eight_jit.Jit.Trace.{Piece, emit_skip, is_skip}
use chip_eight_jit.Jit.Marks.{Marks}
use chip_eight_jit.Jit.Dispatch.{Jit}
use chip_eight_jit.Jit.Inline.{documented_operate, documented_compares, skip_condition}
use chip_eight_jit.Jit.Helpers.{with_machine}
use chip_eight_jit.Jit.Native.{at_pc, retired_by, skips, run_piece, fused_edge}
use chip_eight_jit.Jit.Native.Agrees.{
  at_address, Agrees, Agrees-instruction, Does, Passes-on, Alike-outcome, no_more, leaves, HasBlock,
}
use chip_eight_jit.Jit.Native.Safepoint.{run_safepoint-Unseen}
use chip_eight_jit.Jit.Native.Jumps.{jump-Alike, arrives}

-- Whether the skip is taken.
abbrev taken : ℕ → Machine → Bool
taken = skips documented_operate documented_compares

execute-taken :
    (op pc : ℕ) (m : Machine)
    → op < u16
    → is_skip op ≡ true
    → execute op (at_address pc m)
      ≡ stepped
          (if taken op m then at_address ((pc + 4) % u16) m else at_address ((pc + 2) % u16) m)
unfolding execute dispatch skip_eq_immediate skip_neq_immediate skip_eq_register skip_neq_register
    skip_condition
execute-taken op pc m small h =
    let twice : ((pc + 2) % u16 + 2) % u16 ≡ (pc + 4) % u16 = omega arith in ground (arith, twice)

execute-jump :
    (op : ℕ) (m : Machine) → op < u16 → (op / 2 ^ 12 == 1) ≡ true → execute op m ≡ jump op m
unfolding execute dispatch
execute-jump op m small h = ground arith

abbrev pub Alike-regs : (m n : Machine) → Alike m n → Below u8 n.regs → Below u8 m.regs
Alike-regs m n a = subst (λ (s : Machine). Below u8 s.regs) (sym a.same_else)

-- The machine behind a skip that is not taken, when the jump behind it is counted.
abbrev counted_at : ℕ → Machine → Machine
counted_at pc m = retire (at_address pc m)

module _ (memory : Array) (trace : List Piece) (pc fused_op : ℕ) (s : Machine) (j : Jit)
    (small : fused_op < u16) (jumps : (fused_op / 2 ^ 12 == 1) ≡ true)
    (here : opcode_at memory pc ≡ fused_op) (kept : j.machine.memory ≡ memory)
    (bytes : Below u8 j.machine.regs) (fit : IsFit (times j.machine))
    (a : Alike s (at_address pc j.machine)) where
  abbrev target : ℕ
  target = immediate_twelve fused_op

  -- The jump is the next instruction.
  next-Alike : AlikeOutcome (instruction s) (stepped (at_address target (retired_by 1 j.machine)))
  unfolding basic_block
  next-Alike =
      let n = counted_at pc j.machine in
      let b = fetch-Alike s (at_address pc j.machine) a in
      let both = basic_block-Alike _ n (Alike-regs _ n b bytes) b in
      let op_is : opcode_at n.memory n.program_counter ≡ fused_op =
        ap (λ mem. opcode_at mem pc) kept ∙ here in
      let runs : basic_block n ≡ jump fused_op n =
        ap (λ op. execute op n) op_is ∙ execute-jump fused_op n small jumps in
      jump-Alike fused_op pc (retired_by 1 j.machine) (instruction s) b.alike_times.second_fit
        (subst (AlikeOutcome (instruction s)) runs both)

  fused_edge-Agrees :
      (back : Bool)
      → (back ≡ true → HasBlock memory trace target)
      → Agrees memory trace (stepped s) (fused_edge target back j)
  unfolding fused_edge
  fused_edge-Agrees back block =
      let j' = with_machine (retired_by 1 j.machine) j in
      let b = fetch-Alike s (at_address pc j.machine) a in
      let (k, runs, (same, unseen)) = run_safepoint-Unseen j' b.alike_times.second_fit in
      let c = Alike-outcome (instruction s) _ _ next-Alike (unseen target) in
      Agrees-instruction memory trace s _ (elim (Bool-cases back) [
        | inl loops ↦
            rw (runs, loops)
              (arrives memory trace (instruction s) target k c (same ∙ kept) (block loops))
        | inr off ↦ rw (runs, off) (no_more (instruction s) _ c)
      ])

module _ (memory : Array) (trace : List Piece) (op pc fused_op : ℕ) (o : Outcome) (j : Jit)
    (small : op < u16) (small_fused : fused_op < u16) (skips_here : is_skip op ≡ true)
    (here : opcode_at memory ((pc + 2) % u16) ≡ fused_op) (kept : j.machine.memory ≡ memory)
    (bytes : Below u8 j.machine.regs) (fit : IsFit (times j.machine))
    (a : AlikeOutcome o (execute op (at_address pc j.machine))) where
  -- Behind the skip.
  abbrev Behind : Bool → Type 0
  Behind skipped = AlikeOutcome o (
      stepped (
        if skipped
        then at_address ((pc + 4) % u16) j.machine
        else at_address ((pc + 2) % u16) j.machine))

  beyond : Behind (taken op j.machine)
  beyond = subst (AlikeOutcome o) (execute-taken op pc j.machine small skips_here) a

  not_taken :
      (p : Outcome)
      → AlikeOutcome p (stepped (at_address ((pc + 2) % u16) j.machine))
      → (seen : Marks) → ((b : ℕ) → seen b ≡ true → HasBlock memory trace b)
      → (fused_op / 2 ^ 12 == 1) ≡ true
      → Agrees memory trace p
          (fused_edge (immediate_twelve fused_op) (seen (immediate_twelve fused_op)) j)
  not_taken (stepped s) b seen blocks jumps =
      fused_edge-Agrees memory trace ((pc + 2) % u16) fused_op s j small_fused jumps here kept bytes
        fit b (seen (immediate_twelve fused_op)) (blocks (immediate_twelve fused_op))
  not_taken (failed s c) b seen blocks jumps = absurd b
  not_taken undefined b seen blocks jumps = absurd b
  not_taken hangs b seen blocks jumps = absurd b

  pub skip-Does :
      (seen : Marks)
      → ((b : ℕ) → seen b ≡ true → HasBlock memory trace b)
      → Does memory trace o j (emit_skip op pc seen fused_op)
  unfolding emit_skip run_piece
  skip-Does seen blocks = elim (Bool-cases (taken op j.machine)) [
    | inl skipped ↦
        let b = subst Behind skipped beyond in
        let goes =
          Passes-on memory trace ((pc + 4) % u16) o _ (at_pc ((pc + 4) % u16) j) b refl kept in
        elim (Bool-cases (fused_op / 2 ^ 12 == 1)) [
          | inl jumps ↦ rw (jumps, skipped) goes
          | inr other ↦ rw (other, skipped) goes
        ]
    | inr straight ↦
        let b = subst Behind straight beyond in
        elim (Bool-cases (fused_op / 2 ^ 12 == 1)) [
          | inl jumps ↦
              rw (jumps, straight)
                (leaves memory trace ((pc + 4) % u16) o _ _ (not_taken o b seen blocks jumps))
          | inr other ↦ rw (other, straight) (no_more o _ b)
        ]
  ]
