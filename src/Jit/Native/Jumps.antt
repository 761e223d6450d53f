-- ===== src/Jit/Native/Jumps.antt =====
-- The edges of a trace of src/libgccjit_jit.c: jumps, closed loops and skips, against src/interp.c.
use chip_eight_jit.Common.{
  ℕ, ◌≡◌, refl, sym, ap, ◌∙◌, subst, true, List, Array, Bool-cases, inl, inr, ltb,
}
use chip_eight_jit.Machine.{Machine, immediate_twelve}
use chip_eight_jit.Interp.Outcome.{Outcome, stepped}
use chip_eight_jit.Interp.Timers.{interrupt}
use chip_eight_jit.Interp.Control.{jump}
use chip_eight_jit.Interp.Alike.{IsFit, times, AlikeOutcome}
use chip_eight_jit.Jit.Trace.{Piece, emit_jump}
use chip_eight_jit.Jit.Marks.{Marks}
use chip_eight_jit.Jit.Dispatch.{Jit}
use chip_eight_jit.Jit.Native.{at_pc, run_piece, run_pieces, run_ending, close_backedge}
use chip_eight_jit.Jit.Native.Agrees.{
  at_address, Agrees, Does, Passes-on, Alike-outcome, no_more, HasBlock,
}
use chip_eight_jit.Jit.Native.Safepoint.{run_safepoint-Unseen, interrupt-Alike}
use chip_eight_jit.Jit.Native.Calls.{interrupt-at_address}

-- A jump of the interpreter, from a machine that is at any address.
pub jump-Alike :
    (op pc : ℕ) (t : Machine) (o : Outcome)
    → IsFit (times t)
    → AlikeOutcome o (jump op (at_address pc t))
    → AlikeOutcome o (stepped (at_address (immediate_twelve op) t))
unfolding jump
jump-Alike op pc t o fit a =
    let target = immediate_twelve op in
    let u = at_address target t in
    let same : at_address target (interrupt (at_address pc t)) ≡ interrupt u =
      ap (at_address target) (interrupt-at_address pc t) ∙ sym (interrupt-at_address target t) in
    Alike-outcome o (interrupt u) u (subst (λ s. AlikeOutcome o (stepped s)) same a)
      (interrupt-Alike u fit)

module _ (memory : Array) (trace : List Piece) (o : Outcome) where
  -- A branch onto a block, at which the interpreter has arrived.
  pub arrives :
      (target : ℕ) (k : Jit)
      → AlikeOutcome o (stepped (at_address target k.machine))
      → k.machine.memory ≡ memory
      → HasBlock memory trace target
      → Agrees memory trace o (close_backedge target (at_pc target k))
  unfolding close_backedge
  arrives target k a kept block = elim (Bool-cases k.program_over) [
    | inl over ↦ rw (over) (no_more o _ a)
    | inr more ↦ rw (more) (no_more o _ a, refl, kept, block)
  ]

  -- A jump, however it is emitted.
  pub jump-Does :
      (op op_count : ℕ) (seen : Marks) (j : Jit)
      → IsFit (times j.machine)
      → j.machine.memory ≡ memory
      → AlikeOutcome o (stepped (at_address (immediate_twelve op) j.machine))
      → ((b : ℕ) → seen b ≡ true → HasBlock memory trace b)
      → Does memory trace o j (emit_jump op op_count seen)
  unfolding emit_jump run_pieces run_piece run_ending
  jump-Does op op_count seen j fit kept a blocks =
      let target = immediate_twelve op in
      let (k, runs, (same, unseen)) = run_safepoint-Unseen j fit in
      let b = Alike-outcome o _ _ a (unseen target) in
      elim (Bool-cases (seen target)) [
        | inl old ↦ rw (old, runs) (arrives target k b (same ∙ kept) (blocks target old))
        | inr new ↦ elim (Bool-cases (ltb op_count 0x100)) [
          | inl short ↦
              rw (new, short, runs)
                (Passes-on memory trace target o _ (at_pc target k) b refl (same ∙ kept))
          | inr long ↦ rw (new, long, runs) (no_more o _ b)
        ]
      ]
