-- ===== src/Jit/Engine/Keeps.antt =====
-- The pieces of a trace in src/libgccjit_jit.c, and its runs: they leave the cache to the loop.
use chip_eight_jit.Common.{
  ℕ, zero, suc, ◌≡◌, refl, sym, ◌∙◌, subst, Bool, Option, none, some, List, [], ◌∷◌, Array,
  Bool-cases, inl, inr, leb,
}
use chip_eight_jit.Clock.Laws.{bench_advance_safepoint_lem}
use chip_eight_jit.Machine.{Machine}
use chip_eight_jit.Jit.Trace.{
  Piece, at_block, safepoint, retire, set_pc, call_host, inline, skip_out, skip_fused, Ending,
  returned, closed,
}
use chip_eight_jit.Jit.Inline.{
  Place, reg_at, addr_place, delay_place, sound_place, pc_place, Statement, assign, assign_op,
  snapshot, BinaryOp, Comparison, run_all, inline_code, write,
}
use chip_eight_jit.Jit.Dispatch.{Code, Jit, check_interrupt}
use chip_eight_jit.Jit.Dispatch.Coherent.{IsCoherent, interrupt_memory}
use chip_eight_jit.Jit.Helpers.{
  Native, on, branched, left, exited, undefined_shift, lost, spins, with_machine, rescheduled,
  bench_safepoint,
}
use chip_eight_jit.Jit.Native.{
  run_safepoint, close_backedge, fused_edge, at_pc, retired_by, then_on, skips, run_piece,
  run_ending, run_pieces, follow, run_trace, find_block,
}
use chip_eight_jit.Jit.Engine.Helpers.{
  Holds, SameCode-IsCoherent, machine-IsCoherent, call-IsCoherent,
}

safepoint-IsCoherent : (j : Jit) → IsCoherent j → Holds IsCoherent (run_safepoint j)
unfolding run_safepoint bench_safepoint check_interrupt
safepoint-IsCoherent j h =
    elim (Bool-cases (leb j.machine.clock.next_safepoint j.machine.clock.retired)) [
      | inl due ↦
          let k = check_interrupt j in
          let (next, runs, found) = bench_advance_safepoint_lem k.machine.clock in
          rw (due) (
            subst (λ o. Holds IsCoherent (rescheduled k o)) (sym runs)
              (SameCode-IsCoherent j
                (with_machine
                  (record k.machine { clock = record k.machine.clock { next_safepoint = next } }) k)
                (record {
                  same_memory = interrupt_memory j.machine;
                  same_cache = refl;
                  same_bytes = refl;
                  same_flag = refl;
                })
                h))
      | inr early ↦ rw (early) h
    ]

then-Holds :
    (P : Jit → Type 0) (r : Native) (rest : Jit → Native)
    → Holds P r
    → ((k : Jit) → P k → Holds P (rest k))
    → Holds P (then_on r rest)
then-Holds P (on k) rest h next = next k h
then-Holds P (branched a k) rest h next = h
then-Holds P (left k) rest h next = h
then-Holds P (exited k) rest h next = tt
then-Holds P undefined_shift rest h next = tt
then-Holds P lost rest h next = tt
then-Holds P spins rest h next = tt

closes-IsCoherent : (a : ℕ) (j : Jit) → IsCoherent j → Holds IsCoherent (close_backedge a j)
unfolding close_backedge
closes-IsCoherent a j h = elim (Bool-cases j.program_over) [
  | inl over ↦ rw (over) h
  | inr more ↦ rw (more) h
]

edge-IsCoherent :
    (target : ℕ) (back : Bool) (j : Jit)
    → IsCoherent j
    → Holds IsCoherent (fused_edge target back j)
unfolding fused_edge
edge-IsCoherent target back j h =
    then-Holds IsCoherent (run_safepoint (with_machine (retired_by 1 j.machine) j)) _
      (safepoint-IsCoherent (with_machine (retired_by 1 j.machine) j) h)
      (λ k c. elim (Bool-cases back) [
        | inl loops ↦ rw (loops) (closes-IsCoherent target (at_pc target k) c)
        | inr leaves ↦ rw (leaves) c
      ])

module _ (operate : BinaryOp → ℕ → ℕ → ℕ → ℕ) (compares : Comparison → ℕ → ℕ → ℕ) where
  write-memory : (p : Place) (v : ℕ) (m : Machine) → (write p v m).memory ≡ m.memory
  write-memory (reg_at x) v m = refl
  write-memory addr_place v m = refl
  write-memory delay_place v m = refl
  write-memory sound_place v m = refl
  write-memory pc_place v m = refl

  run_all-memory :
      (ss : List Statement) (locals : Array) (m : Machine)
      → (run_all operate compares ss locals m).memory ≡ m.memory
  run_all-memory [] locals m = refl
  run_all-memory (assign p v ∷ ss) locals m = run_all-memory ss locals _ ∙ write-memory p _ m
  run_all-memory (assign_op p o v ∷ ss) locals m = run_all-memory ss locals _ ∙ write-memory p _ m
  run_all-memory (snapshot i p ∷ ss) locals m = run_all-memory ss _ m

  piece-IsCoherent :
      (p : Piece) (j : Jit) → IsCoherent j → Holds IsCoherent (run_piece operate compares p j)
  unfolding run_piece
  piece-IsCoherent (at_block pc) j h = h
  piece-IsCoherent safepoint j h = safepoint-IsCoherent j h
  piece-IsCoherent (retire n) j h = h
  piece-IsCoherent (set_pc pc) j h = h
  piece-IsCoherent (call_host fn) j h = call-IsCoherent fn j h
  piece-IsCoherent (inline op) j h =
      machine-IsCoherent j (run_all operate compares (inline_code op 0) (λ i. 0) j.machine)
        (run_all-memory (inline_code op 0) (λ i. 0) j.machine) h
  piece-IsCoherent (skip_out op next) j h =
      elim (Bool-cases (skips operate compares op j.machine)) [
        | inl taken ↦ rw (taken) h
        | inr straight ↦ rw (straight) h
      ]
  piece-IsCoherent (skip_fused op target back) j h =
      elim (Bool-cases (skips operate compares op j.machine)) [
        | inl taken ↦ rw (taken) h
        | inr straight ↦ rw (straight) (edge-IsCoherent target back j h)
      ]

  pieces-IsCoherent :
      (ps : List Piece) (e : Ending) (j : Jit)
      → IsCoherent j
      → Holds IsCoherent (run_pieces operate compares ps e j)
  unfolding run_pieces run_ending
  pieces-IsCoherent [] returned j h = h
  pieces-IsCoherent [] (closed a) j h = closes-IsCoherent a j h
  pieces-IsCoherent (p ∷ ps) e j h =
      then-Holds IsCoherent (run_piece operate compares p j) _ (piece-IsCoherent p j h)
        (λ k c. pieces-IsCoherent ps e k c)

  follow-Holds :
      (P : Jit → Type 0) (go : ℕ → Jit → Native) (r : Native)
      → Holds P r
      → ((a : ℕ) (k : Jit) → P k → Holds P (go a k))
      → Holds P (follow go r)
  follow-Holds P go (on k) h next = h
  follow-Holds P go (branched a k) h next = next a k h
  follow-Holds P go (left k) h next = h
  follow-Holds P go (exited k) h next = tt
  follow-Holds P go undefined_shift h next = tt
  follow-Holds P go lost h next = tt
  follow-Holds P go spins h next = tt

  pub trace-IsCoherent :
      (fuel : ℕ) (c : Code) (at : Option (List Piece)) (j : Jit)
      → IsCoherent j
      → Holds IsCoherent (run_trace operate compares fuel c at j)
  unfolding run_trace
  trace-IsCoherent zero c at j h = tt
  trace-IsCoherent (suc fuel) c none j h = tt
  trace-IsCoherent (suc fuel) c (some ps) j h =
      follow-Holds IsCoherent _ (run_pieces operate compares ps c.ending j)
        (pieces-IsCoherent ps c.ending j h)
        (λ a k d. trace-IsCoherent fuel c (find_block a c.pieces) k d)
