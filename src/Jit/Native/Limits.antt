-- ===== src/Jit/Native/Limits.antt =====
-- What the pieces of a trace of src/libgccjit_jit.c leave of the limits of the run.
use chip_eight_jit.Common.{
  ℕ, suc, ◌+◌, ◌≤◌, ◌<◌, ◌≡◌, refl, sym, ap, ◌∙◌, subst, Bool, false, List, [], ◌∷◌, arith,
  Bool-cases, inl, inr, leb,
}
use mathlib.Core.List.{append-nil}
use chip_eight_jit.Clock.{safepoint_interval, bench_done}
use chip_eight_jit.Clock.Laws.{bench_advance_safepoint_lem}
use chip_eight_jit.Machine.{Machine}
use chip_eight_jit.Jit.Trace.{
  Piece, at_block, safepoint, retire, set_pc, call_host, inline, skip_out, skip_fused, returned,
  closed,
}
use chip_eight_jit.Jit.Inline.{documented_operate, documented_compares}
use chip_eight_jit.Jit.Dispatch.{Jit, check_interrupt}
use chip_eight_jit.Jit.Helpers.{
  Native, on, branched, left, exited, undefined_shift, lost, spins, with_machine, rescheduled,
  bench_safepoint, call_function,
}
use chip_eight_jit.Jit.Native.{
  run_safepoint, close_backedge, fused_edge, at_pc, retired_by, then_on, skips, run_piece,
  run_ending, run_pieces,
}
use chip_eight_jit.Jit.Native.Agrees.{run_list}
use chip_eight_jit.Jit.Native.Charges.{
  Charged, StaysOver, interrupt-clock, call_function-StaysOver, call_function-Charged,
  inline-SameCharge,
}
use chip_eight_jit.Jit.Native.Refines.{run_documented, run_pieces-append}

-- Whether the conditional of a skip is taken.
abbrev skips_documented : ℕ → Machine → Bool
skips_documented = skips documented_operate documented_compares

-- No due safepoint from the limit on lets a loop go on.
module _ (budget limit : ℕ) (above : budget + safepoint_interval ≤ limit) where
  -- At least `low` instructions are counted.
  pub record Bounded (low : ℕ) (j : Jit) : Type 0 where
    pub low_le : low ≤ j.machine.clock.retired
    pub budget_eq : j.machine.clock.budget ≡ budget
    pub next_le : j.program_over ≡ false → j.machine.clock.next_safepoint ≤ limit

  -- The run has looked at its limits.
  abbrev pub Fresh : Jit → Type 0
  Fresh j = j.program_over ≡ false → j.machine.clock.retired < limit

  abbrev pub Moves : ℕ → Native → Type 0
  Moves low (on k) = Bounded low k
  Moves low (branched a k) = Bounded low k × (k.machine.clock.retired < limit)
  Moves low (left k) = (low ≤ k.machine.clock.retired) × (k.machine.clock.budget ≡ budget)
  Moves low spins = ⊥
  Moves low _ = Unit

  pub safepoint_moves :
      (low : ℕ) (j : Jit)
      → Bounded low j
      → (k : Jit) × (run_safepoint j ≡ on k) × Bounded low k × Fresh k
  unfolding run_safepoint bench_safepoint check_interrupt bench_done
  safepoint_moves low j b =
      elim (Bool-cases (leb j.machine.clock.next_safepoint j.machine.clock.retired)) [
        | inl due ↦
            let k = check_interrupt j in
            let same = interrupt-clock j.machine in
            let (next, runs, found) = bench_advance_safepoint_lem k.machine.clock in
            (
              with_machine
                  (record k.machine { clock = record k.machine.clock { next_safepoint = next } }) k,
              rw (due) (ap (rescheduled k) runs),
              ground (arith, b, same, found, above),
              λ h. ground (arith, b, same, found, above, h),
            )
        | inr early ↦ (j, rw (early) refl, b, λ h. ground (arith, b, early, h))
      ]

  closes :
      (low a : ℕ) (k : Jit) → Bounded low k → Fresh k → Moves low (close_backedge a (at_pc a k))
  unfolding close_backedge
  closes low a k b f = elim (Bool-cases k.program_over) [
    | inl over ↦ rw (over) (b.low_le, b.budget_eq)
    | inr more ↦ rw (more) (
      record { low_le = b.low_le; budget_eq = b.budget_eq; next_le = λ _. b.next_le more },
      f more,
    )
  ]

  pub counted_Bounded :
      (low : ℕ) (j : Jit)
      → Bounded low j
      → Bounded (suc low) (with_machine (retired_by 1 j.machine) j)
  counted_Bounded low j b = record {
    low_le = omega (arith, b.low_le);
    budget_eq = b.budget_eq;
    next_le = b.next_le;
  }

  pub lower : (low : ℕ) (r : Native) → Moves (suc low) r → Moves low r
  lower low (on k) b = record {
    low_le = omega (arith, b.low_le);
    budget_eq = b.budget_eq;
    next_le = b.next_le;
  }
  lower low (branched a k) (b, f) =
      (record { low_le = omega (arith, b.low_le); budget_eq = b.budget_eq; next_le = b.next_le }, f)
  lower low (left k) (h, e) = (omega (arith, h), e)
  lower low (exited k) h = tt
  lower low undefined_shift h = tt
  lower low lost h = tt
  lower low spins h = h

  edge-Moves :
      (low target : ℕ) (back : Bool) (j : Jit)
      → Bounded low j
      → Moves low (fused_edge target back j)
  unfolding fused_edge
  edge-Moves low target back j b =
      let (k, runs, c, f) = safepoint_moves (suc low) _ (counted_Bounded low j b) in
      lower low _ (elim (Bool-cases back) [
        | inl loops ↦ rw (runs, loops) (closes (suc low) target k c f)
        | inr leaves ↦ rw (runs, leaves) (c.low_le, c.budget_eq)
      ])

  Charged-Moves :
      (low : ℕ) (j : Jit) (r : Native)
      → Bounded low j
      → Charged j.machine.clock r
      → StaysOver j r
      → Moves low r
  Charged-Moves low j (on k) b c o = record {
    low_le = omega (arith, b.low_le, c.same_retired);
    budget_eq = c.same_budget ∙ b.budget_eq;
    next_le = λ h. subst (λ n. n ≤ limit) (sym c.same_next) (b.next_le (o h));
  }
  Charged-Moves low j (branched a k) b c o = absurd c
  Charged-Moves low j (left k) b c o = absurd c
  Charged-Moves low j (exited k) b c o = tt
  Charged-Moves low j undefined_shift b c o = tt
  Charged-Moves low j lost b c o = tt
  Charged-Moves low j spins b c o = c

  piece-Moves :
      (low : ℕ) (p : Piece) (j : Jit)
      → Bounded low j
      → Moves low (run_piece documented_operate documented_compares p j)
  unfolding run_piece
  piece-Moves low (at_block pc) j b = b
  piece-Moves low safepoint j b = let (k, runs, c, f) = safepoint_moves low j b in rw (runs) c
  piece-Moves low (retire n) j b = record {
    low_le = omega (arith, b.low_le);
    budget_eq = b.budget_eq;
    next_le = b.next_le;
  }
  piece-Moves low (set_pc pc) j b = record {
    low_le = b.low_le;
    budget_eq = b.budget_eq;
    next_le = b.next_le;
  }
  piece-Moves low (call_host fn) j b =
      Charged-Moves low j (call_function fn j) b (call_function-Charged fn j)
        (call_function-StaysOver fn j)
  piece-Moves low (inline op) j b =
      Charged-Moves low j (on (with_machine _ j)) b (inline-SameCharge op j.machine) (λ h. h)
  piece-Moves low (skip_out op next) j b = elim (Bool-cases (skips_documented op j.machine)) [
    | inl taken ↦ rw (taken) b
    | inr straight ↦ rw (straight) (b.low_le, b.budget_eq)
  ]
  piece-Moves low (skip_fused op target back) j b =
      elim (Bool-cases (skips_documented op j.machine)) [
        | inl taken ↦ rw (taken) b
        | inr straight ↦ rw (straight) (edge-Moves low target back j b)
      ]

  pub then-Moves :
      (low : ℕ) (r : Native) (rest : Jit → Native)
      → Moves low r
      → ((k : Jit) → Bounded low k → Moves low (rest k))
      → Moves low (then_on r rest)
  then-Moves low (on k) rest b next = next k b
  then-Moves low (branched a k) rest b next = b
  then-Moves low (left k) rest b next = b
  then-Moves low (exited k) rest b next = tt
  then-Moves low undefined_shift rest b next = tt
  then-Moves low lost rest b next = tt
  then-Moves low spins rest b next = b

  pub list-Moves : (low : ℕ) (ps : List Piece) (j : Jit) → Bounded low j → Moves low (run_list ps j)
  list-Moves low [] j b = b
  list-Moves low (p ∷ ps) j b =
      then-Moves low (run_piece documented_operate documented_compares p j) (λ k. run_list ps k)
        (piece-Moves low p j b) (λ k c. list-Moves low ps k c)

  -- A closed end stands behind a safepoint.
  pub closed-Moves :
      (low a : ℕ) (j : Jit)
      → Bounded low j
      → Moves low (run_documented (safepoint ∷ set_pc a ∷ []) (closed a) j)
  unfolding run_pieces run_piece run_ending
  closed-Moves low a j b =
      let (k, runs, c, f) = safepoint_moves low j b in rw (runs) (closes low a k c f)

  pub returned-Moves :
      (low : ℕ) (ps : List Piece) (j : Jit)
      → Bounded low j
      → Moves low (run_documented ps returned j)
  unfolding run_pieces run_ending
  returned-Moves low ps j b =
      subst (λ qs. Moves low (run_documented qs returned j)) (append-nil ps)
        (subst (Moves low) (sym (run_pieces-append ps [] returned j)) (
          then-Moves low (run_list ps j) (λ k. run_documented [] returned k) (list-Moves low ps j b)
            (λ k c. (c.low_le, c.budget_eq))))
