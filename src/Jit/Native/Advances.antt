-- ===== src/Jit/Native/Advances.antt =====
-- Every trace of src/libgccjit_jit.c that returns has counted an instruction.
use chip_eight_jit.Common.{
  ℕ, zero, suc, ◌+◌, ◌≤◌, ◌≡◌, refl, sym, ◌∙◌, ap, subst, Option, none, some, List, Array, arith,
  Option-cases, inl, inr,
}
use chip_eight_jit.Clock.{safepoint_interval}
use chip_eight_jit.Jit.Marks.{Marks}
use chip_eight_jit.Jit.Trace.{Piece, Ending, codegen, compiled}
use chip_eight_jit.Jit.Inline.{documented_operate, documented_compares}
use chip_eight_jit.Jit.Dispatch.{Code, Jit}
use chip_eight_jit.Jit.Helpers.{Native, on, branched, left, exited, undefined_shift, lost, spins}
use chip_eight_jit.Jit.Native.{find_block, follow, run_trace}
use chip_eight_jit.Jit.Native.Shape.{Follows, falls, goes, halts}
use chip_eight_jit.Jit.Native.Found.{Follows-find_block, codegen-Follows}
use chip_eight_jit.Jit.Native.Refines.{run_documented}
use chip_eight_jit.Jit.Native.Limits.{Bounded, Moves}
use chip_eight_jit.Jit.Native.Stops.{StartsBlock, find-StartsBlock, pieces_move, count_limit}

-- Where a run returns, at least `low` instructions are counted.
abbrev pub Returns : ℕ → ℕ → Native → Type 0
Returns budget low (left k) = (low ≤ k.machine.clock.retired) × (k.machine.clock.budget ≡ budget)
Returns budget low _ = Unit

starts :
    (memory : Array) (trace : List Piece) {pc : ℕ} {ps : List Piece} {e : Ending}
    → Follows memory trace pc ps e
    → trace ≡ ps
    → StartsBlock ps
starts memory trace (falls {pc} (qs, found)) h =
    absurd (nothing (ap (find_block pc) (sym h) ∙ found))
  where
    nothing : {a : List Piece} → none ≡ some a → ⊥
    nothing e = cc
starts memory trace (goes op_count seen blocks emitted rests) h = ground arith
starts memory trace (halts op_count seen blocks emitted) h = ground arith

module _ (memory : Array) (c : Code) (budget limit : ℕ)
    (above : budget + safepoint_interval ≤ limit)
    (blocks : (a : ℕ) (ps : List Piece)
      → find_block a c.pieces ≡ some ps
      → Follows memory c.pieces a ps c.ending) where
  abbrev run_on : ℕ → Option (List Piece) → Jit → Native
  run_on fuel at j = run_trace documented_operate documented_compares fuel c at j

  followed :
      (fuel low : ℕ) (r : Native)
      → ((a : ℕ) (ps : List Piece) (k : Jit)
          → Follows memory c.pieces a ps c.ending
          → StartsBlock ps
          → Bounded budget limit above low k
          → Returns budget low (run_on fuel (some ps) k))
      → Moves budget limit above low r
      → Returns budget low (follow (λ a k. run_on fuel (find_block a c.pieces) k) r)
  unfolding run_trace
  followed fuel low (on k) next h = tt
  followed zero low (branched a k) next h = tt
  followed (suc fuel) low (branched a k) next (b, before) =
      elim (Option-cases (find_block a c.pieces)) [
        | inl nowhere ↦ rw (nowhere) tt
        | inr (ps, found) ↦
            subst (λ at. Returns budget low (run_on (suc fuel) at k)) (sym found)
              (next a ps k (blocks a ps found) (find-StartsBlock a c.pieces ps found) b)
      ]
  followed fuel low (left k) next h = h
  followed fuel low (exited k) next h = tt
  followed fuel low undefined_shift next h = tt
  followed fuel low lost next h = tt
  followed fuel low spins next h = tt

  lowered : (low : ℕ) (r : Native) → Returns budget (suc low) r → Returns budget low r
  lowered low (on k) h = tt
  lowered low (branched a k) h = tt
  lowered low (left k) (h, e) = (omega (arith, h), e)
  lowered low (exited k) h = tt
  lowered low undefined_shift h = tt
  lowered low lost h = tt
  lowered low spins h = tt

  pub trace-Returns :
      (fuel low pc : ℕ) (ps : List Piece) (j : Jit)
      → Follows memory c.pieces pc ps c.ending
      → StartsBlock ps
      → Bounded budget limit above low j
      → Returns budget (suc low) (run_on fuel (some ps) j)
  unfolding run_trace
  trace-Returns zero low pc ps j follows at b = tt
  trace-Returns (suc fuel) low pc ps j follows at b =
      followed fuel (suc low) (run_documented ps c.ending j)
        (λ a qs k f g d. lowered (suc low) _ (trace-Returns fuel (suc low) a qs k f g d))
        ((pieces_move memory c.pieces budget limit above low j follows b).1 at)

pub codegen-Returns :
    (before after : Marks) (c : Code) (fuel : ℕ) (j : Jit)
    → codegen j.machine.memory j.machine.program_counter before ≡ compiled after c.pieces c.ending
    → Returns j.machine.clock.budget
        (suc j.machine.clock.retired)
        (run_trace documented_operate documented_compares fuel c (some c.pieces) j)
codegen-Returns before after c fuel j made =
    let memory = j.machine.memory in
    let pc = j.machine.program_counter in
    let clock = j.machine.clock in
    let follows = codegen-Follows memory pc before after c.pieces c.ending made in
    trace-Returns memory c clock.budget (count_limit clock) (omega arith)
      (λ b ps found. Follows-find_block memory c.pieces b ps follows found) fuel clock.retired pc
      c.pieces j follows (starts memory c.pieces follows refl)
      (record { low_le = omega arith; budget_eq = refl; next_le = λ h. omega arith })
