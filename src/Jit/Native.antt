-- ===== src/Jit/Native.antt =====
-- How a trace of src/libgccjit_jit.c runs: the blocks, branches and calls that `codegen` builds, with
-- the operations of libgccjit as a parameter. A `long long` is a number, and each piece numbers its local variables
-- from 0.
pub mod Agrees
pub mod Safepoint
mod Straight
mod Calls
mod Bodies
mod Jumps
mod Skips
mod Emits
mod Shape
mod Found
mod Refines
pub mod Whole
pub mod Charges
pub mod Limits
pub mod Stops
pub mod Advances
pub mod Correct
use chip_eight_jit.Common.{
  ℕ, zero, suc, ◌+◌, Bool, true, false, Option, none, some, List, [], ◌∷◌, leb, ◌==◌, if◌then◌else◌,
}
use chip_eight_jit.Machine.{Machine}
use chip_eight_jit.Jit.Trace.{
  HostFn, Piece, at_block, safepoint, retire, set_pc, call_host, inline, skip_out, skip_fused,
  Ending, returned, closed,
}
use chip_eight_jit.Jit.Inline.{
  BinaryOp, Comparison, Rvalue, eval, run_all, inline_code, skip_condition,
}
use chip_eight_jit.Jit.Dispatch.{Code, Jit}
use chip_eight_jit.Jit.Helpers.{
  Native, on, branched, left, exited, undefined_shift, lost, spins, with_machine, bench_safepoint,
  call_function,
}

-- What follows a part of a trace that goes on.
abbrev pub then_on : Native → (Jit → Native) → Native
then_on (on j) next = next j
then_on (branched a j) next = branched a j
then_on (left j) next = left j
then_on (exited j) next = exited j
then_on undefined_shift next = undefined_shift
then_on lost next = lost
then_on spins next = spins

-- `SAFEPOINT`
unfoldable pub run_safepoint : Jit → Native
run_safepoint j =
    if leb j.machine.clock.next_safepoint j.machine.clock.retired then bench_safepoint j else on j

-- `RETIRE`
abbrev pub retired_by : ℕ → Machine → Machine
retired_by n m = record m { clock = record m.clock { retired = m.clock.retired + n } }

-- An assignment to `PC_LVAL`.
abbrev pub at_pc : ℕ → Jit → Jit
at_pc pc j = with_machine (record j.machine { program_counter = pc }) j

-- `CLOSE_BACKEDGE`
unfoldable pub close_backedge : ℕ → Jit → Native
close_backedge a j = if j.program_over then left j else branched a j

-- The edge of a fused skip that is not taken.
unfoldable pub fused_edge : ℕ → Bool → Jit → Native
fused_edge target back j =
    then_on (run_safepoint (with_machine (retired_by 1 j.machine) j))
      (λ k. if back then close_backedge target (at_pc target k) else left (at_pc target k))

-- Whether a piece opens the block of an address.
abbrev pub opens : ℕ → Piece → Bool
opens a (at_block pc) = pc == a
opens a p = false

-- `pc_block[a]`, as what follows it in the trace.
abbrev pub find_block : ℕ → List Piece → Option (List Piece)
find_block a [] = none
find_block a (p ∷ ps) = if opens a p then some (p ∷ ps) else find_block a ps

-- A branch is followed; all else is the end of the run.
abbrev pub follow : (ℕ → Jit → Native) → Native → Native
follow go (branched a j) = go a j
follow go (on j) = on j
follow go (left j) = left j
follow go (exited j) = exited j
follow go undefined_shift = undefined_shift
follow go lost = lost
follow go spins = spins

module _ (operate : BinaryOp → ℕ → ℕ → ℕ → ℕ) (compares : Comparison → ℕ → ℕ → ℕ) where
  -- Whether the conditional of a skip is taken.
  abbrev pub skips : ℕ → Machine → Bool
  skips op m = if eval operate compares (skip_condition op) (λ i. 0) m == 0 then false else true

  unfoldable pub run_piece : Piece → Jit → Native
  run_piece (at_block pc) j = on j
  run_piece safepoint j = run_safepoint j
  run_piece (retire n) j = on (with_machine (retired_by n j.machine) j)
  run_piece (set_pc pc) j = on (at_pc pc j)
  run_piece (call_host fn) j = call_function fn j
  run_piece (inline op) j =
      on (with_machine (run_all operate compares (inline_code op 0) (λ i. 0) j.machine) j)
  run_piece (skip_out op next) j = if skips op j.machine then on j else left (at_pc next j)
  run_piece (skip_fused op target back) j =
      if skips op j.machine then on j else fused_edge target back j

  -- The end of a trace.
  unfoldable pub run_ending : Ending → Jit → Native
  run_ending returned j = left j
  run_ending (closed a) j = close_backedge a j

  -- The pieces from some point of the trace on.
  unfoldable pub run_pieces : List Piece → Ending → Jit → Native
  run_pieces [] e j = run_ending e j
  run_pieces (p ∷ ps) e j = then_on (run_piece p j) (λ k. run_pieces ps e k)

  -- The whole trace from a point on. `none` stands for no block.
  unfoldable pub run_trace : ℕ → Code → Option (List Piece) → Jit → Native
  run_trace zero c at j = spins
  run_trace (suc fuel) c none j = lost
  run_trace (suc fuel) c (some ps) j =
      follow (λ a k. run_trace fuel c (find_block a c.pieces) k) (run_pieces ps c.ending j)
