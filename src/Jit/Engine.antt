-- ===== src/Jit/Engine.antt =====
-- The loop of `main` in src/libgccjit_jit.c, with its traces.
mod Helpers
mod Keeps
pub mod Coherent
pub mod Agrees
mod Counts
pub mod Ends
use chip_eight_jit.Common.{ℕ, zero, suc, ◌+◌, ◌-◌, Option, none, some, max}
use chip_eight_jit.Clock.{Clock, safepoint_interval}
use chip_eight_jit.Jit.Inline.{BinaryOp, Comparison}
use chip_eight_jit.Jit.Dispatch.{
  Code, Jit, Turn, turns, over, exits, undefined, bad_shift, unending, compile_round, after_trace,
}
use chip_eight_jit.Jit.Helpers.{Native, on, branched, left, exited, undefined_shift, lost, spins}
use chip_eight_jit.Jit.Native.{run_trace}
use chip_eight_jit.Jit.Native.Stops.{count_limit}

-- What the loop does behind a trace. A trace is left by a return or by `errer`.
abbrev pub after_run : Native → Turn
after_run (left j) = after_trace j
after_run (exited j) = exits j
after_run undefined_shift = bad_shift
after_run (on j) = unending
after_run (branched a j) = unending
after_run lost = unending
after_run spins = unending

-- Another round, unless the loop is left.
abbrev pub and_then : (Jit → Turn) → Turn → Turn
and_then rest (turns j) = rest j
and_then rest (over j) = over j
and_then rest (exits j) = exits j
and_then rest undefined = undefined
and_then rest bad_shift = bad_shift
and_then rest unending = unending

-- Fuel for the branches of a trace.
abbrev pub trace_fuel : Clock → ℕ
trace_fuel c = suc (suc (count_limit c - c.retired))

module _ (operate : BinaryOp → ℕ → ℕ → ℕ → ℕ) (compares : Comparison → ℕ → ℕ → ℕ) where
  -- The round for what the cache holds.
  abbrev pub enter : Jit → Option Code → Turn
  enter j none = compile_round j
  enter j (some c) =
      after_run (run_trace operate compares (trace_fuel j.machine.clock) c (some c.pieces) j)

  unfoldable pub jit_round : Jit → Turn
  jit_round j = enter j (j.cache j.machine.program_counter)

  -- The loop, for some rounds.
  unfoldable pub jit_rounds : ℕ → Jit → Turn
  jit_rounds zero j = turns j
  jit_rounds (suc n) j = and_then (λ k. jit_rounds n k) (jit_round j)
