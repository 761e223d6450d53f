-- ===== src/Jit/Engine/Coherent.antt =====
-- No trace outlives the bytes that it was compiled from, in the loop of src/libgccjit_jit.c.
use chip_eight_jit.Common.{ℕ, zero, suc, ◌≡◌, refl, subst, Option, none, some}
use chip_eight_jit.Machine.{Machine}
use chip_eight_jit.Jit.Marks.{Marks}
use chip_eight_jit.Jit.Trace.{compiled, codegen}
use chip_eight_jit.Jit.Trace.Anywhere.{codegen-anywhere}
use chip_eight_jit.Jit.Inline.{BinaryOp, Comparison}
use chip_eight_jit.Jit.Dispatch.{
  Code, Jit, Turn, turns, over, exits, undefined, bad_shift, unending, fresh_jit,
}
use chip_eight_jit.Jit.Dispatch.Coherent.{IsCoherent, IsClean, Leads, compiles, after_trace-IsClean}
use chip_eight_jit.Jit.Helpers.{Native, on, branched, left, exited, undefined_shift, lost, spins}
use chip_eight_jit.Jit.Engine.{after_run, and_then, trace_fuel, enter, jit_round, jit_rounds}
use chip_eight_jit.Jit.Engine.Helpers.{Holds}
use chip_eight_jit.Jit.Engine.Keeps.{trace-IsCoherent}

Leads-and_then :
    (rest : Jit → Turn) (t : Turn)
    → Leads IsClean t
    → ((k : Jit) → IsClean k → Leads IsClean (rest k))
    → Leads IsClean (and_then rest t)
Leads-and_then rest (turns k) h next = next k h
Leads-and_then rest (over k) h next = tt
Leads-and_then rest (exits k) h next = tt
Leads-and_then rest undefined h next = tt
Leads-and_then rest bad_shift h next = tt
Leads-and_then rest unending h next = tt

after_run-IsClean : (r : Native) → Holds IsCoherent r → Leads IsClean (after_run r)
after_run-IsClean (left k) h = after_trace-IsClean k h
after_run-IsClean (exited k) h = tt
after_run-IsClean undefined_shift h = tt
after_run-IsClean (on k) h = tt
after_run-IsClean (branched a k) h = tt
after_run-IsClean lost h = tt
after_run-IsClean spins h = tt

module _ (operate : BinaryOp → ℕ → ℕ → ℕ → ℕ) (compares : Comparison → ℕ → ℕ → ℕ) where
  pub enter-IsClean :
      (j : Jit) (o : Option Code) → IsClean j → Leads IsClean (enter operate compares j o)
  enter-IsClean j none clean = compiles j clean
  enter-IsClean j (some c) (down, up) = after_run-IsClean _ (
      trace-IsCoherent operate compares (trace_fuel j.machine.clock) c (some c.pieces) j
        (λ off. up))

  pub jit_rounds-IsClean :
      (n : ℕ) (j : Jit) → IsClean j → Leads IsClean (jit_rounds operate compares n j)
  unfolding jit_rounds jit_round
  jit_rounds-IsClean zero j clean = clean
  jit_rounds-IsClean (suc n) j clean =
      Leads-and_then (λ k. jit_rounds operate compares n k) (jit_round operate compares j)
        (enter-IsClean j (j.cache j.machine.program_counter) clean)
        (λ k h. jit_rounds-IsClean n k h)

pub Leads-turns : (t : Turn) (k : Jit) → Leads IsClean t → t ≡ turns k → IsClean k
Leads-turns t k h eq = subst (Leads IsClean) eq h

pub fresh-IsClean : (m : Machine) → IsClean (fresh_jit m)
fresh-IsClean m = (refl, λ pc c h. cc)

-- However often the loop has gone round from its start, and whatever the operations of libgccjit compute:
-- each trace in the cache is the one that codegen would make for its address from the memory as it is now.
pub cached-is_current :
    (operate : BinaryOp → ℕ → ℕ → ℕ → ℕ) (compares : Comparison → ℕ → ℕ → ℕ) (m : Machine)
    (n pc : ℕ) (j : Jit) (c : Code)
    → jit_rounds operate compares n (fresh_jit m) ≡ turns j
    → j.cache pc ≡ some c
    → (after : Marks) × (codegen j.machine.memory pc j.code_bytes
        ≡ compiled after c.pieces c.ending)
cached-is_current operate compares m n pc j c ran found =
    let (_, up) =
      Leads-turns (jit_rounds operate compares n (fresh_jit m)) j
        (jit_rounds-IsClean operate compares n (fresh_jit m) (fresh-IsClean m)) ran in
    let (before, after, made, _) = up pc c found in
    codegen-anywhere j.machine.memory pc before j.code_bytes after c.pieces c.ending made
