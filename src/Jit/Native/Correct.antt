-- ===== src/Jit/Native/Correct.antt =====
-- What a trace of src/libgccjit_jit.c is to src/interp.c.
use chip_eight_jit.Common.{ℕ, suc, ◌-◌, ◌<◌, ◌≡◌, fun_ext, some}
use chip_eight_jit.Machine.{Machine, IsWellFormed}
use chip_eight_jit.Interp.Alike.{Alike}
use chip_eight_jit.Jit.Marks.{Marks}
use chip_eight_jit.Jit.Trace.{codegen, compiled}
use chip_eight_jit.Jit.Inline.{BinaryOp, Comparison, documented_operate, documented_compares}
use chip_eight_jit.Jit.Dispatch.{Code, Jit}
use chip_eight_jit.Jit.Native.{run_trace}
use chip_eight_jit.Jit.Native.Whole.{Simulates, codegen-Simulates}
use chip_eight_jit.Jit.Native.Stops.{Stopped, count_limit, codegen-Stopped}

-- If the operations of libgccjit are those of its documentation: a trace that codegen has compiled from the memory
-- as it is, run from a machine that differs from the interpreter's, a well-formed one, only in how far the timers
-- are caught up, in when the keys were looked at last and in the next safepoint, does what the interpreter does by
-- some number of instructions, and never branches to a block that is not there. Where it returns, the machines
-- differ in no more than that again; it ends the program where the interpreter stops with an error, and shifts by
-- too much where the interpreter does. And it comes back: with fuel for as many branches as instructions are left
-- to the next safepoint, or to the end of the budget and one interval more, and two, it does not run out.
pub trace-interpreter :
    (operate : BinaryOp → ℕ → ℕ → ℕ → ℕ) (compares : Comparison → ℕ → ℕ → ℕ)
    → ((o : BinaryOp) (w a b : ℕ) → operate o w a b ≡ documented_operate o w a b)
    → ((c : Comparison) (a b : ℕ) → compares c a b ≡ documented_compares c a b)
    → (before after : Marks) (c : Code) (fuel : ℕ) (m : Machine) (j : Jit)
    → codegen j.machine.memory j.machine.program_counter before ≡ compiled after c.pieces c.ending
    → IsWellFormed m
    → Alike m j.machine
    → count_limit j.machine.clock - j.machine.clock.retired < fuel
    → Simulates m (run_trace operate compares (suc fuel) c (some c.pieces) j)
      × Stopped (run_trace operate compares (suc fuel) c (some c.pieces) j)
trace-interpreter operate compares p q before after c fuel m j made w a enough =
    let p' : operate ≡ documented_operate =
      fun_ext λ o. fun_ext λ v. fun_ext λ x. fun_ext λ y. p o v x y in
    let q' : compares ≡ documented_compares = fun_ext λ o. fun_ext λ x. fun_ext λ y. q o x y in
    rw (p', q')
      (
        codegen-Simulates before after c (suc fuel) m j made w a,
        codegen-Stopped before after c fuel j made enough,
      )
