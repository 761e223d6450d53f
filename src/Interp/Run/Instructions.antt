-- ===== src/Interp/Run/Instructions.antt =====
-- The loop of `main` in src/interp.c without its tests: what some instructions do, one after the other.
use chip_eight_jit.Common.{ℕ, zero, suc, ◌≡◌, refl}
use chip_eight_jit.Machine.{Machine}
use chip_eight_jit.Interp.Outcome.{Outcome, stepped, failed, undefined, hangs}
use chip_eight_jit.Interp.Input.{all_keys_down}
use chip_eight_jit.Interp.Step.{basic_block}
use chip_eight_jit.Interp.Run.{retire, after_block, round}
use chip_eight_jit.Interp.Input.Laws.{bench_keys_now-no_quit}

-- The keys are looked at, and the instruction is counted.
abbrev pub fetch : Machine → Machine
fetch m = retire (all_keys_down m).1

abbrev pub instruction : Machine → Outcome
instruction m = basic_block (fetch m)

-- As many more instructions, if the last one stepped.
abbrev pub instructions : ℕ → Outcome → Outcome
instructions zero o = o
instructions (suc n) (stepped m) = instructions n (instruction m)
instructions (suc n) (failed m code) = failed m code
instructions (suc n) undefined = undefined
instructions (suc n) hangs = hangs

-- The loop does no more than that, and then looks at what the instruction ended in: no quit key is seen.
pub round-instruction : (m : Machine) → round m ≡ after_block (fetch m) (instruction m)
unfolding round all_keys_down
round-instruction m = rw (bench_keys_now-no_quit m.clock) refl
