-- ===== src/Tests/Loop.antt =====
-- Runs of the main loop and of single instructions.
use chip_eight_jit.Common.{ℕ, ◌+◌, ◌*◌, ◌<◌, ◌≡◌, refl, List, [], ◌∷◌, some, arith, update}
use chip_eight_jit.Clock.{keys_rotate, bench_tick}
use chip_eight_jit.Machine.{opcode_at, u16}
use chip_eight_jit.Interp.Outcome.{stepped}
use chip_eight_jit.Interp.Timers.{sync_timers, interrupt}
use chip_eight_jit.Interp.Control.{retern}
use chip_eight_jit.Interp.Step.{execute, basic_block}
use chip_eight_jit.Interp.Step.WellFormed.{Keeps, Ends, basic_block-Keeps}
use chip_eight_jit.Interp.Step.Errors.{basic_block-verdict}
use chip_eight_jit.Interp.Step.Errors.Verdicts.{verdict, fails}
use chip_eight_jit.Interp.Step.Errors.Codes.{basic_block-CodeOf}
use chip_eight_jit.Interp.Run.{Result, run, load, start}
use chip_eight_jit.Interp.Run.Laws.{Ended, run_ends}
use chip_eight_jit.Interp.Run.Start.{IsLoaded, start-IsLoaded}
use chip_eight_jit.Idle.{idle_delay_loop}
use chip_eight_jit.Idle.Laws.{◌>>=◌, idle_delay_loop_lem}
use chip_eight_jit.Tests.{machine, machine-IsWellFormed}

-- 0x6142, 0x1200: load 0x42 into V1, and jump back.
abbrev spin : List ℕ
spin = 0x61 ∷ 0x42 ∷ 0x12 ∷ 0x00 ∷ []

-- 0x00ee, a return from an empty stack.
abbrev lost : List ℕ
lost = 0x00 ∷ 0xee ∷ []

-- 0xf307, 0x3300, 0x1200: wait for the delay timer in V3.
abbrev wait : List ℕ
wait = 0xf3 ∷ 0x07 ∷ 0x33 ∷ 0x00 ∷ 0x12 ∷ 0x00 ∷ []

start-IsLoaded_example : IsLoaded spin (start spin (λ _. 7) 100 keys_rotate)
start-IsLoaded_example = start-IsLoaded spin (λ _. 7) 100 keys_rotate (omega arith)

run_ends_example : (r : Result) × (run 101 0 (machine spin 9) ≡ some r) × Ended (machine spin 9) 0 r
run_ends_example =
    run_ends 0 (machine spin 9) (machine-IsWellFormed spin 9 (omega arith) (omega arith))
      (omega arith)

basic_block-Keeps_example : Ends (Keeps (machine spin 9)) (basic_block (machine spin 9))
basic_block-Keeps_example =
    basic_block-Keeps (machine spin 9) (machine-IsWellFormed spin 9 (omega arith) (omega arith))

basic_block-verdict_example : verdict (basic_block (machine lost 9)) ≡ fails
unfolding opcode_at load
basic_block-verdict_example = basic_block-verdict (machine lost 9)

basic_block-CodeOf_example :
    (0x00ee_0200 ≡ opcode_at (load lost) 0x200 * u16 + 0x200) × (0 < 0x00ee_0200)
unfolding basic_block execute retern interrupt sync_timers bench_tick opcode_at load
basic_block-CodeOf_example =
    basic_block-CodeOf (machine lost 9) (machine lost 9) 0x00ee_0200
      (machine-IsWellFormed lost 9 (omega arith) (omega arith)) refl

idle_delay_loop_lem_example :
    (basic_block (machine wait 9) >>= basic_block >>= basic_block)
    ≡ stepped (record (machine wait 9) { regs = update (machine wait 9).regs 3 5 })
unfolding load opcode_at idle_delay_loop
idle_delay_loop_lem_example = idle_delay_loop_lem (machine wait 9) 3 refl refl
