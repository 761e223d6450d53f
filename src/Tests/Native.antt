-- ===== src/Tests/Native.antt =====
-- Runs of whole traces of the libgccjit backend.
use chip_eight_jit.Common.{Below, ℕ, ◌≡◌, refl, false, some, List, [], ◌∷◌, arith}
use chip_eight_jit.Clock.{bench_done, bench_tick, bench_advance_safepoint, advance}
use chip_eight_jit.Machine.{Machine, IsWellFormed, u8, opcode_at}
use chip_eight_jit.Interp.Run.{load}
use chip_eight_jit.Interp.Timers.{interrupt, sync_timers}
use chip_eight_jit.Interp.Alike.{AlikeOutcome, times, IsFit}
use chip_eight_jit.Interp.Alike.Later.{Alike-refl}
use chip_eight_jit.Jit.Marks.{Marks}
use chip_eight_jit.Jit.Trace.{
  Compiled, compiled, returned, emit, emit_jump, emit_skip, codegen_from, codegen,
}
use chip_eight_jit.Jit.Inline.{documented_operate, documented_compares, inline_code, skip_condition}
use chip_eight_jit.Jit.Dispatch.{Code, Jit, check_interrupt, fresh_jit}
use chip_eight_jit.Jit.Helpers.{Native, left, bench_safepoint}
use chip_eight_jit.Jit.Native.{
  run_safepoint, close_backedge, fused_edge, run_piece, run_ending, run_pieces, run_trace,
}
use chip_eight_jit.Jit.Native.Whole.{Simulates}
use chip_eight_jit.Jit.Native.Stops.{Stopped}
use chip_eight_jit.Jit.Native.Correct.{trace-interpreter}
use chip_eight_jit.Interp.Step.{execute}
use chip_eight_jit.Interp.Alike.Step.{execute-Alike}
use chip_eight_jit.Jit.Native.Safepoint.{interrupt-Alike}
use chip_eight_jit.Jit.Engine.{jit_rounds}
use chip_eight_jit.Jit.Engine.Agrees.{Matches, jit_rounds-Matches}
use chip_eight_jit.Jit.Engine.Ends.{LeavesLoop, jit_rounds-LeavesLoop}
use chip_eight_jit.Tests.{machine, machine-IsWellFormed}

-- V1 + 1, a skip if it is 3, a jump back to the start, and a jump to itself.
abbrev counting : List ℕ
counting = 0x71 ∷ 0x01 ∷ 0x31 ∷ 0x03 ∷ 0x12 ∷ 0x00 ∷ 0x12 ∷ 0x06 ∷ []

abbrev counts_up : Jit
counts_up = fresh_jit (machine counting 0)

abbrev nothing : Marks
nothing a = false

abbrev of_counting : Compiled
of_counting = codegen (load counting) 0x200 nothing

abbrev marks_of : Compiled → Marks
marks_of (compiled code ps e) = code
marks_of other = nothing

abbrev code_of : Compiled → Code
code_of (compiled code ps e) = record { pieces = ps; ending = e }
code_of other = record { pieces = []; ending = returned }

abbrev left_at : Native → Machine
left_at (left j) = j.machine
left_at other = machine [] 0

counting_compiled :
    of_counting
    ≡ compiled (marks_of of_counting) (code_of of_counting).pieces (code_of of_counting).ending
unfolding codegen codegen_from emit emit_jump emit_skip opcode_at load
counting_compiled = refl

-- The trace loops until V1 is 3, and then on the jump to itself until the budget is spent.
abbrev in_the_end : Machine
in_the_end = left_at (
    run_trace documented_operate documented_compares 200 (code_of of_counting)
      (some (code_of of_counting).pieces) counts_up)

counting_ends :
    (in_the_end.regs 1 ≡ 3)
    × (in_the_end.program_counter ≡ 0x206)
    × (in_the_end.clock.retired ≡ 128)
unfolding codegen codegen_from emit emit_jump emit_skip opcode_at load run_trace run_pieces
    run_piece run_ending run_safepoint bench_safepoint check_interrupt interrupt sync_timers
    bench_done bench_tick bench_advance_safepoint advance close_backedge fused_edge inline_code
    skip_condition
counting_ends = (refl, refl, refl)

counting-IsWellFormed : IsWellFormed (machine counting 0)
counting-IsWellFormed = machine-IsWellFormed counting 0 (omega arith) (omega arith)

counting-IsFit : IsFit (times (machine counting 0))
counting-IsFit = record { delay_lt = omega arith; sound_lt = omega arith; on_time = λ u h. refl }

trace-interpreter_example :
    Simulates (machine counting 0) (
      run_trace documented_operate documented_compares 200
        (code_of of_counting)
        (some (code_of of_counting).pieces)
        counts_up)
    × Stopped (
        run_trace documented_operate documented_compares 200
          (code_of of_counting)
          (some (code_of of_counting).pieces)
          counts_up)
trace-interpreter_example =
    trace-interpreter documented_operate documented_compares (λ o w a b. refl) (λ c a b. refl)
      nothing (marks_of of_counting) (code_of of_counting) 199 (machine counting 0) counts_up
      counting_compiled counting-IsWellFormed (Alike-refl (machine counting 0) counting-IsFit)
      (omega arith)

-- Fx07, two ticks after the timers were caught up last.
abbrev late : Machine
late = let m = machine counting 0 in record m { clock = record m.clock { retired = 5000 } }

late-IsFit : IsFit (times late)
late-IsFit = record { delay_lt = omega arith; sound_lt = omega arith; on_time = λ u h. refl }

late_bytes : Below u8 (interrupt late).regs
unfolding interrupt sync_timers bench_tick
late_bytes i = omega arith

execute-Alike_example : AlikeOutcome (execute 0xf107 (interrupt late)) (execute 0xf107 late)
execute-Alike_example =
    execute-Alike 0xf107 (interrupt late) late late_bytes (interrupt-Alike late late-IsFit)

-- Two rounds: a trace is compiled, and run until the budget is spent.
jit_rounds-Matches_example :
    Matches
      (machine counting 0)
      (jit_rounds documented_operate documented_compares 2 (fresh_jit (machine counting 0)))
jit_rounds-Matches_example =
    jit_rounds-Matches documented_operate documented_compares (λ o w a b. refl) (λ c a b. refl)
      (machine counting 0) 2 counting-IsWellFormed (λ u h. refl)

jit_rounds-LeavesLoop_example :
    LeavesLoop
      (machine counting 0)
      (jit_rounds documented_operate documented_compares 202 (fresh_jit (machine counting 0)))
jit_rounds-LeavesLoop_example =
    jit_rounds-LeavesLoop documented_operate documented_compares (λ o w a b. refl) (λ c a b. refl)
      (machine counting 0) counting-IsWellFormed (λ u h. refl)
