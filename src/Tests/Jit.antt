-- ===== src/Tests/Jit.antt =====
-- Runs of the libgccjit backend.
use chip_eight_jit.Common.{
  ℕ, ◌+◌, ◌%◌, ◌<◌, ◌≡◌, ◌↔◌, refl, Bool, true, false, none, some, List, [], ◌∷◌, ◌++◌, arith,
  update, Array,
}
use chip_eight_jit.Machine.{memory_size, opcode_at}
use chip_eight_jit.Interp.Run.{load}
use chip_eight_jit.Jit.Marks.{Marks, mark_code, mark_bytes, note_store, meets_mark, note_store_lem}
use chip_eight_jit.Jit.Trace.{
  goes_on, Piece, Ending, Compiled, compiled, bailed, returned, at_block, retire, inline, set_pc,
  safepoint, skip_fused, emit, emit_jump, emit_skip, emit_misc, emit_arithmetic, codegen_from,
  codegen,
}
use chip_eight_jit.Jit.Trace.Reads.{Agree, codegen-same}
use chip_eight_jit.Common.Bits.{test_bit}
use chip_eight_jit.Clock.{roll_tick, keys_at, bench_keys_now, bench_done, bench_tick}
use chip_eight_jit.Interp.Timers.{interrupt, sync_timers}
use chip_eight_jit.Interp.Input.{all_keys_down}
use chip_eight_jit.Interp.Transfer.{save_from}
use chip_eight_jit.Jit.Dispatch.{
  Code, Jit, Turn, turns, jit_save_registers, check_interrupt, flush, compile_round, after_trace,
  fresh_jit,
}
use chip_eight_jit.Jit.Helpers.{call_function}
use chip_eight_jit.Jit.Native.{run_trace, run_pieces, run_piece, run_ending}
use chip_eight_jit.Jit.Engine.{jit_round, jit_rounds}
use chip_eight_jit.Jit.Engine.Coherent.{cached-is_current}
use chip_eight_jit.Interp.Step.{execute}
use chip_eight_jit.Jit.Inline.{run_all, documented_operate, documented_compares, inline_code}
use chip_eight_jit.Jit.Inline.Agreement.{stepped_to, synced, timer_call, execute-inline_code}
use chip_eight_jit.Tests.{machine}

-- I = 0x20a, V0 = 0x12, the store of V0, and a jump to itself.
abbrev storing : List ℕ
storing = 0xa2 ∷ 0x0a ∷ 0x60 ∷ 0x12 ∷ 0xf0 ∷ 0x55 ∷ 0x12 ∷ 0x06 ∷ []

abbrev nothing : Marks
nothing a = false

-- V1 + 1, a skip if it is 3, a jump back to the start, and a jump to itself.
abbrev counting : List ℕ
counting = 0x71 ∷ 0x01 ∷ 0x31 ∷ 0x03 ∷ 0x12 ∷ 0x00 ∷ 0x12 ∷ 0x06 ∷ []

abbrev pieces_of : Compiled → List Piece
pieces_of (compiled code ps e) = ps
pieces_of other = []

trace_of_counting :
    pieces_of (codegen (load counting) 0x200 nothing)
    ≡ at_block 0x200
      ∷ retire 1
      ∷ inline 0x7101
      ∷ at_block 0x202
      ∷ retire 1
      ∷ skip_fused 0x3103 0x200 true
      ∷ set_pc 0x206
      ∷ at_block 0x206
      ∷ retire 1
      ∷ safepoint
      ∷ set_pc 0x206
      ∷ []
unfolding codegen codegen_from emit emit_jump emit_skip opcode_at load
trace_of_counting = refl

-- The loop, with the operations of the documentation.
abbrev rounds : ℕ → Jit → Turn
rounds = jit_rounds documented_operate documented_compares

abbrev in_the_end : Turn → Jit
in_the_end (turns j) = j
in_the_end other = fresh_jit (machine [] 0)

abbrev cached : Jit → ℕ → Code
cached j pc = elim (j.cache pc) [ none ↦ record { pieces = []; ending = returned } | some c ↦ c ]

-- A trace is compiled, and run: its store is to no code.
abbrev harmless : Jit
harmless = in_the_end (rounds 2 (fresh_jit (machine storing 0)))

harmless_kept :
    (rounds 2 (fresh_jit (machine storing 0)) ≡ turns harmless)
    × (harmless.cache 0x200 ≡ some (cached harmless 0x200))
    × (harmless.machine.memory 0x20a ≡ 0x12)
    × (harmless.bench_flushes ≡ 0)
unfolding jit_rounds jit_round after_trace compile_round codegen codegen_from emit emit_misc
    opcode_at load jit_save_registers save_from note_store meets_mark mark_code mark_bytes
    check_interrupt interrupt sync_timers flush all_keys_down bench_keys_now roll_tick keys_at
    bench_done bench_tick test_bit run_trace run_pieces run_piece run_ending call_function
    inline_code
harmless_kept = (refl, refl, refl, refl)

cached-is_current_example :
    (after : Marks) × (codegen harmless.machine.memory 0x200 harmless.code_bytes
      ≡ compiled after (cached harmless 0x200).pieces (cached harmless 0x200).ending)
cached-is_current_example =
    cached-is_current documented_operate documented_compares (machine storing 0) 2 0x200 harmless
      (cached harmless 0x200) harmless_kept.0 harmless_kept.1

-- The same, but the store is to the instruction before it.
abbrev modifying : List ℕ
modifying = 0xa2 ∷ 0x02 ∷ 0x60 ∷ 0x12 ∷ 0xf0 ∷ 0x55 ∷ 0x12 ∷ 0x06 ∷ []

abbrev harmful : Jit
harmful = in_the_end (rounds 2 (fresh_jit (machine modifying 0)))

harmful_flushed :
    (harmful.cache 0x200 ≡ none)
    × (harmful.machine.memory 0x202 ≡ 0x12)
    × (harmful.bench_flushes ≡ 1)
unfolding jit_rounds jit_round after_trace compile_round codegen codegen_from emit emit_misc
    opcode_at load jit_save_registers save_from note_store meets_mark mark_code mark_bytes
    check_interrupt interrupt sync_timers flush all_keys_down bench_keys_now roll_tick keys_at
    bench_done bench_tick test_bit run_trace run_pieces run_piece run_ending call_function
    inline_code
harmful_flushed = (refl, refl, refl)

-- A loop of a skip that is never taken and a jump back, with a word of data behind it.
abbrev data_behind : List ℕ
data_behind = 0x30 ∷ 0x01 ∷ 0x12 ∷ 0x00 ∷ 0x80 ∷ 0x08 ∷ []

abbrev is_bailed : Compiled → Bool
is_bailed (bailed code) = true
is_bailed other = false

data_behind_bails : is_bailed (codegen (load data_behind) 0x200 nothing) ≡ true
unfolding codegen codegen_from emit emit_skip emit_arithmetic opcode_at load
data_behind_bails = refl

note_store_lem_example :
    (note_store (mark_code 0x000 2 nothing) 0xffe 4 ≡ true)
    ↔ ((k : ℕ) × (k < 4) × (mark_code 0x000 2 nothing ((0xffe + k) % memory_size) ≡ true))
note_store_lem_example = note_store_lem (mark_code 0x000 2 nothing) 0xffe 4

abbrev marks_of : Compiled → Marks
marks_of (compiled code ps e) = code
marks_of other = nothing

abbrev counted : Compiled
counted = codegen (load counting) 0x200 nothing

abbrev elsewhere : Array
elsewhere = update (load counting) 0x300 7

elsewhere-Agree : Agree (marks_of counted) (load counting) elsewhere
unfolding codegen codegen_from emit emit_jump emit_skip opcode_at load mark_code mark_bytes
elsewhere-Agree a on = ground (arith, on)

abbrev ending_of : Compiled → Ending
ending_of (compiled code ps e) = e
ending_of other = returned

counted_whole : counted ≡ compiled (marks_of counted) (pieces_of counted) (ending_of counted)
unfolding codegen codegen_from emit emit_jump emit_skip opcode_at load
counted_whole = refl

codegen-same_example :
    codegen elsewhere 0x200 nothing
    ≡ compiled (marks_of counted) (pieces_of counted) (ending_of counted)
codegen-same_example =
    codegen-same (load counting) elsewhere 0x200 nothing (marks_of counted) (pieces_of counted)
      (ending_of counted) elsewhere-Agree counted_whole

-- V1 += V2, where both hold 0x90.
execute-inline_code_example :
    (emit 0x8124 0x200 3 nothing 0 ≡ goes_on (timer_call 0x8124 ++ inline 0x8124 ∷ []) 0x202)
    × (execute 0x8124 (machine storing 0x90)
        ≡ stepped_to (
            run_all documented_operate documented_compares
              (inline_code 0x8124 0)
              (λ i. 0)
              (synced 0x8124 (machine storing 0x90))))
execute-inline_code_example =
    execute-inline_code documented_operate documented_compares (λ o w a b. refl) (λ c a b. refl)
      0x8124 0 0x200 3 0 nothing (machine storing 0x90) (λ i. 0) (omega arith) (λ i. omega arith)
      refl
