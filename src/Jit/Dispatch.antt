-- ===== src/Jit/Dispatch.antt =====
-- What the loop of `main` in src/libgccjit_jit.c does round its traces, and the helpers of a trace that write to the
-- memory.
pub mod Stores
pub mod Coherent
use chip_eight_jit.Common.{
  ℕ, zero, suc, ◌+◌, ◌/◌, ◌%◌, Bool, true, false, ◌||◌, Option, none, some, List, [], ◌∷◌, Array,
  update, ◌==◌, if◌then◌else◌,
}
use chip_eight_jit.Common.Bits.{test_bit}
use chip_eight_jit.Clock.{bench_done}
use chip_eight_jit.Machine.{Machine, u16, opcode_at, set_mem, x_of, skip}
use chip_eight_jit.Interp.Timers.{interrupt}
use chip_eight_jit.Interp.Input.{all_keys_down}
use chip_eight_jit.Interp.Transfer.{save_from}
use chip_eight_jit.Jit.Marks.{Marks, note_store}
use chip_eight_jit.Jit.Trace.{Piece, Ending, Compiled, compiled, bailed, outside, endless, codegen}

-- `code`: a compiled trace, by what it was compiled from.
pub record Code : Type 0 where
  pub pieces : List Piece
  pub ending : Ending

-- The machine, and the variables of this backend. `cache` is `trace_cache`.
pub record Jit : Type 0 where
  pub machine : Machine
  pub code_bytes : Marks
  pub smc_pending : Bool
  pub program_over : Bool
  pub cache : ℕ → Option Code
  pub trace_count : ℕ
  pub bench_compiled : ℕ
  pub bench_flushes : ℕ

-- `note_store`, which raises the flag and never lowers it.
abbrev pub noting : ℕ → ℕ → Jit → Jit
noting a n j = record j { smc_pending = j.smc_pending || note_store j.code_bytes a n }

-- `store_bcd`
unfoldable pub jit_store_bcd : Jit → Jit
jit_store_bcd j =
    let m = j.machine in
    let tmp = m.regs (x_of (opcode_at m.memory m.program_counter)) in
    let hundreds = tmp / 100 in
    let tens = tmp % 100 / 10 in
    let units = tmp % 100 % 10 in
    record (noting m.addr 3 j) {
      machine = skip (record m {
        memory =
            set_mem (set_mem (set_mem m.memory (m.addr + 0) hundreds) (m.addr + 1) tens)
              (m.addr + 2) units;
      });
    }

-- `save_registers`
unfoldable pub jit_save_registers : Jit → Jit
jit_save_registers j =
    let m = j.machine in
    let x = x_of (opcode_at m.memory m.program_counter) in
    record (noting m.addr (suc x) j) {
      machine = skip (record m { memory = save_from m.regs m.addr (suc x) 0 m.memory });
    }

unfoldable pub check_interrupt : Jit → Jit
check_interrupt j =
    let m = interrupt j.machine in
    record j { machine = m; program_over = j.program_over || bench_done m.clock }

-- `if (smc_pending)`
unfoldable pub flush : Jit → Jit
flush j =
    if j.smc_pending
    then record j {
      cache = λ pc. none;
      code_bytes = λ a. false;
      smc_pending = false;
      bench_flushes = j.bench_flushes + 1;
    }
    else j

-- How a round of the loop ends. `exits` is the end of the program in `errer`, `undefined` an access past the
-- end of `pc_block`, `bad_shift` a shift that C leaves undefined, `unending` that `codegen` or a trace does not end.
pub data Turn : Type 0 where
  turns : Jit → Turn
  over : Jit → Turn
  exits : Jit → Turn
  undefined : Turn
  bad_shift : Turn
  unending : Turn

-- What becomes of the result of `codegen`.
abbrev pub keep : Jit → Compiled → Turn
keep j (compiled code ps e) = turns (record j {
  code_bytes = code;
  cache = update j.cache j.machine.program_counter (some (record { pieces = ps; ending = e }));
  bench_compiled = j.bench_compiled + 1;
})
keep j (bailed code) = over (record j { code_bytes = code })
keep j outside = undefined
keep j endless = unending

-- The branch without a cached trace.
unfoldable pub compile_round : Jit → Turn
compile_round j = keep j (codegen j.machine.memory j.machine.program_counter j.code_bytes)

-- The rest of the round, behind the call of the trace.
unfoldable pub after_trace : Jit → Turn
after_trace j =
    let f = flush (check_interrupt j) in
    let (keys, m) = all_keys_down f.machine in
    let k = record f { machine = m } in
    if test_bit keys 31 || k.program_over
    then over k
    else turns (record k { trace_count = k.trace_count + 1 })

-- The state in which the loop starts.
abbrev pub fresh_jit : Machine → Jit
fresh_jit m = record {
  machine = m;
  code_bytes = λ a. false;
  smc_pending = false;
  program_over = false;
  cache = λ pc. none;
  trace_count = 0;
  bench_compiled = 0;
  bench_flushes = 0;
}
