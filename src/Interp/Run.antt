-- ===== src/Interp/Run.antt =====
-- `main` of src/interp.c under -DBENCH, from the loaded program on.
pub mod Laws
pub mod Start
pub mod Instructions
use chip_eight_jit.Common.{
  ℕ, zero, suc, ◌+◌, ◌-◌, ◌^◌, Bool, true, false, Option, none, some, Array, if◌then◌else◌, ◌==◌,
  ltb, leb, List, get_or, length,
}
use chip_eight_jit.Common.Bits.{test_bit}
use chip_eight_jit.Clock.{Clock, KeyMode, fresh_clock, bench_tick, bench_done}
use chip_eight_jit.Screen.{clearscreen_io}
use chip_eight_jit.Machine.{Machine, entrypoint, memory_size, initial_memory}
use chip_eight_jit.Interp.Outcome.{Outcome, stepped, failed, undefined, hangs}
use chip_eight_jit.Interp.Input.{all_keys_down}
use chip_eight_jit.Interp.Step.{basic_block}

-- Why the loop was left: the quit key, an error of an instruction, or the limits of the run.
-- Three more ways end it: an instruction that shifts by 32 or more, and an `inst_count++` past
-- INT_MAX, which C both leaves undefined; `stuck` is no end, but an instruction that never returns.
pub data Exit : Type 0 where
  quit : Exit
  halted : ℕ → Exit
  finished : Exit
  shifted_out : Exit
  overflowed : Exit
  stuck : Exit

-- INT_MAX
abbrev pub int_max : ℕ
int_max = 2 ^ 31 - 1

pub record Result : Type 0 where
  pub machine : Machine
  pub inst_count : ℕ
  pub exit : Exit

-- `++bench_retired`
abbrev pub retire : Machine → Machine
retire m = record m { clock = record m.clock { retired = m.clock.retired + 1 } }

-- What one round of the loop does: it goes on, or it leaves the loop.
pub data Round : Type 0 where
  again : Machine → Round
  leave : Machine → Bool → Exit → Round

-- The loop after an instruction that returned 0: it counts the instruction, and tests the limits.
unfoldable pub count_up : Machine → Round
count_up s = if bench_done s.clock then leave s true finished else again s

-- What the loop does with the outcome of `basic_block`: any code but 0 leaves it. The flag of
-- `leave` tells whether `inst_count` was counted up.
unfoldable pub after_block : Machine → Outcome → Round
after_block m (stepped s) = count_up s
after_block m (failed s code) = if code == 0 then count_up s else leave s false (halted code)
after_block m undefined = leave m false shifted_out
after_block m hangs = leave m false stuck

unfoldable pub round : Machine → Round
round m =
    let (keys, s) = all_keys_down m in
    let r = retire s in
    if test_bit keys 31 then leave s false quit else after_block r (basic_block r)

-- `inst_count++` on an `int`, on the way to a result.
unfoldable pub increment : ℕ → Machine → Option Result → Option Result
increment count s rest =
    if leb int_max count
    then some (record { machine = s; inst_count = count; exit = overflowed })
    else rest

-- The end of the loop, after `inst_count++` if the instruction was counted.
unfoldable pub close : ℕ → Machine → Bool → Exit → Option Result
close count s true why =
    increment count s (some (record { machine = s; inst_count = count + 1; exit = why }))
close count s false why = some (record { machine = s; inst_count = count; exit = why })

-- The loop, with `inst_count` at `count`; `none` when the fuel runs out.
unfoldable pub run : ℕ → ℕ → Machine → Option Result
run zero count m = none
run (suc fuel) count m = elim (round m) [
  | again s ↦ let rest = run fuel (count + 1) s in increment count s rest
  | leave s counted why ↦ close count s counted why
]

-- The memory after `fread (memory + ENTRYPOINT, 1, MEMORY_SIZE - ENTRYPOINT, fp)`: a longer file is
-- cut off. An empty one makes `main` exit before the loop.
unfoldable pub load : List ℕ → Array
load rom a =
    if ltb a entrypoint
    then initial_memory a
    else if ltb a memory_size
    then get_or rom (a - entrypoint) (initial_memory a)
    else 0

-- The state in which the loop starts.
abbrev pub start : List ℕ → Array → ℕ → KeyMode → Machine
start rom rand_values budget mode = record {
  memory = load rom;
  regs = λ _. 0;
  stack = λ _. 0;
  stack_pointer = 0;
  addr = 0;
  program_counter = entrypoint;
  delay_timer = 0;
  sound_timer = 0;
  last_tick = bench_tick (fresh_clock budget mode);
  display = clearscreen_io;
  clock = fresh_clock budget mode;
  rand_values = rand_values;
}
