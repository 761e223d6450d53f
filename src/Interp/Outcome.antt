-- ===== src/Interp/Outcome.antt =====
-- What a handler of src/interp.c ends in, and the macros STEP and ERROR.
use chip_eight_jit.Common.{ℕ, ◌*◌, ◌%◌, ◌^◌, bit_or}
use chip_eight_jit.Machine.{Machine, skip}

-- `stepped` is `return 0`. `failed` carries the code that ERROR returns. `undefined` is a shift by
-- 32 or more, which C leaves undefined; `hangs` is a loop that outlives its fuel.
pub data Outcome : Type 0 where
  stepped : Machine → Outcome
  failed : Machine → ℕ → Outcome
  undefined : Outcome
  hangs : Outcome

-- `STEP`
abbrev pub step_on : Machine → Outcome
step_on m = stepped (skip m)

-- `ERROR`: `(op << 16) | program_counter` as a `uint32_t`.
abbrev pub error : ℕ → Machine → Outcome
error op m = failed m (bit_or (op * 2 ^ 16 % 2 ^ 32) m.program_counter)
