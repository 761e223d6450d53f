-- ===== src/Idle/Laws.antt =====
-- A loop that `idle_delay_loop` recognises does nothing but wait for the delay timer.
use chip_eight_jit.Common.{
  ℕ, ◌+◌, ◌%◌, ◌<◌, ◌≡◌, refl, ◌∙◌, some, Array, update, arith, ◌==◌, if◌then◌else◌,
}
use chip_eight_jit.Clock.{bench_tick}
use chip_eight_jit.Machine.{
  Machine, u16, opcode_at, memory_size, x_of, high_nibble, immediate_eight, immediate_twelve,
}
use chip_eight_jit.Interp.Outcome.{Outcome, stepped, failed, undefined, hangs}
use chip_eight_jit.Interp.Timers.{sync_timers, interrupt, get_delay_timer}
use chip_eight_jit.Interp.Control.{jump, skip_eq_immediate}
use chip_eight_jit.Interp.Step.{miscellaneous, dispatch, execute, basic_block}
use chip_eight_jit.Idle.{idle_delay_loop}

-- The next instruction, if the one before stepped.
infixl 5 ◌>>=◌
abbrev pub ◌>>=◌ : Outcome → (Machine → Outcome) → Outcome
stepped s >>= f = f s
failed s code >>= f = failed s code
undefined >>= f = undefined
hangs >>= f = hangs

-- What the recogniser has seen at `pc`.
record Seen (memory : Array) (pc x : ℕ) : Type 0 where
  a_is : (high_nibble (opcode_at memory pc) ≡ 0xf) × (immediate_eight (opcode_at memory pc) ≡ 0x07)
  x_is : x_of (opcode_at memory pc) ≡ x
  b_is :
      (high_nibble (opcode_at memory (pc + 2)) ≡ 0x3)
      × (immediate_eight (opcode_at memory (pc + 2)) ≡ 0x00)
  b_x : x_of (opcode_at memory (pc + 2)) ≡ x
  c_is :
      (high_nibble (opcode_at memory (pc + 4)) ≡ 0x1)
      × (immediate_twelve (opcode_at memory (pc + 4)) ≡ pc)

idle_delay_loop-Seen :
    (memory : Array) (pc x : ℕ) → idle_delay_loop memory pc ≡ some x → Seen memory pc x
unfolding idle_delay_loop
idle_delay_loop-Seen memory pc x e = ground arith

execute-get_delay_timer :
    (op : ℕ) (m : Machine)
    → high_nibble op ≡ 0xf
    → immediate_eight op ≡ 0x07
    → execute op m ≡ get_delay_timer op m
unfolding execute dispatch miscellaneous
execute-get_delay_timer op m h k = ground arith

execute-skip_eq_immediate :
    (op : ℕ) (m : Machine) → high_nibble op ≡ 0x3 → execute op m ≡ skip_eq_immediate op m
unfolding execute dispatch
execute-skip_eq_immediate op m h = ground arith

execute-jump : (op : ℕ) (m : Machine) → high_nibble op ≡ 0x1 → execute op m ≡ jump op m
unfolding execute dispatch
execute-jump op m h = ground arith

-- The timers are up to date.
idle_sync : (m : Machine) → m.last_tick ≡ bench_tick m.clock → sync_timers m ≡ m
unfolding sync_timers
idle_sync m h = ground arith

-- The program counter after an instruction, kept below `memory_size + 4`.
u16_small : (a : ℕ) → a < memory_size + 8 → a % u16 ≡ a
u16_small a lt = omega arith

-- The machine after the first instruction of the loop.
abbrev polled : ℕ → Machine → Machine
polled x m = record m {
  regs = update m.regs x m.delay_timer;
  program_counter = m.program_counter + 2;
}

-- And after the second.
abbrev tested : ℕ → Machine → Machine
tested x m = record (polled x m) {
  program_counter = if m.delay_timer == 0 then m.program_counter + 6 else m.program_counter + 4;
}

module _ (m : Machine) (x : ℕ) (synced : m.last_tick ≡ bench_tick m.clock)
    (seen : Seen m.memory m.program_counter x) where
  pc_lt : m.program_counter < memory_size
  pc_lt = omega (arith, seen.c_is.1)

  first_step : basic_block m ≡ stepped (polled x m)
  unfolding basic_block get_delay_timer
  first_step =
      execute-get_delay_timer (opcode_at m.memory m.program_counter) m seen.a_is.0 seen.a_is.1
      ∙ rw (idle_sync m synced)
          (rw seen.x_is (rw (u16_small (m.program_counter + 2) (omega (arith, pc_lt))) refl))

  tests : basic_block (polled x m) ≡ stepped (tested x m)
  unfolding basic_block skip_eq_immediate
  tests =
      execute-skip_eq_immediate (opcode_at m.memory (m.program_counter + 2)) (polled x m)
        seen.b_is.0
      ∙ ground (arith, seen, pc_lt)

  jumps :
      basic_block (record (polled x m) { program_counter = m.program_counter + 4 })
      ≡ stepped (record (polled x m) { program_counter = m.program_counter })
  unfolding basic_block jump interrupt
  jumps =
      execute-jump (opcode_at m.memory (m.program_counter + 4))
        (record (polled x m) { program_counter = m.program_counter + 4 }) seen.c_is.0
      ∙ rw (idle_sync (record (polled x m) { program_counter = m.program_counter + 4 }) synced)
          (rw seen.c_is.1 refl)

  leaves :
      (if m.delay_timer == 0 then stepped (tested x m) else basic_block (tested x m))
      ≡ stepped (record (polled x m) {
        program_counter = if m.delay_timer == 0 then m.program_counter + 6 else m.program_counter;
      })
  leaves = ground (arith, jumps)

-- When `idle_delay_loop` finds a loop at the program counter that reads the delay timer into Vx, and
-- the timers are up to date: with the delay timer at 0, two instructions leave the loop at the address
-- six bytes on; otherwise three instructions come back to its first one. Either way nothing but Vx
-- (now the delay timer) and the program counter has changed, so the clock alone decides how often
-- the loop runs.
pub idle_delay_loop_lem :
    (m : Machine) (x : ℕ)
    → m.last_tick ≡ bench_tick m.clock
    → idle_delay_loop m.memory m.program_counter ≡ some x
    → (basic_block m
        >>= basic_block
        >>= (λ s. if m.delay_timer == 0 then stepped s else basic_block s))
      ≡ stepped (record m {
        regs = update m.regs x m.delay_timer;
        program_counter = if m.delay_timer == 0 then m.program_counter + 6 else m.program_counter;
      })
idle_delay_loop_lem m x synced found =
    let seen = idle_delay_loop-Seen m.memory m.program_counter x found in
    rw (first_step m x synced seen) (rw (tests m x synced seen) (leaves m x synced seen))
