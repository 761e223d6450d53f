-- ===== src/Aot/Services.antt =====
-- src/aot_runtime.c: the services that a compiled block calls.
use chip_eight_jit.Common.{
  ℕ, zero, suc, ◌+◌, ◌-◌, ◌*◌, ◌/◌, ◌%◌, ◌^◌, Bool, Option, none, some, update, ltb, leb, ◌==◌,
  if◌then◌else◌, bit_and, bit_or, bit_xor,
}
use chip_eight_jit.Common.Bits.{test_bit}
use chip_eight_jit.Screen.{draw_io, clearscreen_io}
use chip_eight_jit.Machine.{Machine, u8, u16, stack_size, set_mem, set_reg, set_flags, skip}
use chip_eight_jit.Interp.Input.{differs}
use chip_eight_jit.Interp.Transfer.{save_from, restore_from}
use chip_eight_jit.Interp.Draw.{sprite}
use chip_eight_jit.Aot.Host.{
  Host, later, service_timers, poll_keys, poll_keys_if_due, keys, release_key,
}

-- The program counter that no block has.
abbrev pub no_block : ℕ
no_block = 0xffff

abbrev pub aot_clear : Machine → Machine
aot_clear m = record m { display = clearscreen_io }

unfoldable pub aot_return : Machine → Machine
aot_return m =
    let top = m.stack_pointer - 1 in
    if m.stack_pointer == 0
    then record m { program_counter = no_block }
    else record m { stack_pointer = top; program_counter = m.stack top }

unfoldable pub aot_call : ℕ → ℕ → Machine → Machine
aot_call dst ret m =
    if ltb m.stack_pointer stack_size
    then record m {
      stack = update m.stack m.stack_pointer ret;
      stack_pointer = m.stack_pointer + 1;
      program_counter = dst;
    }
    else record m { program_counter = no_block }

unfoldable pub aot_alu : ℕ → ℕ → ℕ → Machine → Machine
aot_alu x y n m =
    let a = m.regs x in
    let b = m.regs y in
    if n == 0
    then set_reg x b m
    else if n == 1
    then set_reg x (bit_or a b) m
    else if n == 2
    then set_reg x (bit_and a b) m
    else if n == 3
    then set_reg x (bit_xor a b) m
    else if n == 4
    then set_flags (if ltb 255 (a + b) then 1 else 0) (set_reg x ((a + b) % u8) m)
    else if n == 5
    then set_flags (if leb b a then 1 else 0) (set_reg x ((a + u8 - b) % u8) m)
    else if n == 6
    then set_flags (a % 2) (set_reg x (a / 2) m)
    else if n == 7
    then set_flags (if leb a b then 1 else 0) (set_reg x ((b + u8 - a) % u8) m)
    else if n == 14
    then set_flags (a / 2 ^ 7 % 2) (set_reg x (a * 2 % u8) m)
    else record m { program_counter = no_block }

unfoldable pub aot_random : ℕ → ℕ → Machine → Machine
aot_random x k m =
    set_reg x (bit_and (m.rand_values 0 % u8) k) (record m { rand_values = later m.rand_values })

-- How a service ends: it returns; it shifts by 32 or more, which C leaves undefined; or it still waits
-- when the fuel runs out.
pub data Service : Type 0 where
  served : Host → Service
  shift_undefined : Service
  waits : Service

-- The wait for the next tick, `current_tick` being the one that ends it.
unfoldable pub await_tick : ℕ → Host → Option (ℕ × Host)
await_tick zero h = none
await_tick (suc fuel) h =
    let read = record h { ticks = later h.ticks } in
    let rest = await_tick fuel read in
    if h.ticks 0 == h.machine.last_tick then rest else some (h.ticks 0, read)

-- The host after the drawing, before that wait.
abbrev pub shown : ℕ → ℕ → ℕ → Host → Host
shown x y n h =
    let s = service_timers (poll_keys_if_due h) in
    let m = s.machine in
    let drawn = draw_io (m.regs x) (m.regs y) n (sprite m.memory m.addr) m.display in
    record s { machine = set_flags drawn.vf (record m { display = drawn.display }) }

unfoldable pub aot_draw : ℕ → ℕ → ℕ → ℕ → Host → Service
aot_draw fuel x y n h = elim (await_tick fuel (shown x y n h)) [
  | none ↦ waits
  | some (current_tick, t) ↦
      served (record t { machine = record t.machine { last_tick = current_tick } })
]

-- `program_counter += 2`
abbrev pub move_on : Host → Host
move_on h = record h { machine = skip h.machine }

unfoldable pub aot_key : ℕ → Bool → Host → Service
aot_key x up h =
    let s = poll_keys_if_due h in
    let vx = s.machine.regs x in
    if leb 32 vx
    then shift_undefined
    else if differs (test_bit (keys s) vx) up
    then served (move_on (move_on (release_key vx s)))
    else served (move_on s)

-- `while (!(keys () & 0xffff))` with a poll in each round.
unfoldable pub await_key : ℕ → Host → Option Host
await_key zero h = none
await_key (suc fuel) h =
    let rest = await_key fuel (poll_keys h) in if keys h % 2 ^ 16 == 0 then rest else some h

-- The search for the lowest key that is down, from key `i` on.
unfoldable pub take_lowest : ℕ → ℕ → ℕ → Host → Host
take_lowest x zero i h = h
take_lowest x (suc left) i h =
    let rest = take_lowest x left (i + 1) h in
    if test_bit (keys h) i
    then release_key i (record h { machine = set_reg x i h.machine })
    else rest

unfoldable pub aot_wait_key : ℕ → ℕ → Host → Service
aot_wait_key fuel x h = elim (await_key fuel h) [
  | none ↦ waits
  | some s ↦ served (take_lowest x 16 0 s)
]

-- The cases of `chip8_aot_f` that use neither the keyboard nor a loop that waits. The loops over the
-- registers are those of src/interp.c.
unfoldable pub aot_f_machine : ℕ → ℕ → Machine → Machine
aot_f_machine x k m =
    let v = m.regs x in
    if k == 7
    then set_reg x m.delay_timer m
    else if k == 21
    then record m { delay_timer = v }
    else if k == 24
    then record m { sound_timer = v }
    else if k == 30
    then record m { addr = (m.addr + v) % u16 }
    else if k == 41
    then record m { addr = v % 2 ^ 4 * 5 }
    else if k == 51
    then record m {
      memory =
          set_mem (set_mem (set_mem m.memory m.addr (v / 100)) (m.addr + 1) (v / 10 % 10))
            (m.addr + 2) (v % 10);
    }
    else if k == 85
    then record m { memory = save_from m.regs m.addr (suc x) 0 m.memory }
    else if k == 101
    then record m { regs = restore_from m.memory m.addr (suc x) 0 m.regs }
    else record m { program_counter = no_block }

unfoldable pub aot_f : ℕ → ℕ → ℕ → Host → Service
aot_f fuel x k h =
    if k == 10
    then aot_wait_key fuel x h
    else served (record h { machine = aot_f_machine x k h.machine })
