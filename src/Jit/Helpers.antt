-- ===== src/Jit/Helpers.antt =====
-- The host functions of src/libgccjit_jit.c that a trace calls, under -DBENCH. Those that write to the memory
-- are in Dispatch.
use chip_eight_jit.Common.{
  ℕ, suc, ◌+◌, ◌-◌, ◌%◌, Bool, true, false, ◌||◌, Option, none, some, update, ltb, leb,
  if◌then◌else◌, bit_and,
}
use chip_eight_jit.Common.Bits.{test_bit}
use chip_eight_jit.Clock.{Clock, bench_now, bench_done, bench_advance_safepoint}
use chip_eight_jit.Screen.{draw_io, clearscreen_io}
use chip_eight_jit.Machine.{
  Machine, stack_size, u8, u16, opcode_at, x_of, y_of, immediate_four, immediate_eight,
  immediate_twelve, set_reg, set_flags, skip,
}
use chip_eight_jit.Interp.Timers.{sync_timers}
use chip_eight_jit.Interp.Input.{all_keys_down, clear_key, differs, poll, latch}
use chip_eight_jit.Interp.Transfer.{restore_from}
use chip_eight_jit.Interp.Draw.{sprite}
use chip_eight_jit.Jit.Trace.{
  HostFn, clearscreen_fn, retern_fn, call_fn, random_byte_fn, draw_fn, skip_key_x_down_fn,
  skip_key_x_up_fn, load_on_key_fn, sync_timers_fn, store_bcd_fn, save_registers_fn,
  restore_registers_fn,
}
use chip_eight_jit.Jit.Dispatch.{Jit, jit_store_bcd, jit_save_registers, check_interrupt}

-- What running a part of a trace ends in: it goes on behind it, branches to the block of an address, returns
-- to the loop of `main`, or leaves the program by `errer`. `undefined_shift` is one that C leaves undefined, `lost` a
-- branch to no block, `spins` a loop that outlives its fuel.
pub data Native : Type 0 where
  on : Jit → Native
  branched : ℕ → Jit → Native
  left : Jit → Native
  exited : Jit → Native
  undefined_shift : Native
  lost : Native
  spins : Native

-- A change of the machine alone.
abbrev pub with_machine : Machine → Jit → Jit
with_machine m j = record j { machine = m }

-- `OP_AT (program_counter)`
abbrev pub op_here : Machine → ℕ
op_here m = opcode_at m.memory m.program_counter

abbrev pub rescheduled : Jit → Option Clock → Native
rescheduled j none = spins
rescheduled j (some c) = on (with_machine (record j.machine { clock = c }) j)

unfoldable pub bench_safepoint : Jit → Native
bench_safepoint j =
    let k = check_interrupt j in rescheduled k (bench_advance_safepoint k.machine.clock)

-- `retern`; `errer` ends the program.
unfoldable pub jit_retern : Jit → Native
jit_retern j =
    let k = check_interrupt j in
    let s = k.machine in
    let top = s.stack_pointer - 1 in
    if ltb 0 s.stack_pointer
    then on (with_machine (record s { program_counter = s.stack top; stack_pointer = top }) k)
    else exited k

-- `call`
unfoldable pub jit_call : Jit → Native
jit_call j =
    let immediate = immediate_twelve (op_here j.machine) in
    let k = check_interrupt j in
    let s = k.machine in
    if ltb s.stack_pointer stack_size
    then on (
        with_machine
          (record s {
            stack = update s.stack s.stack_pointer ((s.program_counter + 2) % u16);
            stack_pointer = s.stack_pointer + 1;
            program_counter = immediate;
          })
          k)
    else exited k

-- `random_byte`
unfoldable pub jit_random_byte : Machine → Machine
jit_random_byte m =
    let op = op_here m in
    let v = bit_and (m.rand_values 0 % u8) (immediate_eight op) in
    set_reg (x_of op) v (record m { rand_values = λ i. m.rand_values (suc i) })

-- `skip_key_x`, where `1 << (regs[x])` is evaluated first.
unfoldable pub jit_skip_key_x : Bool → Jit → Native
jit_skip_key_x up j =
    let vx = j.machine.regs (x_of (op_here j.machine)) in
    let (keys, s) = all_keys_down j.machine in
    if leb 32 vx
    then undefined_shift
    else if differs (test_bit keys vx) up
    then on (with_machine (skip (skip (clear_key vx s))) j)
    else on (with_machine (skip s) j)

-- What follows the wait of `load_on_key`.
unfoldable pub jit_take_keys : ℕ → Jit → Native
jit_take_keys keys j =
    let s = latch keys (x_of (op_here j.machine)) 16 0 j.machine in
    if test_bit keys 31 then exited (with_machine s j) else on (with_machine (skip s) j)

abbrev pub after_wait : Jit → Option (ℕ × Clock) → Native
after_wait j none = spins
after_wait j (some (keys, c)) = jit_take_keys keys (record j {
  machine = record j.machine { clock = c };
  program_over = j.program_over || bench_done c;
})

-- `load_on_key`. Its wait is that of the interpreter, but raises `program_over` if it stops because the run is
-- over.
unfoldable pub jit_load_on_key : Jit → Native
jit_load_on_key j =
    let c = j.machine.clock in after_wait j (poll (suc (c.clock_cap - bench_now c)) c)

-- `draw`. There is no frame sync in this build.
unfoldable pub jit_draw : Jit → Jit
jit_draw j =
    let op = op_here j.machine in
    let k = check_interrupt j in
    let s = k.machine in
    let drawn =
      draw_io (s.regs (x_of op)) (s.regs (y_of op)) (immediate_four op) (sprite s.memory s.addr)
        s.display in
    with_machine (set_flags drawn.vf (record s { display = drawn.display })) k

-- `restore_registers`
unfoldable pub jit_restore_registers : Machine → Machine
jit_restore_registers m = record m {
  regs = restore_from m.memory m.addr (suc (x_of (op_here m))) 0 m.regs;
}

-- The function that a call of the trace reaches.
unfoldable pub call_function : HostFn → Jit → Native
call_function clearscreen_fn j = on (with_machine (record j.machine { display = clearscreen_io }) j)
call_function retern_fn j = jit_retern j
call_function call_fn j = jit_call j
call_function random_byte_fn j = on (with_machine (jit_random_byte j.machine) j)
call_function draw_fn j = on (jit_draw j)
call_function skip_key_x_down_fn j = jit_skip_key_x false j
call_function skip_key_x_up_fn j = jit_skip_key_x true j
call_function load_on_key_fn j = jit_load_on_key j
call_function sync_timers_fn j = on (with_machine (sync_timers j.machine) j)
call_function store_bcd_fn j = on (jit_store_bcd j)
call_function save_registers_fn j = on (jit_save_registers j)
call_function restore_registers_fn j = on (with_machine (jit_restore_registers j.machine) j)
