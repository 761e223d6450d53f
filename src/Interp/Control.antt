-- ===== src/Interp/Control.antt =====
-- The handlers of src/interp.c that move the program counter.
pub mod Laws
use chip_eight_jit.Common.{ℕ, ◌+◌, ◌-◌, ◌*◌, ◌%◌, ltb, ◌==◌, if◌then◌else◌, update}
use chip_eight_jit.Machine.{
  Machine, stack_size, u16, x_of, y_of, immediate_eight, immediate_twelve, skip,
}
use chip_eight_jit.Interp.Outcome.{Outcome, stepped, step_on, error}
use chip_eight_jit.Interp.Timers.{interrupt}

unfoldable pub jump : ℕ → Machine → Outcome
jump op m = stepped (record (interrupt m) { program_counter = immediate_twelve op })

unfoldable pub retern : ℕ → Machine → Outcome
retern op m =
    let s = interrupt m in
    let top = s.stack_pointer - 1 in
    if ltb 0 s.stack_pointer
    then stepped (record s { program_counter = s.stack top; stack_pointer = top })
    else error op s

unfoldable pub call : ℕ → Machine → Outcome
call op m =
    let s = interrupt m in
    if ltb s.stack_pointer stack_size
    then stepped (record s {
      stack = update s.stack s.stack_pointer ((s.program_counter + 2) % u16);
      stack_pointer = s.stack_pointer + 1;
      program_counter = immediate_twelve op;
    })
    else error op s

unfoldable pub skip_eq_immediate : ℕ → Machine → Outcome
skip_eq_immediate op m = step_on (if m.regs (x_of op) == immediate_eight op then skip m else m)

unfoldable pub skip_neq_immediate : ℕ → Machine → Outcome
skip_neq_immediate op m = step_on (if m.regs (x_of op) == immediate_eight op then m else skip m)

unfoldable pub skip_eq_register : ℕ → Machine → Outcome
skip_eq_register op m = step_on (if m.regs (x_of op) == m.regs (y_of op) then skip m else m)

unfoldable pub skip_neq_register : ℕ → Machine → Outcome
skip_neq_register op m = step_on (if m.regs (x_of op) == m.regs (y_of op) then m else skip m)

unfoldable pub branch : ℕ → Machine → Outcome
branch op m = stepped (record m { program_counter = (immediate_twelve op + m.regs 0) % u16 })
