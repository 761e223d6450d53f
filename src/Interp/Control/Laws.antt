-- ===== src/Interp/Control/Laws.antt =====
-- Calls and returns.
use chip_eight_jit.Common.{ℕ, ◌+◌, ◌-◌, ◌%◌, ◌≡◌, ◌∙◌, ap, Array, arith}
use chip_eight_jit.Machine.{Machine, u16, immediate_twelve}
use chip_eight_jit.Interp.Outcome.{stepped}
use chip_eight_jit.Interp.Timers.{sync_timers, interrupt}
use chip_eight_jit.Interp.Control.{call, retern}

-- An interrupt leaves stack and program counter alone.
pub interrupt-control :
    (m : Machine)
    → ((interrupt m).stack ≡ m.stack)
      × ((interrupt m).stack_pointer ≡ m.stack_pointer)
      × ((interrupt m).program_counter ≡ m.program_counter)
unfolding interrupt sync_timers
interrupt-control m = ground arith

-- A return undoes a call: whatever the subroutine did in between, if it leaves stack and stack
-- pointer as it found them, the return goes to the instruction after the call, with the stack pointer of
-- the caller.
pub retern-call :
    (op op' : ℕ) (m s t : Machine)
    → call op m ≡ stepped s
    → t.stack ≡ s.stack
    → t.stack_pointer ≡ s.stack_pointer
    → (u : Machine) × (retern op' t ≡ stepped u)
      × (u.program_counter ≡ (m.program_counter + 2) % u16)
      × (u.stack_pointer ≡ m.stack_pointer)
      × (s.program_counter ≡ immediate_twelve op)
unfolding call retern
retern-call op op' m s t e f g =
    let i = interrupt t in
    let top = i.stack_pointer - 1 in
    let u = record i { program_counter = i.stack top; stack_pointer = top } in
    let (stack_eq, pointer_eq, counter_eq) = interrupt-control m in
    let (stack_eq', pointer_eq', counter_eq') = interrupt-control t in
    (
      u,
      ground arith,
      ground (arith, ap (λ (a : Array). a top) (stack_eq' ∙ f)),
      ground arith,
      ground arith,
    )
