-- ===== src/Interp/Alike/Untimed.antt =====
-- The handlers of src/interp.c that use neither timer nor clock take machines that are alike to machines that are.
use chip_eight_jit.Common.{ℕ, ◌+◌, ◌-◌, ◌%◌, ◌≡◌, refl, arith, update, ltb, if◌then◌else◌}
use chip_eight_jit.Machine.{
  Machine, stack_size, u16, x_of, y_of, immediate_four, immediate_twelve, set_flags,
}
use chip_eight_jit.Interp.Outcome.{Outcome, stepped, failed, undefined, hangs, step_on, error}
use chip_eight_jit.Interp.Step.{arithmetic}
use chip_eight_jit.Interp.Timers.{interrupt}
use chip_eight_jit.Interp.Alu.{
  load_immediate, add_immediate, move, or_register, and_register, xor_register, add_register,
  sub_register, shift_right, subn_register, shift_left, random_byte,
}
use chip_eight_jit.Interp.Control.{
  jump, retern, call, skip_eq_immediate, skip_neq_immediate, skip_eq_register, skip_neq_register,
  branch,
}
use chip_eight_jit.Interp.Transfer.{
  load_addr_immediate, add_addr, load_sprite_addr, store_bcd, save_registers, restore_registers,
}
use chip_eight_jit.Interp.Draw.{clearscreen, draw, sprite}
use chip_eight_jit.Screen.{draw_io}
use chip_eight_jit.Interp.Alike.{Times, retimed, AlikeTimes, AlikeOutcome}
use chip_eight_jit.Interp.Alike.Later.{
  caught_up, caught_up-AlikeTimes, interrupt-retimed, Alike-retimed,
}

abbrev pub retimed_outcome : Times → Outcome → Outcome
retimed_outcome t (stepped m) = stepped (retimed t m)
retimed_outcome t (failed m c) = failed (retimed t m) c
retimed_outcome t undefined = undefined
retimed_outcome t hangs = hangs

-- It neither reads nor changes the times.
abbrev pub Untimed : (Machine → Outcome) → Type 0
Untimed f = (t : Times) (m : Machine) → f (retimed t m) ≡ retimed_outcome t (f m)

-- It takes machines that differ in the times to such.
abbrev pub TimeBlind : (Machine → Outcome) → Type 0
TimeBlind f =
    (t u : Times) (m : Machine) → AlikeTimes t u → AlikeOutcome (f (retimed t m)) (f (retimed u m))

AlikeOutcome-retimed :
    (t u : Times) (o : Outcome)
    → AlikeTimes t u
    → AlikeOutcome (retimed_outcome t o) (retimed_outcome u o)
AlikeOutcome-retimed t u (stepped m) a = Alike-retimed t u m a
AlikeOutcome-retimed t u (failed m c) a = (Alike-retimed t u m a, refl)
AlikeOutcome-retimed t u undefined a = tt
AlikeOutcome-retimed t u hangs a = tt

pub Untimed-TimeBlind : (f : Machine → Outcome) → Untimed f → TimeBlind f
Untimed-TimeBlind f h t u m a = rw (h t m, h u m) (AlikeOutcome-retimed t u (f m) a)

pub TimeBlind-interrupt : (f : Machine → Outcome) → TimeBlind f → TimeBlind (λ m. f (interrupt m))
TimeBlind-interrupt f h t u m a =
    rw (interrupt-retimed t m a.first_fit, interrupt-retimed u m a.second_fit)
      (h (caught_up t) (caught_up u) m (caught_up-AlikeTimes t u a))

module _ (op : ℕ) where
  pub error-Untimed : Untimed (error op)
  error-Untimed t m = refl

  pub load_immediate-Untimed : Untimed (load_immediate op)
  unfolding load_immediate
  load_immediate-Untimed t m = refl

  pub add_immediate-Untimed : Untimed (add_immediate op)
  unfolding add_immediate
  add_immediate-Untimed t m = refl

  pub move-Untimed : Untimed (move op)
  unfolding move
  move-Untimed t m = refl

  pub or_register-Untimed : Untimed (or_register op)
  unfolding or_register
  or_register-Untimed t m = refl

  pub and_register-Untimed : Untimed (and_register op)
  unfolding and_register
  and_register-Untimed t m = refl

  pub xor_register-Untimed : Untimed (xor_register op)
  unfolding xor_register
  xor_register-Untimed t m = refl

  pub add_register-Untimed : Untimed (add_register op)
  unfolding add_register
  add_register-Untimed t m = refl

  pub sub_register-Untimed : Untimed (sub_register op)
  unfolding sub_register
  sub_register-Untimed t m = refl

  pub shift_right-Untimed : Untimed (shift_right op)
  unfolding shift_right
  shift_right-Untimed t m = refl

  pub subn_register-Untimed : Untimed (subn_register op)
  unfolding subn_register
  subn_register-Untimed t m = refl

  pub shift_left-Untimed : Untimed (shift_left op)
  unfolding shift_left
  shift_left-Untimed t m = refl

  pub random_byte-Untimed : Untimed (random_byte op)
  unfolding random_byte
  random_byte-Untimed t m = refl

  pub branch-Untimed : Untimed (branch op)
  unfolding branch
  branch-Untimed t m = refl

  pub load_addr_immediate-Untimed : Untimed (load_addr_immediate op)
  unfolding load_addr_immediate
  load_addr_immediate-Untimed t m = refl

  pub add_addr-Untimed : Untimed (add_addr op)
  unfolding add_addr
  add_addr-Untimed t m = refl

  pub load_sprite_addr-Untimed : Untimed (load_sprite_addr op)
  unfolding load_sprite_addr
  load_sprite_addr-Untimed t m = refl

  pub store_bcd-Untimed : Untimed (store_bcd op)
  unfolding store_bcd
  store_bcd-Untimed t m = refl

  pub save_registers-Untimed : Untimed (save_registers op)
  unfolding save_registers
  save_registers-Untimed t m = refl

  pub restore_registers-Untimed : Untimed (restore_registers op)
  unfolding restore_registers
  restore_registers-Untimed t m = refl

  pub clearscreen-Untimed : Untimed (clearscreen op)
  unfolding clearscreen
  clearscreen-Untimed t m = refl

  pub skip_eq_immediate-Untimed : Untimed (skip_eq_immediate op)
  unfolding skip_eq_immediate
  skip_eq_immediate-Untimed t m = ground arith

  pub skip_neq_immediate-Untimed : Untimed (skip_neq_immediate op)
  unfolding skip_neq_immediate
  skip_neq_immediate-Untimed t m = ground arith

  pub skip_eq_register-Untimed : Untimed (skip_eq_register op)
  unfolding skip_eq_register
  skip_eq_register-Untimed t m = ground arith

  pub skip_neq_register-Untimed : Untimed (skip_neq_register op)
  unfolding skip_neq_register
  skip_neq_register-Untimed t m = ground arith

  pub arithmetic-Untimed : Untimed (arithmetic op)
  unfolding arithmetic
  arithmetic-Untimed t m = ground (
    arith,
    move-Untimed t m,
    or_register-Untimed t m,
    and_register-Untimed t m,
    xor_register-Untimed t m,
    add_register-Untimed t m,
    sub_register-Untimed t m,
    shift_right-Untimed t m,
    subn_register-Untimed t m,
    shift_left-Untimed t m,
    error-Untimed t m,
  )

  -- What the handlers do behind `interrupt`.
  abbrev jump_on : Machine → Outcome
  jump_on s = stepped (record s { program_counter = immediate_twelve op })

  abbrev retern_on : Machine → Outcome
  retern_on s =
      let top = s.stack_pointer - 1 in
      if ltb 0 s.stack_pointer
      then stepped (record s { program_counter = s.stack top; stack_pointer = top })
      else error op s

  abbrev call_on : Machine → Outcome
  call_on s =
      if ltb s.stack_pointer stack_size
      then stepped (record s {
        stack = update s.stack s.stack_pointer ((s.program_counter + 2) % u16);
        stack_pointer = s.stack_pointer + 1;
        program_counter = immediate_twelve op;
      })
      else error op s

  abbrev draw_on : Machine → Outcome
  draw_on s =
      let drawn =
        draw_io (s.regs (x_of op)) (s.regs (y_of op)) (immediate_four op) (sprite s.memory s.addr)
          s.display in
      step_on (set_flags drawn.vf (record s { display = drawn.display }))

  pub jump-TimeBlind : TimeBlind (jump op)
  unfolding jump
  jump-TimeBlind = TimeBlind-interrupt jump_on (Untimed-TimeBlind jump_on (λ t m. refl))

  pub retern-TimeBlind : TimeBlind (retern op)
  unfolding retern
  retern-TimeBlind =
      TimeBlind-interrupt retern_on (Untimed-TimeBlind retern_on (λ t m. ground arith))

  pub call-TimeBlind : TimeBlind (call op)
  unfolding call
  call-TimeBlind = TimeBlind-interrupt call_on (Untimed-TimeBlind call_on (λ t m. ground arith))

  pub draw-TimeBlind : TimeBlind (draw op)
  unfolding draw
  draw-TimeBlind = TimeBlind-interrupt draw_on (Untimed-TimeBlind draw_on (λ t m. refl))
