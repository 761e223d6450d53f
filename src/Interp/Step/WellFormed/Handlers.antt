-- ===== src/Interp/Step/WellFormed/Handlers.antt =====
-- Each handler on registers, control and timers keeps the invariant.
use chip_eight_jit.Common.{ℕ, ◌-◌, ◌%◌, ◌<◌, arith, bit_and}
use chip_eight_jit.Common.Bits.{bit_or-lt, bit_and-lt, bit_xor-lt}
use chip_eight_jit.Machine.{
  Machine, IsWellFormed, u8, set_reg, skip, x_of, immediate_eight, set_flags,
}
use chip_eight_jit.Interp.Timers.{
  sync_timers, interrupt, get_delay_timer, set_delay_timer, set_sound_timer,
}
use chip_eight_jit.Interp.Alu.{
  load_immediate, add_immediate, move, or_register, and_register, xor_register, add_register,
  sub_register, shift_right, subn_register, shift_left, random_byte,
}
use chip_eight_jit.Interp.Control.{
  jump, retern, call, skip_eq_immediate, skip_neq_immediate, skip_eq_register, skip_neq_register,
  branch,
}
use chip_eight_jit.Interp.Step.WellFormed.Parts.{
  Keeps, Ends, skip-IsWellFormed, set_reg-IsWellFormed, sync_timers-Keeps, interrupt-Keeps,
}

module _ (op : ℕ) (m : Machine) (w : IsWellFormed m) where
  -- A register is set, and the program counter moves on.
  set_reg-Keeps : (x v : ℕ) → v < u8 → Keeps m (skip (set_reg x v m))
  set_reg-Keeps x v h = ground (arith, skip-IsWellFormed (set_reg-IsWellFormed x v h w))

  set_flags-Keeps : (x v f : ℕ) → v < u8 → f < u8 → Keeps m (skip (set_flags f (set_reg x v m)))
  set_flags-Keeps x v f h k =
      ground (arith, skip-IsWellFormed (set_reg-IsWellFormed 15 f k (set_reg-IsWellFormed x v h w)))

  pub load_immediate-Keeps : Ends (Keeps m) (load_immediate op m)
  unfolding load_immediate
  load_immediate-Keeps = set_reg-Keeps _ _ (omega arith)

  pub add_immediate-Keeps : Ends (Keeps m) (add_immediate op m)
  unfolding add_immediate
  add_immediate-Keeps = set_reg-Keeps _ _ (omega arith)

  pub move-Keeps : Ends (Keeps m) (move op m)
  unfolding move
  move-Keeps = set_reg-Keeps _ _ (w.reg_bytes _)

  pub or_register-Keeps : Ends (Keeps m) (or_register op m)
  unfolding or_register
  or_register-Keeps = set_reg-Keeps _ _ (bit_or-lt 8 _ _ (w.reg_bytes _) (w.reg_bytes _))

  pub and_register-Keeps : Ends (Keeps m) (and_register op m)
  unfolding and_register
  and_register-Keeps = set_reg-Keeps _ _ (bit_and-lt 8 _ _ (w.reg_bytes _))

  pub xor_register-Keeps : Ends (Keeps m) (xor_register op m)
  unfolding xor_register
  xor_register-Keeps = set_reg-Keeps _ _ (bit_xor-lt 8 _ _ (w.reg_bytes _) (w.reg_bytes _))

  pub add_register-Keeps : Ends (Keeps m) (add_register op m)
  unfolding add_register
  add_register-Keeps = set_flags-Keeps _ _ _ (omega arith) (ground arith)

  pub sub_register-Keeps : Ends (Keeps m) (sub_register op m)
  unfolding sub_register
  sub_register-Keeps = set_flags-Keeps _ _ _ (omega arith) (ground arith)

  pub shift_right-Keeps : Ends (Keeps m) (shift_right op m)
  unfolding shift_right
  shift_right-Keeps = set_flags-Keeps _ _ _ (omega (arith, w.reg_bytes (x_of op))) (omega arith)

  pub subn_register-Keeps : Ends (Keeps m) (subn_register op m)
  unfolding subn_register
  subn_register-Keeps = set_flags-Keeps _ _ _ (omega arith) (ground arith)

  pub shift_left-Keeps : Ends (Keeps m) (shift_left op m)
  unfolding shift_left
  shift_left-Keeps = set_flags-Keeps _ _ _ (omega arith) (omega arith)

  pub random_byte-Keeps : Ends (Keeps m) (random_byte op m)
  unfolding random_byte
  random_byte-Keeps = ground (
    arith,
    set_reg-Keeps (x_of op) (bit_and (m.rand_values 0 % u8) (immediate_eight op))
        (bit_and-lt 8 _ _ (omega arith)),
  )

  synced : IsWellFormed (sync_timers m)
  synced = (sync_timers-Keeps m w).well_formed

  pub jump-Keeps : Ends (Keeps m) (jump op m)
  unfolding jump
  jump-Keeps = ground (arith, interrupt-Keeps m w)

  pub retern-Keeps : Ends (Keeps m) (retern op m)
  unfolding retern
  retern-Keeps = ground (
    arith,
    interrupt-Keeps m w,
    (interrupt-Keeps m w).well_formed.stack_words ((interrupt m).stack_pointer - 1),
  )

  pub call-Keeps : Ends (Keeps m) (call op m)
  unfolding call
  call-Keeps = ground (arith, interrupt-Keeps m w)

  pub skip_eq_immediate-Keeps : Ends (Keeps m) (skip_eq_immediate op m)
  unfolding skip_eq_immediate
  skip_eq_immediate-Keeps = ground arith

  pub skip_neq_immediate-Keeps : Ends (Keeps m) (skip_neq_immediate op m)
  unfolding skip_neq_immediate
  skip_neq_immediate-Keeps = ground arith

  pub skip_eq_register-Keeps : Ends (Keeps m) (skip_eq_register op m)
  unfolding skip_eq_register
  skip_eq_register-Keeps = ground arith

  pub skip_neq_register-Keeps : Ends (Keeps m) (skip_neq_register op m)
  unfolding skip_neq_register
  skip_neq_register-Keeps = ground arith

  pub branch-Keeps : Ends (Keeps m) (branch op m)
  unfolding branch
  branch-Keeps = ground arith

  pub get_delay_timer-Keeps : Ends (Keeps m) (get_delay_timer op m)
  unfolding get_delay_timer
  get_delay_timer-Keeps = ground (arith, sync_timers-Keeps m w)

  pub set_delay_timer-Keeps : Ends (Keeps m) (set_delay_timer op m)
  unfolding set_delay_timer
  set_delay_timer-Keeps = ground (arith, sync_timers-Keeps m w, synced.reg_bytes (x_of op))

  pub set_sound_timer-Keeps : Ends (Keeps m) (set_sound_timer op m)
  unfolding set_sound_timer
  set_sound_timer-Keeps = ground (arith, sync_timers-Keeps m w, synced.reg_bytes (x_of op))
