-- ===== src/Interp/Step/Errors/Verdicts.antt =====
-- How each handler ends, by its own conditions.
use chip_eight_jit.Common.{
  ℕ, suc, ◌+◌, ◌-◌, ◌*◌, ◌%◌, ◌^◌, ◌<◌, ◌≡◌, ◌≢◌, refl, Bool, false, arith, if◌then◌else◌, leb, ltb,
  ◌==◌,
}
use chip_eight_jit.Common.Bits.{test_bit, bit_or_shifted}
use chip_eight_jit.Clock.{bench_now}
use chip_eight_jit.Machine.{Machine, u16, stack_size, x_of}
use chip_eight_jit.Interp.Outcome.{Outcome, stepped, failed, undefined, hangs, error}
use chip_eight_jit.Interp.Timers.{
  sync_timers, interrupt, get_delay_timer, set_delay_timer, set_sound_timer,
}
use chip_eight_jit.Interp.Alu.{
  load_immediate, add_immediate, move, or_register, and_register, xor_register, add_register,
  sub_register, shift_right, subn_register, shift_left, random_byte,
}
use chip_eight_jit.Interp.Control.{
  jump, retern, call, skip_eq_immediate, skip_neq_immediate, skip_eq_register, skip_neq_register,
  branch,
}
use chip_eight_jit.Interp.Transfer.{
  load_addr_immediate, add_addr, load_sprite_addr, store_bcd, save_registers, restore_registers,
}
use chip_eight_jit.Interp.Input.{skip_key_x, take_keys, load_on_key}
use chip_eight_jit.Interp.Input.Laws.{poll_ends, poll-no_quit}
use chip_eight_jit.Interp.Draw.{clearscreen, draw}

pub data Verdict : Type 0 where
  steps fails no_meaning never_returns : Verdict

abbrev pub verdict : Outcome → Verdict
verdict (stepped s) = steps
verdict (failed s code) = fails
verdict undefined = no_meaning
verdict hangs = never_returns

-- A failing outcome carries the code of ERROR at its own program counter.
abbrev pub CodeOf : ℕ → Outcome → Type 0
CodeOf op (stepped s) = Unit {0}
CodeOf op (failed s code) = (code ≡ op * u16 + s.program_counter)
CodeOf op undefined = Unit {0}
CodeOf op hangs = Unit {0}

pub error-CodeOf :
    (op : ℕ) (m : Machine) → op < u16 → m.program_counter < u16 → CodeOf op (error op m)
error-CodeOf op m h k =
    let whole : op * 2 ^ 16 % 2 ^ 32 ≡ op * 2 ^ 16 = omega arith in
    rw whole (bit_or_shifted 16 op m.program_counter k)

interrupt-same :
    (m : Machine)
    → ((interrupt m).stack_pointer ≡ m.stack_pointer)
      × ((interrupt m).program_counter ≡ m.program_counter)
unfolding interrupt sync_timers
interrupt-same m = ground arith

module _ (op : ℕ) (m : Machine) where
  -- The handlers that only step.
  pub alu-steps :
      (verdict (load_immediate op m) ≡ steps)
      × (verdict (add_immediate op m) ≡ steps)
      × (verdict (move op m) ≡ steps)
      × (verdict (or_register op m) ≡ steps)
      × (verdict (and_register op m) ≡ steps)
      × (verdict (xor_register op m) ≡ steps)
      × (verdict (add_register op m) ≡ steps)
      × (verdict (sub_register op m) ≡ steps)
      × (verdict (shift_right op m) ≡ steps)
      × (verdict (subn_register op m) ≡ steps)
      × (verdict (shift_left op m) ≡ steps)
      × (verdict (random_byte op m) ≡ steps)
  unfolding load_immediate add_immediate move or_register and_register xor_register add_register
      sub_register shift_right subn_register shift_left random_byte
  alu-steps = (refl, refl, refl, refl, refl, refl, refl, refl, refl, refl, refl, refl)

  pub control-steps :
      (verdict (jump op m) ≡ steps)
      × (verdict (branch op m) ≡ steps)
      × (verdict (skip_eq_immediate op m) ≡ steps)
      × (verdict (skip_neq_immediate op m) ≡ steps)
      × (verdict (skip_eq_register op m) ≡ steps)
      × (verdict (skip_neq_register op m) ≡ steps)
  unfolding jump branch skip_eq_immediate skip_neq_immediate skip_eq_register skip_neq_register
  control-steps = (refl, refl, refl, refl, refl, refl)

  pub transfer-steps :
      (verdict (load_addr_immediate op m) ≡ steps)
      × (verdict (add_addr op m) ≡ steps)
      × (verdict (load_sprite_addr op m) ≡ steps)
      × (verdict (store_bcd op m) ≡ steps)
      × (verdict (save_registers op m) ≡ steps)
      × (verdict (restore_registers op m) ≡ steps)
      × (verdict (get_delay_timer op m) ≡ steps)
      × (verdict (set_delay_timer op m) ≡ steps)
      × (verdict (set_sound_timer op m) ≡ steps)
      × (verdict (clearscreen op m) ≡ steps)
      × (verdict (draw op m) ≡ steps)
  unfolding load_addr_immediate add_addr load_sprite_addr store_bcd save_registers restore_registers
      get_delay_timer set_delay_timer set_sound_timer clearscreen draw
  transfer-steps = (refl, refl, refl, refl, refl, refl, refl, refl, refl, refl, refl)

  pub retern-verdict : verdict (retern op m) ≡ (if m.stack_pointer == 0 then fails else steps)
  unfolding retern
  retern-verdict = ground (arith, interrupt-same m)

  pub call-verdict : verdict (call op m) ≡ (if ltb m.stack_pointer stack_size then steps else fails)
  unfolding call
  call-verdict = ground (arith, interrupt-same m)

  pub skip_key_x-verdict :
      (up : Bool)
      → verdict (skip_key_x up op m) ≡ (if leb 32 (m.regs (x_of op)) then no_meaning else steps)
  unfolding skip_key_x
  skip_key_x-verdict up = ground arith

  take_keys-verdict : (keys : ℕ) → test_bit keys 31 ≡ false → verdict (take_keys op keys m) ≡ steps
  unfolding take_keys
  take_keys-verdict keys h = rw (h, take_keys) refl

pub load_on_key-verdict : (op : ℕ) (m : Machine) → verdict (load_on_key op m) ≡ steps
unfolding load_on_key
load_on_key-verdict op m =
    let fuel = suc (m.clock.clock_cap - bench_now m.clock) in
    let (keys, d, e, _, _, _) = poll_ends fuel m.clock (omega arith) in
    rw (e, load_on_key)
      (take_keys-verdict op (record m { clock = d }) keys (poll-no_quit fuel m.clock d keys e))

module _ (op : ℕ) (m : Machine) (h : op < u16) (k : m.program_counter < u16) where
  pub retern-CodeOf : CodeOf op (retern op m)
  unfolding retern
  retern-CodeOf = ground (arith, interrupt-same m, error-CodeOf op (interrupt m) h)

  pub call-CodeOf : CodeOf op (call op m)
  unfolding call
  call-CodeOf = ground (arith, interrupt-same m, error-CodeOf op (interrupt m) h)

-- An outcome that does not fail has no code.
pub error_of_fails : (op : ℕ) (o : Outcome) → verdict o ≢ fails → CodeOf op o
error_of_fails op (stepped s) h = tt
error_of_fails op (failed s code) h = absurd (h refl)
error_of_fails op undefined h = tt
error_of_fails op hangs h = tt
