-- ===== src/Interp/Alike/Step.antt =====
-- Every instruction of src/interp.c takes machines that are alike to machines that are.
use chip_eight_jit.Common.{ℕ, ◌+◌, Below, subst, ap, true, false, arith}
use chip_eight_jit.Machine.{Machine, u8, x_of, opcode_at, high_nibble}
use chip_eight_jit.Interp.Outcome.{Outcome, error}
use chip_eight_jit.Interp.Step.{arithmetic, keyboard, miscellaneous, dispatch, execute, basic_block}
use chip_eight_jit.Interp.Run.{retire}
use chip_eight_jit.Interp.Run.Instructions.{fetch}
use chip_eight_jit.Interp.Alu.{load_immediate, add_immediate, random_byte}
use chip_eight_jit.Interp.Control.{
  skip_eq_immediate, skip_neq_immediate, skip_eq_register, skip_neq_register, branch,
}
use chip_eight_jit.Interp.Transfer.{
  load_addr_immediate, add_addr, load_sprite_addr, store_bcd, save_registers, restore_registers,
}
use chip_eight_jit.Interp.Draw.{clearscreen}
use chip_eight_jit.Interp.Input.{all_keys_down}
use chip_eight_jit.Interp.Alike.{Times, times, retimed, AlikeTimes, Alike, AlikeOutcome}
use chip_eight_jit.Interp.Alike.Later.{Alike-retimed, Alike-trans, moved_both}
use chip_eight_jit.Interp.Alike.Untimed.{
  Untimed, Untimed-TimeBlind, load_immediate-Untimed, add_immediate-Untimed, branch-Untimed,
  random_byte-Untimed, load_addr_immediate-Untimed, add_addr-Untimed, load_sprite_addr-Untimed,
  store_bcd-Untimed, save_registers-Untimed, restore_registers-Untimed, clearscreen-Untimed,
  skip_eq_immediate-Untimed, skip_neq_immediate-Untimed, skip_eq_register-Untimed,
  skip_neq_register-Untimed, error-Untimed, arithmetic-Untimed, jump-TimeBlind, retern-TimeBlind,
  call-TimeBlind, draw-TimeBlind,
}
use chip_eight_jit.Interp.Alike.Timers.{
  get_delay_timer-TimeBlind, set_delay_timer-TimeBlind, set_sound_timer-TimeBlind,
}
use chip_eight_jit.Interp.Alike.Keys.{skip_key_x-TimeBlind, load_on_key-TimeBlind}
use chip_eight_jit.Interp.Alike.Look.{all_keys_down-Alike}

-- A handler on machines that differ in the times.
abbrev SameOn : (Machine → Outcome) → Times → Times → Machine → Type 0
SameOn f t u m = AlikeOutcome (f (retimed t m)) (f (retimed u m))

module _ (op : ℕ) (t u : Times) (m : Machine) (small : Below u8 m.regs) (a : AlikeTimes t u) where
  untimed : (f : Machine → Outcome) → Untimed f → SameOn f t u m
  untimed f h = Untimed-TimeBlind f h t u m a

  keyboard-SameOn : SameOn (keyboard op) t u m
  unfolding keyboard
  keyboard-SameOn = ground (
    arith,
    skip_key_x-TimeBlind op true t u m a,
    skip_key_x-TimeBlind op false t u m a,
    untimed (error op) (error-Untimed op),
  )

  miscellaneous-SameOn : SameOn (miscellaneous op) t u m
  unfolding miscellaneous
  miscellaneous-SameOn = ground (
    arith,
    get_delay_timer-TimeBlind op t u m a,
    load_on_key-TimeBlind op t u m a,
    set_delay_timer-TimeBlind op t u m (small (x_of op)) a,
    set_sound_timer-TimeBlind op t u m (small (x_of op)) a,
    untimed (add_addr op) (add_addr-Untimed op),
    untimed (load_sprite_addr op) (load_sprite_addr-Untimed op),
    untimed (store_bcd op) (store_bcd-Untimed op),
    untimed (save_registers op) (save_registers-Untimed op),
    untimed (restore_registers op) (restore_registers-Untimed op),
    untimed (error op) (error-Untimed op),
  )

  dispatch-SameOn : (nibble : ℕ) → SameOn (dispatch nibble op) t u m
  unfolding dispatch
  dispatch-SameOn nibble = ground (
    arith,
    jump-TimeBlind op t u m a,
    call-TimeBlind op t u m a,
    untimed (skip_eq_immediate op) (skip_eq_immediate-Untimed op),
    untimed (skip_neq_immediate op) (skip_neq_immediate-Untimed op),
    untimed (skip_eq_register op) (skip_eq_register-Untimed op),
    untimed (load_immediate op) (load_immediate-Untimed op),
    untimed (add_immediate op) (add_immediate-Untimed op),
    untimed (arithmetic op) (arithmetic-Untimed op),
    untimed (skip_neq_register op) (skip_neq_register-Untimed op),
    untimed (load_addr_immediate op) (load_addr_immediate-Untimed op),
    untimed (branch op) (branch-Untimed op),
    untimed (random_byte op) (random_byte-Untimed op),
    draw-TimeBlind op t u m a,
    keyboard-SameOn,
    miscellaneous-SameOn,
    untimed (error op) (error-Untimed op),
  )

  execute-SameOn : SameOn (execute op) t u m
  unfolding execute
  execute-SameOn = ground (
    arith,
    untimed (clearscreen op) (clearscreen-Untimed op),
    retern-TimeBlind op t u m a,
    dispatch-SameOn (high_nibble op),
  )

-- Whatever opcode is executed on two machines, with bytes in the registers, that differ only in how far the timers
-- are caught up, in when the keys were looked at last and in the next safepoint: it steps on both, to machines that
-- differ in no more, or it fails on both, with the same code and on such machines, or it is undefined on
-- both, or returns on neither.
pub execute-Alike :
    (op : ℕ) (m n : Machine)
    → Below u8 m.regs
    → Alike m n
    → AlikeOutcome (execute op m) (execute op n)
execute-Alike op m n small a =
    subst (λ s. AlikeOutcome (execute op m) (execute op s)) a.same_else
      (execute-SameOn op (times m) (times n) m small a.alike_times)

pub retire-Alike : (m n : Machine) → Alike m n → Alike (retire m) (retire n)
retire-Alike m n a =
    let t = times m in
    let u = times n in
    subst (λ s. Alike (retire m) (retire s)) a.same_else
      (Alike-retimed _ _ m (
        moved_both _ _ _ _ t u (omega arith)
          (ap (λ (v : Times). v.clock.retired + 1) a.alike_times.same_level)
          (ap (λ (v : Times). v.clock.poll_clock) a.alike_times.same_level) a.alike_times))

pub fetch-Alike : (m n : Machine) → Alike m n → Alike (fetch m) (retire n)
fetch-Alike m n a =
    retire-Alike (all_keys_down m).1 n
      (Alike-trans (all_keys_down m).1 m n (all_keys_down-Alike m a.alike_times.first_fit) a)

pub basic_block-Alike :
    (m n : Machine) → Below u8 m.regs → Alike m n → AlikeOutcome (basic_block m) (basic_block n)
unfolding basic_block
basic_block-Alike m n small a =
    let op = opcode_at m.memory m.program_counter in
    subst (λ s. AlikeOutcome (basic_block m) (basic_block s)) a.same_else
      (execute-SameOn op (times m) (times n) m small a.alike_times)
