-- ===== src/Jit/Native/Charges.antt =====
-- What the pieces of a trace of src/libgccjit_jit.c do to the count of instructions and to the next safepoint.
use chip_eight_jit.Common.{
  ℕ, zero, suc, ◌+◌, ◌-◌, ◌≡◌, refl, ◌∙◌, Bool, true, false, ◌||◌, Option, none, some, List, [],
  ◌∷◌, Array, arith, Bool-cases, inl, inr, if◌then◌else◌,
}
use chip_eight_jit.Common.Bits.{test_bit}
use chip_eight_jit.Clock.{
  Clock, bench_now, bench_done, roll_tick, bench_keys_now, bench_clear_key, bench_poll_keys,
}
use chip_eight_jit.Machine.{Machine, set_reg, x_of, opcode_at}
use chip_eight_jit.Interp.Timers.{interrupt, sync_timers}
use chip_eight_jit.Interp.Input.{all_keys_down, clear_key, poll, latch}
use chip_eight_jit.Interp.Input.Laws.{poll_ends}
use chip_eight_jit.Jit.Trace.{
  HostFn, clearscreen_fn, retern_fn, call_fn, random_byte_fn, draw_fn, skip_key_x_down_fn,
  skip_key_x_up_fn, load_on_key_fn, sync_timers_fn, store_bcd_fn, save_registers_fn,
  restore_registers_fn,
}
use chip_eight_jit.Jit.Inline.{
  Place, reg_at, addr_place, delay_place, sound_place, pc_place, Statement, assign, assign_op,
  snapshot, run_all, inline_code, write, documented_operate, documented_compares,
}
use chip_eight_jit.Jit.Dispatch.{Jit, check_interrupt, jit_store_bcd, jit_save_registers}
use chip_eight_jit.Jit.Helpers.{
  Native, on, branched, left, exited, undefined_shift, lost, spins, jit_retern, jit_call,
  jit_random_byte, jit_skip_key_x, jit_take_keys, after_wait, jit_load_on_key, jit_draw,
  jit_restore_registers, call_function,
}

-- The same count, the same budget and the same next safepoint.
pub record SameCharge (c d : Clock) : Type 0 where
  pub same_retired : d.retired ≡ c.retired
  pub same_budget : d.budget ≡ c.budget
  pub same_next : d.next_safepoint ≡ c.next_safepoint

-- A helper returns, if it does, with the same charge, and neither branches nor leaves the trace.
abbrev pub Charged : Clock → Native → Type 0
Charged c (on k) = SameCharge c k.machine.clock
Charged c (branched a k) = ⊥
Charged c (left k) = ⊥
Charged c spins = ⊥
Charged c _ = Unit

pub keys_now-SameCharge : (c : Clock) → SameCharge c (bench_keys_now c).1
unfolding bench_keys_now roll_tick
keys_now-SameCharge c = ground arith

clear_key-SameCharge : (key : ℕ) (c : Clock) → SameCharge c (bench_clear_key key c)
unfolding bench_clear_key roll_tick
clear_key-SameCharge key c = ground arith

SameCharge-trans : {c d e : Clock} → SameCharge c d → SameCharge d e → SameCharge c e
SameCharge-trans p q = ground arith

poll-SameCharge :
    (fuel : ℕ) (c d : Clock) (keys : ℕ) → poll fuel c ≡ some (keys, d) → SameCharge c d
unfolding poll bench_poll_keys
poll-SameCharge zero c d keys h = cc
poll-SameCharge (suc fuel) c d keys h =
    let first = keys_now-SameCharge (record c { poll_clock = c.poll_clock + 1 }) in
    ground (arith, first, poll-SameCharge fuel (bench_poll_keys c).1 d keys)

latch-SameCharge : (keys x n i : ℕ) (m : Machine) → SameCharge m.clock (latch keys x n i m).clock
unfolding latch clear_key
latch-SameCharge keys x zero i m = ground arith
latch-SameCharge keys x (suc n) i m =
    let s = clear_key i m in
    SameCharge-trans (clear_key-SameCharge i m.clock) (
      latched (λ t. SameCharge s.clock (latch keys x n (i + 1) t).clock) (test_bit keys i)
        (latch-SameCharge keys x n (i + 1) (set_reg x i s)) (latch-SameCharge keys x n (i + 1) s))
  where
    latched : (P : Machine → Type 0) {t u : Machine} (b : Bool) → P t → P u → P (if b then t else u)
    latched P true p q = p
    latched P false p q = q

pub interrupt-clock : (m : Machine) → (interrupt m).clock ≡ m.clock
unfolding interrupt sync_timers
interrupt-clock m = ground arith

SameCharge-refl : (c : Clock) → SameCharge c c
SameCharge-refl c = record { same_retired = refl; same_budget = refl; same_next = refl }

interrupt-SameCharge : (m : Machine) → SameCharge m.clock (interrupt m).clock
interrupt-SameCharge m = rw (interrupt-clock m) (SameCharge-refl m.clock)

module _ (j : Jit) where
  abbrev clock_of : Clock
  clock_of = j.machine.clock

  retern-Charged : Charged clock_of (jit_retern j)
  unfolding jit_retern check_interrupt
  retern-Charged = ground (arith, interrupt-SameCharge j.machine)

  call-Charged : Charged clock_of (jit_call j)
  unfolding jit_call check_interrupt
  call-Charged = ground (arith, interrupt-SameCharge j.machine)

  skip_key_x-Charged : (up : Bool) → Charged clock_of (jit_skip_key_x up j)
  unfolding jit_skip_key_x all_keys_down clear_key
  skip_key_x-Charged up =
      let vx = j.machine.regs (x_of (opcode_at j.machine.memory j.machine.program_counter)) in
      let first = keys_now-SameCharge clock_of in
      let both = SameCharge-trans first (clear_key-SameCharge vx (bench_keys_now clock_of).1) in
      ground (arith, first, both)

  draw-Charged : Charged clock_of (on (jit_draw j))
  unfolding jit_draw check_interrupt
  draw-Charged = interrupt-SameCharge j.machine

  take_keys-Charged : (keys : ℕ) → Charged clock_of (jit_take_keys keys j)
  unfolding jit_take_keys
  take_keys-Charged keys =
      let x = x_of (opcode_at j.machine.memory j.machine.program_counter) in
      ground (arith, latch-SameCharge keys x 16 0 j.machine)

Charged-trans : (c d : Clock) (r : Native) → SameCharge c d → Charged d r → Charged c r
Charged-trans c d (on k) h p = SameCharge-trans h p
Charged-trans c d (branched a k) h p = p
Charged-trans c d (left k) h p = p
Charged-trans c d (exited k) h p = tt
Charged-trans c d undefined_shift h p = tt
Charged-trans c d lost h p = tt
Charged-trans c d spins h p = p

load_on_key-Charged : (j : Jit) → Charged j.machine.clock (jit_load_on_key j)
unfolding jit_load_on_key
load_on_key-Charged j =
    let c = j.machine.clock in
    let fuel = suc (c.clock_cap - bench_now c) in
    let (keys, d, waits, _, _, _) = poll_ends fuel c (omega arith) in
    let k : Jit = record j {
      machine = record j.machine { clock = d };
      program_over = j.program_over || bench_done d;
    } in
    rw (waits) (
      Charged-trans c d (jit_take_keys keys k) (poll-SameCharge fuel c d keys waits)
        (take_keys-Charged k keys))

pub call_function-Charged : (fn : HostFn) (j : Jit) → Charged j.machine.clock (call_function fn j)
unfolding call_function jit_random_byte jit_restore_registers jit_store_bcd jit_save_registers
    sync_timers
call_function-Charged clearscreen_fn j = SameCharge-refl j.machine.clock
call_function-Charged retern_fn j = retern-Charged j
call_function-Charged call_fn j = call-Charged j
call_function-Charged random_byte_fn j = SameCharge-refl j.machine.clock
call_function-Charged draw_fn j = draw-Charged j
call_function-Charged skip_key_x_down_fn j = skip_key_x-Charged j false
call_function-Charged skip_key_x_up_fn j = skip_key_x-Charged j true
call_function-Charged load_on_key_fn j = load_on_key-Charged j
call_function-Charged sync_timers_fn j = ground arith
call_function-Charged store_bcd_fn j = SameCharge-refl j.machine.clock
call_function-Charged save_registers_fn j = SameCharge-refl j.machine.clock
call_function-Charged restore_registers_fn j = SameCharge-refl j.machine.clock

-- Straight-line code leaves the clock.
write-clock : (p : Place) (v : ℕ) (m : Machine) → (write p v m).clock ≡ m.clock
write-clock (reg_at x) v m = refl
write-clock addr_place v m = refl
write-clock delay_place v m = refl
write-clock sound_place v m = refl
write-clock pc_place v m = refl

run_all-clock :
    (ss : List Statement) (locals : Array) (m : Machine)
    → (run_all documented_operate documented_compares ss locals m).clock ≡ m.clock
run_all-clock [] locals m = refl
run_all-clock (assign p v ∷ ss) locals m = run_all-clock ss locals _ ∙ write-clock p _ m
run_all-clock (assign_op p o v ∷ ss) locals m = run_all-clock ss locals _ ∙ write-clock p _ m
run_all-clock (snapshot i p ∷ ss) locals m = run_all-clock ss _ m

pub inline-SameCharge :
    (op : ℕ) (m : Machine)
    → SameCharge m.clock
        (run_all documented_operate documented_compares (inline_code op 0) (λ i. 0) m).clock
inline-SameCharge op m = rw (run_all-clock (inline_code op 0) (λ i. 0) m) (SameCharge-refl m.clock)

-- A helper does not take back that the run is over.
abbrev pub StaysOver : Jit → Native → Type 0
StaysOver j (on k) = k.program_over ≡ false → j.program_over ≡ false
StaysOver j _ = Unit

take_keys-StaysOver : (keys : ℕ) (j : Jit) → StaysOver j (jit_take_keys keys j)
unfolding jit_take_keys
take_keys-StaysOver keys j = elim (Bool-cases (test_bit keys 31)) [
  | inl quit ↦ rw (quit) tt
  | inr more ↦ rw (more) (λ h. h)
]

first_off : (a b : Bool) → (a || b) ≡ false → a ≡ false
first_off false b h = refl
first_off true b h = h

StaysOver-or :
    (j : Jit) (b : Bool) (r : Native)
    → StaysOver (record j { program_over = j.program_over || b }) r
    → StaysOver j r
StaysOver-or j b (on k) h = λ e. first_off j.program_over b (h e)
StaysOver-or j b (branched a k) h = tt
StaysOver-or j b (left k) h = tt
StaysOver-or j b (exited k) h = tt
StaysOver-or j b undefined_shift h = tt
StaysOver-or j b lost h = tt
StaysOver-or j b spins h = tt

after_wait-StaysOver : (j : Jit) (o : Option (ℕ × Clock)) → StaysOver j (after_wait j o)
after_wait-StaysOver j none = tt
after_wait-StaysOver j (some (keys, c)) = StaysOver-or j (bench_done c) _ (
    take_keys-StaysOver keys (record j {
      machine = record j.machine { clock = c };
      program_over = j.program_over || bench_done c;
    }))

pub call_function-StaysOver : (fn : HostFn) (j : Jit) → StaysOver j (call_function fn j)
unfolding call_function jit_retern jit_call jit_skip_key_x jit_draw jit_load_on_key check_interrupt
    jit_store_bcd jit_save_registers
call_function-StaysOver clearscreen_fn j = λ h. h
call_function-StaysOver retern_fn j = ground arith
call_function-StaysOver call_fn j = ground arith
call_function-StaysOver random_byte_fn j = λ h. h
call_function-StaysOver draw_fn j = λ h. first_off j.program_over _ h
call_function-StaysOver skip_key_x_down_fn j = ground arith
call_function-StaysOver skip_key_x_up_fn j = ground arith
call_function-StaysOver load_on_key_fn j = after_wait-StaysOver j _
call_function-StaysOver sync_timers_fn j = λ h. h
call_function-StaysOver store_bcd_fn j = λ h. h
call_function-StaysOver save_registers_fn j = λ h. h
call_function-StaysOver restore_registers_fn j = λ h. h
