-- ===== src/Jit/Engine/Helpers.antt =====
-- What the helpers of a trace in src/libgccjit_jit.c leave as it is: the memory, but for two, and the cache.
use chip_eight_jit.Common.{
  ℕ, zero, suc, ◌+◌, ◌≡◌, refl, sym, ap, ◌∙◌, Bool, true, false, ◌||◌, Option, none, some, arith,
  if◌then◌else◌,
}
use chip_eight_jit.Common.Bits.{test_bit}
use chip_eight_jit.Clock.{Clock, bench_done}
use chip_eight_jit.Machine.{Machine, set_reg, x_of, opcode_at}
use chip_eight_jit.Screen.{clearscreen_io}
use chip_eight_jit.Interp.Timers.{interrupt, sync_timers}
use chip_eight_jit.Interp.Input.{all_keys_down, clear_key, latch}
use chip_eight_jit.Jit.Trace.{
  HostFn, clearscreen_fn, retern_fn, call_fn, random_byte_fn, draw_fn, skip_key_x_down_fn,
  skip_key_x_up_fn, load_on_key_fn, sync_timers_fn, store_bcd_fn, save_registers_fn,
  restore_registers_fn,
}
use chip_eight_jit.Jit.Dispatch.{Jit, check_interrupt}
use chip_eight_jit.Jit.Dispatch.Coherent.{
  IsCoherent, UpToDate-Agree, perform_bcd, perform_save, interrupt_memory,
}
use chip_eight_jit.Jit.Helpers.{
  Native, on, branched, left, exited, undefined_shift, lost, spins, with_machine, jit_retern,
  jit_call, jit_random_byte, jit_skip_key_x, jit_take_keys, after_wait, jit_load_on_key, jit_draw,
  jit_restore_registers, call_function,
}

-- What the cache depends on is as before.
pub record SameCode (j k : Jit) : Type 0 where
  pub same_memory : k.machine.memory ≡ j.machine.memory
  pub same_cache : k.cache ≡ j.cache
  pub same_bytes : k.code_bytes ≡ j.code_bytes
  pub same_flag : k.smc_pending ≡ j.smc_pending

-- Where a helper returns, it has kept that.
abbrev KeepsCode : Jit → Native → Type 0
KeepsCode j (on k) = SameCode j k
KeepsCode j (branched a k) = ⊥
KeepsCode j (left k) = ⊥
KeepsCode j _ = Unit

SameCode-machine :
    (j : Jit) (m : Machine) → m.memory ≡ j.machine.memory → SameCode j (with_machine m j)
SameCode-machine j m e = record {
  same_memory = e;
  same_cache = refl;
  same_bytes = refl;
  same_flag = refl;
}

latch-memory : (keys x n i : ℕ) (m : Machine) → (latch keys x n i m).memory ≡ m.memory
unfolding latch clear_key
latch-memory keys x zero i m = refl
latch-memory keys x (suc n) i m =
    let s = clear_key i m in
    latched (λ t. (latch keys x n (i + 1) t).memory ≡ m.memory) (test_bit keys i)
      (latch-memory keys x n (i + 1) (set_reg x i s)) (latch-memory keys x n (i + 1) s)
  where
    latched : (P : Machine → Type 0) {t u : Machine} (b : Bool) → P t → P u → P (if b then t else u)
    latched P true p q = p
    latched P false p q = q

module _ (j : Jit) where
  abbrev mem_kept : (interrupt j.machine).memory ≡ j.machine.memory
  mem_kept = interrupt_memory j.machine

  retern-KeepsCode : KeepsCode j (jit_retern j)
  unfolding jit_retern check_interrupt
  retern-KeepsCode = ground (arith, mem_kept)

  call-KeepsCode : KeepsCode j (jit_call j)
  unfolding jit_call check_interrupt
  call-KeepsCode = ground (arith, mem_kept)

  draw-KeepsCode : KeepsCode j (on (jit_draw j))
  unfolding jit_draw check_interrupt
  draw-KeepsCode = record {
    same_memory = mem_kept;
    same_cache = refl;
    same_bytes = refl;
    same_flag = refl;
  }

  skip_key_x-KeepsCode : (up : Bool) → KeepsCode j (jit_skip_key_x up j)
  unfolding jit_skip_key_x all_keys_down clear_key
  skip_key_x-KeepsCode up = ground arith

  take_keys-KeepsCode : (keys : ℕ) → KeepsCode j (jit_take_keys keys j)
  unfolding jit_take_keys
  take_keys-KeepsCode keys =
      let x = x_of (opcode_at j.machine.memory j.machine.program_counter) in
      ground (arith, latch-memory keys x 16 0 j.machine)

KeepsCode-trans : (j k : Jit) (r : Native) → SameCode j k → KeepsCode k r → KeepsCode j r
KeepsCode-trans j k (on l) p q = record {
  same_memory = q.same_memory ∙ p.same_memory;
  same_cache = q.same_cache ∙ p.same_cache;
  same_bytes = q.same_bytes ∙ p.same_bytes;
  same_flag = q.same_flag ∙ p.same_flag;
}
KeepsCode-trans j k (branched a l) p q = q
KeepsCode-trans j k (left l) p q = q
KeepsCode-trans j k (exited l) p q = tt
KeepsCode-trans j k undefined_shift p q = tt
KeepsCode-trans j k lost p q = tt
KeepsCode-trans j k spins p q = tt

after_wait-KeepsCode : (j : Jit) (o : Option (ℕ × Clock)) → KeepsCode j (after_wait j o)
after_wait-KeepsCode j none = tt
after_wait-KeepsCode j (some (keys, c)) =
    let k : Jit = record j {
      machine = record j.machine { clock = c };
      program_over = j.program_over || bench_done c;
    } in
    KeepsCode-trans j k (jit_take_keys keys k)
      (record { same_memory = refl; same_cache = refl; same_bytes = refl; same_flag = refl })
      (take_keys-KeepsCode k keys)

-- A property of the state that a run goes on, branches or returns in.
abbrev pub Holds : (Jit → Type 0) → Native → Type 0
Holds P (on j) = P j
Holds P (branched a j) = P j
Holds P (left j) = P j
Holds P _ = Unit

pub SameCode-IsCoherent : (j k : Jit) → SameCode j k → IsCoherent j → IsCoherent k
SameCode-IsCoherent j k s h off =
    UpToDate-Agree j k s.same_cache s.same_bytes (λ a on. ap (λ mem. mem a) (sym s.same_memory))
      (h (sym s.same_flag ∙ off))

pub machine-IsCoherent :
    (j : Jit) (m : Machine)
    → m.memory ≡ j.machine.memory
    → IsCoherent j
    → IsCoherent (with_machine m j)
machine-IsCoherent j m e h = SameCode-IsCoherent j (with_machine m j) (SameCode-machine j m e) h

KeepsCode-IsCoherent : (j : Jit) (r : Native) → KeepsCode j r → IsCoherent j → Holds IsCoherent r
KeepsCode-IsCoherent j (on k) s h = SameCode-IsCoherent j k s h
KeepsCode-IsCoherent j (branched a k) s h = absurd s
KeepsCode-IsCoherent j (left k) s h = absurd s
KeepsCode-IsCoherent j (exited k) s h = tt
KeepsCode-IsCoherent j undefined_shift s h = tt
KeepsCode-IsCoherent j lost s h = tt
KeepsCode-IsCoherent j spins s h = tt

pub call-IsCoherent : (fn : HostFn) (j : Jit) → IsCoherent j → Holds IsCoherent (call_function fn j)
unfolding call_function jit_load_on_key jit_random_byte jit_restore_registers sync_timers
call-IsCoherent clearscreen_fn j h =
    machine-IsCoherent j (record j.machine { display = clearscreen_io }) refl h
call-IsCoherent retern_fn j h = KeepsCode-IsCoherent j (jit_retern j) (retern-KeepsCode j) h
call-IsCoherent call_fn j h = KeepsCode-IsCoherent j (jit_call j) (call-KeepsCode j) h
call-IsCoherent random_byte_fn j h = machine-IsCoherent j (jit_random_byte j.machine) refl h
call-IsCoherent draw_fn j h = SameCode-IsCoherent j (jit_draw j) (draw-KeepsCode j) h
call-IsCoherent skip_key_x_down_fn j h =
    KeepsCode-IsCoherent j (jit_skip_key_x false j) (skip_key_x-KeepsCode j false) h
call-IsCoherent skip_key_x_up_fn j h =
    KeepsCode-IsCoherent j (jit_skip_key_x true j) (skip_key_x-KeepsCode j true) h
call-IsCoherent load_on_key_fn j h =
    KeepsCode-IsCoherent j (jit_load_on_key j) (after_wait-KeepsCode j _) h
call-IsCoherent sync_timers_fn j h = machine-IsCoherent j (sync_timers j.machine) (ground arith) h
call-IsCoherent store_bcd_fn j h = perform_bcd j h
call-IsCoherent save_registers_fn j h = perform_save j h
call-IsCoherent restore_registers_fn j h =
    machine-IsCoherent j (jit_restore_registers j.machine) refl h
