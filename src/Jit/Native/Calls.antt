-- ===== src/Jit/Native/Calls.antt =====
-- The host functions that src/libgccjit_jit.c calls, against the handlers of src/interp.c.
use chip_eight_jit.Common.{
  ℕ, suc, ◌-◌, ◌≡◌, ◌||◌, refl, Bool, Option, none, some, arith, Bool-cases, inl, inr, ltb,
}
use chip_eight_jit.Common.Bits.{test_bit}
use chip_eight_jit.Clock.{Clock, bench_now, bench_done}
use chip_eight_jit.Machine.{Machine, stack_size, x_of, skip}
use chip_eight_jit.Interp.Outcome.{Outcome, stepped, failed, undefined, hangs}
use chip_eight_jit.Interp.Timers.{interrupt, sync_timers}
use chip_eight_jit.Interp.Alu.{random_byte}
use chip_eight_jit.Interp.Control.{retern, call}
use chip_eight_jit.Interp.Draw.{draw}
use chip_eight_jit.Interp.Input.{skip_key_x, load_on_key, take_keys, latch, poll}
use chip_eight_jit.Interp.Transfer.{store_bcd, save_registers, restore_registers}
use chip_eight_jit.Jit.Dispatch.{Jit, check_interrupt, jit_store_bcd, jit_save_registers}
use chip_eight_jit.Jit.Helpers.{
  Native, on, exited, undefined_shift, spins, op_here, jit_retern, jit_call, jit_random_byte,
  jit_skip_key_x, jit_take_keys, after_wait, jit_load_on_key, jit_draw, jit_restore_registers,
  with_machine,
}
use chip_eight_jit.Jit.Native.Agrees.{at_address}

-- Behind an instruction whose helper leaves the program counter.
abbrev pub at_pc_next : Jit → Jit
at_pc_next j = with_machine (skip j.machine) j

-- A helper and a handler, which starts from the machine of `j` with the program counter of the instruction.
abbrev pub FunctionDoes : Outcome → Native → Type 0
FunctionDoes (stepped s) (on k) = s ≡ k.machine
FunctionDoes (failed s c) (exited k) = (pc : ℕ) × (s ≡ at_address pc k.machine)
FunctionDoes undefined undefined_shift = Unit
FunctionDoes hangs spins = Unit
FunctionDoes _ _ = ⊥

pub interrupt-at_address :
    (pc : ℕ) (m : Machine) → interrupt (at_address pc m) ≡ at_address pc (interrupt m)
unfolding interrupt sync_timers
interrupt-at_address pc m = ground arith

module _ (op : ℕ) (j : Jit) where
  pub retern-Does : (pc : ℕ) → FunctionDoes (retern op (at_address pc j.machine)) (jit_retern j)
  unfolding retern jit_retern check_interrupt
  retern-Does pc =
      rw (interrupt-at_address pc j.machine)
        (elim (Bool-cases (ltb 0 (interrupt j.machine).stack_pointer)) [
          | inl full ↦ rw (full) refl
          | inr empty ↦ rw (empty) (pc, refl)
        ])

  pub call-Does : op_here j.machine ≡ op → FunctionDoes (call op j.machine) (jit_call j)
  unfolding call jit_call check_interrupt
  call-Does here =
      rw (here) (elim (Bool-cases (ltb (interrupt j.machine).stack_pointer stack_size)) [
        | inl room ↦ rw (room) refl
        | inr full ↦ rw (full) ((interrupt j.machine).program_counter, refl)
      ])

  pub skip_key_x-Does :
      (up : Bool)
      → op_here j.machine ≡ op
      → FunctionDoes (skip_key_x up op j.machine) (jit_skip_key_x up j)
  unfolding skip_key_x jit_skip_key_x
  skip_key_x-Does up here = rw (here) (ground arith)

  pub draw-Does :
      op_here j.machine ≡ op → FunctionDoes (draw op j.machine) (on (at_pc_next (jit_draw j)))
  unfolding draw jit_draw check_interrupt
  draw-Does here = rw (here) refl

  pub random_byte-Does :
      op_here j.machine ≡ op
      → FunctionDoes
          (random_byte op j.machine)
          (on (at_pc_next (with_machine (jit_random_byte j.machine) j)))
  unfolding random_byte jit_random_byte
  random_byte-Does here = rw (here) refl

  pub restore_registers-Does :
      op_here j.machine ≡ op
      → FunctionDoes
          (restore_registers op j.machine)
          (on (at_pc_next (with_machine (jit_restore_registers j.machine) j)))
  unfolding restore_registers jit_restore_registers
  restore_registers-Does here = rw (here) refl

  pub store_bcd-Does :
      op_here j.machine ≡ op → FunctionDoes (store_bcd op j.machine) (on (jit_store_bcd j))
  unfolding store_bcd jit_store_bcd
  store_bcd-Does here = rw (here) refl

  pub save_registers-Does :
      op_here j.machine ≡ op
      → FunctionDoes (save_registers op j.machine) (on (jit_save_registers j))
  unfolding save_registers jit_save_registers
  save_registers-Does here = rw (here) refl

take_keys-Does :
    (op keys : ℕ) (j : Jit)
    → op_here j.machine ≡ op
    → FunctionDoes (take_keys op keys j.machine) (jit_take_keys keys j)
unfolding take_keys jit_take_keys
take_keys-Does op keys j here =
    let s = latch keys (x_of op) 16 0 j.machine in
    rw (here) (elim (Bool-cases (test_bit keys 31)) [
      | inl quit ↦ rw (quit) (s.program_counter, refl)
      | inr more ↦ rw (more) refl
    ])

after_wait-Does :
    (op : ℕ) (j : Jit) (o : Option (ℕ × Clock))
    → op_here j.machine ≡ op
    → FunctionDoes
        (elim o [
          | none ↦ hangs
          | some (keys, c) ↦ take_keys op keys (record j.machine { clock = c })
        ])
        (after_wait j o)
after_wait-Does op j none here = tt
after_wait-Does op j (some (keys, c)) here =
    take_keys-Does op keys
      (record j {
        machine = record j.machine { clock = c };
        program_over = j.program_over || bench_done c;
      })
      here

pub load_on_key-Does :
    (op : ℕ) (j : Jit)
    → op_here j.machine ≡ op
    → FunctionDoes (load_on_key op j.machine) (jit_load_on_key j)
unfolding load_on_key jit_load_on_key
load_on_key-Does op j here =
    let c = j.machine.clock in after_wait-Does op j (poll (suc (c.clock_cap - bench_now c)) c) here
