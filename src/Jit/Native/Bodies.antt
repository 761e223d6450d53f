-- ===== src/Jit/Native/Bodies.antt =====
-- Every instruction as src/libgccjit_jit.c emits and runs it, against src/interp.c.
use chip_eight_jit.Common.{
  ℕ, ◌+◌, ◌%◌, ◌/◌, ◌^◌, ◌<◌, ◌≡◌, refl, ap, ◌∙◌, subst, true, false, List, [], ◌∷◌, ◌++◌, Array,
  Below, arith, ◌==◌,
}
use chip_eight_jit.Machine.{Machine, u8, u16, opcode_at, immediate_eight, immediate_twelve}
use chip_eight_jit.Screen.{clearscreen_io}
use chip_eight_jit.Interp.Outcome.{Outcome, stepped, failed, undefined, hangs}
use chip_eight_jit.Interp.Timers.{interrupt, sync_timers}
use chip_eight_jit.Interp.Step.{execute, dispatch, keyboard, miscellaneous}
use chip_eight_jit.Interp.Alu.{random_byte}
use chip_eight_jit.Interp.Control.{retern, call, branch}
use chip_eight_jit.Interp.Draw.{draw, clearscreen}
use chip_eight_jit.Interp.Input.{skip_key_x, load_on_key}
use chip_eight_jit.Interp.Transfer.{store_bcd, save_registers, restore_registers}
use chip_eight_jit.Interp.Alike.{IsFit, times, AlikeOutcome}
use chip_eight_jit.Jit.Trace.{
  Piece, inline, HostFn, returned, call_host, clearscreen_fn, retern_fn, call_fn, random_byte_fn,
  draw_fn, skip_key_x_down_fn, skip_key_x_up_fn, load_on_key_fn, store_bcd_fn, save_registers_fn,
  restore_registers_fn, Next, ends, call_host_op, step_and_continue,
}
use chip_eight_jit.Jit.Dispatch.{Jit, check_interrupt}
use chip_eight_jit.Jit.Inline.{run_all, inline_code, documented_operate, documented_compares}
use chip_eight_jit.Jit.Inline.Agreement.{is_inline, timer_call}
use chip_eight_jit.Jit.Helpers.{
  Native, on, left, exited, undefined_shift, spins, op_here, call_function, jit_draw,
  jit_random_byte, jit_restore_registers, with_machine,
}
use chip_eight_jit.Jit.Native.{at_pc, then_on, run_piece, run_pieces, run_ending}
use chip_eight_jit.Jit.Native.Agrees.{
  at_address, Agrees, Passes, Does, Passes-on, no_more, Fails-now, undefined_now,
}
use chip_eight_jit.Jit.Native.Straight.{inline-Passes}
use chip_eight_jit.Jit.Native.Calls.{
  FunctionDoes, at_pc_next, retern-Does, call-Does, skip_key_x-Does, draw-Does, random_byte-Does,
  restore_registers-Does, store_bcd-Does, save_registers-Does, load_on_key-Does,
}

-- The opcode is told by its high nibble.
abbrev pub Plain : ℕ → ℕ → Type 0
Plain op n = ((op == 0x00e0) ≡ false) × ((op == 0x00ee) ≡ false) × ((op / 2 ^ 12 == n) ≡ true)

-- By its low byte, too.
abbrev pub PlainLow : ℕ → ℕ → ℕ → Type 0
PlainLow op n kk = Plain op n × ((immediate_eight op == kk) ≡ true)

module _ (memory : Array) (trace : List Piece) (o : Outcome) where
  -- A trace that returns behind a helper.
  returns :
      (p : Outcome) (r : Native)
      → AlikeOutcome o p
      → FunctionDoes p r
      → Agrees memory trace o (then_on r left)
  returns (stepped s) (on k) a e = no_more o k.machine (subst (λ t. AlikeOutcome o (stepped t)) e a)
  returns (failed s c) (exited k) a (pc, e) = Fails-now o s k.machine c pc a e
  returns undefined undefined_shift a h = undefined_now o a
  returns hangs spins a h = tt
  returns _ _ a h = absurd h

  -- One that goes on behind a helper.
  continues :
      (p : Outcome) (k : Jit)
      → AlikeOutcome o p
      → FunctionDoes p (on (at_pc_next k))
      → k.machine.memory ≡ memory
      → Passes memory trace ((k.machine.program_counter + 2) % u16) o (on k)
  continues (stepped s) k a e kept =
      Passes-on memory trace ((k.machine.program_counter + 2) % u16) o s k a e kept
  continues (failed s c) k a h kept = absurd h
  continues undefined k a h kept = absurd h
  continues hangs k a h kept = absurd h

module _ (memory : Array) (trace : List Piece) (op pc : ℕ) (small : op < u16) (o : Outcome)
    (j : Jit) (here : opcode_at memory pc ≡ op) (kept : j.machine.memory ≡ memory)
    (bytes : Below u8 j.machine.regs) (fit : IsFit (times j.machine))
    (a : AlikeOutcome o (execute op (at_address pc j.machine))) where
  abbrev m : Machine
  m = at_address pc j.machine

  abbrev here_too : op_here m ≡ op
  here_too = ap (λ b. opcode_at b pc) kept ∙ here

  abbrev pub DoesHere : Next → Type 0
  DoesHere = Does memory trace o j

  -- By the handler that the opcode stands for.
  alike_by : (p : Outcome) → execute op m ≡ p → AlikeOutcome o p
  alike_by p e = subst (AlikeOutcome o) e a

  pub clearscreen-Does :
      (op == 0x00e0) ≡ true → DoesHere (step_and_continue pc (call_host clearscreen_fn ∷ []))
  unfolding execute clearscreen run_piece call_function
  clearscreen-Does h =
      continues memory trace o (clearscreen op m)
        (record j { machine = record m { display = clearscreen_io } })
        (alike_by (clearscreen op m) (rw (h) refl)) refl kept

  pub retern_returns :
      (op == 0x00e0) ≡ false
      → (op == 0x00ee) ≡ true
      → DoesHere (ends (call_host retern_fn ∷ []) returned)
  unfolding execute run_pieces run_piece run_ending call_function
  retern_returns g h =
      returns memory trace o (retern op m) _ (alike_by (retern op m) (rw (g, h) refl))
        (retern-Does op j pc)

  pub dispatched : (n : ℕ) → Plain op n → execute op m ≡ dispatch n op m
  unfolding execute
  dispatched n (p, q, r) = ground arith

  abbrev Returning : HostFn → Type 0
  Returning fn = DoesHere (ends (call_host_op pc fn) returned)

  pub call_returns : Plain op 2 → Returning call_fn
  unfolding dispatch run_pieces run_piece run_ending call_function
  call_returns h =
      returns memory trace o (call op m) _ (alike_by (call op m) (dispatched 2 h))
        (call-Does op (at_pc pc j) here_too)

  abbrev here_j : Jit
  here_j = at_pc pc j

  draw-memory : (jit_draw here_j).machine.memory ≡ j.machine.memory
  unfolding jit_draw check_interrupt interrupt sync_timers
  draw-memory = ground arith

  draw-pc : (jit_draw here_j).machine.program_counter ≡ pc
  unfolding jit_draw check_interrupt interrupt sync_timers
  draw-pc = ground arith

  abbrev GoingOn : HostFn → Type 0
  GoingOn fn = DoesHere (step_and_continue pc (call_host_op pc fn))

  pub draw_goes_on : Plain op 0xd → GoingOn draw_fn
  unfolding dispatch run_piece call_function
  draw_goes_on h =
      subst (λ q. Passes memory trace ((q + 2) % u16) o (on (jit_draw here_j))) draw-pc
        (continues memory trace o (draw op m) (jit_draw here_j)
          (alike_by (draw op m) (dispatched 0xd h)) (draw-Does op here_j here_too)
          (draw-memory ∙ kept))

  pub random_goes_on : Plain op 0xc → GoingOn random_byte_fn
  unfolding dispatch run_piece call_function jit_random_byte
  random_goes_on h =
      continues memory trace o (random_byte op m) (with_machine (jit_random_byte m) here_j)
        (alike_by (random_byte op m) (dispatched 0xc h)) (random_byte-Does op here_j here_too) kept

  keyboard_by : (kk : ℕ) (p : Outcome) → PlainLow op 0xe kk → keyboard op m ≡ p → AlikeOutcome o p
  unfolding dispatch
  keyboard_by kk p (h, l) e = alike_by p (dispatched 0xe h ∙ e)

  misc_by : (kk : ℕ) (p : Outcome) → PlainLow op 0xf kk → miscellaneous op m ≡ p → AlikeOutcome o p
  unfolding dispatch
  misc_by kk p (h, l) e = alike_by p (dispatched 0xf h ∙ e)

  pub key_down_returns : PlainLow op 0xe 0x9e → Returning skip_key_x_down_fn
  unfolding keyboard run_pieces run_piece run_ending call_function
  key_down_returns h =
      returns memory trace o (skip_key_x false op m) _ (keyboard_by 0x9e _ h (rw (h.1) refl))
        (skip_key_x-Does op here_j false here_too)

  pub key_up_returns : PlainLow op 0xe 0xa1 → Returning skip_key_x_up_fn
  unfolding keyboard run_pieces run_piece run_ending call_function
  key_up_returns h =
      returns memory trace o (skip_key_x true op m) _ (keyboard_by 0xa1 _ h (ground (arith, h)))
        (skip_key_x-Does op here_j true here_too)

  pub load_on_key_returns : PlainLow op 0xf 0x0a → Returning load_on_key_fn
  unfolding miscellaneous run_pieces run_piece run_ending call_function
  load_on_key_returns h =
      returns memory trace o (load_on_key op m) _ (misc_by 0x0a _ h (ground (arith, h)))
        (load_on_key-Does op here_j here_too)

  pub store_bcd_returns : PlainLow op 0xf 0x33 → Returning store_bcd_fn
  unfolding miscellaneous run_pieces run_piece run_ending call_function
  store_bcd_returns h =
      returns memory trace o (store_bcd op m) _ (misc_by 0x33 _ h (ground (arith, h)))
        (store_bcd-Does op here_j here_too)

  pub save_registers_returns : PlainLow op 0xf 0x55 → Returning save_registers_fn
  unfolding miscellaneous run_pieces run_piece run_ending call_function
  save_registers_returns h =
      returns memory trace o (save_registers op m) _ (misc_by 0x55 _ h (ground (arith, h)))
        (save_registers-Does op here_j here_too)

  pub restore_goes_on : PlainLow op 0xf 0x65 → GoingOn restore_registers_fn
  unfolding miscellaneous run_piece call_function jit_restore_registers
  restore_goes_on h =
      continues memory trace o (restore_registers op m)
        (with_machine (jit_restore_registers m) here_j) (misc_by 0x65 _ h (ground (arith, h)))
        (restore_registers-Does op here_j here_too) kept

  branch_code :
      Plain op 0xb
      → run_all documented_operate documented_compares (inline_code op 0) (λ i. 0) j.machine
        ≡ record j.machine { program_counter = (immediate_twelve op + j.machine.regs 0) % u16 }
  unfolding inline_code
  branch_code (p, q, r) = ground (arith, bytes 0)

  pub branch_returns : Plain op 0xb → DoesHere (ends (inline op ∷ []) returned)
  unfolding dispatch branch run_pieces run_piece run_ending
  branch_returns h = rw (branch_code h) (no_more o _ (alike_by (branch op m) (dispatched 0xb h)))

  pub inline_goes_on :
      is_inline op ≡ true → DoesHere (step_and_continue pc (timer_call op ++ inline op ∷ []))
  inline_goes_on h = inline-Passes memory trace op pc o j small bytes kept a h
