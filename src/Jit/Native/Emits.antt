-- ===== src/Jit/Native/Emits.antt =====
-- Whatever src/libgccjit_jit.c emits for an instruction does what src/interp.c does.
use chip_eight_jit.Common.{
  ℕ, ◌+◌, ◌%◌, ◌/◌, ◌^◌, ◌<◌, ◌≡◌, refl, subst, Bool, true, false, ◌||◌, List, [], ◌∷◌, ◌++◌, Array,
  Below, arith, leb, ◌==◌, if◌then◌else◌,
}
use chip_eight_jit.Machine.{u8, u16, opcode_at, immediate_four, immediate_eight}
use chip_eight_jit.Interp.Outcome.{Outcome}
use chip_eight_jit.Interp.Step.{execute, dispatch}
use chip_eight_jit.Interp.Control.{jump}
use chip_eight_jit.Interp.Alike.{IsFit, times, AlikeOutcome}
use chip_eight_jit.Jit.Trace.{
  Piece, Next, inline, call_host, sync_timers_fn, emit, emit_jump, emit_misc, emit_keyboard,
  emit_arithmetic, step_and_continue, is_skip,
}
use chip_eight_jit.Jit.Marks.{Marks}
use chip_eight_jit.Jit.Dispatch.{Jit}
use chip_eight_jit.Jit.Inline.Agreement.{is_inline, timer_call}
use chip_eight_jit.Jit.Native.Agrees.{at_address, Does, HasBlock}
use chip_eight_jit.Jit.Native.Jumps.{jump-Alike, jump-Does}
use chip_eight_jit.Jit.Native.Skips.{skip-Does}
use chip_eight_jit.Jit.Native.Bodies.{
  Plain, clearscreen-Does, retern_returns, call_returns, draw_goes_on, random_goes_on,
  key_down_returns, key_up_returns, load_on_key_returns, store_bcd_returns, save_registers_returns,
  restore_goes_on, branch_returns, inline_goes_on,
}

-- The two ways of a conditional.
either_next :
    (P : Next → Type 0) (b : Bool) {x y : Next}
    → (b ≡ true → P x)
    → (b ≡ false → P y)
    → P (if b then x else y)
either_next P true h k = h refl
either_next P false h k = k refl

module _ (memory : Array) (trace : List Piece) (op pc fused_op : ℕ) (small : op < u16)
    (small_fused : fused_op < u16) (o : Outcome) (j : Jit) (here : opcode_at memory pc ≡ op)
    (ahead : opcode_at memory ((pc + 2) % u16) ≡ fused_op) (kept : j.machine.memory ≡ memory)
    (bytes : Below u8 j.machine.regs) (fit : IsFit (times j.machine))
    (a : AlikeOutcome o (execute op (at_address pc j.machine))) where
  abbrev Done : Next → Type 0
  Done = Does memory trace o j

  straight_Done :
      timer_call op ≡ [] → is_inline op ≡ true → Done (step_and_continue pc (inline op ∷ []))
  straight_Done none h =
      subst (λ ps. Done (step_and_continue pc (ps ++ inline op ∷ []))) none
        (inline_goes_on memory trace op pc small o j here kept bytes fit a h)

  execute-jumps :
      (op == 0x00e0) ≡ false
      → (op == 0x00ee) ≡ false
      → (op / 2 ^ 12 == 0x0 || op / 2 ^ 12 == 0x1) ≡ true
      → execute op (at_address pc j.machine) ≡ jump op (at_address pc j.machine)
  unfolding execute dispatch
  execute-jumps p q r = ground arith

  arithmetic_Done : (op / 2 ^ 12 == 8) ≡ true → Done (emit_arithmetic op pc)
  unfolding emit_arithmetic
  arithmetic_Done h =
      either_next Done (leb (immediate_four op) 7 || immediate_four op == 0xe)
        (λ p. straight_Done (ground arith) (ground (arith, p))) (λ p. tt)

  keyboard_Done : Plain op 0xe → Done (emit_keyboard op pc)
  unfolding emit_keyboard
  keyboard_Done h =
      let kk = immediate_eight op in
      either_next Done (kk == 0x9e)
        (λ p. key_down_returns memory trace op pc small o j here kept bytes fit a (h, p))
        (λ _.
          either_next Done (kk == 0xa1)
            (λ p. key_up_returns memory trace op pc small o j here kept bytes fit a (h, p))
            (λ _. tt))

  misc_Done : Plain op 0xf → Done (emit_misc op pc)
  unfolding emit_misc
  misc_Done h =
      let kk = immediate_eight op in
      either_next Done (kk == 0x07 || kk == 0x15 || kk == 0x18)
        (λ p.
          let called : timer_call op ≡ call_host sync_timers_fn ∷ [] = ground (arith, h, p) in
          subst (λ ps. Done (step_and_continue pc (ps ++ inline op ∷ []))) called
            (inline_goes_on memory trace op pc small o j here kept bytes fit a
              (ground (arith, h, p))))
        (λ p.
          either_next Done (kk == 0x0a)
            (λ q. load_on_key_returns memory trace op pc small o j here kept bytes fit a (h, q))
            (λ _.
              either_next Done (kk == 0x1e || kk == 0x29)
                (λ q. straight_Done (ground (arith, h, p)) (ground (arith, h, q)))
                (λ _.
                  either_next Done (kk == 0x33)
                    (λ q.
                      store_bcd_returns memory trace op pc small o j here kept bytes fit a (h, q))
                    (λ _.
                      either_next Done (kk == 0x55)
                        (λ q.
                          save_registers_returns memory trace op pc small o j here kept bytes fit a
                            (h, q))
                        (λ _.
                          either_next Done (kk == 0x65)
                            (λ q.
                              restore_goes_on memory trace op pc small o j here kept bytes fit a
                                (h, q))
                            (λ _. tt))))))

  jump_Done :
      (op_count : ℕ) (seen : Marks)
      → ((b : ℕ) → seen b ≡ true → HasBlock memory trace b)
      → (op == 0x00e0) ≡ false
      → (op == 0x00ee) ≡ false
      → (op / 2 ^ 12 == 0x0 || op / 2 ^ 12 == 0x1) ≡ true
      → Done (emit_jump op op_count seen)
  jump_Done op_count seen blocks p q r =
      jump-Does memory trace o op op_count seen j fit kept
        (jump-Alike op pc j.machine o fit (subst (AlikeOutcome o) (execute-jumps p q r) a)) blocks

  -- Whatever is emitted.
  pub emit-Does :
      (op_count : ℕ) (seen : Marks)
      → ((b : ℕ) → seen b ≡ true → HasBlock memory trace b)
      → Done (emit op pc op_count seen fused_op)
  unfolding emit
  emit-Does op_count seen blocks =
      let nibble = op / 2 ^ 12 in
      either_next Done (op == 0x00e0)
        (λ p. clearscreen-Does memory trace op pc small o j here kept bytes fit a p)
        (λ p.
          either_next Done (op == 0x00ee)
            (λ q. retern_returns memory trace op pc small o j here kept bytes fit a p q)
            (λ q.
              either_next Done (nibble == 0x0 || nibble == 0x1)
                (λ r. jump_Done op_count seen blocks p q r)
                (λ r0.
                  either_next Done (nibble == 0x2)
                    (λ r. call_returns memory trace op pc small o j here kept bytes fit a (p, q, r))
                    (λ r2.
                      either_next Done (is_skip op)
                        (λ r.
                          skip-Does memory trace op pc fused_op o j small small_fused r ahead kept
                            bytes fit a seen blocks)
                        (λ rs.
                          either_next Done (nibble == 0x6 || nibble == 0x7 || nibble == 0xa)
                            (λ r. straight_Done (ground (arith, r)) (ground (arith, r)))
                            (λ r6. either_next Done (nibble == 0x8) arithmetic_Done (λ r8.
                              either_next Done (nibble == 0xb)
                                (λ r.
                                  branch_returns memory trace op pc small o j here kept bytes fit a
                                    (p, q, r))
                                (λ rb.
                                  either_next Done (nibble == 0xc)
                                    (λ r.
                                      random_goes_on memory trace op pc small o j here kept bytes
                                        fit a (p, q, r))
                                    (λ rc.
                                      either_next Done (nibble == 0xd)
                                        (λ r.
                                          draw_goes_on memory trace op pc small o j here kept bytes
                                            fit a (p, q, r))
                                        (λ rd.
                                          either_next Done (nibble == 0xe)
                                            (λ r. keyboard_Done (p, q, r))
                                            (λ re. misc_Done (p, q, ground arith))))))))))))
