-- ===== src/Jit/Native/Straight.antt =====
-- The pieces of one instruction, as src/libgccjit_jit.c runs them, against src/interp.c.
use chip_eight_jit.Common.{
  ℕ, ◌+◌, ◌%◌, ◌<◌, ◌≡◌, refl, ap, ◌∙◌, subst, true, false, List, [], ◌∷◌, ◌++◌, Array, Below,
  arith,
}
use chip_eight_jit.Machine.{Machine, u8, u16}
use chip_eight_jit.Interp.Outcome.{Outcome}
use chip_eight_jit.Interp.Timers.{sync_timers}
use chip_eight_jit.Interp.Step.{execute}
use chip_eight_jit.Interp.Alike.{AlikeOutcome}
use chip_eight_jit.Jit.Trace.{Piece, inline}
use chip_eight_jit.Jit.Inline.{
  run_all, documented_operate, documented_compares, inline_code, inline_arithmetic, inline_misc,
}
use chip_eight_jit.Jit.Inline.Agreement.{is_inline, synced, timer_call, execute-inline_code}
use chip_eight_jit.Jit.Dispatch.{Jit}
use chip_eight_jit.Jit.Helpers.{on, with_machine, call_function}
use chip_eight_jit.Jit.Native.{run_piece}
use chip_eight_jit.Jit.Native.Agrees.{at_address, Passes, Passes-on, run_list}

abbrev run_inline : ℕ → Machine → Machine
run_inline op m = run_all documented_operate documented_compares (inline_code op 0) (λ i. 0) m

inline-at_address :
    (op pc : ℕ) (m : Machine)
    → is_inline op ≡ true
    → run_inline op (at_address pc m) ≡ at_address pc (run_inline op m)
unfolding inline_code inline_arithmetic inline_misc
inline-at_address op pc m h = ground arith

synced-at_address :
    (op pc : ℕ) (m : Machine) → synced op (at_address pc m) ≡ at_address pc (synced op m)
unfolding sync_timers
synced-at_address op pc m = ground arith

inline-memory :
    (op : ℕ) (m : Machine) → is_inline op ≡ true → (run_inline op (synced op m)).memory ≡ m.memory
unfolding inline_code inline_arithmetic inline_misc sync_timers
inline-memory op m h = ground arith

-- The pieces behind an opcode with straight-line code.
run_inline_pieces :
    (op : ℕ) (j : Jit)
    → run_list (timer_call op ++ inline op ∷ []) j
      ≡ on (with_machine (run_inline op (synced op j.machine)) j)
unfolding run_piece call_function
run_inline_pieces op j = ground arith

-- The straight-line code of an instruction steps as the interpreter does.
module _ (memory : Array) (trace : List Piece) where
  pub inline-Passes :
      (op pc : ℕ) (o : Outcome) (j : Jit)
      → op < u16
      → Below u8 j.machine.regs
      → j.machine.memory ≡ memory
      → AlikeOutcome o (execute op (at_address pc j.machine))
      → is_inline op ≡ true
      → Passes memory trace ((pc + 2) % u16) o (run_list (timer_call op ++ inline op ∷ []) j)
  inline-Passes op pc o j small bytes kept a h =
      let m = at_address pc j.machine in
      let (_, does) =
        execute-inline_code documented_operate documented_compares (λ p w x y. refl) (λ c x y. refl)
          op 0 pc 0 0 (λ b. false) m (λ i. 0) small bytes h in
      let moved : run_inline op (synced op m)
          ≡ at_address pc (run_inline op (synced op j.machine)) =
        ap (run_inline op) (synced-at_address op pc j.machine)
        ∙ inline-at_address op pc (synced op j.machine) h in
      rw (run_inline_pieces op j) (
        Passes-on memory trace ((pc + 2) % u16) o _
          (with_machine (run_inline op (synced op j.machine)) j) (subst (AlikeOutcome o) does a)
          (ap (λ (n : Machine). record n { program_counter = (n.program_counter + 2) % u16 }) moved)
          (inline-memory op j.machine h ∙ kept))
