-- ===== src/Jit/Native/Refines.antt =====
-- A whole trace of src/libgccjit_jit.c does what src/interp.c does.
use chip_eight_jit.Common.{
  ℕ, ◌+◌, ◌%◌, ◌≡◌, refl, sym, ap, ◌∙◌, subst, not, ◌&&◌, List, [], ◌∷◌, ◌++◌, Array, Below,
  Bool-cases, inl, inr, ◌==◌,
}
use chip_eight_jit.Machine.{Machine, IsWellFormed, u8, u16, opcode_at}
use chip_eight_jit.Interp.Outcome.{stepped}
use chip_eight_jit.Interp.Step.{execute, basic_block}
use chip_eight_jit.Interp.Step.WellFormed.{Ends, Keeps, basic_block-Keeps, all_keys_down-Keeps}
use chip_eight_jit.Interp.Step.Errors.Codes.{opcode_at-lt}
use chip_eight_jit.Interp.Run.Laws.{retire-IsWellFormed}
use chip_eight_jit.Interp.Run.Instructions.{fetch, instruction}
use chip_eight_jit.Interp.Alike.{IsFit, times, Alike, AlikeOutcome}
use chip_eight_jit.Interp.Alike.Later.{Alike-trans, Alike-refl}
use chip_eight_jit.Interp.Alike.Step.{retire-Alike, fetch-Alike, basic_block-Alike}
use chip_eight_jit.Jit.Trace.{Piece, safepoint, set_pc, Ending, closed, front, op_interval}
use chip_eight_jit.Jit.Marks.{Marks}
use chip_eight_jit.Jit.Dispatch.{Jit}
use chip_eight_jit.Jit.Inline.{documented_operate, documented_compares}
use chip_eight_jit.Jit.Helpers.{
  Native, on, branched, left, exited, undefined_shift, lost, spins, with_machine,
}
use chip_eight_jit.Jit.Native.{retired_by, then_on, run_piece, run_pieces, run_ending}
use chip_eight_jit.Jit.Native.Agrees.{
  at_address, Agrees, Agrees-instruction, Passes, Does, run_list, HasBlock,
}
use chip_eight_jit.Jit.Native.Safepoint.{run_safepoint-Unseen}
use chip_eight_jit.Jit.Native.Jumps.{arrives}
use chip_eight_jit.Jit.Native.Emits.{emit-Does}
use chip_eight_jit.Jit.Native.Shape.{emitted_at, AllBlocks, Follows, falls, goes, halts}

pub fetch-IsWellFormed : (m : Machine) → IsWellFormed m → IsWellFormed (fetch m)
fetch-IsWellFormed m w = retire-IsWellFormed _ (all_keys_down-Keeps m w).well_formed

abbrev pub run_documented : List Piece → Ending → Jit → Native
run_documented = run_pieces documented_operate documented_compares

abbrev counted : Jit → Jit
counted j = with_machine (retired_by 1 j.machine) j

-- The counting in front of an instruction.
counts :
    (pc op_count : ℕ) (j : Jit)
    → IsFit (times j.machine)
    → (k : Jit) × ((ps : List Piece) (e : Ending)
        → run_documented (front pc op_count ++ ps) e j ≡ run_documented ps e k)
      × (k.machine.memory ≡ j.machine.memory)
      × ((q : ℕ) → Alike (at_address q (retired_by 1 j.machine)) (at_address q k.machine))
unfolding run_pieces run_piece
counts pc op_count j fit =
    let (k, runs, (same, unseen)) = run_safepoint-Unseen j fit in
    elim (Bool-cases (not (op_count == 0) && op_count % op_interval == 0)) [
      | inl periodic ↦ (
        counted k,
        λ ps e. rw (periodic, runs) refl,
        same,
        λ q. retire-Alike (at_address q j.machine) (at_address q k.machine) (unseen q),
      )
      | inr usual ↦ (
        counted j,
        λ ps e. rw (usual) refl,
        refl,
        λ q.
            retire-Alike (at_address q j.machine) (at_address q j.machine)
              (Alike-refl (at_address q j.machine) fit),
      )
    ]

then_on_twice :
    (r : Native) (f g h : Jit → Native)
    → ((k : Jit) → f k ≡ then_on (g k) h)
    → then_on r f ≡ then_on (then_on r g) h
then_on_twice (on k) f g h e = e k
then_on_twice (branched a k) f g h e = refl
then_on_twice (left k) f g h e = refl
then_on_twice (exited k) f g h e = refl
then_on_twice undefined_shift f g h e = refl
then_on_twice lost f g h e = refl
then_on_twice spins f g h e = refl

pub run_pieces-append :
    (ps qs : List Piece) (e : Ending) (j : Jit)
    → run_documented (ps ++ qs) e j ≡ then_on (run_list ps j) (λ k. run_documented qs e k)
unfolding run_pieces
run_pieces-append [] qs e j = refl
run_pieces-append (p ∷ ps) qs e j =
    then_on_twice (run_piece documented_operate documented_compares p j)
      (λ k. run_documented (ps ++ qs) e k) (λ k. run_list ps k) (λ k. run_documented qs e k)
      (λ k. run_pieces-append ps qs e k)

stepped-IsWellFormed : (m s : Machine) → IsWellFormed m → instruction m ≡ stepped s → IsWellFormed s
stepped-IsWellFormed m s w e =
    (subst (Ends (Keeps (fetch m))) e
      (basic_block-Keeps (fetch m) (fetch-IsWellFormed m w))).well_formed

module _ (memory : Array) (bytes : Below u8 memory) (trace : List Piece) where
  -- At an address of the trace, the interpreter and the native code have come to the same.
  pub record At (m : Machine) (pc : ℕ) (j : Jit) : Type 0 where
    pub well_formed : IsWellFormed m
    pub kept : j.machine.memory ≡ memory
    pub alike : Alike m (at_address pc j.machine)

  -- Behind an instruction that goes on, the rest of the trace follows.
  Passes-through :
      (m : Machine) (next : ℕ) (r : Native) (rest : Jit → Native)
      → IsWellFormed m
      → Passes memory trace next (instruction m) r
      → ((s : Machine) (k : Jit) → At s next k → Agrees memory trace (stepped s) (rest k))
      → Agrees memory trace (stepped m) (then_on r rest)
  Passes-through m next (on k) rest w (s, e, a, kept) go =
      Agrees-instruction memory trace m (rest k) (
        subst (λ o. Agrees memory trace o (rest k)) (sym e)
          (go s k (record { well_formed = stepped-IsWellFormed m s w e; kept = kept; alike = a })))
  Passes-through m next (branched a k) rest w h go =
      Agrees-instruction memory trace m (branched a k) h
  Passes-through m next (left k) rest w h go = Agrees-instruction memory trace m (left k) h
  Passes-through m next (exited k) rest w h go = Agrees-instruction memory trace m (exited k) h
  Passes-through m next undefined_shift rest w h go =
      Agrees-instruction memory trace m undefined_shift h
  Passes-through m next lost rest w h go = h
  Passes-through m next spins rest w h go = tt

  -- What is emitted at an address, run behind the counting.
  emitted-Does :
      (m : Machine) (pc op_count : ℕ) (seen : Marks) (j : Jit)
      → AllBlocks memory trace seen
      → IsWellFormed m
      → j.machine.memory ≡ memory
      → Alike (fetch m) (at_address pc j.machine)
      → Does memory trace (instruction m) j (emitted_at memory pc op_count seen)
  unfolding basic_block
  emitted-Does m pc op_count seen j blocks w kept a =
      let op = opcode_at memory pc in
      let regs : Below u8 j.machine.regs =
        subst (λ (s : Machine). Below u8 s.regs) a.same_else (fetch-IsWellFormed m w).reg_bytes in
      let both =
        basic_block-Alike (fetch m) (at_address pc j.machine) (fetch-IsWellFormed m w).reg_bytes
          a in
      let here : basic_block (at_address pc j.machine) ≡ execute op (at_address pc j.machine) =
        ap (λ b. execute (opcode_at b pc) (at_address pc j.machine)) kept in
      emit-Does memory trace op pc (opcode_at memory ((pc + 2) % u16))
        (opcode_at-lt memory pc bytes) (opcode_at-lt memory ((pc + 2) % u16) bytes) (instruction m)
        j refl refl kept regs a.alike_times.second_fit
        (subst (AlikeOutcome (instruction m)) here both) op_count seen blocks

  -- The trace has come back to a block of its own.
  falls-Agrees :
      (m : Machine) (pc : ℕ) (j : Jit)
      → HasBlock memory trace pc
      → At m pc j
      → Agrees memory trace (stepped m) (run_documented (safepoint ∷ set_pc pc ∷ []) (closed pc) j)
  unfolding run_pieces run_piece run_ending
  falls-Agrees m pc j block t =
      let (k, runs, (same, unseen)) = run_safepoint-Unseen j t.alike.alike_times.second_fit in
      rw (runs) (
        arrives memory trace (stepped m) pc k
          (Alike-trans m _ (at_address pc k.machine) t.alike (unseen pc)) (same ∙ t.kept) block)

  pub pieces-Agrees :
      {pc : ℕ} {ps : List Piece} {e : Ending} (m : Machine) (j : Jit)
      → Follows memory trace pc ps e
      → At m pc j
      → Agrees memory trace (stepped m) (run_documented ps e j)
  pieces-Agrees m j (falls {pc} block) t = falls-Agrees m pc j block t
  pieces-Agrees m j (goes {pc} {next} {body} {rest} {e} op_count seen blocks emitted rests) t =
      let (k, runs, same, counted) = counts pc op_count j t.alike.alike_times.second_fit in
      let a =
        Alike-trans (fetch m) _ (at_address pc k.machine)
          (fetch-Alike m (at_address pc j.machine) t.alike) (counted pc) in
      let does = emitted-Does m pc op_count seen k blocks t.well_formed (same ∙ t.kept) a in
      let passes = subst (Does memory trace (instruction m) k) emitted does in
      subst (Agrees memory trace (stepped m))
        (sym (runs (body ++ rest) e ∙ run_pieces-append body rest e k))
        (Passes-through m next (run_list body k) (λ l. run_documented rest e l) t.well_formed passes
          (λ s l at. pieces-Agrees s l rests at))
  pieces-Agrees m j (halts {pc} {body} {e} op_count seen blocks emitted) t =
      let (k, runs, same, counted) = counts pc op_count j t.alike.alike_times.second_fit in
      let a =
        Alike-trans (fetch m) _ (at_address pc k.machine)
          (fetch-Alike m (at_address pc j.machine) t.alike) (counted pc) in
      let does = emitted-Does m pc op_count seen k blocks t.well_formed (same ∙ t.kept) a in
      let agrees = subst (Does memory trace (instruction m) k) emitted does in
      subst (Agrees memory trace (stepped m)) (sym (runs body e))
        (Agrees-instruction memory trace m (run_documented body e k) agrees)
