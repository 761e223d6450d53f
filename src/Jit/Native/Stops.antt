-- ===== src/Jit/Native/Stops.antt =====
-- Every run of a trace of src/libgccjit_jit.c comes back: its loops see that the run is over.
use chip_eight_jit.Common.{
  ℕ, zero, suc, ◌+◌, ◌-◌, ◌%◌, ◌≤◌, ◌<◌, ◌≡◌, refl, sym, subst, not, ◌&&◌, Option, some, List, [],
  ◌∷◌, ◌++◌, Array, arith, max, Bool-cases, Option-cases, inl, inr, ◌==◌,
}
use chip_eight_jit.Clock.{Clock, safepoint_interval}
use chip_eight_jit.Machine.{opcode_at, u16}
use chip_eight_jit.Jit.Marks.{Marks}
use chip_eight_jit.Jit.Trace.{
  Piece, at_block, safepoint, retire, set_pc, call_host, inline, skip_out, skip_fused, Ending,
  returned, closed, Next, goes_on, ends, bails, front, op_interval, emit, emit_jump, emit_skip,
  emit_arithmetic, emit_keyboard, emit_misc, codegen, compiled,
}
use chip_eight_jit.Jit.Inline.{documented_operate, documented_compares}
use chip_eight_jit.Jit.Dispatch.{Code, Jit}
use chip_eight_jit.Jit.Helpers.{Native, on, branched, left, exited, undefined_shift, lost, spins}
use chip_eight_jit.Jit.Native.{run_piece, follow, run_trace, find_block}
use chip_eight_jit.Jit.Native.Agrees.{run_list}
use chip_eight_jit.Jit.Native.Shape.{Follows, falls, goes, halts}
use chip_eight_jit.Jit.Native.Found.{some_inj, Follows-find_block, codegen-Follows}
use chip_eight_jit.Jit.Native.Refines.{run_documented, run_pieces-append}
use chip_eight_jit.Jit.Native.Limits.{
  Bounded, Moves, list-Moves, then-Moves, closed-Moves, returned-Moves, lower, counted_Bounded,
  safepoint_moves,
}

-- How the pieces of an instruction that ends the trace are made up.
abbrev EndsWell : Next → Type 0
EndsWell (ends ps returned) = Unit
EndsWell (ends ps (closed a)) = ps ≡ safepoint ∷ set_pc a ∷ []
EndsWell (goes_on ps next) = Unit
EndsWell bails = Unit

emit-EndsWell :
    (op pc op_count fused_op : ℕ) (seen : Marks) → EndsWell (emit op pc op_count seen fused_op)
unfolding emit emit_jump emit_skip emit_arithmetic emit_keyboard emit_misc
emit-EndsWell op pc op_count fused_op seen = ground arith

-- It begins with a block.
abbrev pub StartsBlock : List Piece → Type 0
StartsBlock (at_block pc ∷ ps) = Unit
StartsBlock _ = ⊥

pub find-StartsBlock : (a : ℕ) (ps qs : List Piece) → find_block a ps ≡ some qs → StartsBlock qs
find-StartsBlock a [] qs h = cc
find-StartsBlock a (at_block pc ∷ ps) qs h = elim (Bool-cases (pc == a)) [
  | inl here ↦
      let found : some (at_block pc ∷ ps) ≡ some qs = ground (arith, h, here) in
      subst StartsBlock (some_inj found) tt
  | inr later ↦ find-StartsBlock a ps qs (ground (arith, h, later))
]
find-StartsBlock a (safepoint ∷ ps) qs h = find-StartsBlock a ps qs h
find-StartsBlock a (retire n ∷ ps) qs h = find-StartsBlock a ps qs h
find-StartsBlock a (set_pc n ∷ ps) qs h = find-StartsBlock a ps qs h
find-StartsBlock a (call_host f ∷ ps) qs h = find-StartsBlock a ps qs h
find-StartsBlock a (inline op ∷ ps) qs h = find-StartsBlock a ps qs h
find-StartsBlock a (skip_out op n ∷ ps) qs h = find-StartsBlock a ps qs h
find-StartsBlock a (skip_fused op n b ∷ ps) qs h = find-StartsBlock a ps qs h

module _ (memory : Array) (trace : List Piece) (budget limit : ℕ)
    (above : budget + safepoint_interval ≤ limit) where
  abbrev WithinLimits : ℕ → Jit → Type 0
  WithinLimits = Bounded budget limit above

  abbrev MovesOn : ℕ → Native → Type 0
  MovesOn = Moves budget limit above

  -- The pieces in front of an instruction count one.
  front-Moves :
      (low pc op_count : ℕ) (j : Jit)
      → WithinLimits low j
      → MovesOn (suc low) (run_list (front pc op_count) j)
  unfolding run_piece
  front-Moves low pc op_count j b =
      let (k, runs, c, f) = safepoint_moves budget limit above low j b in
      elim (Bool-cases (not (op_count == 0) && op_count % op_interval == 0)) [
        | inl periodic ↦ rw (periodic, runs) (counted_Bounded budget limit above low k c)
        | inr usual ↦ rw (usual) (counted_Bounded budget limit above low j b)
      ]

  ends-Moves :
      (low : ℕ) (ps : List Piece) (e : Ending) (j : Jit)
      → WithinLimits low j
      → EndsWell (ends ps e)
      → MovesOn low (run_documented ps e j)
  ends-Moves low ps returned j b h = returned-Moves budget limit above low ps j b
  ends-Moves low ps (closed a) j b h =
      subst (λ qs. MovesOn low (run_documented qs (closed a) j)) (sym h)
        (closed-Moves budget limit above low a j b)

  -- The pieces up to a branch or the end; those from a block on count one.
  pub pieces_move :
      {pc : ℕ} {ps : List Piece} {e : Ending} (low : ℕ) (j : Jit)
      → Follows memory trace pc ps e
      → WithinLimits low j
      → MovesOn low (run_documented ps e j)
        × (StartsBlock ps → MovesOn (suc low) (run_documented ps e j))
  pieces_move low j (falls {pc} block) b =
      (closed-Moves budget limit above low pc j b, λ h. absurd h)
  pieces_move low j (goes {pc} {next} {body} {rest} {e} op_count seen blocks emitted rests) b =
      let counted : MovesOn (suc low) (run_documented (front pc op_count ++ (body ++ rest)) e j) =
        subst (MovesOn (suc low)) (sym (run_pieces-append (front pc op_count) (body ++ rest) e j)) (
          then-Moves budget limit above (suc low) _ _ (front-Moves low pc op_count j b) (λ k c.
            subst (MovesOn (suc low)) (sym (run_pieces-append body rest e k)) (
              then-Moves budget limit above (suc low) _ _
                (list-Moves budget limit above (suc low) body k c)
                (λ l d. (pieces_move (suc low) l rests d).0)))) in
      (lower budget limit above low _ counted, λ h. counted)
  pieces_move low j (halts {pc} {body} {e} op_count seen blocks emitted) b =
      let well : EndsWell (ends body e) = subst EndsWell emitted (
        emit-EndsWell (opcode_at memory pc) pc op_count (opcode_at memory ((pc + 2) % u16)) seen) in
      let counted : MovesOn (suc low) (run_documented (front pc op_count ++ body) e j) =
        subst (MovesOn (suc low)) (sym (run_pieces-append (front pc op_count) body e j)) (
          then-Moves budget limit above (suc low) _ _ (front-Moves low pc op_count j b)
            (λ k c. ends-Moves (suc low) body e k c well)) in
      (lower budget limit above low _ counted, λ h. counted)

-- The run does not outlive its fuel.
abbrev pub Stopped : Native → Type 0
Stopped spins = ⊥
Stopped _ = Unit

module _ (memory : Array) (c : Code) (budget limit : ℕ)
    (above : budget + safepoint_interval ≤ limit)
    (blocks : (a : ℕ) (ps : List Piece)
      → find_block a c.pieces ≡ some ps
      → Follows memory c.pieces a ps c.ending) where
  abbrev run_code : ℕ → Option (List Piece) → Jit → Native
  run_code fuel at j = run_trace documented_operate documented_compares fuel c at j

  -- Behind a branch.
  follow_stops :
      (fuel low : ℕ) (r : Native)
      → limit - low < fuel
      → ((a : ℕ) (ps : List Piece) (k : Jit)
          → Follows memory c.pieces a ps c.ending
          → StartsBlock ps
          → Bounded budget limit above low k
          → k.machine.clock.retired < limit
          → Stopped (run_code fuel (some ps) k))
      → Moves budget limit above low r
      → Stopped (follow (λ a k. run_code fuel (find_block a c.pieces) k) r)
  unfolding run_trace
  follow_stops zero low r room next h = absurd (omega arith)
  follow_stops (suc fuel) low (on k) room next h = tt
  follow_stops (suc fuel) low (branched a k) room next (b, before) =
      elim (Option-cases (find_block a c.pieces)) [
        | inl nowhere ↦ rw (nowhere) tt
        | inr (ps, found) ↦
            subst (λ at. Stopped (run_code (suc fuel) at k)) (sym found)
              (next a ps k (blocks a ps found) (find-StartsBlock a c.pieces ps found) b before)
      ]
  follow_stops (suc fuel) low (left k) room next h = tt
  follow_stops (suc fuel) low (exited k) room next h = tt
  follow_stops (suc fuel) low undefined_shift room next h = tt
  follow_stops (suc fuel) low lost room next h = tt
  follow_stops (suc fuel) low spins room next h = h

  blocks_stop :
      (fuel low pc : ℕ) (ps : List Piece) (j : Jit)
      → Follows memory c.pieces pc ps c.ending
      → StartsBlock ps
      → Bounded budget limit above low j
      → low < limit
      → limit - low < fuel
      → Stopped (run_code fuel (some ps) j)
  unfolding run_trace
  blocks_stop zero low pc ps j follows starts b room enough = absurd (omega arith)
  blocks_stop (suc fuel) low pc ps j follows starts b room enough =
      follow_stops fuel (suc low) (run_documented ps c.ending j) (omega (arith, room, enough))
        (λ a qs k f g d before.
          blocks_stop fuel (suc low) a qs k f g d (omega (arith, d.low_le, before))
            (omega (arith, room, enough)))
        ((pieces_move memory c.pieces budget limit above low j follows b).1 starts)

  pub trace_stops :
      (fuel low pc : ℕ) (ps : List Piece) (j : Jit)
      → Follows memory c.pieces pc ps c.ending
      → Bounded budget limit above low j
      → limit - low < fuel
      → Stopped (run_code (suc fuel) (some ps) j)
  unfolding run_trace
  trace_stops fuel low pc ps j follows b enough =
      follow_stops fuel low (run_documented ps c.ending j) enough
        (λ a qs k f g d before.
          blocks_stop fuel low a qs k f g d (omega (arith, d.low_le, before)) enough)
        (pieces_move memory c.pieces budget limit above low j follows b).0

-- No run of a trace counts beyond this.
abbrev pub count_limit : Clock → ℕ
count_limit c = max c.next_safepoint (c.budget + safepoint_interval)

pub codegen-Stopped :
    (before after : Marks) (c : Code) (fuel : ℕ) (j : Jit)
    → codegen j.machine.memory j.machine.program_counter before ≡ compiled after c.pieces c.ending
    → count_limit j.machine.clock - j.machine.clock.retired < fuel
    → Stopped (run_trace documented_operate documented_compares (suc fuel) c (some c.pieces) j)
codegen-Stopped before after c fuel j made enough =
    let memory = j.machine.memory in
    let pc = j.machine.program_counter in
    let clock = j.machine.clock in
    let follows = codegen-Follows memory pc before after c.pieces c.ending made in
    trace_stops memory c clock.budget (count_limit clock) (omega arith)
      (λ b ps found. Follows-find_block memory c.pieces b ps follows found) fuel clock.retired pc
      c.pieces j follows
      (record { low_le = omega arith; budget_eq = refl; next_le = λ h. omega arith }) enough
