-- ===== src/Jit/Native/Whole.antt =====
-- A trace of src/libgccjit_jit.c, with its loops, does what src/interp.c does.
use chip_eight_jit.Common.{
  ℕ, zero, suc, ◌≡◌, refl, sym, ap, ◌∙◌, subst, Option, some, List, Array, Below,
}
use chip_eight_jit.Machine.{Machine, IsWellFormed, u8}
use chip_eight_jit.Interp.Outcome.{Outcome, stepped, failed, undefined, hangs}
use chip_eight_jit.Interp.Step.WellFormed.{Ends, Keeps, basic_block-Keeps}
use chip_eight_jit.Interp.Run.Instructions.{fetch, instruction, instructions}
use chip_eight_jit.Interp.Alike.{Alike}
use chip_eight_jit.Jit.Trace.{Piece, codegen, compiled}
use chip_eight_jit.Jit.Marks.{Marks}
use chip_eight_jit.Jit.Dispatch.{Code, Jit}
use chip_eight_jit.Jit.Inline.{documented_operate, documented_compares}
use chip_eight_jit.Jit.Helpers.{Native, on, branched, left, exited, undefined_shift, lost, spins}
use chip_eight_jit.Jit.Native.{run_pieces, follow, run_trace, find_block}
use chip_eight_jit.Jit.Native.Agrees.{at_address, Steps, Fails, Agrees}
use chip_eight_jit.Jit.Native.Shape.{Follows}
use chip_eight_jit.Jit.Native.Found.{Follows-find_block, codegen-Follows}
use chip_eight_jit.Jit.Native.Refines.{fetch-IsWellFormed, At, pieces-Agrees}

-- How a run of a whole trace from a machine ends: where the interpreter comes by some more instructions. A run
-- that outlives its fuel is left open.
abbrev pub Simulates : Machine → Native → Type 0
Simulates m (on j) = ⊥
Simulates m (branched a j) = ⊥
Simulates m (left j) = Steps (stepped m) j.machine
Simulates m (exited j) = Fails (stepped m) j.machine
Simulates m undefined_shift = (n : ℕ) × (instructions n (stepped m) ≡ undefined)
Simulates m lost = ⊥
Simulates m spins = Unit

-- Some instructions, and then some more.
add_instructions :
    (n k : ℕ) (o : Outcome) → (l : ℕ) × (instructions l o ≡ instructions k (instructions n o))
add_instructions zero k o = (k, refl)
add_instructions (suc n) k (stepped m) =
    let (l, e) = add_instructions n k (instruction m) in (suc l, e)
add_instructions (suc n) k (failed m c) = (k, refl)
add_instructions (suc n) k undefined = (k, refl)
add_instructions (suc n) k hangs = (k, refl)

pub Simulates-instructions :
    (n : ℕ) (m s : Machine) (r : Native)
    → instructions n (stepped m) ≡ stepped s
    → Simulates s r
    → Simulates m r
Simulates-instructions n m s (on j) e h = h
Simulates-instructions n m s (branched a j) e h = h
Simulates-instructions n m s (left j) e (k, t, runs, a) =
    let (l, both) = add_instructions n k (stepped m) in
    (l, t, both ∙ ap (instructions k) e ∙ runs, a)
Simulates-instructions n m s (exited j) e (k, t, c, pc, runs, a) =
    let (l, both) = add_instructions n k (stepped m) in
    (l, t, c, pc, both ∙ ap (instructions k) e ∙ runs, a)
Simulates-instructions n m s undefined_shift e (k, runs) =
    let (l, both) = add_instructions n k (stepped m) in (l, both ∙ ap (instructions k) e ∙ runs)
Simulates-instructions n m s lost e h = h
Simulates-instructions n m s spins e h = tt

Ends-Keeps_well : (m : Machine) (o : Outcome) → Ends (Keeps m) o → Ends IsWellFormed o
Ends-Keeps_well m (stepped s) k = k.well_formed
Ends-Keeps_well m (failed s c) k = k.well_formed
Ends-Keeps_well m undefined k = tt
Ends-Keeps_well m hangs k = tt

pub instructions-IsWellFormed :
    (n : ℕ) (o : Outcome) (s : Machine)
    → Ends IsWellFormed o
    → instructions n o ≡ stepped s
    → IsWellFormed s
instructions-IsWellFormed zero o s w e = subst (Ends IsWellFormed) e w
instructions-IsWellFormed (suc n) (stepped m) s w e =
    instructions-IsWellFormed n (instruction m) s
      (Ends-Keeps_well (fetch m) (instruction m)
        (basic_block-Keeps (fetch m) (fetch-IsWellFormed m w)))
      e
instructions-IsWellFormed (suc n) (failed m c) s w e = cc
instructions-IsWellFormed (suc n) undefined s w e = cc
instructions-IsWellFormed (suc n) hangs s w e = cc

module _ (memory : Array) (bytes : Below u8 memory) (c : Code) where
  -- The whole trace, from some piece on.
  abbrev pub run_on : ℕ → Option (List Piece) → Jit → Native
  run_on fuel at j = run_trace documented_operate documented_compares fuel c at j

  -- What follows the pieces up to a branch or the end, if the branch does what it is to do.
  followed :
      (fuel : ℕ) (m : Machine) (r : Native)
      → IsWellFormed m
      → ((pc : ℕ) (ps : List Piece) (s : Machine) (k : Jit)
          → Follows memory c.pieces pc ps c.ending
          → At memory bytes c.pieces s pc k
          → Simulates s (run_on fuel (some ps) k))
      → ((a : ℕ) (ps : List Piece)
          → find_block a c.pieces ≡ some ps
          → Follows memory c.pieces a ps c.ending)
      → Agrees memory c.pieces (stepped m) r
      → Simulates m (follow (λ a k. run_on fuel (find_block a c.pieces) k) r)
  followed fuel m (on k) w next blocks h = absurd h
  followed fuel m (branched a k) w next blocks ((n, s, runs, al), pc, kept, (ps, found)) =
      let here : at_address a k.machine ≡ k.machine = ap (λ q. at_address q k.machine) (sym pc) in
      let at : At memory bytes c.pieces s a k = record {
        well_formed = instructions-IsWellFormed n (stepped m) s w runs;
        kept = kept;
        alike = subst (Alike s) (sym here) al;
      } in
      Simulates-instructions n m s _ runs (
        subst (λ at. Simulates s (run_on fuel at k)) (sym found)
          (next a ps s k (blocks a ps found) at))
  followed fuel m (left k) w next blocks h = h
  followed fuel m (exited k) w next blocks h = h
  followed fuel m undefined_shift w next blocks h = h
  followed fuel m lost w next blocks h = h
  followed fuel m spins w next blocks h = h

  pub trace-Simulates :
      (fuel pc : ℕ) (ps : List Piece) (m : Machine) (j : Jit)
      → ((a : ℕ) (ps : List Piece)
          → find_block a c.pieces ≡ some ps
          → Follows memory c.pieces a ps c.ending)
      → Follows memory c.pieces pc ps c.ending
      → At memory bytes c.pieces m pc j
      → Simulates m (run_on fuel (some ps) j)
  unfolding run_trace
  trace-Simulates zero pc ps m j blocks follows at = tt
  trace-Simulates (suc fuel) pc ps m j blocks follows at =
      followed fuel m (run_pieces documented_operate documented_compares ps c.ending j)
        at.well_formed (λ q qs s k f t. trace-Simulates fuel q qs s k blocks f t) blocks
        (pieces-Agrees memory bytes c.pieces m j follows at)

pub codegen-Simulates :
    (before after : Marks) (c : Code) (fuel : ℕ) (m : Machine) (j : Jit)
    → codegen j.machine.memory j.machine.program_counter before ≡ compiled after c.pieces c.ending
    → IsWellFormed m
    → Alike m j.machine
    → Simulates m (run_trace documented_operate documented_compares fuel c (some c.pieces) j)
codegen-Simulates before after c fuel m j made w a =
    let memory = j.machine.memory in
    let pc = j.machine.program_counter in
    let bytes : Below u8 memory =
      subst (λ (s : Machine). Below u8 s.memory) a.same_else w.memory_bytes in
    let follows = codegen-Follows memory pc before after c.pieces c.ending made in
    trace-Simulates memory bytes c fuel pc c.pieces m j
      (λ b ps found. Follows-find_block memory c.pieces b ps follows found) follows
      (record { well_formed = w; kept = refl; alike = a })
