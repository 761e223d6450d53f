-- ===== src/Jit/Native/Agrees.antt =====
-- What it means that native code of src/libgccjit_jit.c does what src/interp.c does.
use chip_eight_jit.Common.{ℕ, suc, ◌≡◌, refl, subst, Array, some, List, [], ◌∷◌}
use chip_eight_jit.Machine.{Machine}
use chip_eight_jit.Interp.Outcome.{Outcome, stepped, failed, undefined, hangs}
use chip_eight_jit.Interp.Alike.{Alike, AlikeOutcome}
use chip_eight_jit.Interp.Alike.Later.{Alike-trans}
use chip_eight_jit.Jit.Inline.{documented_operate, documented_compares}
use chip_eight_jit.Interp.Run.Instructions.{instruction, instructions}
use chip_eight_jit.Jit.Trace.{Piece, Next, goes_on, ends, bails}
use chip_eight_jit.Jit.Dispatch.{Jit}
use chip_eight_jit.Jit.Native.{find_block, then_on, run_piece, run_pieces}
use chip_eight_jit.Jit.Helpers.{Native, on, branched, left, exited, undefined_shift, lost, spins}

abbrev pub at_address : ℕ → Machine → Machine
at_address pc m = record m { program_counter = pc }

-- Some more instructions after `o` lead to a machine that is alike.
abbrev pub Steps : Outcome → Machine → Type 0
Steps o t = (n : ℕ) × (s : Machine) × (instructions n o ≡ stepped s) × Alike s t

-- They fail. The program counter at which `errer` finds the machine may be an older one.
abbrev pub Fails : Outcome → Machine → Type 0
Fails o t =
    (n : ℕ) × (s : Machine) × (code : ℕ) × (pc : ℕ) × (instructions n o ≡ failed s code)
    × Alike s (at_address pc t)

-- One piece after the other.
abbrev pub run_list : List Piece → Jit → Native
run_list [] j = on j
run_list (p ∷ ps) j =
    then_on (run_piece documented_operate documented_compares p j) (λ k. run_list ps k)

pub Alike-outcome :
    (o : Outcome) (t u : Machine)
    → AlikeOutcome o (stepped t)
    → Alike t u
    → AlikeOutcome o (stepped u)
Alike-outcome (stepped s) t u a b = Alike-trans s t u a b
Alike-outcome (failed s c) t u a b = a
Alike-outcome undefined t u a b = a
Alike-outcome hangs t u a b = a

pub no_more : (o : Outcome) (t : Machine) → AlikeOutcome o (stepped t) → Steps o t
no_more (stepped s) t a = (0, s, refl, a)
no_more (failed s c) t a = absurd a
no_more undefined t a = absurd a
no_more hangs t a = absurd a

pub Fails-now :
    (o : Outcome) (t u : Machine) (code pc : ℕ)
    → AlikeOutcome o (failed t code)
    → t ≡ at_address pc u
    → Fails o u
Fails-now (stepped s) t u code pc a e = absurd a
Fails-now (failed s c) t u code pc (a, same) e = (0, s, c, pc, refl, subst (Alike s) e a)
Fails-now undefined t u code pc a e = absurd a
Fails-now hangs t u code pc a e = absurd a

pub undefined_now :
    (o : Outcome) → AlikeOutcome o undefined → (n : ℕ) × (instructions n o ≡ undefined)
undefined_now (stepped s) a = absurd a
undefined_now (failed s c) a = absurd a
undefined_now undefined a = (0, refl)
undefined_now hangs a = absurd a

-- A trace that has the memory, and these pieces.
module _ (memory : Array) (trace : List Piece) where
  abbrev pub HasBlock : ℕ → Type 0
  HasBlock a = (ps : List Piece) × (find_block a trace ≡ some ps)

  -- What a run of native code ends in, against what the interpreter does after `o`. Of a loop that outlives
  -- its fuel nothing is said.
  abbrev pub Agrees : Outcome → Native → Type 0
  Agrees o (on j) = ⊥
  Agrees o (branched a j) =
      Steps o j.machine × (j.machine.program_counter ≡ a) × (j.machine.memory ≡ memory) × HasBlock a
  Agrees o (left j) = Steps o j.machine
  Agrees o (exited j) = Fails o j.machine
  Agrees o undefined_shift = (n : ℕ) × (instructions n o ≡ undefined)
  Agrees o lost = ⊥
  Agrees o spins = Unit

  -- The same of the pieces of one instruction: where they go on, it has stepped to the address `next`.
  abbrev pub Passes : ℕ → Outcome → Native → Type 0
  Passes next o (on j) =
      (s : Machine) × (o ≡ stepped s)
      × Alike s (at_address next j.machine)
      × (j.machine.memory ≡ memory)
  Passes next o r = Agrees o r

  Steps-instruction : (m t : Machine) → Steps (instruction m) t → Steps (stepped m) t
  Steps-instruction m t (n, s, runs, same) = (suc n, s, runs, same)

  pub Agrees-instruction :
      (m : Machine) (r : Native) → Agrees (instruction m) r → Agrees (stepped m) r
  Agrees-instruction m (on j) h = h
  Agrees-instruction m (branched a j) (steps, pc, kept, block) =
      (Steps-instruction m j.machine steps, pc, kept, block)
  Agrees-instruction m (left j) h = Steps-instruction m j.machine h
  Agrees-instruction m (exited j) (n, s, code, pc, runs, same) = (suc n, s, code, pc, runs, same)
  Agrees-instruction m undefined_shift (n, runs) = (suc n, runs)
  Agrees-instruction m lost h = h
  Agrees-instruction m spins h = h

  -- What the interpreter does on a machine that is alike.
  pub Passes-on :
      (next : ℕ) (o : Outcome) (t : Machine) (j : Jit)
      → AlikeOutcome o (stepped t)
      → t ≡ at_address next j.machine
      → j.machine.memory ≡ memory
      → Passes next o (on j)
  Passes-on next (stepped s) t j a e h = (s, refl, subst (Alike s) e a, h)
  Passes-on next (failed s c) t j a e h = absurd a
  Passes-on next undefined t j a e h = absurd a
  Passes-on next hangs t j a e h = absurd a

  -- What is emitted for an instruction does what the interpreter does.
  abbrev pub Does : Outcome → Jit → Next → Type 0
  Does o j (goes_on ps next) = Passes next o (run_list ps j)
  Does o j (ends ps e) = Agrees o (run_pieces documented_operate documented_compares ps e j)
  Does o j bails = Unit

  -- What leaves the pieces of an instruction does so whatever follows.
  pub leaves :
      (next : ℕ) (o : Outcome) (r : Native) (rest : Jit → Native)
      → Agrees o r
      → Passes next o (then_on r rest)
  leaves next o (on j) rest h = absurd h
  leaves next o (branched a j) rest h = h
  leaves next o (left j) rest h = h
  leaves next o (exited j) rest h = h
  leaves next o undefined_shift rest h = h
  leaves next o lost rest h = h
  leaves next o spins rest h = h
