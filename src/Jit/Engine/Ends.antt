-- ===== src/Jit/Engine/Ends.antt =====
-- The loop of src/libgccjit_jit.c is left when the budget of the run is spent.
use chip_eight_jit.Common.{
  ℕ, zero, suc, ◌+◌, ◌-◌, ◌*◌, ◌≤◌, ◌<◌, ◌≡◌, refl, sym, subst, fun_ext, arith, none, some,
  Option-cases, inl, inr,
}
use chip_eight_jit.Machine.{Machine, IsWellFormed}
use chip_eight_jit.Interp.Outcome.{Outcome, stepped}
use chip_eight_jit.Interp.Run.Instructions.{instructions}
use chip_eight_jit.Interp.Alike.{OnTime}
use chip_eight_jit.Jit.Trace.{Compiled, compiled, bailed, outside, endless, codegen}
use chip_eight_jit.Jit.Inline.{BinaryOp, Comparison, documented_operate, documented_compares}
use chip_eight_jit.Jit.Dispatch.{
  Code, Jit, Turn, turns, over, exits, undefined, bad_shift, unending, fresh_jit, keep,
  compile_round,
}
use chip_eight_jit.Jit.Dispatch.Coherent.{IsClean, Leads}
use chip_eight_jit.Jit.Native.Advances.{codegen-Returns}
use chip_eight_jit.Jit.Engine.{and_then, trace_fuel, enter, jit_round, jit_rounds}
use chip_eight_jit.Jit.Engine.Agrees.{Overruns, Matches, jit_rounds-Matches}
use chip_eight_jit.Jit.Engine.Coherent.{enter-IsClean, fresh-IsClean}
use chip_eight_jit.Jit.Engine.Counts.{CountsUp, after_run-CountsUp}

-- The loop is not to go on.
abbrev ComesOut : Turn → Type 0
ComesOut (turns j) = ⊥
ComesOut _ = Unit

abbrev rounds : ℕ → Jit → Turn
rounds n j = jit_rounds documented_operate documented_compares n j

-- A round that goes on, goes on to the rest.
and_then-ComesOut :
    (P : Jit → Type 0) (rest : Jit → Turn) (t : Turn)
    → Leads P t
    → ((k : Jit) → P k → ComesOut (rest k))
    → ComesOut (and_then rest t)
and_then-ComesOut P rest (turns k) h next = next k h
and_then-ComesOut P rest (over k) h next = tt
and_then-ComesOut P rest (exits k) h next = tt
and_then-ComesOut P rest undefined h next = tt
and_then-ComesOut P rest bad_shift h next = tt
and_then-ComesOut P rest unending h next = tt

module _ (budget : ℕ) where
  -- A state at the head of the loop, with so many instructions left at most.
  abbrev AtHead : ℕ → Jit → Type 0
  AtHead left_over j =
      IsClean j × (j.machine.clock.budget ≡ budget) × (budget - j.machine.clock.retired ≤ left_over)

  -- The loop is left in so many rounds.
  abbrev LeavesIn : ℕ → (Jit → Type 0) → Type 0
  LeavesIn rounds_left P = (n : ℕ) (j : Jit) → P j → rounds_left ≤ n → ComesOut (rounds n j)

  abbrev HasTrace : Jit → Type 0
  HasTrace j = (c : Code) × (j.cache j.machine.program_counter ≡ some c)

  counted-AtHead :
      (low left_over : ℕ) (t : Turn)
      → Leads IsClean t
      → CountsUp budget low t
      → budget ≤ low + left_over
      → Leads (λ k. AtHead left_over k × (k.machine.clock.retired < budget)) t
  counted-AtHead low left_over (turns k) clean (h, g, e) room =
      ((clean, e, omega (arith, h, room)), g)
  counted-AtHead low left_over (over k) clean h room = tt
  counted-AtHead low left_over (exits k) clean h room = tt
  counted-AtHead low left_over undefined clean h room = tt
  counted-AtHead low left_over bad_shift clean h room = tt
  counted-AtHead low left_over unending clean h room = tt

  -- With a trace in the cache, the round counts an instruction or leaves the loop.
  cached_round :
      (left_over : ℕ) (j : Jit)
      → AtHead (suc left_over) j
      → HasTrace j
      → Leads
          (λ k. AtHead left_over k × (k.machine.clock.retired < budget))
          (jit_round documented_operate documented_compares j)
  unfolding jit_round
  cached_round left_over j (clean, e, room) (c, found) =
      let (before, after, made, _) = clean.1 j.machine.program_counter c found in
      let low = suc j.machine.clock.retired in
      let enter_with = enter documented_operate documented_compares j in
      let counts =
        subst (λ b. CountsUp b low (enter_with (some c))) e
          (after_run-CountsUp j.machine.clock.budget low _
            (codegen-Returns before after c (trace_fuel j.machine.clock) j made)) in
      subst
        (λ o. Leads (λ k. AtHead left_over k × (k.machine.clock.retired < budget)) (enter_with o))
        (sym found)
        (counted-AtHead low left_over (enter_with (some c))
          (enter-IsClean documented_operate documented_compares j (some c) clean) counts
          (omega (arith, room)))

  keep-HasTrace :
      (left_over : ℕ) (j : Jit) (c : Compiled)
      → Leads IsClean (keep j c)
      → (j.machine.clock.budget ≡ budget) × (budget - j.machine.clock.retired ≤ left_over)
      → Leads (λ k. AtHead left_over k × HasTrace k) (keep j c)
  keep-HasTrace left_over j (compiled code ps f) clean (e, room) =
      ((clean, e, room), (record { pieces = ps; ending = f }, ground arith))
  keep-HasTrace left_over j (bailed code) clean h = tt
  keep-HasTrace left_over j outside clean h = tt
  keep-HasTrace left_over j endless clean h = tt

  -- Without one, it compiles one or leaves the loop.
  compile-HasTrace :
      (left_over : ℕ) (j : Jit)
      → AtHead left_over j
      → j.cache j.machine.program_counter ≡ none
      → Leads
          (λ k. AtHead left_over k × HasTrace k)
          (jit_round documented_operate documented_compares j)
  unfolding jit_round compile_round
  compile-HasTrace left_over j (clean, e, room) empty =
      let enter_with = enter documented_operate documented_compares j in
      subst (λ o. Leads (λ k. AtHead left_over k × HasTrace k) (enter_with o)) (sym empty)
        (keep-HasTrace left_over j (codegen j.machine.memory j.machine.program_counter j.code_bytes)
          (enter-IsClean documented_operate documented_compares j none clean) (e, room))

  cached-LeavesIn :
      (left_over : ℕ)
      → LeavesIn (2 * left_over) (λ k. AtHead left_over k × (k.machine.clock.retired < budget))
      → LeavesIn (2 * left_over + 1) (λ k. AtHead (suc left_over) k × HasTrace k)
  unfolding jit_rounds
  cached-LeavesIn left_over next zero j h enough = absurd (omega (arith, enough))
  cached-LeavesIn left_over next (suc n) j (at, has) enough =
      and_then-ComesOut _ (λ k. rounds n k) _ (cached_round left_over j at has)
        (λ k g. next n k g (omega (arith, enough)))

  any-LeavesIn :
      (left_over : ℕ)
      → LeavesIn (2 * left_over) (λ k. AtHead left_over k × (k.machine.clock.retired < budget))
      → LeavesIn (2 * left_over + 2) (AtHead (suc left_over))
  unfolding jit_rounds
  any-LeavesIn left_over next zero j h enough = absurd (omega (arith, enough))
  any-LeavesIn left_over next (suc n) j at enough =
      elim (Option-cases (j.cache j.machine.program_counter)) [
        | inl empty ↦
            and_then-ComesOut _ (λ k. rounds n k) _ (compile-HasTrace (suc left_over) j at empty)
              (λ k g. cached-LeavesIn left_over next n k g (omega (arith, enough)))
        | inr has ↦ cached-LeavesIn left_over next (suc n) j (at, has) (omega (arith, enough))
      ]

  all-LeavesIn : (left_over : ℕ) → LeavesIn (2 * left_over + 2) (AtHead (suc left_over))
  all-LeavesIn zero =
      any-LeavesIn 0 (λ n k (at, before) enough. absurd (omega (arith, at.2, before)))
  all-LeavesIn (suc left_over) =
      any-LeavesIn (suc left_over)
        (λ n k (at, before) enough. all-LeavesIn left_over n k at (omega (arith, enough)))

-- The loop that was entered at `m` is left, or has come to what C leaves undefined, from where the
-- interpreter comes to. It neither goes on, nor stays in a round for ever.
abbrev pub LeavesLoop : Machine → Turn → Type 0
LeavesLoop m (turns j) = ⊥
LeavesLoop m (over j) = Unit
LeavesLoop m (exits j) = Unit
LeavesLoop m undefined = Overruns m
LeavesLoop m bad_shift = (n : ℕ) × (instructions n (stepped m) ≡ Outcome.undefined)
LeavesLoop m unending = ⊥

-- A round that does not end is none that the interpreter matches.
matched-LeavesLoop : (m : Machine) (t : Turn) → ComesOut t → Matches m t → LeavesLoop m t
matched-LeavesLoop m (turns j) out h = out
matched-LeavesLoop m (over j) out h = tt
matched-LeavesLoop m (exits j) out h = tt
matched-LeavesLoop m undefined out h = h
matched-LeavesLoop m bad_shift out h = h
matched-LeavesLoop m unending out h = h

rounds-ComesOut :
    (m : Machine) → ComesOut (rounds (2 * (m.clock.budget - m.clock.retired) + 2) (fresh_jit m))
rounds-ComesOut m =
    let left_over = m.clock.budget - m.clock.retired in
    all-LeavesIn m.clock.budget left_over (2 * left_over + 2) (fresh_jit m)
      (fresh-IsClean m, refl, omega arith) (omega arith)

-- If the operations of libgccjit are those of its documentation: from a well-formed machine on which no key was
-- masked off in a tick still to come, the loop of the JIT does not go on beyond two rounds for each instruction that
-- the budget has left, and two, and no trace that it calls and no compilation fails to come back. By then it is left
-- at its end or by errer, unless the interpreter comes to a shift by 32 or more, or to a machine from which
-- a compilation uses pc_block past its end: both are undefined in C.
pub jit_rounds-LeavesLoop :
    (operate : BinaryOp → ℕ → ℕ → ℕ → ℕ) (compares : Comparison → ℕ → ℕ → ℕ)
    → ((o : BinaryOp) (w a b : ℕ) → operate o w a b ≡ documented_operate o w a b)
    → ((c : Comparison) (a b : ℕ) → compares c a b ≡ documented_compares c a b)
    → (m : Machine) → IsWellFormed m
    → OnTime m.clock
    → LeavesLoop m
        (jit_rounds operate compares (2 * (m.clock.budget - m.clock.retired) + 2) (fresh_jit m))
jit_rounds-LeavesLoop operate compares p q m w on_time =
    let n = 2 * (m.clock.budget - m.clock.retired) + 2 in
    let p' : operate ≡ documented_operate =
      fun_ext λ o. fun_ext λ v. fun_ext λ x. fun_ext λ y. p o v x y in
    let q' : compares ≡ documented_compares = fun_ext λ o. fun_ext λ x. fun_ext λ y. q o x y in
    rw (p', q')
      (matched-LeavesLoop m (rounds n (fresh_jit m)) (rounds-ComesOut m) (
        jit_rounds-Matches documented_operate documented_compares (λ o v x y. refl) (λ o x y. refl)
          m n w on_time))
