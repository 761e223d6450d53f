-- ===== src/Jit/Engine/Agrees.antt =====
-- The loop of src/libgccjit_jit.c does what the one of src/interp.c does.
use chip_eight_jit.Common.{
  ℕ, zero, suc, ◌-◌, ◌≡◌, refl, sym, subst, fun_ext, arith, Bool, true, false, Option-cases, inl,
  inr, if◌then◌else◌,
}
use chip_eight_jit.Machine.{Machine, IsWellFormed}
use chip_eight_jit.Interp.Outcome.{stepped, undefined}
use chip_eight_jit.Interp.Timers.{interrupt}
use chip_eight_jit.Interp.Input.{all_keys_down}
use chip_eight_jit.Interp.Run.Instructions.{instructions}
use chip_eight_jit.Interp.Alike.{Alike, OnTime, IsFit, times}
use chip_eight_jit.Interp.Alike.Later.{Alike-refl, Alike-sym, Alike-trans}
use chip_eight_jit.Interp.Alike.Look.{all_keys_down-Alike}
use chip_eight_jit.Jit.Trace.{Compiled, compiled, bailed, outside, endless, codegen}
use chip_eight_jit.Jit.Trace.Ends.{codegen-ends}
use chip_eight_jit.Jit.Inline.{BinaryOp, Comparison, documented_operate, documented_compares}
use chip_eight_jit.Jit.Dispatch.{
  Jit, Turn, turns, over, exits, bad_shift, unending, fresh_jit, keep, compile_round, after_trace,
  flush, check_interrupt,
}
use chip_eight_jit.Jit.Dispatch.Coherent.{IsClean, Leads}
use chip_eight_jit.Jit.Helpers.{Native, on, branched, left, exited, undefined_shift, lost, spins}
use chip_eight_jit.Jit.Native.Agrees.{Steps, Fails}
use chip_eight_jit.Jit.Native.Safepoint.{interrupt-Alike}
use chip_eight_jit.Jit.Native.Whole.{
  Simulates, Simulates-instructions, instructions-IsWellFormed, codegen-Simulates,
}
use chip_eight_jit.Jit.Native.Stops.{Stopped, count_limit, codegen-Stopped}
use chip_eight_jit.Jit.Engine.{after_run, and_then, enter, jit_round, jit_rounds}
use chip_eight_jit.Jit.Engine.Coherent.{enter-IsClean, fresh-IsClean}

-- Compiling from where the interpreter comes to uses `pc_block` past its end.
abbrev pub Overruns : Machine → Type 0
Overruns m =
    (j : Jit) × Steps (stepped m) j.machine
    × (codegen j.machine.memory j.machine.program_counter j.code_bytes ≡ outside)

-- Where the loop has come to, against the interpreter's from `m`.
abbrev pub Matches : Machine → Turn → Type 0
Matches m (turns j) = Steps (stepped m) j.machine
Matches m (over j) = Steps (stepped m) j.machine
Matches m (exits j) = Fails (stepped m) j.machine
Matches m Turn.undefined = Overruns m
Matches m bad_shift = (n : ℕ) × (instructions n (stepped m) ≡ undefined)
Matches m unending = ⊥

flush-machine : (j : Jit) → (flush j).machine ≡ j.machine
unfolding flush
flush-machine j = ground arith

either_turn :
    (m : Machine) (b : Bool) (k l : Jit)
    → Matches m (over k)
    → Matches m (turns l)
    → Matches m (if b then over k else turns l)
either_turn m true k l p q = p
either_turn m false k l p q = q

-- What follows a trace does not show.
after_trace-Matches :
    (m : Machine) (j : Jit) → Steps (stepped m) j.machine → Matches m (after_trace j)
unfolding after_trace check_interrupt
after_trace-Matches m j (n, s, runs, a) =
    let fit = a.alike_times.second_fit in
    let u = interrupt j.machine in
    let b = interrupt-Alike j.machine fit in
    let c = all_keys_down-Alike u b.alike_times.first_fit in
    let d = Alike-trans s j.machine _ a (Alike-sym _ _ (Alike-trans _ u j.machine c b)) in
    let e : Alike s (all_keys_down (flush (check_interrupt j)).machine).1 =
      subst (λ (t : Machine). Alike s (all_keys_down t).1) (sym (flush-machine (check_interrupt j)))
        d in
    either_turn m _ _ _ (n, s, runs, e) (n, s, runs, e)

after_run-Matches : (m : Machine) (r : Native) → Simulates m r → Stopped r → Matches m (after_run r)
after_run-Matches m (left j) h stop = after_trace-Matches m j h
after_run-Matches m (exited j) h stop = h
after_run-Matches m undefined_shift h stop = h
after_run-Matches m (on j) h stop = h
after_run-Matches m (branched a j) h stop = h
after_run-Matches m lost h stop = h
after_run-Matches m spins h stop = stop

keep-Matches :
    (m : Machine) (j : Jit) (c : Compiled)
    → codegen j.machine.memory j.machine.program_counter j.code_bytes ≡ c
    → ¬ (c ≡ endless)
    → Steps (stepped m) j.machine
    → Matches m (keep j c)
keep-Matches m j (compiled code ps e) made ends h = h
keep-Matches m j (bailed code) made ends h = h
keep-Matches m j outside made ends h = (j, h, made)
keep-Matches m j endless made ends h = ends refl

compile_round-Matches :
    (m : Machine) (j : Jit) → Steps (stepped m) j.machine → Matches m (compile_round j)
unfolding compile_round
compile_round-Matches m j h =
    keep-Matches m j (codegen j.machine.memory j.machine.program_counter j.code_bytes) refl
      (codegen-ends j.machine.memory j.machine.program_counter j.code_bytes) h

-- A round from where the loop has come to, if the interpreter has come there from a well-formed machine.
round-Matches :
    (m : Machine) (j : Jit)
    → IsWellFormed m
    → IsClean j
    → Steps (stepped m) j.machine
    → Matches m (jit_round documented_operate documented_compares j)
unfolding jit_round
round-Matches m j w (down, up) (n, s, runs, a) =
    let pc = j.machine.program_counter in
    let enter_with = enter documented_operate documented_compares j in
    elim (Option-cases (j.cache pc)) [
      | inl empty ↦
          subst (λ o. Matches m (enter_with o)) (sym empty)
            (compile_round-Matches m j (n, s, runs, a))
      | inr (c, found) ↦
          let (before, after, made, _) = up pc c found in
          let ws = instructions-IsWellFormed n (stepped m) s w runs in
          let fuel = suc (count_limit j.machine.clock - j.machine.clock.retired) in
          subst (λ o. Matches m (enter_with o)) (sym found)
            (after_run-Matches m _
              (Simulates-instructions n m s _ runs
                (codegen-Simulates before after c (suc fuel) s j made ws a))
              (codegen-Stopped before after c fuel j made (omega arith)))
    ]

and_then-Matches :
    (m : Machine) (rest : Jit → Turn) (t : Turn)
    → Leads IsClean t
    → Matches m t
    → ((k : Jit) → IsClean k → Steps (stepped m) k.machine → Matches m (rest k))
    → Matches m (and_then rest t)
and_then-Matches m rest (turns k) c h next = next k c h
and_then-Matches m rest (over k) c h next = h
and_then-Matches m rest (exits k) c h next = h
and_then-Matches m rest Turn.undefined c h next = h
and_then-Matches m rest bad_shift c h next = h
and_then-Matches m rest unending c h next = h

rounds-Matches :
    (m : Machine) (n : ℕ) (j : Jit)
    → IsWellFormed m
    → IsClean j
    → Steps (stepped m) j.machine
    → Matches m (jit_rounds documented_operate documented_compares n j)
unfolding jit_rounds jit_round
rounds-Matches m zero j w clean h = h
rounds-Matches m (suc n) j w clean h =
    and_then-Matches m (λ k. jit_rounds documented_operate documented_compares n k)
      (jit_round documented_operate documented_compares j)
      (enter-IsClean documented_operate documented_compares j (j.cache j.machine.program_counter)
        clean)
      (round-Matches m j w clean h) (λ k c t. rounds-Matches m n k w c t)

-- If the operations of libgccjit are those of its documentation: however often the loop of the JIT has gone round,
-- with its cache, its flushes and the loops inside its traces, from a well-formed machine on which no key was masked
-- off in a tick still to come, the interpreter comes to the same from there by some number of instructions. If the
-- loop goes on or is left, it comes to a machine that differs only in how far the timers are caught up, in when the
-- keys were looked at last and in the next safepoint; if errer ends the program, to an error; if there is a shift by
-- too much, to one. No round fails to end. A compilation uses pc_block past its end, which C leaves undefined, only
-- at a machine that the interpreter comes to in that way.
pub jit_rounds-Matches :
    (operate : BinaryOp → ℕ → ℕ → ℕ → ℕ) (compares : Comparison → ℕ → ℕ → ℕ)
    → ((o : BinaryOp) (w a b : ℕ) → operate o w a b ≡ documented_operate o w a b)
    → ((c : Comparison) (a b : ℕ) → compares c a b ≡ documented_compares c a b)
    → (m : Machine) (n : ℕ) → IsWellFormed m
    → OnTime m.clock
    → Matches m (jit_rounds operate compares n (fresh_jit m))
jit_rounds-Matches operate compares p q m n w on_time =
    let p' : operate ≡ documented_operate =
      fun_ext λ o. fun_ext λ v. fun_ext λ x. fun_ext λ y. p o v x y in
    let q' : compares ≡ documented_compares = fun_ext λ o. fun_ext λ x. fun_ext λ y. q o x y in
    let fit : IsFit (times m) = record {
      delay_lt = w.delay_timer_lt;
      sound_lt = w.sound_timer_lt;
      on_time = on_time;
    } in
    rw (p', q')
      (rounds-Matches m n (fresh_jit m) w (fresh-IsClean m) (0, m, refl, Alike-refl m fit))
