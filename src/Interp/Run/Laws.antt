-- ===== src/Interp/Run/Laws.antt =====
-- The main loop ends within its budget, and its two counters agree.
use chip_eight_jit.Common.{
  ℕ, zero, suc, ◌+◌, ◌-◌, ◌≤◌, ◌<◌, max, ◌≡◌, ◌≢◌, refl, sym, ◌∙◌, subst, Option, ◌⊎◌, inl, inr,
  Bool, true, false, some, arith, Bool-cases, leb, ◌==◌,
}
use chip_eight_jit.Common.Bits.{test_bit}
use chip_eight_jit.Clock.{bench_done}
use chip_eight_jit.Machine.{Machine, IsWellFormed, opcode_at}
use chip_eight_jit.Interp.Outcome.{Outcome, stepped, failed, undefined, hangs}
use chip_eight_jit.Interp.Input.{all_keys_down}
use chip_eight_jit.Interp.Step.{basic_block}
use chip_eight_jit.Interp.Step.WellFormed.{Keeps, Ends, all_keys_down-Keeps, basic_block-Keeps}
use chip_eight_jit.Interp.Step.Errors.{expected, basic_block-verdict}
use chip_eight_jit.Interp.Step.Errors.Verdicts.{verdict, never_returns}
use chip_eight_jit.Interp.Run.{
  Exit, quit, halted, finished, shifted_out, overflowed, stuck, int_max, Result, retire, Round,
  again, leave, count_up, after_block, round, increment, close, run,
}

-- How many retired instructions an exit leaves out of `inst_count`.
abbrev pub uncounted : Exit → ℕ
uncounted quit = 0
uncounted (halted code) = 1
uncounted finished = 0
uncounted shifted_out = 1
uncounted overflowed = 1
uncounted stuck = 1

-- What holds of the result `r` of the loop that was entered at `m` with `count` instructions counted.
pub record Ended (m : Machine) (count : ℕ) (r : Result) : Type 0 where
  pub well_formed : IsWellFormed r.machine
  pub within : r.machine.clock.retired ≤ max (m.clock.retired + 1) m.clock.budget
  pub counted : r.machine.clock.retired + count ≡ m.clock.retired + r.inst_count + uncounted r.exit
  pub fits : r.inst_count ≤ int_max
  pub at_max : r.exit ≡ overflowed → r.inst_count ≡ int_max
  pub done : r.exit ≡ finished → bench_done r.machine.clock ≡ true
  pub returns : r.exit ≢ stuck

-- An exit of a round: neither the counter nor an instruction without an end.
abbrev IsExit : Exit → Type 0
IsExit overflowed = ⊥
IsExit stuck = ⊥
IsExit why = Unit

abbrev number : Bool → ℕ
number true = 1
number false = 0

-- What one round does to the counters.
abbrev RoundLaw : Machine → Round → Type 0
RoundLaw m (again s) =
    IsWellFormed s
    × (s.clock.retired ≡ m.clock.retired + 1)
    × (s.clock.budget ≡ m.clock.budget)
    × (s.clock.retired < s.clock.budget)
RoundLaw m (leave s counted why) =
    IsWellFormed s
    × (s.clock.retired ≡ m.clock.retired + number counted + uncounted why)
    × (s.clock.retired ≤ m.clock.retired + 1)
    × (why ≡ finished → bench_done s.clock ≡ true)
    × IsExit why

count_up-RoundLaw : (m s : Machine) → Keeps (retire m) s → RoundLaw m (count_up s)
unfolding count_up bench_done
count_up-RoundLaw m s k = ground arith

after_block-RoundLaw :
    (m : Machine) (o : Outcome)
    → IsWellFormed m
    → Ends (Keeps (retire m)) o
    → verdict o ≢ never_returns
    → RoundLaw m (after_block (retire m) o)
unfolding after_block
after_block-RoundLaw m (stepped s) w k v = count_up-RoundLaw m s k
after_block-RoundLaw m (failed s code) w k v = elim (Bool-cases (code == 0)) [
  | inl e ↦ rw e (count_up-RoundLaw m s k)
  | inr e ↦ rw e (ground arith)
]
after_block-RoundLaw m undefined w k v = ground arith
after_block-RoundLaw m hangs w k v = absurd (v refl)

pub retire-IsWellFormed : (m : Machine) → IsWellFormed m → IsWellFormed (retire m)
retire-IsWellFormed m w = ground arith

RoundLaw-Keeps : (m s : Machine) (r : Round) → Keeps m s → RoundLaw s r → RoundLaw m r
RoundLaw-Keeps m s (again t) k h = ground arith
RoundLaw-Keeps m s (leave t counted why) k h = ground arith

-- The table of the instructions has none that does not return.
expected-returns : (op : ℕ) (m : Machine) → expected op m ≢ never_returns
expected-returns op m h = ground (arith, h)

round-RoundLaw : (m : Machine) → IsWellFormed m → RoundLaw m (round m)
unfolding round
round-RoundLaw m w =
    let s = (all_keys_down m).1 in
    let k = all_keys_down-Keeps m w in
    let kept = basic_block-Keeps (retire s) (retire-IsWellFormed s k.well_formed) in
    let law = after_block-RoundLaw s (basic_block (retire s)) k.well_formed kept (λ e.
      expected-returns (opcode_at s.memory s.program_counter) (retire s)
        (sym (basic_block-verdict (retire s)) ∙ e)) in
    elim (Bool-cases (test_bit (all_keys_down m).0 31)) [
      | inl e ↦ rw e (k.well_formed, ground (arith, k), ground (arith, k), (λ f. absurd (cc)), tt)
      | inr e ↦ rw e (RoundLaw-Keeps m s _ k law)
    ]

Round-cases :
    (r : Round)
    → ((s : Machine) × (r ≡ again s))
      ⊎ ((s : Machine) × (counted : Bool) × (why : Exit) × (r ≡ leave s counted why))
Round-cases (again s) = inl (s, refl)
Round-cases (leave s counted why) = inr (s, counted, why, refl)

Ended-again :
    (count : ℕ) (m s : Machine) (r : Result)
    → RoundLaw m (again s)
    → Ended s (count + 1) r
    → Ended m count r
Ended-again count m s r law ended = record {
  well_formed = ended.well_formed;
  within = omega (arith, ended.within, law);
  counted = omega (arith, ended.counted, law);
  fits = ended.fits;
  at_max = ended.at_max;
  done = ended.done;
  returns = ended.returns;
}

-- What the loop returns, if it has come to `o`.
abbrev Returns : Machine → ℕ → Option Result → Type 0
Returns m count o = (r : Result) × (o ≡ some r) × Ended m count r

increment-Returns :
    (m s : Machine) (count : ℕ) (o : Option Result)
    → IsWellFormed s
    → s.clock.retired ≡ m.clock.retired + 1
    → count ≤ int_max
    → (count < int_max → Returns m count o)
    → Returns m count (increment count s o)
unfolding increment
increment-Returns m s count o w more h rest = elim (Bool-cases (leb int_max count)) [
  | inl full ↦ (
    record { machine = s; inst_count = count; exit = overflowed },
    rw (full) refl,
    record {
      well_formed = w;
      within = omega (arith, more);
      counted = omega (arith, more);
      fits = h;
      at_max = λ e. ground (arith, full);
      done = λ e. absurd (cc);
      returns = λ e. absurd (cc);
    },
  )
  | inr below ↦ rw (below) (rest (ground (arith, below)))
]

leave-Ended :
    (m s : Machine) (count : ℕ) (counted : Bool) (why : Exit)
    → RoundLaw m (leave s counted why)
    → (n : ℕ) → n ≡ count + number counted
    → n ≤ int_max
    → Ended m count (record { machine = s; inst_count = n; exit = why })
leave-Ended m s count counted why (w, counts, within, done, exits) n total h = record {
  well_formed = w;
  within = omega (arith, within);
  counted = omega (arith, counts, total);
  fits = h;
  at_max = λ e. absurd (subst IsExit e exits);
  done = done;
  returns = λ e. subst IsExit e exits;
}

close-Returns :
    (m s : Machine) (count : ℕ) (counted : Bool) (why : Exit)
    → RoundLaw m (leave s counted why)
    → count ≤ int_max
    → Returns m count (close count s counted why)
unfolding close
close-Returns m s count true why law h =
    increment-Returns m s count _ law.0 (omega (arith, law)) h (λ below. (
      record { machine = s; inst_count = count + 1; exit = why },
      refl,
      leave-Ended m s count true why law (count + 1) refl (omega (arith, below)),
    ))
close-Returns m s count false why law h = (
  record { machine = s; inst_count = count; exit = why },
  refl,
  leave-Ended m s count false why law count (omega arith) h,
)

run-Ended :
    (fuel count : ℕ) (m : Machine)
    → IsWellFormed m
    → count ≤ int_max
    → m.clock.budget - m.clock.retired < fuel
    → Returns m count (run fuel count m)
unfolding run
run-Ended zero count m w h enough = absurd (omega arith)
run-Ended (suc fuel) count m w h enough = elim (Round-cases (round m)) [
  | inl (s, e) ↦
      let law = rw e at (round-RoundLaw m w) in
      rw (e, run)
        (increment-Returns m s count (run fuel (count + 1) s) law.0 law.1 h (λ below.
          let (r, runs, ended) =
            run-Ended fuel (count + 1) s law.0 (omega (arith, below)) (omega arith) in
          (r, runs, Ended-again count m s r law ended)))
  | inr (s, counted, why, e) ↦
      let law = rw e at (round-RoundLaw m w) in
      rw (e, run) (close-Returns m s count counted why law h)
]

-- If `inst_count` starts as an `int` does, at INT_MAX at most: with fuel for one round more than the
-- instructions left in the budget the loop ends, in a well-formed machine, and no instruction fails to
-- return. It retires no more instructions than the budget allows (one, if the budget is spent
-- already). `inst_count` then counts the instructions retired in the loop, but for the one that ended
-- it by an error, by a shift of 32 or more or by an overflow of `inst_count`; it is an `int`, and
-- overflows only at INT_MAX. An exit by `bench_done` is one at which `bench_done` holds.
pub run_ends :
    (count : ℕ) (m : Machine)
    → IsWellFormed m
    → count ≤ int_max
    → (r : Result) × (run (suc (m.clock.budget - m.clock.retired)) count m ≡ some r)
      × Ended m count r
run_ends count m w h = run-Ended (suc (m.clock.budget - m.clock.retired)) count m w h (omega arith)
