-- ===== src/Jit/Engine/Counts.antt =====
-- A round of the loop of src/libgccjit_jit.c that goes on has counted an instruction.
use chip_eight_jit.Common.{
  ℕ, ◌≤◌, ◌<◌, ◌≡◌, sym, ◌∙◌, arith, Bool, true, false, ◌||◌, Bool-cases, inl, inr,
}
use chip_eight_jit.Common.Bits.{test_bit}
use chip_eight_jit.Clock.{bench_done}
use chip_eight_jit.Machine.{Machine}
use chip_eight_jit.Interp.Timers.{interrupt}
use chip_eight_jit.Interp.Input.{all_keys_down}
use chip_eight_jit.Jit.Dispatch.{Jit, Turn, turns, after_trace, flush, check_interrupt}
use chip_eight_jit.Jit.Helpers.{Native, on, branched, left, exited, undefined_shift, lost, spins}
use chip_eight_jit.Jit.Native.Charges.{keys_now-SameCharge, interrupt-clock}
use chip_eight_jit.Jit.Native.Advances.{Returns}
use chip_eight_jit.Jit.Engine.{after_run}

-- It goes on only with more instructions counted, and fewer than the budget.
abbrev pub CountsUp : ℕ → ℕ → Turn → Type 0
CountsUp budget low (turns j) =
    (low ≤ j.machine.clock.retired)
    × (j.machine.clock.retired < budget)
    × (j.machine.clock.budget ≡ budget)
CountsUp budget low _ = Unit

-- What `after_trace` leaves of the clock.
abbrev looked_at : Jit → Machine
looked_at j = (all_keys_down (flush (check_interrupt j)).machine).1

looked_at-clock :
    (j : Jit)
    → ((looked_at j).clock.retired ≡ j.machine.clock.retired)
      × ((looked_at j).clock.budget ≡ j.machine.clock.budget)
unfolding all_keys_down flush check_interrupt
looked_at-clock j =
    ground (arith, keys_now-SameCharge (interrupt j.machine).clock, interrupt-clock j.machine)

flush-over : (j : Jit) → (flush j).program_over ≡ j.program_over
unfolding flush
flush-over j = ground arith

not_done :
    (j : Jit)
    → (check_interrupt j).program_over ≡ false
    → j.machine.clock.retired < j.machine.clock.budget
unfolding check_interrupt bench_done
not_done j h = ground (arith, h, interrupt-clock j.machine)

after_trace-CountsUp :
    (budget low : ℕ) (j : Jit)
    → low ≤ j.machine.clock.retired
    → j.machine.clock.budget ≡ budget
    → CountsUp budget low (after_trace j)
unfolding after_trace
after_trace-CountsUp budget low j h e =
    let quit = test_bit (all_keys_down (flush (check_interrupt j)).machine).0 31 in
    let (same_retired, same_budget) = looked_at-clock j in
    elim (Bool-cases (quit || (flush (check_interrupt j)).program_over)) [
      | inl stop ↦ rw (stop) tt
      | inr go ↦
          let more = not_done j (sym (flush-over (check_interrupt j)) ∙ second_off quit _ go) in
          rw (go)
            (omega (arith, h, same_retired), omega (arith, more, same_retired, e), same_budget ∙ e)
    ]
  where
    second_off : (a b : Bool) → (a || b) ≡ false → b ≡ false
    second_off false b h = h
    second_off true b h = cc

pub after_run-CountsUp :
    (budget low : ℕ) (r : Native) → Returns budget low r → CountsUp budget low (after_run r)
after_run-CountsUp budget low (left j) (h, e) = after_trace-CountsUp budget low j h e
after_run-CountsUp budget low (exited j) h = tt
after_run-CountsUp budget low undefined_shift h = tt
after_run-CountsUp budget low (on j) h = tt
after_run-CountsUp budget low (branched a j) h = tt
after_run-CountsUp budget low lost h = tt
after_run-CountsUp budget low spins h = tt
