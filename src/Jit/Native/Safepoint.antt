-- ===== src/Jit/Native/Safepoint.antt =====
-- What a safepoint of src/libgccjit_jit.c does, and that it does not show.
use chip_eight_jit.Common.{ℕ, ◌≡◌, refl, sym, ap, ◌∙◌, ◌||◌, Bool-cases, inl, inr, leb}
use chip_eight_jit.Clock.{bench_tick, bench_done, bench_advance_safepoint}
use chip_eight_jit.Clock.Laws.{NextSafepoint, bench_advance_safepoint_lem}
use chip_eight_jit.Machine.{Machine}
use chip_eight_jit.Interp.Timers.{interrupt}
use chip_eight_jit.Interp.Alike.{Times, times, retimed, IsFit, AlikeTimes, Alike}
use chip_eight_jit.Interp.Alike.Later.{
  interrupt-retimed, Alike-refl, Alike-retimed, caught_up, caught_up_level, caught_up-IsFit,
}
use chip_eight_jit.Jit.Dispatch.{Jit, check_interrupt}
use chip_eight_jit.Jit.Helpers.{on, rescheduled, bench_safepoint}
use chip_eight_jit.Jit.Native.{run_safepoint}
use chip_eight_jit.Jit.Native.Agrees.{at_address}

-- Caught up, with another next safepoint.
abbrev pub checked : ℕ → Times → Times
checked next t = record (caught_up t) { clock = record t.clock { next_safepoint = next } }

-- After a safepoint that is due.
abbrev pub checked_at : ℕ → Jit → Jit
checked_at next j = record j {
  machine = retimed (checked next (times j.machine)) j.machine;
  program_over = j.program_over || bench_done j.machine.clock;
}

-- After `check_interrupt`.
abbrev pub caught_up_jit : Jit → Jit
caught_up_jit j = record j {
  machine = retimed (caught_up (times j.machine)) j.machine;
  program_over = j.program_over || bench_done j.machine.clock;
}

pub check_interrupt-on : (j : Jit) → IsFit (times j.machine) → check_interrupt j ≡ caught_up_jit j
unfolding check_interrupt
check_interrupt-on j fit =
    ap (λ m. record j { machine = m; program_over = j.program_over || bench_done m.clock })
      (interrupt-retimed (times j.machine) j.machine fit)

pub bench_safepoint-on :
    (j : Jit)
    → IsFit (times j.machine)
    → (next : ℕ) × (bench_safepoint j ≡ on (checked_at next j))
      × NextSafepoint j.machine.clock.next_safepoint j.machine.clock.retired next
unfolding bench_safepoint
bench_safepoint-on j fit =
    let (next, runs, found) = bench_advance_safepoint_lem j.machine.clock in
    (
      next,
      ap (λ (k : Jit). rescheduled k (bench_advance_safepoint k.machine.clock))
            (check_interrupt-on j fit)
          ∙ ap (rescheduled (caught_up_jit j)) runs,
      found,
    )

checked-AlikeTimes : (next : ℕ) (t : Times) → IsFit t → AlikeTimes t (checked next t)
unfolding bench_tick
checked-AlikeTimes next t fit = record {
  first_fit = fit;
  second_fit = record {
    delay_lt = (caught_up-IsFit t fit).delay_lt;
    sound_lt = (caught_up-IsFit t fit).sound_lt;
    on_time = fit.on_time;
  };
  same_level = sym (caught_up_level t);
}

-- Nothing shows, wherever the program counter is.
abbrev pub Unseen : Jit → Jit → Type 0
Unseen j k =
    (k.machine.memory ≡ j.machine.memory)
    × ((q : ℕ) → Alike (at_address q j.machine) (at_address q k.machine))

pub run_safepoint-Unseen :
    (j : Jit) → IsFit (times j.machine) → (k : Jit) × (run_safepoint j ≡ on k) × Unseen j k
unfolding run_safepoint
run_safepoint-Unseen j fit =
    elim (Bool-cases (leb j.machine.clock.next_safepoint j.machine.clock.retired)) [
      | inl due ↦
          let (next, runs, found) = bench_safepoint-on j fit in
          (
            checked_at next j,
            rw (due) runs,
            (
              refl,
              λ q.
                  Alike-retimed (times j.machine) (checked next (times j.machine))
                    (at_address q j.machine) (checked-AlikeTimes next (times j.machine) fit),
            ),
          )
      | inr early ↦ (j, rw (early) refl, (refl, λ q. Alike-refl (at_address q j.machine) fit))
    ]

-- Catching up does not show either.
pub interrupt-Alike : (m : Machine) → IsFit (times m) → Alike (interrupt m) m
interrupt-Alike m fit = rw (interrupt-retimed (times m) m fit) (
    Alike-retimed (caught_up (times m)) (times m) m (record {
      first_fit = caught_up-IsFit (times m) fit;
      second_fit = fit;
      same_level = caught_up_level (times m);
    }))
