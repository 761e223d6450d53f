-- ===== src/Interp/Alike/Timers.antt =====
-- The handlers of src/interp.c for the timers take machines that are alike to machines that are.
use chip_eight_jit.Common.{ℕ, ◌<◌, ◌≡◌, ◌∙◌, sym, subst, refl, ap, arith}
use chip_eight_jit.Clock.{bench_tick}
use chip_eight_jit.Machine.{Machine, u8, x_of, set_reg, skip}
use chip_eight_jit.Interp.Timers.{
  interrupt, sync_timers, get_delay_timer, set_delay_timer, set_sound_timer,
}
use chip_eight_jit.Interp.Alike.{Times, retimed, leveled, IsFit, AlikeTimes, Alike, AlikeOutcome}
use chip_eight_jit.Interp.Alike.Later.{
  caught_up, caught_up-AlikeTimes, caught_up-IsFit, interrupt-retimed, Alike-retimed, same_times,
}
use chip_eight_jit.Interp.Alike.Untimed.{TimeBlind}

sync_timers-retimed :
    (t : Times) (m : Machine) → IsFit t → sync_timers (retimed t m) ≡ retimed (caught_up t) m
unfolding interrupt
sync_timers-retimed t m f = interrupt-retimed t m f

-- A timer is set behind `sync_timers`.
abbrev delay_set : ℕ → Times → Times
delay_set v t = record (caught_up t) { delay = v }

abbrev sound_set : ℕ → Times → Times
sound_set v t = record (caught_up t) { sound = v }

module _ (v : ℕ) (small : v < u8) where
  delay_set_level : (t : Times) → leveled (delay_set v t) ≡ record (leveled t) { delay = v }
  unfolding bench_tick
  delay_set_level t = same_times (omega arith) (omega arith) (omega arith) refl

  sound_set_level : (t : Times) → leveled (sound_set v t) ≡ record (leveled t) { sound = v }
  unfolding bench_tick
  sound_set_level t = same_times (omega arith) (omega arith) (omega arith) refl

  delay_set-IsFit : (t : Times) → IsFit t → IsFit (delay_set v t)
  delay_set-IsFit t f = record {
    delay_lt = small;
    sound_lt = (caught_up-IsFit t f).sound_lt;
    on_time = f.on_time;
  }

  sound_set-IsFit : (t : Times) → IsFit t → IsFit (sound_set v t)
  sound_set-IsFit t f = record {
    delay_lt = (caught_up-IsFit t f).delay_lt;
    sound_lt = small;
    on_time = f.on_time;
  }

  delay_set-AlikeTimes : (t u : Times) → AlikeTimes t u → AlikeTimes (delay_set v t) (delay_set v u)
  delay_set-AlikeTimes t u a = record {
    first_fit = delay_set-IsFit t a.first_fit;
    second_fit = delay_set-IsFit u a.second_fit;
    same_level =
        delay_set_level t
        ∙ ap (λ (w : Times). record w { delay = v }) a.same_level
        ∙ sym (delay_set_level u);
  }

  sound_set-AlikeTimes : (t u : Times) → AlikeTimes t u → AlikeTimes (sound_set v t) (sound_set v u)
  sound_set-AlikeTimes t u a = record {
    first_fit = sound_set-IsFit t a.first_fit;
    second_fit = sound_set-IsFit u a.second_fit;
    same_level =
        sound_set_level t
        ∙ ap (λ (w : Times). record w { sound = v }) a.same_level
        ∙ sym (sound_set_level u);
  }

module _ (op : ℕ) where
  pub get_delay_timer-TimeBlind : TimeBlind (get_delay_timer op)
  unfolding get_delay_timer
  get_delay_timer-TimeBlind t u m a =
      let same_delay : (caught_up t).delay ≡ (caught_up u).delay =
        ap (λ (v : Times). v.delay) a.same_level in
      rw (sync_timers-retimed t m a.first_fit, sync_timers-retimed u m a.second_fit)
        (subst
          (λ d.
            Alike (skip (set_reg (x_of op) d (retimed (caught_up t) m)))
              (skip (set_reg (x_of op) (caught_up u).delay (retimed (caught_up u) m))))
          (sym same_delay)
          (Alike-retimed (caught_up t) (caught_up u)
            (skip (set_reg (x_of op) (caught_up u).delay m)) (caught_up-AlikeTimes t u a)))

  pub set_delay_timer-TimeBlind :
      (t u : Times) (m : Machine)
      → m.regs (x_of op) < u8
      → AlikeTimes t u
      → AlikeOutcome (set_delay_timer op (retimed t m)) (set_delay_timer op (retimed u m))
  unfolding set_delay_timer
  set_delay_timer-TimeBlind t u m small a =
      let v = m.regs (x_of op) in
      rw (sync_timers-retimed t m a.first_fit, sync_timers-retimed u m a.second_fit)
        (Alike-retimed (delay_set v t) (delay_set v u) (skip m)
          (delay_set-AlikeTimes v small t u a))

  pub set_sound_timer-TimeBlind :
      (t u : Times) (m : Machine)
      → m.regs (x_of op) < u8
      → AlikeTimes t u
      → AlikeOutcome (set_sound_timer op (retimed t m)) (set_sound_timer op (retimed u m))
  unfolding set_sound_timer
  set_sound_timer-TimeBlind t u m small a =
      let v = m.regs (x_of op) in
      rw (sync_timers-retimed t m a.first_fit, sync_timers-retimed u m a.second_fit)
        (Alike-retimed (sound_set v t) (sound_set v u) (skip m)
          (sound_set-AlikeTimes v small t u a))
