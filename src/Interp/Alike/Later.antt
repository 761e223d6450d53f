-- ===== src/Interp/Alike/Later.antt =====
-- The times of two machines that are alike, when the clock moves on and when the timers are caught up.
use chip_eight_jit.Common.{
  ℕ, ◌+◌, ◌-◌, ◌/◌, ◌≤◌, ◌<◌, ◌≡◌, ◌⊎◌, refl, sym, ◌∙◌, ap, subst, false, some, arith, ltb, lt→ltb,
  inl, inr,
}
use native.Mathlib.Decide.{dec_lt}
use chip_eight_jit.Clock.{Clock, bench_now, bench_tick}
use chip_eight_jit.Machine.{Machine, u8}
use chip_eight_jit.Interp.Timers.{sync_timers, interrupt, count_down}
use chip_eight_jit.Interp.Alike.{
  Times, times, retimed, masked_now, level_clock, leveled, OnTime, IsFit, AlikeTimes, Alike,
}

pub masked_now_level : (c : Clock) → masked_now (level_clock c) ≡ masked_now c
unfolding bench_tick
masked_now_level c = ground arith

pub level_clock_twice : (c : Clock) → level_clock (level_clock c) ≡ level_clock c
unfolding bench_tick
level_clock_twice c = ap (λ n. record (level_clock c) { cleared = n }) (masked_now_level c)

abbrev pub moved_to : ℕ → ℕ → Clock → Clock
moved_to retired poll_clock c = record c { retired = retired; poll_clock = poll_clock }

later_tick : (n k : ℕ) → n ≤ k → (n / 2000 ≡ k / 2000) ⊎ (n / 2000 < k / 2000)
later_tick n k h = omega arith

moved_mask :
    (r p : ℕ) (c : Clock)
    → OnTime c
    → bench_now c ≤ r + p
    → masked_now (moved_to r p c) ≡ masked_now (moved_to r p (level_clock c))
unfolding bench_tick
moved_mask r p c h k = elim (later_tick (bench_now c) (r + p) k) [
  | inl same ↦ rw (sym same) (sym (masked_now_level c))
  | inr after ↦ ground (arith, h (bench_tick (moved_to r p c)) after)
]

-- The level of a later clock is found from the level of this one.
pub moved_level :
    (r p : ℕ) (c : Clock)
    → OnTime c
    → bench_now c ≤ r + p
    → level_clock (moved_to r p c) ≡ level_clock (moved_to r p (level_clock c))
unfolding bench_tick
moved_level r p c h k =
    ap
      (λ n. record (moved_to r p (level_clock c)) {
        next_safepoint = 0;
        cleared = n;
        cleared_tick = some (bench_tick (moved_to r p c));
      })
      (moved_mask r p c h k)

moved-OnTime : (r p : ℕ) (c : Clock) → OnTime c → bench_now c ≤ r + p → OnTime (moved_to r p c)
unfolding bench_tick
moved-OnTime r p c h k u after = h u (omega arith)

-- Times with another clock.
abbrev pub with_clock : Clock → Times → Times
with_clock c t = record t { clock = c }

abbrev pub times_of : ℕ → ℕ → ℕ → Clock → Times
times_of d s l c = record { delay = d; sound = s; last = l; clock = c }

pub same_times :
    {d d' s s' l l' : ℕ} {c c' : Clock}
    → d ≡ d'
    → s ≡ s'
    → l ≡ l'
    → c ≡ c'
    → times_of d s l c ≡ times_of d' s' l' c'
same_times p q r v = λ i. times_of (p i) (q i) (r i) (v i)

-- So is the level of the times.
moved_leveled :
    (r p : ℕ) (t : Times)
    → OnTime t.clock
    → bench_now t.clock ≤ r + p
    → leveled (with_clock (moved_to r p t.clock) t)
      ≡ leveled (with_clock (moved_to r p (level_clock t.clock)) (leveled t))
unfolding bench_tick
moved_leveled r p t h k =
    same_times (omega arith) (omega arith) (omega arith) (moved_level r p t.clock h k)

moved-IsFit :
    (r p : ℕ) (t : Times)
    → IsFit t
    → bench_now t.clock ≤ r + p
    → IsFit (with_clock (moved_to r p t.clock) t)
moved-IsFit r p t f k = record {
  delay_lt = f.delay_lt;
  sound_lt = f.sound_lt;
  on_time = moved-OnTime r p t.clock f.on_time k;
}

-- Times that are alike stay so when the clock moves on.
pub moved-AlikeTimes :
    (r p : ℕ) (t u : Times)
    → bench_now t.clock ≤ r + p
    → AlikeTimes t u
    → AlikeTimes (with_clock (moved_to r p t.clock) t) (with_clock (moved_to r p u.clock) u)
moved-AlikeTimes r p t u k a =
    let same_now : bench_now t.clock ≡ bench_now u.clock =
      ap (λ (v : Times). bench_now v.clock) a.same_level in
    let k' : bench_now u.clock ≤ r + p = omega (arith, same_now) in
    record {
      first_fit = moved-IsFit r p t a.first_fit k;
      second_fit = moved-IsFit r p u a.second_fit k';
      same_level =
          moved_leveled r p t a.first_fit.on_time k
          ∙ ap (λ (v : Times). leveled (with_clock (moved_to r p v.clock) v)) a.same_level
          ∙ sym (moved_leveled r p u a.second_fit.on_time k');
    }

-- `sync_timers`, on the times.
abbrev pub caught_up : Times → Times
caught_up t = record (leveled t) { clock = t.clock }

count_down_lem : (timer elapsed : ℕ) → timer < u8 → count_down timer elapsed ≡ timer - elapsed
count_down_lem timer elapsed h = ground arith

pub caught_up_level : (t : Times) → leveled (caught_up t) ≡ leveled t
unfolding bench_tick
caught_up_level t = same_times (omega arith) (omega arith) (omega arith) refl

pub caught_up-IsFit : (t : Times) → IsFit t → IsFit (caught_up t)
caught_up-IsFit t f = ground (arith, f.delay_lt, f.sound_lt)

pub caught_up-AlikeTimes : (t u : Times) → AlikeTimes t u → AlikeTimes (caught_up t) (caught_up u)
caught_up-AlikeTimes t u a = record {
  first_fit = caught_up-IsFit t a.first_fit;
  second_fit = caught_up-IsFit u a.second_fit;
  same_level = caught_up_level t ∙ a.same_level ∙ sym (caught_up_level u);
}

pub interrupt-retimed :
    (t : Times) (m : Machine) → IsFit t → interrupt (retimed t m) ≡ retimed (caught_up t) m
unfolding interrupt sync_timers
interrupt-retimed t m f = elim (dec_lt t.last (bench_tick t.clock)) [
  | yes p ↦ rw (lt→ltb _ _ p) (
      ap (λ (v : Times). retimed v m)
        (same_times (count_down_lem t.delay _ f.delay_lt) (count_down_lem t.sound _ f.sound_lt)
          (omega arith) refl))
  | no p ↦
      rw (off p) (
        ap (λ (v : Times). retimed v m) (same_times (omega arith) (omega arith) (omega arith) refl))
]
  where
    off : ¬ (t.last < bench_tick t.clock) → ltb t.last (bench_tick t.clock) ≡ false
    off h = ground arith

-- A relation of machines in which the engines' states are compared.
pub Alike-refl : (m : Machine) → IsFit (times m) → Alike m m
Alike-refl m f = record {
  same_else = refl;
  alike_times = record { first_fit = f; second_fit = f; same_level = refl };
}

pub Alike-trans : (m n o : Machine) → Alike m n → Alike n o → Alike m o
Alike-trans m n o a b = record {
  same_else = ap (retimed (times o)) a.same_else ∙ b.same_else;
  alike_times = record {
    first_fit = a.alike_times.first_fit;
    second_fit = b.alike_times.second_fit;
    same_level = a.alike_times.same_level ∙ b.alike_times.same_level;
  };
}

pub Alike-sym : (m n : Machine) → Alike m n → Alike n m
Alike-sym m n a = record {
  same_else = sym (ap (retimed (times m)) a.same_else);
  alike_times = record {
    first_fit = a.alike_times.second_fit;
    second_fit = a.alike_times.first_fit;
    same_level = sym a.alike_times.same_level;
  };
}

-- Machines that differ in times that are alike.
pub Alike-retimed : (t u : Times) (m : Machine) → AlikeTimes t u → Alike (retimed t m) (retimed u m)
Alike-retimed t u m a = record { same_else = refl; alike_times = a }

-- The clocks of both move on by the same.
pub moved_both :
    (r p r' p' : ℕ) (t u : Times)
    → bench_now t.clock ≤ r + p
    → r ≡ r'
    → p ≡ p'
    → AlikeTimes t u
    → AlikeTimes (with_clock (moved_to r p t.clock) t) (with_clock (moved_to r' p' u.clock) u)
moved_both r p r' p' t u h k l a =
    subst
      (λ n. AlikeTimes (with_clock (moved_to r p t.clock) t) (with_clock (moved_to n p' u.clock) u))
      k
      (subst
        (λ n.
          AlikeTimes (with_clock (moved_to r p t.clock) t) (with_clock (moved_to r n u.clock) u))
        l (moved-AlikeTimes r p t u h a))
