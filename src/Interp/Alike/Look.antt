-- ===== src/Interp/Alike/Look.antt =====
-- A look at the keyboard of src/bench_io.c, by a machine that is retimed.
use chip_eight_jit.Common.{
  ℕ, ◌^◌, ◌≡◌, refl, ap, subst, sym, ◌∙◌, true, Option, none, some, arith, Bool-cases, inl, inr,
  bit_or,
}
use chip_eight_jit.Clock.{
  Clock, bench_tick, same_tick, roll_tick, keys_at, bench_keys_now, bench_clear_key,
}
use chip_eight_jit.Machine.{Machine}
use chip_eight_jit.Interp.Input.{all_keys_down, clear_key}
use chip_eight_jit.Interp.Alike.{
  Times, times, retimed, masked_now, level_clock, leveled, OnTime, IsFit, AlikeTimes, Alike,
}
use chip_eight_jit.Interp.Alike.Later.{with_clock, Alike-retimed}

-- The clock, looked at now, with the keys that are masked off.
abbrev looked : ℕ → Clock → Clock
looked masked c = record c { cleared = masked; cleared_tick = some (bench_tick c) }

same_tick-some : (o : Option ℕ) (t : ℕ) → same_tick o t ≡ true → o ≡ some t
same_tick-some none t h = cc
same_tick-some (some u) t h = ap (λ n. some n) (ground arith)

roll_tick-looked : (c : Clock) → roll_tick (bench_tick c) c ≡ looked (masked_now c) c
unfolding roll_tick
roll_tick-looked c = elim (Bool-cases (same_tick c.cleared_tick (bench_tick c))) [
  | inl now ↦
      rw (now)
        (ap (λ o. record c { cleared_tick = o }) (same_tick-some c.cleared_tick (bench_tick c) now))
  | inr older ↦ rw (older) refl
]

pub keys_now-looked :
    (c : Clock)
    → bench_keys_now c ≡ (keys_at c.key_mode (bench_tick c) (masked_now c), looked (masked_now c) c)
unfolding bench_keys_now bench_tick
keys_now-looked c =
    ap (λ (d : Clock). (keys_at d.key_mode (bench_tick c) d.cleared, d)) (roll_tick-looked c)

clear_key-looked :
    (key : ℕ) (c : Clock) → bench_clear_key key c ≡ looked (bit_or (masked_now c) (2 ^ key)) c
unfolding bench_clear_key bench_tick
clear_key-looked key c =
    ap (λ (d : Clock). record d { cleared = bit_or d.cleared (2 ^ key) }) (roll_tick-looked c)

looked-OnTime : (n : ℕ) (c : Clock) → OnTime (looked n c)
unfolding bench_tick
looked-OnTime n c u h = ground arith

looked_level :
    (n : ℕ) (c : Clock) → level_clock (looked n c) ≡ record (level_clock c) { cleared = n }
unfolding bench_tick
looked_level n c = ap (λ k. record (level_clock c) { cleared = k }) (ground arith)

leveled-looked :
    (n : ℕ) (t : Times)
    → leveled (with_clock (looked n t.clock) t)
      ≡ with_clock (record (leveled t).clock { cleared = n }) (leveled t)
unfolding bench_tick
leveled-looked n t = ap (λ c. with_clock c (leveled t)) (looked_level n t.clock)

looked-IsFit : (n : ℕ) (t : Times) → IsFit t → IsFit (with_clock (looked n t.clock) t)
looked-IsFit n t f = record {
  delay_lt = f.delay_lt;
  sound_lt = f.sound_lt;
  on_time = looked-OnTime n t.clock;
}

looked-AlikeTimes :
    (n : ℕ) (t u : Times)
    → AlikeTimes t u
    → AlikeTimes (with_clock (looked n t.clock) t) (with_clock (looked n u.clock) u)
looked-AlikeTimes n t u a = record {
  first_fit = looked-IsFit n t a.first_fit;
  second_fit = looked-IsFit n u a.second_fit;
  same_level =
      leveled-looked n t
      ∙ ap (λ (w : Times). with_clock (record w.clock { cleared = n }) w) a.same_level
      ∙ sym (leveled-looked n u);
}

abbrev pub look : Times → Times
look t = with_clock (looked (masked_now t.clock) t.clock) t

abbrev pub clear : ℕ → Times → Times
clear key t = with_clock (looked (bit_or (masked_now t.clock) (2 ^ key)) t.clock) t

same_masked : (t u : Times) → AlikeTimes t u → masked_now t.clock ≡ masked_now u.clock
same_masked t u a = ap (λ (v : Times). v.clock.cleared) a.same_level

pub look-AlikeTimes : (t u : Times) → AlikeTimes t u → AlikeTimes (look t) (look u)
look-AlikeTimes t u a =
    subst (λ n. AlikeTimes (look t) (with_clock (looked n u.clock) u)) (same_masked t u a)
      (looked-AlikeTimes (masked_now t.clock) t u a)

pub clear-AlikeTimes :
    (key : ℕ) (t u : Times) → AlikeTimes t u → AlikeTimes (clear key t) (clear key u)
clear-AlikeTimes key t u a =
    subst (λ n. AlikeTimes (clear key t) (with_clock (looked (bit_or n (2 ^ key)) u.clock) u))
      (same_masked t u a) (looked-AlikeTimes (bit_or (masked_now t.clock) (2 ^ key)) t u a)

-- What the keyboard shows.
abbrev pub shown : Times → ℕ
shown t = keys_at t.clock.key_mode (bench_tick t.clock) (masked_now t.clock)

pub same_shown : (t u : Times) → AlikeTimes t u → shown t ≡ shown u
unfolding bench_tick
same_shown t u a =
    ap (λ (v : Times). keys_at v.clock.key_mode (bench_tick v.clock) v.clock.cleared) a.same_level

pub all_keys_down-retimed :
    (t : Times) (m : Machine) → all_keys_down (retimed t m) ≡ (shown t, retimed (look t) m)
unfolding all_keys_down
all_keys_down-retimed t m = rw (keys_now-looked t.clock) refl

pub clear_key-retimed :
    (key : ℕ) (t : Times) (m : Machine) → clear_key key (retimed t m) ≡ retimed (clear key t) m
unfolding clear_key
clear_key-retimed key t m = rw (clear_key-looked key t.clock) refl

look-AlikeTimes_self : (t : Times) → IsFit t → AlikeTimes (look t) t
look-AlikeTimes_self t fit = record {
  first_fit = looked-IsFit (masked_now t.clock) t fit;
  second_fit = fit;
  same_level = leveled-looked (masked_now t.clock) t;
}

-- Looking at the keys does not show.
pub all_keys_down-Alike : (m : Machine) → IsFit (times m) → Alike (all_keys_down m).1 m
all_keys_down-Alike m fit =
    rw (all_keys_down-retimed (times m) m)
      (Alike-retimed (look (times m)) (times m) m (look-AlikeTimes_self (times m) fit))
