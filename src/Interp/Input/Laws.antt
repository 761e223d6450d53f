-- ===== src/Interp/Input/Laws.antt =====
-- The wait for a key ends, and the synthetic keyboard never ends it by the quit key.
use chip_eight_jit.Common.{
  ℕ, zero, suc, ◌+◌, ◌-◌, ◌/◌, ◌<◌, ◌≡◌, refl, Bool, true, false, not, ◌||◌, some, arith,
  Bool-cases, inl, inr, ◌==◌,
}
use chip_eight_jit.Common.Bits.{test_bit}
use chip_eight_jit.Clock.{
  Clock, instr_per_tick, poll_cost, bench_now, bench_keys_now, bench_poll_keys, bench_done,
  roll_tick,
}
use chip_eight_jit.Clock.Keys.{keys_at-no_quit}
use chip_eight_jit.Interp.Input.{poll}

pub bench_keys_now-no_quit : (c : Clock) → test_bit (bench_keys_now c).0 31 ≡ false
unfolding bench_keys_now
bench_keys_now-no_quit c =
    let t = bench_now c / instr_per_tick in
    let d = roll_tick t c in keys_at-no_quit d.key_mode t d.cleared

bench_poll_keys-no_quit : (c : Clock) → test_bit (bench_poll_keys c).0 31 ≡ false
unfolding bench_poll_keys
bench_poll_keys-no_quit c =
    bench_keys_now-no_quit (record c { poll_clock = c.poll_clock + poll_cost })

-- A poll moves the clock on by one, and leaves the cap.
bench_poll_keys-now :
    (c : Clock)
    → (bench_now (bench_poll_keys c).1 ≡ bench_now c + 1)
      × ((bench_poll_keys c).1.clock_cap ≡ c.clock_cap)
unfolding bench_poll_keys
bench_poll_keys-now c = ground arith

pub poll-no_quit :
    (fuel : ℕ) (c d : Clock) (keys : ℕ) → poll fuel c ≡ some (keys, d) → test_bit keys 31 ≡ false
unfolding poll
poll-no_quit zero c d keys e = cc
poll-no_quit (suc fuel) c d keys e =
    ground (arith, bench_poll_keys-no_quit c, poll-no_quit fuel (bench_poll_keys c).1 d keys)

done_at_cap : (c : Clock) → bench_done c ≡ false → bench_now c < c.clock_cap
unfolding bench_done
done_at_cap c h = ground arith

-- The clock after so many polls.
abbrev pub polled : ℕ → Clock → Clock
polled zero c = c
polled (suc n) c = polled n (bench_poll_keys c).1

-- Whether a poll from the clock `c` is the last: it sees a key, or the run is over after it.
abbrev pub is_last : Clock → Bool
is_last c = not ((bench_poll_keys c).0 == 0) || bench_done (bench_poll_keys c).1

-- The wait has ended by its poll number `n`, counted from 0, with what that poll returned.
pub record LastPoll (c : Clock) (keys : ℕ) (d : Clock) (n : ℕ) : Type 0 where
  pub returned : bench_poll_keys (polled n c) ≡ (keys, d)
  pub last : is_last (polled n c) ≡ true
  pub earlier : (i : ℕ) → i < n → is_last (polled i c) ≡ false

LastPoll-first :
    (c : Clock) → is_last c ≡ true → LastPoll c (bench_poll_keys c).0 (bench_poll_keys c).1 0
LastPoll-first c h = record {
  returned = refl;
  last = h;
  earlier = λ i before. absurd (omega (arith, before));
}

LastPoll-later :
    (c : Clock) (keys : ℕ) (d : Clock) (n : ℕ)
    → is_last c ≡ false
    → LastPoll (bench_poll_keys c).1 keys d n
    → LastPoll c keys d (suc n)
LastPoll-later c keys d n h l = record { returned = l.returned; last = l.last; earlier = before }
  where
    before : (i : ℕ) → i < suc n → is_last (polled i c) ≡ false
    before zero below = h
    before (suc i) below = l.earlier i (omega (arith, below))

-- The loop of `load_on_key` ends: with fuel for one poll more than the clock has left to its cap, it
-- returns the keys and the clock of one of its polls, the first one that sees a key, or after which the
-- run is over; and the fuel is enough for it.
pub poll_ends :
    (fuel : ℕ) (c : Clock)
    → c.clock_cap - bench_now c < fuel
    → (keys : ℕ) × (d : Clock) × (poll fuel c ≡ some (keys, d))
      × (n : ℕ) × (n < fuel)
      × LastPoll c keys d n
unfolding poll
poll_ends zero c h = absurd (omega arith)
poll_ends (suc fuel) c h =
    let (keys, d) = bench_poll_keys c in
    elim (Bool-cases (bench_done d)) [
      | inl over ↦ (keys, d, rw over refl, 0, omega arith, LastPoll-first c (ground (arith, over)))
      | inr on ↦ elim (Bool-cases (keys == 0)) [
        | inl no_key ↦
            let (k, e, r, n, within, l) =
              poll_ends fuel d (omega (arith, bench_poll_keys-now c, done_at_cap d on)) in
            (
              k,
              e,
              rw (on, no_key) r,
              suc n,
              omega (arith, within),
              LastPoll-later c k e n (ground (arith, on, no_key)) l,
            )
        | inr key ↦
            (keys, d, rw (on, key) refl, 0, omega arith, LastPoll-first c (ground (arith, on, key)))
      ]
    ]
