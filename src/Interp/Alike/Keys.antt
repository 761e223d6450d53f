-- ===== src/Interp/Alike/Keys.antt =====
-- The handlers of src/interp.c for the keyboard take machines that are alike to machines that are.
use chip_eight_jit.Common.{
  ℕ, zero, suc, ◌+◌, ◌-◌, ◌*◌, ◌%◌, ◌^◌, ◌≡◌, refl, ap, subst, Bool, Option, none, some, arith,
  Bool-cases, inl, inr, ◌==◌, leb, bit_or,
}
use chip_eight_jit.Common.Bits.{test_bit}
use chip_eight_jit.Clock.{Clock, bench_now, bench_tick, bench_poll_keys, bench_done, poll_cost}
use chip_eight_jit.Machine.{Machine, x_of, set_reg, skip}
use chip_eight_jit.Interp.Outcome.{hangs}
use chip_eight_jit.Interp.Input.{differs, skip_key_x, poll, latch, take_keys, load_on_key}
use chip_eight_jit.Interp.Alike.{Times, retimed, AlikeTimes, Alike, AlikeOutcome}
use chip_eight_jit.Interp.Alike.Later.{moved_to, with_clock, moved_both, Alike-retimed}
use chip_eight_jit.Interp.Alike.Untimed.{TimeBlind}
use chip_eight_jit.Interp.Alike.Look.{
  keys_now-looked, look, clear, look-AlikeTimes, clear-AlikeTimes, shown, same_shown,
  all_keys_down-retimed, clear_key-retimed,
}

latch-Alike :
    (keys x rest i : ℕ) (t u : Times) (m : Machine)
    → AlikeTimes t u
    → Alike (latch keys x rest i (retimed t m)) (latch keys x rest i (retimed u m))
unfolding latch
latch-Alike keys x zero i t u m a = Alike-retimed t u m a
latch-Alike keys x (suc rest) i t u m a =
    let b = clear-AlikeTimes i t u a in
    elim (Bool-cases (test_bit keys i)) [
      | inl down ↦
          rw (down, clear_key-retimed i t m, clear_key-retimed i u m)
            (latch-Alike keys x rest (i + 1) (clear i t) (clear i u) (set_reg x i m) b)
      | inr up ↦
          rw (up, clear_key-retimed i t m, clear_key-retimed i u m)
            (latch-Alike keys x rest (i + 1) (clear i t) (clear i u) m b)
    ]

-- A poll moves the clock on, and looks.
abbrev waited : Times → Times
waited t = with_clock (moved_to t.clock.retired (t.clock.poll_clock + poll_cost) t.clock) t

waited-AlikeTimes : (t u : Times) → AlikeTimes t u → AlikeTimes (waited t) (waited u)
waited-AlikeTimes t u a =
    moved_both _ _ _ _ t u (omega arith) (ap (λ (v : Times). v.clock.retired) a.same_level)
      (ap (λ (v : Times). v.clock.poll_clock + poll_cost) a.same_level) a

bench_poll_keys-waited :
    (t : Times) → bench_poll_keys t.clock ≡ (shown (waited t), (look (waited t)).clock)
unfolding bench_poll_keys bench_tick
bench_poll_keys-waited t = keys_now-looked (waited t).clock

same_done : (t u : Times) → AlikeTimes t u → bench_done t.clock ≡ bench_done u.clock
unfolding bench_done
same_done t u a = ap (λ (v : Times). bench_done v.clock) a.same_level

-- Both waits end alike, or neither ends.
abbrev PollAlike : Times → Times → Option (ℕ × Clock) → Option (ℕ × Clock) → Type 0
PollAlike t u none none = Unit
PollAlike t u (some (keys, c)) (some (other, d)) =
    (keys ≡ other) × AlikeTimes (with_clock c t) (with_clock d u)
PollAlike t u _ _ = ⊥

poll-Alike :
    (fuel : ℕ) (t u : Times)
    → AlikeTimes t u
    → PollAlike t u (poll fuel t.clock) (poll fuel u.clock)
unfolding poll
poll-Alike zero t u a = tt
poll-Alike (suc fuel) t u a =
    let b = waited-AlikeTimes t u a in
    let c = look-AlikeTimes (waited t) (waited u) b in
    let same_keys = same_shown (waited t) (waited u) b in
    let over = same_done (look (waited t)) (look (waited u)) c in
    let rest = poll-Alike fuel (look (waited t)) (look (waited u)) c in
    rw (bench_poll_keys-waited t, bench_poll_keys-waited u, over, same_keys)
      (elim (Bool-cases (bench_done (look (waited u)).clock)) [
        | inl done ↦ rw (done) (refl, c)
        | inr more ↦ elim (Bool-cases (shown (waited u) == 0)) [
          | inl nothing ↦ rw (more, nothing) rest
          | inr key ↦ rw (more, key) (refl, c)
        ]
      ])

module _ (op : ℕ) where
  pub skip_key_x-TimeBlind : (up : Bool) → TimeBlind (skip_key_x up op)
  unfolding skip_key_x
  skip_key_x-TimeBlind up t u m a =
      let vx = m.regs (x_of op) in
      let b = look-AlikeTimes t u a in
      let c = clear-AlikeTimes vx (look t) (look u) b in
      rw (all_keys_down-retimed t m, all_keys_down-retimed u m, same_shown t u a)
        (elim (Bool-cases (leb 32 vx)) [
          | inl wide ↦ rw (wide) tt
          | inr fits ↦ elim (Bool-cases (differs (test_bit (shown u) vx) up)) [
            | inl taken ↦
                rw (fits, taken, clear_key-retimed vx (look t) m, clear_key-retimed vx (look u) m)
                  (Alike-retimed (clear vx (look t)) (clear vx (look u)) (skip (skip m)) c)
            | inr straight ↦ rw (fits, straight) (Alike-retimed (look t) (look u) (skip m) b)
          ]
        ])

Alike-skip : (m n : Machine) → Alike m n → Alike (skip m) (skip n)
Alike-skip m n a = record { same_else = ap skip a.same_else; alike_times = a.alike_times }

take_keys-Alike :
    (op keys : ℕ) (t u : Times) (m : Machine)
    → AlikeTimes t u
    → AlikeOutcome (take_keys op keys (retimed t m)) (take_keys op keys (retimed u m))
unfolding take_keys
take_keys-Alike op keys t u m a =
    let b = latch-Alike keys (x_of op) 16 0 t u m a in
    let same_pc = ap (λ (s : Machine). s.program_counter) b.same_else in
    elim (Bool-cases (test_bit keys 31)) [
      | inl quit ↦ rw (quit) (b, ap (λ n. bit_or (op * 2 ^ 16 % 2 ^ 32) n) same_pc)
      | inr more ↦ rw (more) (Alike-skip _ _ b)
    ]

wait_over :
    (op : ℕ) (t u : Times) (m : Machine) (o p : Option (ℕ × Clock))
    → PollAlike t u o p
    → AlikeOutcome
        (elim o [ none ↦ hangs | some (keys, c) ↦ take_keys op keys (retimed (with_clock c t) m) ])
        (elim p [ none ↦ hangs | some (keys, c) ↦ take_keys op keys (retimed (with_clock c u) m) ])
wait_over op t u m none none h = tt
wait_over op t u m (some (keys, c)) (some (other, d)) (same_keys, a) =
    rw (same_keys) (take_keys-Alike op other (with_clock c t) (with_clock d u) m a)
wait_over op t u m none (some k) h = absurd h
wait_over op t u m (some k) none h = absurd h

pub load_on_key-TimeBlind : (op : ℕ) → TimeBlind (load_on_key op)
unfolding load_on_key
load_on_key-TimeBlind op t u m a =
    let same_fuel : suc (t.clock.clock_cap - bench_now t.clock)
        ≡ suc (u.clock.clock_cap - bench_now u.clock) =
      ap (λ (v : Times). suc (v.clock.clock_cap - bench_now v.clock)) a.same_level in
    subst
      (λ fuel. AlikeOutcome (load_on_key op (retimed t m)) (elim (poll fuel u.clock) [
        | none ↦ hangs
        | some (keys, c) ↦ take_keys op keys (retimed (with_clock c u) m)
      ]))
      same_fuel
      (wait_over op t u m _ _ (poll-Alike (suc (t.clock.clock_cap - bench_now t.clock)) t u a))
