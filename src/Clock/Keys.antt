-- ===== src/Clock/Keys.antt =====
-- What the synthetic keyboard shows, and how clearing a key lasts for the rest of the tick.
use chip_eight_jit.Common.{
  ℕ, ◌-◌, ◌/◌, ◌%◌, ◌^◌, ◌<◌, ◌≡◌, false, true, ◌&&◌, not, some, arith, bit_or, Bool-cases, inl,
  inr, suc, bit_and, leb, ◌==◌,
}
use native.Mathlib.Nat.{pow-suc, pow-le-pow_right}
use chip_eight_jit.Common.Bits.{
  digit_of_zero, test_bit, test_bit_lem, digit-lt, digit-bit_or, digit-bit_and, digit_power,
  digit_complement, bit_or-lt,
}
use chip_eight_jit.Clock.{
  Clock, KeyMode, keys_none, keys_rotate, instr_per_tick, bench_now, same_tick, roll_tick, keys_at,
  bench_keys_now, bench_clear_key,
}

same_tick_self : (t : ℕ) → same_tick (some t) t ≡ true
same_tick_self t = ground arith

-- A roll leaves the tick marked, so that the next one in this tick changes nothing.
roll_tick_marked : (t : ℕ) (c : Clock) → same_tick (roll_tick t c).cleared_tick t ≡ true
unfolding roll_tick
roll_tick_marked t c = ground arith

pub power-lt : (key : ℕ) → key < 32 → 2 ^ key < 2 ^ 32
power-lt key h =
    omega (arith, pow-le-pow_right {n = 2} (omega arith) {i = suc key} {j = 32} h, pow-suc 2 key)

-- Masking off one more key hides that key and no other.
masked :
    (a cleared key j : ℕ)
    → cleared < 2 ^ 32
    → key < 32
    → j < 32
    → test_bit (bit_and a (2 ^ 32 - 1 - bit_or cleared (2 ^ key))) j
      ≡ (test_bit (bit_and a (2 ^ 32 - 1 - cleared)) j && not (key == j))
masked a cleared key j h q p =
    rw (test_bit_lem, test_bit_lem)
      (ground (
        arith,
        digit-bit_and a (2 ^ 32 - 1 - bit_or cleared (2 ^ key)) j,
        digit-bit_and a (2 ^ 32 - 1 - cleared) j,
        digit_complement 32 (bit_or cleared (2 ^ key)) j
            (bit_or-lt 32 cleared (2 ^ key) h (power-lt key q)) p,
        digit_complement 32 cleared j h p,
        digit-bit_or cleared (2 ^ key) j,
        digit_power key j,
        digit-lt a j,
        digit-lt cleared j,
      ))

keys_at-bit_or :
    (m : KeyMode) (t cleared key j : ℕ)
    → cleared < 2 ^ 32
    → key < 32
    → j < 32
    → test_bit (keys_at m t (bit_or cleared (2 ^ key))) j
      ≡ (test_bit (keys_at m t cleared) j && not (key == j))
unfolding keys_at
keys_at-bit_or keys_none t cleared key j h q p = ground (arith, test_bit_lem 0 j, digit_of_zero j)
keys_at-bit_or keys_rotate t cleared key j h q p = elim (Bool-cases (leb 2 (t % 4))) [
  | inl up ↦ rw up (ground (arith, test_bit_lem 0 j, digit_of_zero j))
  | inr down ↦ rw down (masked (2 ^ (t / 4 % 16)) cleared key j h q p)
]

-- Once `bench_clear_key` has cleared a key, the keyboard no longer shows it in this tick, and shows
-- every other key as it did.
pub bench_keys_now-bench_clear_key :
    (c : Clock) (key j : ℕ)
    → c.cleared < 2 ^ 32
    → key < 32
    → j < 32
    → test_bit (bench_keys_now (bench_clear_key key c)).0 j
      ≡ (test_bit (bench_keys_now c).0 j && not (key == j))
unfolding bench_keys_now bench_clear_key roll_tick
bench_keys_now-bench_clear_key c key j h q p = ground (
  arith,
  keys_at-bit_or c.key_mode (bench_now c / instr_per_tick) c.cleared key j,
  keys_at-bit_or c.key_mode (bench_now c / instr_per_tick) 0 key j,
  same_tick_self (bench_now c / instr_per_tick),
)

-- The synthetic keyboard never presses the quit key.
pub keys_at-no_quit : (m : KeyMode) (t cleared : ℕ) → test_bit (keys_at m t cleared) 31 ≡ false
unfolding keys_at
keys_at-no_quit keys_none t cleared = ground (arith, test_bit_lem 0 31)
keys_at-no_quit keys_rotate t cleared = elim (Bool-cases (leb 2 (t % 4))) [
  | inl up ↦ rw up (ground (arith, test_bit_lem 0 31))
  | inr down ↦
      let i = t / 4 % 16 in
      rw down (
        ground (
          arith,
          test_bit_lem (bit_and (2 ^ i) (2 ^ 32 - 1 - cleared)) 31,
          digit-bit_and (2 ^ i) (2 ^ 32 - 1 - cleared) 31,
          digit_power i 31,
        ))
]
