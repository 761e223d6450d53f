-- ===== src/Aot/Host/Keys.antt =====
-- The key history of the runtime: a key that is consumed is gone from every entry.
use chip_eight_jit.Common.{
  ℕ, zero, suc, ◌+◌, ◌-◌, ◌^◌, ◌<◌, ◌≡◌, ◌&&◌, ◌||◌, not, Array, arith, update, ltb, leb, ◌==◌,
  if◌then◌else◌, bit_and, bit_or,
}
use chip_eight_jit.Common.Bits.{
  test_bit, test_bit_lem, digit-lt, digit-bit_or, digit-bit_and, digit_power, digit_complement,
  digit_of_zero,
}
use chip_eight_jit.Clock.Keys.{power-lt}
use chip_eight_jit.Aot.Host.{Host, input_ticks, keys_from, keys, clear_from, release_key}

test_bit-bit_or : (a b j : ℕ) → test_bit (bit_or a b) j ≡ (test_bit a j || test_bit b j)
test_bit-bit_or a b j =
    rw (test_bit_lem, test_bit_lem, test_bit_lem)
      (ground (arith, digit-bit_or a b j, digit-lt a j, digit-lt b j))

without :
    (a key j : ℕ)
    → key < 32
    → j < 32
    → test_bit (bit_and a (2 ^ 32 - 1 - 2 ^ key)) j ≡ (test_bit a j && not (key == j))
without a key j q p =
    rw (test_bit_lem, test_bit_lem)
      (ground (
        arith,
        digit-bit_and a (2 ^ 32 - 1 - 2 ^ key) j,
        digit_complement 32 (2 ^ key) j (power-lt key q) p,
        digit_power key j,
        digit-lt a j,
      ))

clear_from_lem :
    (key left i : ℕ) (history : Array) (k : ℕ)
    → clear_from key left i history k ≡ (
        if leb i k && ltb k (i + left)
        then bit_and (history k) (2 ^ 32 - 1 - 2 ^ key)
        else history k)
unfolding clear_from
clear_from_lem key zero i history k = ground arith
clear_from_lem key (suc left) i history k = ground (
  arith,
  clear_from_lem key left (i + 1) (update history i (bit_and (history i) (2 ^ 32 - 1 - 2 ^ key))) k,
)

-- Bit `j` of `new` is that of `old`, unless `j` is the key.
abbrev Loses : ℕ → ℕ → ℕ → ℕ → Type 0
Loses key j old new = test_bit new j ≡ (test_bit old j && not (key == j))

Loses-bit_or :
    (key j a b c d : ℕ) → Loses key j a b → Loses key j c d → Loses key j (bit_or a c) (bit_or b d)
Loses-bit_or key j a b c d h k = ground (arith, test_bit-bit_or a c j, test_bit-bit_or b d j)

keys_from-Loses :
    (key j : ℕ) (old new : Array) (left i a b : ℕ)
    → ((k : ℕ) → k < i + left → Loses key j (old k) (new k))
    → Loses key j a b
    → Loses key j (keys_from old left i a) (keys_from new left i b)
unfolding keys_from
keys_from-Loses key j old new zero i a b h l = l
keys_from-Loses key j old new (suc left) i a b h l =
    keys_from-Loses key j old new left (i + 1) (bit_or a (old i)) (bit_or b (new i))
      (λ k lt. h k (omega arith)) (Loses-bit_or key j a b (old i) (new i) l (h i (omega arith)))

nothing_lost : (key j : ℕ) → Loses key j 0 0
nothing_lost key j = rw (test_bit_lem 0 j) (ground (arith, digit_of_zero j))

-- After `clear_key` the runtime no longer sees the key, though ten polls are kept, and sees every
-- other key as before.
pub keys-release_key :
    (h : Host) (key j : ℕ)
    → key < 32
    → j < 32
    → test_bit (keys (release_key key h)) j ≡ (test_bit (keys h) j && not (key == j))
unfolding keys release_key
keys-release_key h key j q p =
    keys_from-Loses key j h.key_history (clear_from key input_ticks 0 h.key_history) input_ticks 0 0
      0
      (λ k lt. ground (
        arith,
        clear_from_lem key input_ticks 0 h.key_history k,
        without (h.key_history k) key j q p,
      ))
      (nothing_lost key j)
