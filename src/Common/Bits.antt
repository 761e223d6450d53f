-- ===== src/Common/Bits.antt =====
-- Laws of `&`, `|` and `^` at every width, by recursion on the lowest binary digit.
use Prim.Native.Nat.{
  ℕ, zero, suc, ◌+◌, ◌-◌, ◌*◌, ◌/◌, ◌%◌, ◌^◌, ◌≤◌, ◌<◌, min, max, bit_and, bit_or, bit_xor,
}
use Prim.Native.Nat.{digits, differ, bit_and-bitwise, bit_or-bitwise, bit_xor-bitwise}
use mathlib.Core.Path.{◌≡◌, refl, ap}
use mathlib.Core.Bool.{Bool, not}
use native.Mathlib.Nat.{pow-suc, one-le-pow}
use native.Mathlib.Omega.{arith}
use chip_eight_jit.Common.Tests.{◌==◌, if◌then◌else◌}

-- The fuel of `digits` does not matter once it covers the first number.
fuel_enough :
    (z : ℕ → ℕ) (f : ℕ → ℕ → ℕ) (n m a b : ℕ) → a ≤ n → a ≤ m → digits z f n a b ≡ digits z f m a b
fuel_enough z f zero zero a b p q = refl
fuel_enough z f zero (suc m) zero b p q = refl
fuel_enough z f zero (suc m) (suc a) b p q = absurd (omega arith)
fuel_enough z f (suc n) zero zero b p q = refl
fuel_enough z f (suc n) zero (suc a) b p q = absurd (omega arith)
fuel_enough z f (suc n) (suc m) zero b p q = refl
fuel_enough z f (suc n) (suc m) (suc a) b p q =
    omega (arith, fuel_enough z f n m (suc a / 2) (b / 2) (omega arith) (omega arith))

pub bit_and_step : (a b : ℕ) → bit_and a b ≡ bit_and (a / 2) (b / 2) * 2 + min (a % 2) (b % 2)
bit_and_step zero b = omega (arith, bit_and-bitwise 0 b, bit_and-bitwise 0 (b / 2))
bit_and_step (suc a) b = omega (
  arith,
  bit_and-bitwise (suc a) b,
  bit_and-bitwise (suc a / 2) (b / 2),
  fuel_enough (λ b. 0) min a (suc a / 2) (suc a / 2) (b / 2) (omega arith) (omega arith),
)

pub bit_or_step : (a b : ℕ) → bit_or a b ≡ bit_or (a / 2) (b / 2) * 2 + max (a % 2) (b % 2)
bit_or_step zero b = omega (arith, bit_or-bitwise 0 b, bit_or-bitwise 0 (b / 2))
bit_or_step (suc a) b = omega (
  arith,
  bit_or-bitwise (suc a) b,
  bit_or-bitwise (suc a / 2) (b / 2),
  fuel_enough (λ b. b) max a (suc a / 2) (suc a / 2) (b / 2) (omega arith) (omega arith),
)

differ_lem : (x y : ℕ) → x < 2 → y < 2 → differ x y ≡ (x + y) % 2
differ_lem zero y p q = omega arith
differ_lem (suc zero) zero p q = refl
differ_lem (suc zero) (suc zero) p q = refl
differ_lem (suc zero) (suc (suc y)) p q = absurd (omega arith)
differ_lem (suc (suc x)) y p q = absurd (omega arith)

pub bit_xor_step : (a b : ℕ) → bit_xor a b ≡ bit_xor (a / 2) (b / 2) * 2 + (a + b) % 2
bit_xor_step zero b = omega (arith, bit_xor-bitwise 0 b, bit_xor-bitwise 0 (b / 2))
bit_xor_step (suc a) b = omega (
  arith,
  bit_xor-bitwise (suc a) b,
  bit_xor-bitwise (suc a / 2) (b / 2),
  differ_lem (suc a % 2) (b % 2) (omega arith) (omega arith),
  fuel_enough (λ b. b) differ a (suc a / 2) (suc a / 2) (b / 2) (omega arith) (omega arith),
)

-- No operation leaves the width of its operands.
pub bit_and-lt : (k a b : ℕ) → a < 2 ^ k → bit_and a b < 2 ^ k
bit_and-lt zero a b h = let e : a ≡ 0 = omega arith in rw e (omega (arith, bit_and-bitwise 0 b))
bit_and-lt (suc k) a b h = omega (
  arith,
  pow-suc 2 k,
  bit_and_step a b,
  bit_and-lt k (a / 2) (b / 2) (omega (arith, pow-suc 2 k)),
)

pub bit_or-lt : (k a b : ℕ) → a < 2 ^ k → b < 2 ^ k → bit_or a b < 2 ^ k
bit_or-lt zero a b h p = let e : a ≡ 0 = omega arith in rw e (omega (arith, bit_or-bitwise 0 b))
bit_or-lt (suc k) a b h p = omega (
  arith,
  pow-suc 2 k,
  bit_or_step a b,
  bit_or-lt k (a / 2) (b / 2) (omega (arith, pow-suc 2 k)) (omega (arith, pow-suc 2 k)),
)

pub bit_xor-lt : (k a b : ℕ) → a < 2 ^ k → b < 2 ^ k → bit_xor a b < 2 ^ k
bit_xor-lt zero a b h p = let e : a ≡ 0 = omega arith in rw e (omega (arith, bit_xor-bitwise 0 b))
bit_xor-lt (suc k) a b h p = omega (
  arith,
  pow-suc 2 k,
  bit_xor_step a b,
  bit_xor-lt k (a / 2) (b / 2) (omega (arith, pow-suc 2 k)) (omega (arith, pow-suc 2 k)),
)

-- `(a & (1u << k)) != 0`
unfoldable pub test_bit : ℕ → ℕ → Bool
test_bit a k = not (bit_and a (2 ^ k) == 0)

-- The digit that `test_bit` reads.
abbrev pub digit : ℕ → ℕ → ℕ
digit a zero = a % 2
digit a (suc k) = digit (a / 2) k

pub digit-lt : (a k : ℕ) → digit a k < 2
digit-lt a zero = omega arith
digit-lt a (suc k) = digit-lt (a / 2) k

pub bit_and_zero : (a n : ℕ) → a ≤ n → bit_and a 0 ≡ 0
bit_and_zero zero n h = bit_and-bitwise 0 0
bit_and_zero (suc a) zero h = absurd (omega arith)
bit_and_zero (suc a) (suc n) h =
    omega (arith, bit_and_step (suc a) 0, bit_and_zero (suc a / 2) n (omega arith))

pub bit_and_power : (a k : ℕ) → bit_and a (2 ^ k) ≡ digit a k * 2 ^ k
bit_and_power a zero =
    omega (arith, bit_and_step a 1, bit_and_zero (a / 2) (a / 2) (omega arith), pow-suc 2 0)
bit_and_power a (suc k) =
    let half : 2 ^ suc k / 2 ≡ 2 ^ k = omega (arith, pow-suc 2 k) in
    let low : bit_and a (2 ^ suc k) ≡ bit_and (a / 2) (2 ^ k) * 2 + min (a % 2) (2 ^ suc k % 2) =
      rw half at (bit_and_step a (2 ^ suc k)) in
    omega (
      arith,
      low,
      pow-suc 2 k,
      bit_and_power (a / 2) k,
      ap (λ (t : ℕ). digit (a / 2) k * t) (pow-suc 2 k),
    )

pub test_bit_lem : (a k : ℕ) → test_bit a k ≡ (digit a k == 1)
unfolding test_bit
test_bit_lem a k = rw (bit_and_power a k) (split (digit a k) (digit-lt a k))
  where
    split : (d : ℕ) → d < 2 → not (d * 2 ^ k == 0) ≡ (d == 1)
    split zero h = ground arith
    split (suc zero) h = ground (arith, one-le-pow k 2)
    split (suc (suc d)) h = absurd (omega arith)

halved_and : (a b : ℕ) → bit_and a b / 2 ≡ bit_and (a / 2) (b / 2)
halved_and a b = omega (arith, bit_and_step a b)

pub halved_or : (a b : ℕ) → bit_or a b / 2 ≡ bit_or (a / 2) (b / 2)
halved_or a b = omega (arith, bit_or_step a b)

pub digit-bit_and : (a b k : ℕ) → digit (bit_and a b) k ≡ min (digit a k) (digit b k)
digit-bit_and a b zero = omega (arith, bit_and_step a b)
digit-bit_and a b (suc k) = rw (halved_and a b) (digit-bit_and (a / 2) (b / 2) k)

pub digit-bit_or : (a b k : ℕ) → digit (bit_or a b) k ≡ max (digit a k) (digit b k)
digit-bit_or a b zero = omega (arith, bit_or_step a b)
digit-bit_or a b (suc k) = rw (halved_or a b) (digit-bit_or (a / 2) (b / 2) k)

pub digit_of_zero : (k : ℕ) → digit 0 k ≡ 0
digit_of_zero zero = refl
digit_of_zero (suc k) = digit_of_zero k

-- A power of two has one digit.
pub digit_power : (i k : ℕ) → digit (2 ^ i) k ≡ (if i == k then 1 else 0)
digit_power zero zero = refl
digit_power zero (suc k) = ground (arith, digit_of_zero k)
digit_power (suc i) zero = ground (arith, pow-suc 2 i)
digit_power (suc i) (suc k) =
    let half : 2 ^ suc i / 2 ≡ 2 ^ i = omega (arith, pow-suc 2 i) in
    rw half (ground (arith, digit_power i k))

-- `~a` on `w` bits.
pub digit_complement : (w a k : ℕ) → a < 2 ^ w → k < w → digit (2 ^ w - 1 - a) k ≡ 1 - digit a k
digit_complement zero a k h p = absurd (omega arith)
digit_complement (suc w) a zero h p = omega (arith, pow-suc 2 w)
digit_complement (suc w) a (suc k) h p =
    let half : (2 ^ suc w - 1 - a) / 2 ≡ 2 ^ w - 1 - a / 2 = omega (arith, pow-suc 2 w) in
    rw half (digit_complement w (a / 2) k (omega (arith, pow-suc 2 w)) (omega arith))

pub bit_or_zero : (a n : ℕ) → a ≤ n → bit_or a 0 ≡ a
bit_or_zero zero n h = bit_or-bitwise 0 0
bit_or_zero (suc a) zero h = absurd (omega arith)
bit_or_zero (suc a) (suc n) h =
    omega (arith, bit_or_step (suc a) 0, bit_or_zero (suc a / 2) n (omega arith))

-- `(q << k) | r` is a sum where `r` has `k` bits.
pub bit_or_shifted : (k q r : ℕ) → r < 2 ^ k → bit_or (q * 2 ^ k) r ≡ q * 2 ^ k + r
bit_or_shifted zero q r h =
    let e : r ≡ 0 = omega arith in rw e (omega (arith, bit_or_zero (q * 1) (q * 1) (omega arith)))
bit_or_shifted (suc k) q r h =
    let half : q * 2 ^ suc k / 2 ≡ q * 2 ^ k = omega (arith, ap (λ (t : ℕ). q * t) (pow-suc 2 k)) in
    let low : bit_or (q * 2 ^ suc k) r
        ≡ bit_or (q * 2 ^ k) (r / 2) * 2 + max (q * 2 ^ suc k % 2) (r % 2) =
      rw half at (bit_or_step (q * 2 ^ suc k) r) in
    omega (
      arith,
      low,
      ap (λ (t : ℕ). q * t) (pow-suc 2 k),
      bit_or_shifted k q (r / 2) (omega (arith, pow-suc 2 k)),
    )
