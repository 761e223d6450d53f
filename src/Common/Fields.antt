-- ===== src/Common/Fields.antt =====
-- The high and the low bits of a bitwise or.
use Prim.Native.Nat.{ℕ, zero, suc, ◌+◌, ◌*◌, ◌/◌, ◌%◌, ◌^◌, ◌<◌, bit_or}
use mathlib.Core.Path.{◌≡◌, refl, ap, ◌∙◌}
use native.Mathlib.Omega.{arith}
use chip_eight_jit.Common.Bits.{bit_or_step, halved_or, bit_or_zero, bit_or_shifted}

-- `a >> k`, one bit at a time.
abbrev shifted : ℕ → ℕ → ℕ
shifted zero a = a
shifted (suc k) a = shifted k (a / 2)

shifted-bit_or : (k a b : ℕ) → shifted k (bit_or a b) ≡ bit_or (shifted k a) (shifted k b)
shifted-bit_or zero a b = refl
shifted-bit_or (suc k) a b = rw (halved_or a b) (shifted-bit_or k (a / 2) (b / 2))

-- The low `k` bits.
abbrev lowest : ℕ → ℕ → ℕ
lowest zero a = 0
lowest (suc k) a = lowest k (a / 2) * 2 + a % 2

lowest-bit_or : (k a b : ℕ) → lowest k b ≡ 0 → lowest k (bit_or a b) ≡ lowest k a
lowest-bit_or zero a b h = refl
lowest-bit_or (suc k) a b h =
    rw (halved_or a b)
      (omega (arith, lowest-bit_or k (a / 2) (b / 2) (omega arith), bit_or_step a b))

lowest-bit_or_left : (k a b : ℕ) → lowest k a ≡ 0 → lowest k (bit_or a b) ≡ lowest k b
lowest-bit_or_left zero a b h = refl
lowest-bit_or_left (suc k) a b h =
    rw (halved_or a b)
      (omega (arith, lowest-bit_or_left k (a / 2) (b / 2) (omega arith), bit_or_step a b))

-- An operand of twelve bits leaves the highest four alone.
pub bit_or-high : (a z : ℕ) → z < 0x1000 → bit_or a z / 0x1000 ≡ a / 0x1000
bit_or-high a z h =
    let none : shifted 12 z ≡ 0 = omega arith in
    omega (
      arith,
      shifted-bit_or 12 a z
          ∙ ap (λ t. bit_or (shifted 12 a) t) none
          ∙ bit_or_zero (shifted 12 a) (shifted 12 a) (omega arith),
    )

-- A field from bit 8 on leaves the low byte alone, and one from bit 4 on the low nibble.
pub bit_or-low_byte : (a b : ℕ) → b % 0x100 ≡ 0 → bit_or a b % 0x100 ≡ a % 0x100
bit_or-low_byte a b h = omega (arith, lowest-bit_or 8 a b (omega arith))

pub bit_or-low_nibble : (a b : ℕ) → b % 0x10 ≡ 0 → bit_or a b % 0x10 ≡ a % 0x10
bit_or-low_nibble a b h = omega (arith, lowest-bit_or 4 a b (omega arith))

pub bit_or-low_nibble_left : (a b : ℕ) → a % 0x10 ≡ 0 → bit_or a b % 0x10 ≡ b % 0x10
bit_or-low_nibble_left a b h = omega (arith, lowest-bit_or_left 4 a b (omega arith))

-- An or of separate fields is their sum.
pub bit_or-add : (k a r : ℕ) → a ≡ a / 2 ^ k * 2 ^ k → r < 2 ^ k → bit_or a r ≡ a + r
bit_or-add k a r h lt = rw h (bit_or_shifted k (a / 2 ^ k) r lt)

-- The field of four bits from bit 8 on, and the one from bit 4 on.
pub bit_or-add_mid :
    (a x : ℕ) → a / 0x100 % 0x10 ≡ 0 → x < 16 → bit_or a (x * 0x100) ≡ a + x * 0x100
bit_or-add_mid a x h lt =
    let field : shifted 8 (x * 0x100) ≡ x = omega arith in
    omega (
      arith,
      shifted-bit_or 8 a (x * 0x100)
          ∙ ap (λ t. bit_or (shifted 8 a) t) field
          ∙ bit_or-add 4 (shifted 8 a) x (omega arith) lt,
      bit_or-low_byte a (x * 0x100) (omega arith),
    )

pub bit_or-add_low : (a y : ℕ) → a / 0x10 % 0x10 ≡ 0 → y < 16 → bit_or a (y * 0x10) ≡ a + y * 0x10
bit_or-add_low a y h lt =
    let field : shifted 4 (y * 0x10) ≡ y = omega arith in
    omega (
      arith,
      shifted-bit_or 4 a (y * 0x10)
          ∙ ap (λ t. bit_or (shifted 4 a) t) field
          ∙ bit_or-add 4 (shifted 4 a) y (omega arith) lt,
      bit_or-low_nibble a (y * 0x10) (omega arith),
    )
