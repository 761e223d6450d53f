-- ===== src/Machine/Font.antt =====
-- The hexadecimal digits in low memory.
use chip_eight_jit.Common.{
  ℕ, zero, suc, ◌<◌, ◌≡◌, refl, List, [], ◌∷◌, get_or, arith, Bool, true, ◌&&◌, ltb,
}
use chip_eight_jit.Machine.{initial_memory, font, u8}

all_bytes : List ℕ → Bool
all_bytes [] = true
all_bytes (b ∷ bs) = ltb b u8 && all_bytes bs

all_bytes-get_or : (bs : List ℕ) (i : ℕ) → all_bytes bs ≡ true → get_or bs i 0 < u8
unfolding all_bytes
all_bytes-get_or [] i h = omega arith
all_bytes-get_or (b ∷ bs) zero h = ground arith
all_bytes-get_or (b ∷ bs) (suc i) h = ground (arith, all_bytes-get_or bs i)

font_bytes : all_bytes font ≡ true
unfolding all_bytes
font_bytes = refl

pub initial_memory-lt : (a : ℕ) → initial_memory a < u8
unfolding initial_memory
initial_memory-lt a = all_bytes-get_or font a font_bytes
