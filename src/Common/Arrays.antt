-- ===== src/Common/Arrays.antt =====
-- A C array is a function on indices; a write replaces one value.
use Prim.Native.Nat.{ℕ, zero, suc, ◌+◌, ◌<◌}
use mathlib.Core.Path.{◌≡◌, fun_ext}
use mathlib.Core.List.{List, [], ◌∷◌, ◌++◌}
use native.Mathlib.Omega.{arith}
use chip_eight_jit.Common.Tests.{◌==◌, if◌then◌else◌}

abbrev pub Array : Type 0
Array = ℕ → ℕ

abbrev pub update {ℓ} : {A : Type ℓ} → (ℕ → A) → ℕ → A → ℕ → A
update a i v j = if i == j then v else a j

-- Every value of the array is below `n`.
abbrev pub Below : ℕ → Array → Type 0
Below n a = (i : ℕ) → a i < n

pub Below-update : (n : ℕ) (a : Array) (i v : ℕ) → Below n a → v < n → Below n (update a i v)
Below-update n a i v h hv j = ground (arith, h j)

pub update_twice {ℓ} :
    {A : Type ℓ} (a : ℕ → A) (i : ℕ) (v w : A) → update (update a i v) i w ≡ update a i w
update_twice a i v w = fun_ext λ j. ground arith

pub update_own {ℓ} : {A : Type ℓ} (a : ℕ → A) (i : ℕ) → update a i (a i) ≡ a
update_own a i = fun_ext λ j. ground arith

module _ {ℓ} {A : Type ℓ} where
  abbrev pub length : List A → ℕ
  length [] = 0
  length (x ∷ xs) = suc (length xs)

  abbrev pub get_or : List A → ℕ → A → A
  get_or [] i d = d
  get_or (x ∷ xs) zero d = x
  get_or (x ∷ xs) (suc i) d = get_or xs i d

  pub length-append : (xs ys : List A) → length (xs ++ ys) ≡ length xs + length ys
  length-append [] ys = omega arith
  length-append (x ∷ xs) ys = omega (arith, length-append xs ys)
