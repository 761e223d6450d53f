-- ===== src/Asm/Result.antt =====
-- How a function of src/asm.c ends: it returns, or it calls `fail`, which prints a message and exits,
-- or it copies a label past the end of its entry in the table, which C leaves undefined.
use chip_eight_jit.Common.{◌≡◌, refl, Bool, true, false, if◌then◌else◌}

pub data Result {ℓ} (A : Type ℓ) : Type ℓ where
  ok : A → Result A
  fail : Result A
  overflow : Result A

module _ {ℓ} {A B : Type ℓ} where
  infixl 5 ◌>>=◌
  abbrev pub ◌>>=◌ : Result A → (A → Result B) → Result B
  ok a >>= f = f a
  fail >>= f = fail
  overflow >>= f = overflow

  pub bind-ok :
      (r : Result A) (f : A → Result B) {b : B}
      → r >>= f ≡ ok b
      → (a : A) × (r ≡ ok a) × (f a ≡ ok b)
  bind-ok (ok a) f h = (a, refl, h)
  bind-ok fail f h = cc
  bind-ok overflow f h = cc

-- What holds of the result, if there is one.
abbrev pub Returns {ℓ κ} : {A : Type ℓ} → (A → Type κ) → Result A → Type κ
Returns P (ok a) = P a
Returns P fail = Unit
Returns P overflow = Unit

pub each_result {ℓ κ} :
    {A : Type ℓ} (P : A → Type κ) (r : Result A) → ((a : A) → r ≡ ok a → P a) → Returns P r
each_result P (ok a) h = h a refl
each_result P fail h = tt
each_result P overflow h = tt

pub Returns-bind {ℓ κ} :
    {A B : Type ℓ} (P : A → Type κ) (Q : B → Type κ) (r : Result A) (f : A → Result B)
    → Returns P r
    → ((a : A) → P a → Returns Q (f a))
    → Returns Q (r >>= f)
Returns-bind P Q (ok a) f p h = h a p
Returns-bind P Q fail f p h = tt
Returns-bind P Q overflow f p h = tt

pub Returns-bind_any {ℓ κ} :
    {A B : Type ℓ} (Q : B → Type κ) (r : Result A) (f : A → Result B)
    → ((a : A) → Returns Q (f a))
    → Returns Q (r >>= f)
Returns-bind_any Q (ok a) f h = h a
Returns-bind_any Q fail f h = tt
Returns-bind_any Q overflow f h = tt

-- A branch keeps what both of its results have.
pub Returns-branch {ℓ κ} :
    {A : Type ℓ} (Q : A → Type κ) (b : Bool) (r s : Result A)
    → Returns Q r
    → Returns Q s
    → Returns Q (if b then r else s)
Returns-branch Q true r s h k = h
Returns-branch Q false r s h k = k
