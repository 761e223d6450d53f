-- ===== src/Jit/Marks.antt =====
-- `mark_code` and `note_store` of src/libgccjit_jit.c: the bytes that compiled code was made of.
use chip_eight_jit.Common.{
  ℕ, zero, suc, ◌+◌, ◌%◌, ◌≡◌, ◌↔◌, ◌∙◌, ap, Bool, true, false, ◌||◌, arith, update, ◌<◌,
  Bool-cases, inl, inr,
}
use chip_eight_jit.Machine.{memory_size}

-- `code_bytes`
abbrev pub Marks : Type 0
Marks = ℕ → Bool

-- The loop of `mark_code` from `i` on, with `left` rounds to go.
unfoldable pub mark_bytes : ℕ → ℕ → ℕ → Marks → Marks
mark_bytes a zero i code = code
mark_bytes a (suc left) i code =
    mark_bytes a left (i + 1) (update code ((a + i) % memory_size) true)

unfoldable pub mark_code : ℕ → ℕ → Marks → Marks
mark_code a n code = mark_bytes a n 0 code

-- The loop of `note_store` likewise: whether it finds a byte of code.
unfoldable pub meets_mark : Marks → ℕ → ℕ → ℕ → Bool
meets_mark code a zero i = false
meets_mark code a (suc left) i = code ((a + i) % memory_size) || meets_mark code a left (i + 1)

unfoldable pub note_store : Marks → ℕ → ℕ → Bool
note_store code a n = meets_mark code a n 0

-- Each mark of the first is one of the second.
abbrev pub Within : Marks → Marks → Type 0
Within code other = (a : ℕ) → code a ≡ true → other a ≡ true

pub mark_bytes-Within : (a left i : ℕ) (code : Marks) → Within code (mark_bytes a left i code)
unfolding mark_bytes
mark_bytes-Within a zero i code b h = h
mark_bytes-Within a (suc left) i code b h =
    mark_bytes-Within a left (i + 1) (update code ((a + i) % memory_size) true) b
      (ground (arith, h))

pub mark_code-Within : (a n : ℕ) (code : Marks) → Within code (mark_code a n code)
unfolding mark_code
mark_code-Within a n code = mark_bytes-Within a n 0 code

-- The two bytes of an opcode are marked.
pub mark_code_two :
    (pc : ℕ) (code : Marks)
    → (mark_code pc 2 code (pc % memory_size) ≡ true)
      × (mark_code pc 2 code ((pc + 1) % memory_size) ≡ true)
unfolding mark_code mark_bytes
mark_code_two pc code = ground arith

meets_mark_lem :
    (code : Marks) (a left i : ℕ)
    → meets_mark code a left i ≡ true
    → (k : ℕ) × (k < left) × (code ((a + (i + k)) % memory_size) ≡ true)
unfolding meets_mark
meets_mark_lem code a zero i h = cc
meets_mark_lem code a (suc left) i h = elim (Bool-cases (code ((a + i) % memory_size))) [
  | inl on ↦ (0, omega arith, ap (λ b. code ((a + b) % memory_size)) (omega arith) ∙ on)
  | inr off ↦
      let (k, lt, on) = meets_mark_lem code a left (i + 1) (ground (arith, h, off)) in
      (suc k, omega arith, ap (λ b. code ((a + b) % memory_size)) (omega arith) ∙ on)
]

meets_mark_found :
    (code : Marks) (a left i k : ℕ)
    → k < left
    → code ((a + (i + k)) % memory_size) ≡ true
    → meets_mark code a left i ≡ true
unfolding meets_mark
meets_mark_found code a zero i k lt on = absurd (omega arith)
meets_mark_found code a (suc left) i zero lt on =
    let here : code ((a + i) % memory_size) ≡ true =
      ap (λ b. code ((a + b) % memory_size)) (omega arith) ∙ on in
    ground (arith, here)
meets_mark_found code a (suc left) i (suc k) lt on =
    let later : code ((a + (i + 1 + k)) % memory_size) ≡ true =
      ap (λ b. code ((a + b) % memory_size)) (omega arith) ∙ on in
    ground (arith, meets_mark_found code a left (i + 1) k (omega arith) later)

-- A store of some bytes raises the flag exactly if one of them, at its place in the 4 KiB that wrap round, is a byte
-- that a trace was compiled from.
pub note_store_lem :
    (code : Marks) (a n : ℕ)
    → (note_store code a n ≡ true) ↔ ((k : ℕ) × (k < n) × (code ((a + k) % memory_size) ≡ true))
unfolding note_store
note_store_lem code a n = (
  λ h.
      let (k, lt, on) = meets_mark_lem code a n 0 h in
      (k, lt, ap (λ b. code ((a + b) % memory_size)) (omega arith) ∙ on),
  λ (k, lt, on).
      meets_mark_found code a n 0 k lt (ap (λ b. code ((a + b) % memory_size)) (omega arith) ∙ on),
)
