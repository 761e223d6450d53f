-- ===== src/Disas/Descent/Closed.antt =====
-- What `descend` of src/disas.c reaches is closed: every target of reachable code is reached.
use chip_eight_jit.Common.{
  ℕ, ◌+◌, ◌%◌, ◌≡◌, ◌⊎◌, Bool, true, false, not, ◌&&◌, ◌||◌, some, List, [], ◌∷◌, Array, ltb, ◌==◌,
}
use chip_eight_jit.Disas.Opcodes.{rom_start, word_at, valid_opcode}
use chip_eight_jit.Disas.Analysis.{Flags}
use chip_eight_jit.Disas.Descent.{pushes, falls_through}

-- The instruction at `a` may be followed by the one at `b`.
abbrev pub Leads : Array → ℕ → ℕ → ℕ → Type 0
Leads memory size a b =
    (pushes size a (word_at memory a) ≡ some b)
    ⊎ ((falls_through (word_at memory a) ≡ true) × (b ≡ a + 2))

-- Nothing is left to do at `b`: it is reached, or holds no instruction of the ROM.
abbrev pub settled : Array → ℕ → Flags → ℕ → Bool
settled memory size reach b =
    reach b || not (ltb (b + 1) (rom_start + size) && valid_opcode (word_at memory b))

abbrev pending : List ℕ → ℕ → Bool
pending [] b = false
pending (a ∷ todo) b = a == b || pending todo b

-- Where an instruction that is reached leads to is settled, or still to do.
abbrev IsOpen : Array → ℕ → Flags → List ℕ → Type 0
IsOpen memory size reach todo =
    (a b : ℕ)
    → a % 2 ≡ 0
    → reach a ≡ true
    → Leads memory size a b
    → (settled memory size reach b || pending todo b) ≡ true
