-- ===== src/Asm/Instruction/Unresolved.antt =====
-- An instruction that assembles in the second pass is also accepted by the first one, in which its
-- symbols may still be unknown.
use chip_eight_jit.Common.{
  ℕ, ◌≡◌, refl, Bool, true, false, List, length, arith, Option-cases, ◌⊎◌, inl, inr, ◌==◌,
  if◌then◌else◌, bit_or,
}
use chip_eight_jit.Asm.Result.{Result, ok, fail, overflow, ◌>>=◌}
use chip_eight_jit.Asm.Lexer.{Text}
use chip_eight_jit.Asm.Values.{Symbol, lookup, value_of, reg}
use chip_eight_jit.Asm.Passes.Sizes.{Extends}
use chip_eight_jit.Asm.Instruction.{
  at, is_text, starts_v, need, with_x, with_y, operand, or_operand, jump_of, skip_of, load_reg,
  load_of, add_of, random_of, draw_of, instruction,
}

-- Where the one result is there, the other one is, too.
abbrev pub Follows : {A : Type 0} → Result A → Result A → Type 0
Follows {A} r s = (a : A) → r ≡ ok a → (b : A) × (s ≡ ok b)

module _ {A : Type 0} where
  Follows_refl : (r : Result A) → Follows r r
  Follows_refl r a e = (a, e)

  Follows-branch :
      (b : Bool) {r s t u : Result A}
      → Follows r t
      → Follows s u
      → Follows (if b then r else s) (if b then t else u)
  Follows-branch true h k = h
  Follows-branch false h k = k

  Follows-then :
      {B : Type 0} (r : Result B) {f g : B → Result A}
      → ((b : B) → Follows (f b) (g b))
      → Follows (r >>= f) (r >>= g)
  Follows-then (ok b) h a e = h b a e
  Follows-then fail h a e = cc
  Follows-then overflow h a e = cc

  Follows-map :
      {B : Type 0} (r s : Result B) (f : B → A)
      → Follows r s
      → Follows (r >>= λ b. ok (f b)) (s >>= λ b. ok (f b))
  Follows-map (ok b) s f h a e = let (c, k) = h b refl in (f c, ground (arith, k))
  Follows-map fail s f h a e = cc
  Follows-map overflow s f h a e = cc

-- A symbol that is not known yet is 0, which is in every range.
operand-cases :
    (old new : List Symbol) (max : ℕ) (s : Text) (v : ℕ)
    → Extends old new
    → operand new true max s ≡ ok v
    → (operand old false max s ≡ ok v) ⊎ (operand old false max s ≡ ok 0)
unfolding value_of
operand-cases old new max s v ext e = elim (Option-cases (lookup old s)) [
  | inl missing ↦ ground (arith, missing, e)
  | inr (u, found) ↦ ground (arith, found, ext s u found, e)
]

module _ (old new : List Symbol) (ext : Extends old new) where
  operand-Follows :
      (max : ℕ) (s : Text) → Follows (operand new true max s) (operand old false max s)
  operand-Follows max s v e = elim (operand-cases old new max s v ext e) [
    | inl h ↦ (v, h)
    | inr h ↦ (0, h)
  ]

  or_operand-Follows :
      (base max : ℕ) (s : Text)
      → Follows (or_operand new true base max s) (or_operand old false base max s)
  or_operand-Follows base max s =
      Follows-map (operand new true max s) (operand old false max s) (λ z. bit_or base z)
        (operand-Follows max s)

  module _ (t : List Text) where
    abbrev same_of : (r : Result ℕ) → Follows r r
    same_of = Follows_refl

    jump_of-Follows : Follows (jump_of new true t) (jump_of old false t)
    unfolding jump_of
    jump_of-Follows = Follows-branch (length t == 2) (or_operand-Follows 0x1000 0xfff (at t 1)) (
        Follows-branch (length t == 3)
          (Follows-branch (is_text (at t 1) "V0") (or_operand-Follows 0xb000 0xfff (at t 2))
            (same_of fail))
          (same_of fail))

    skip_of-Follows :
        (for_reg for_byte : ℕ)
        → Follows (skip_of new true for_reg for_byte t) (skip_of old false for_reg for_byte t)
    unfolding skip_of
    skip_of-Follows for_reg for_byte =
        Follows-branch (length t == 3)
          (Follows-then (reg (at t 1)) λ x.
            Follows-branch (starts_v (at t 2)) (same_of _)
              (or_operand-Follows (with_x for_byte x) 0xff (at t 2)))
          (same_of fail)

    load_reg-Follows : Follows (load_reg new true t) (load_reg old false t)
    unfolding load_reg
    load_reg-Follows = Follows-then (reg (at t 1)) λ x.
        Follows-branch (is_text (at t 2) "DT") (same_of _) (
          Follows-branch (is_text (at t 2) "K") (same_of _) (
            Follows-branch (is_text (at t 2) "[I]") (same_of _) (
              Follows-branch (starts_v (at t 2)) (same_of _)
                (or_operand-Follows (with_x 0x6000 x) 0xff (at t 2)))))

    load_of-Follows : Follows (load_of new true t) (load_of old false t)
    unfolding load_of
    load_of-Follows =
        Follows-branch (length t == 3)
          (Follows-branch (is_text (at t 1) "I") (or_operand-Follows 0xa000 0xfff (at t 2)) (
            Follows-branch (is_text (at t 1) "DT") (same_of _) (
              Follows-branch (is_text (at t 1) "ST") (same_of _) (
                Follows-branch (is_text (at t 1) "F") (same_of _) (
                  Follows-branch (is_text (at t 1) "B") (same_of _)
                    (Follows-branch (is_text (at t 1) "[I]") (same_of _) load_reg-Follows))))))
          (same_of fail)

    add_of-Follows : Follows (add_of new true t) (add_of old false t)
    unfolding add_of
    add_of-Follows =
        Follows-branch (length t == 3)
          (Follows-branch (is_text (at t 1) "I") (same_of _) (
            Follows-then (reg (at t 1)) λ x.
              Follows-branch (starts_v (at t 2)) (same_of _)
                (or_operand-Follows (with_x 0x7000 x) 0xff (at t 2))))
          (same_of fail)

    random_of-Follows : Follows (random_of new true t) (random_of old false t)
    unfolding random_of
    random_of-Follows =
        Follows-branch (length t == 3)
          (Follows-then (reg (at t 1)) λ x. or_operand-Follows (with_x 0xc000 x) 0xff (at t 2))
          (same_of fail)

    draw_of-Follows : Follows (draw_of new true t) (draw_of old false t)
    unfolding draw_of
    draw_of-Follows =
        Follows-branch (length t == 4)
          (Follows-then (reg (at t 1)) λ x.
            Follows-then (reg (at t 2))
              λ y. or_operand-Follows (with_y (with_x 0xd000 x) y) 0xf (at t 3))
          (same_of fail)

    call-Follows :
        Follows
          (need 2 t (or_operand new true 0x2000 0xfff (at t 1)))
          (need 2 t (or_operand old false 0x2000 0xfff (at t 1)))
    call-Follows =
        Follows-branch (length t == 2) (or_operand-Follows 0x2000 0xfff (at t 1)) (same_of fail)

    pub instruction-Follows : Follows (instruction new true t) (instruction old false t)
    unfolding instruction
    instruction-Follows = Follows-branch (is_text (at t 0) "CLS") (same_of _) (
        Follows-branch (is_text (at t 0) "RET") (same_of _) (
          Follows-branch (is_text (at t 0) "JP") jump_of-Follows (
            Follows-branch (is_text (at t 0) "CALL") call-Follows (
              Follows-branch (is_text (at t 0) "SE") (skip_of-Follows 0x5000 0x3000) (
                Follows-branch (is_text (at t 0) "SNE") (skip_of-Follows 0x9000 0x4000) (
                  Follows-branch (is_text (at t 0) "LD") load_of-Follows (
                    Follows-branch (is_text (at t 0) "ADD") add_of-Follows (
                      Follows-branch (is_text (at t 0) "OR") (same_of _) (
                        Follows-branch (is_text (at t 0) "AND") (same_of _) (
                          Follows-branch (is_text (at t 0) "XOR") (same_of _) (
                            Follows-branch (is_text (at t 0) "SUB") (same_of _) (
                              Follows-branch (is_text (at t 0) "SUBN") (same_of _) (
                                Follows-branch (is_text (at t 0) "SHR") (same_of _) (
                                  Follows-branch (is_text (at t 0) "SHL") (same_of _) (
                                    Follows-branch (is_text (at t 0) "RND") random_of-Follows (
                                      Follows-branch (is_text (at t 0) "DRW") draw_of-Follows (
                                        Follows-branch (is_text (at t 0) "SKP") (same_of _) (
                                          Follows-branch (is_text (at t 0) "SKNP") (same_of _)
                                            (same_of fail)))))))))))))))))))
