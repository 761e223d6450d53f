-- ===== src/Asm/Instruction/Opcodes.antt =====
-- Every opcode that the assembler makes is an instruction of the interpreter.
use chip_eight_jit.Common.{
  ℕ, ◌/◌, ◌≤◌, ◌<◌, ◌≡◌, refl, Bool, true, ◌||◌, List, length, subst, arith, leb, ◌==◌,
  if◌then◌else◌,
}
use chip_eight_jit.Machine.{u16}
use chip_eight_jit.Asm.Result.{ok, fail, Returns, Returns-bind, Returns-branch}
use chip_eight_jit.Asm.Lexer.{Text}
use chip_eight_jit.Asm.Values.{Symbol, reg}
use chip_eight_jit.Asm.Instruction.{
  at, is_text, starts_v, with_x, with_y, jump_of, skip_of, or_reg, load_reg, load_of, add_of,
  logic_of, shift_of, random_of, draw_of, instruction,
}
use chip_eight_jit.Asm.Instruction.Fields.{
  IsOpcode, free, reg-lt, with_x-fields, with_y-fields, or_operand-IsOpcode, or_reg-IsOpcode,
  misc-IsOpcode, low_nibble-IsOpcode, logic-IsOpcode, need-IsOpcode, after_x-IsOpcode,
  after_y-IsOpcode, free_y-IsOpcode,
}

module _ (symbols : List Symbol) (resolve : Bool) (t : List Text) where
  jump_of-IsOpcode : Returns IsOpcode (jump_of symbols resolve t)
  unfolding jump_of
  jump_of-IsOpcode =
      Returns-branch IsOpcode _ _ _
        (or_operand-IsOpcode symbols resolve 0x1000 0xfff (at t 1) (omega arith) refl (omega arith))
        (need-IsOpcode 3 t _ (
          Returns-branch IsOpcode _ _ fail
            (or_operand-IsOpcode symbols resolve 0xb000 0xfff (at t 2) (omega arith) refl
              (omega arith))
            tt))

  skip_of-IsOpcode :
      (for_reg for_byte : ℕ)
      → for_reg < u16
      → for_byte < u16
      → free (for_reg / 0x1000) ≡ true
      → free (for_byte / 0x1000) ≡ true
      → Returns IsOpcode (skip_of symbols resolve for_reg for_byte t)
  unfolding skip_of
  skip_of-IsOpcode for_reg for_byte h h' k k' = need-IsOpcode 3 t _ (
      Returns-bind (λ x. x < 16) IsOpcode (reg (at t 1)) _ (reg-lt (at t 1))
        λ x p.
          Returns-branch IsOpcode (starts_v (at t 2)) _ _
            (after_y-IsOpcode for_reg x (at t 2) λ y q. free_y-IsOpcode for_reg x y h k p q)
            (after_x-IsOpcode symbols resolve for_byte x 0xff (at t 2) h' k' p (omega arith)))

  load_reg-IsOpcode : Returns IsOpcode (load_reg symbols resolve t)
  unfolding load_reg
  load_reg-IsOpcode =
      Returns-bind (λ x. x < 16) IsOpcode (reg (at t 1)) _ (reg-lt (at t 1))
        λ x p.
          let a = misc-IsOpcode 0xf007 x (omega arith) (omega arith, refl) (omega arith) p in
          let b = misc-IsOpcode 0xf00a x (omega arith) (omega arith, refl) (omega arith) p in
          let c = misc-IsOpcode 0xf065 x (omega arith) (omega arith, refl) (omega arith) p in
          let d =
            after_y-IsOpcode 0x8000 x (at t 2)
              λ y q. low_nibble-IsOpcode 0x8000 x y (omega arith) refl p q refl in
          let e =
            after_x-IsOpcode symbols resolve 0x6000 x 0xff (at t 2) (omega arith) refl p
              (omega arith) in
          search (a, b, c, d, e, Returns-branch)

  -- `Ex??` and `Fx??`, with a register that is read from an operand.
  misc_reg-IsOpcode :
      (base : ℕ) (s : Text)
      → base < u16
      → IsOpcode base
      → 0xe ≤ base / 0x1000
      → Returns IsOpcode (or_reg base s)
  misc_reg-IsOpcode base s h b e = or_reg-IsOpcode base s h (λ x p. misc-IsOpcode base x h b e p)

  load_of-IsOpcode : Returns IsOpcode (load_of symbols resolve t)
  unfolding load_of
  load_of-IsOpcode =
      let s = at t 2 in
      let a = or_operand-IsOpcode symbols resolve 0xa000 0xfff s (omega arith) refl (omega arith) in
      let b = misc_reg-IsOpcode 0xf015 s (omega arith) (omega arith, refl) (omega arith) in
      let c = misc_reg-IsOpcode 0xf018 s (omega arith) (omega arith, refl) (omega arith) in
      let d = misc_reg-IsOpcode 0xf029 s (omega arith) (omega arith, refl) (omega arith) in
      let e = misc_reg-IsOpcode 0xf033 s (omega arith) (omega arith, refl) (omega arith) in
      let f = misc_reg-IsOpcode 0xf055 s (omega arith) (omega arith, refl) (omega arith) in
      need-IsOpcode 3 t _ (search (a, b, c, d, e, f, load_reg-IsOpcode, Returns-branch) depth 12)

  add_of-IsOpcode : Returns IsOpcode (add_of symbols resolve t)
  unfolding add_of
  add_of-IsOpcode =
      let s = at t 2 in
      let a = misc_reg-IsOpcode 0xf01e s (omega arith) (omega arith, refl) (omega arith) in
      need-IsOpcode 3 t _ (
        Returns-branch IsOpcode (is_text (at t 1) "I") _ _ a (
          Returns-bind (λ x. x < 16) IsOpcode (reg (at t 1)) _ (reg-lt (at t 1))
            λ x p.
              Returns-branch IsOpcode (starts_v s) _ _
                (after_y-IsOpcode 0x8004 x s
                  λ y q. low_nibble-IsOpcode 0x8004 x y (omega arith) refl p q refl)
                (after_x-IsOpcode symbols resolve 0x7000 x 0xff s (omega arith) refl p
                  (omega arith))))

  logic_of-IsOpcode :
      (low : ℕ) → low < 16 → (leb low 7 || low == 0xe) ≡ true → Returns IsOpcode (logic_of low t)
  unfolding logic_of
  logic_of-IsOpcode low l n = need-IsOpcode 3 t _ (
      Returns-bind (λ x. x < 16) IsOpcode (reg (at t 1)) _ (reg-lt (at t 1))
        λ x p.
          Returns-bind (λ y. y < 16) IsOpcode (reg (at t 2)) _ (reg-lt (at t 2))
            λ y q. logic-IsOpcode x y low p q l n)

  shift_of-IsOpcode :
      (low : ℕ) → low < 16 → (leb low 7 || low == 0xe) ≡ true → Returns IsOpcode (shift_of low t)
  unfolding shift_of
  shift_of-IsOpcode low l n =
      Returns-branch IsOpcode (length t == 2 || length t == 3) _ fail
        (Returns-bind (λ x. x < 16) IsOpcode (reg (at t 1)) _ (reg-lt (at t 1))
          λ x p.
            Returns-bind (λ y. y < 16) IsOpcode (if length t == 3 then reg (at t 2) else ok 0) _
              (Returns-branch (λ y. y < 16) (length t == 3) (reg (at t 2)) (ok 0) (reg-lt (at t 2))
                (omega arith))
              (λ y q. logic-IsOpcode x y low p q l n))
        tt

  random_of-IsOpcode : Returns IsOpcode (random_of symbols resolve t)
  unfolding random_of
  random_of-IsOpcode = need-IsOpcode 3 t _ (
      Returns-bind (λ x. x < 16) IsOpcode (reg (at t 1)) _ (reg-lt (at t 1))
        λ x p.
          after_x-IsOpcode symbols resolve 0xc000 x 0xff (at t 2) (omega arith) refl p
            (omega arith))

  draw_of-IsOpcode : Returns IsOpcode (draw_of symbols resolve t)
  unfolding draw_of
  draw_of-IsOpcode = need-IsOpcode 4 t _ (
      Returns-bind (λ x. x < 16) IsOpcode (reg (at t 1)) _ (reg-lt (at t 1))
        λ x p.
          Returns-bind (λ y. y < 16) IsOpcode (reg (at t 2)) _ (reg-lt (at t 2))
            λ y q.
              let fx = with_x-fields 0xd000 x (omega arith) p in
              let fy = with_y-fields (with_x 0xd000 x) y fx.0 q in
              or_operand-IsOpcode symbols resolve (with_y (with_x 0xd000 x) y) 0xf (at t 3) fy.0
                (ground (arith, fx, fy)) (omega arith))

  instruction-Returns : Returns IsOpcode (instruction symbols resolve t)
  unfolding instruction
  instruction-Returns =
      let a = need-IsOpcode 1 t (ok 0x00e0) (omega arith, refl) in
      let b = need-IsOpcode 1 t (ok 0x00ee) (omega arith, refl) in
      let c = need-IsOpcode 2 t _ (
        or_operand-IsOpcode symbols resolve 0x2000 0xfff (at t 1) (omega arith) refl
          (omega arith)) in
      let d = skip_of-IsOpcode 0x5000 0x3000 (omega arith) (omega arith) refl refl in
      let e = skip_of-IsOpcode 0x9000 0x4000 (omega arith) (omega arith) refl refl in
      let f =
        need-IsOpcode 2 t _
          (misc_reg-IsOpcode 0xe09e (at t 1) (omega arith) (omega arith, refl) (omega arith)) in
      let g =
        need-IsOpcode 2 t _
          (misc_reg-IsOpcode 0xe0a1 (at t 1) (omega arith) (omega arith, refl) (omega arith)) in
      let h = logic_of-IsOpcode 1 (omega arith) refl in
      let i = logic_of-IsOpcode 2 (omega arith) refl in
      let j = logic_of-IsOpcode 3 (omega arith) refl in
      let k = logic_of-IsOpcode 5 (omega arith) refl in
      let l = logic_of-IsOpcode 7 (omega arith) refl in
      let n = shift_of-IsOpcode 6 (omega arith) refl in
      let o = shift_of-IsOpcode 0xe (omega arith) refl in
      search
        (
          a, b, c, d, e, f, g, h, i, j, k, l, n, o, jump_of-IsOpcode, load_of-IsOpcode,
          add_of-IsOpcode, random_of-IsOpcode, draw_of-IsOpcode, Returns-branch,
        )
        depth 40

-- Whatever line the assembler accepts as an instruction, in either pass, its opcode has sixteen bits
-- and stands for an instruction of the interpreter.
pub instruction-IsOpcode :
    (symbols : List Symbol) (resolve : Bool) (t : List Text) (op : ℕ)
    → instruction symbols resolve t ≡ ok op
    → IsOpcode op
instruction-IsOpcode symbols resolve t op e =
    subst (Returns IsOpcode) e (instruction-Returns symbols resolve t)
