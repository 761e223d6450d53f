-- ===== src/Asm/Passes/Agree.antt =====
-- The two passes place every line, and with it every label, at the same address.
use chip_eight_jit.Common.{
  ℕ, ◌+◌, ◌≤◌, ◌≡◌, sym, ◌∙◌, ap, subst, true, false, List, [], ◌∷◌, ◌++◌, length, length-append,
  arith,
}
use chip_eight_jit.Asm.Result.{ok, bind-ok}
use chip_eight_jit.Asm.Lexer.{Text, tokenize}
use chip_eight_jit.Asm.Values.{Symbol}
use chip_eight_jit.Asm.Passes.{
  origin, memory_end, Line, line_size, after_label, define_label, Pass, first_line, first, printed,
  second, assemble,
}
use chip_eight_jit.Asm.Passes.Sizes.{
  Extends, define_label-Extends, line_size-agrees, length-printed,
}

-- What the first pass has done with a line.
record Placed (p : Pass) (line : Text) (q : Pass) : Type 0 where
  tokens : List Text
  l : Line
  read : tokenize line ≡ ok tokens
  defined : define_label tokens p.pc p.symbols ≡ ok q.symbols
  sized : line_size q.symbols false p.pc (after_label tokens) ≡ ok l
  moved : q.pc ≡ p.pc + l.size
  fits : q.pc ≤ memory_end

first_line-Placed : (p q : Pass) (line : Text) → first_line p line ≡ ok q → Placed p line q
unfolding first_line
first_line-Placed p q line e =
    let (tokens, a, e1) = bind-ok (tokenize line) _ e in
    let (symbols, b, e2) = bind-ok (define_label tokens p.pc p.symbols) _ e1 in
    let (l, c, e3) = bind-ok (line_size symbols false p.pc (after_label tokens)) _ e2 in
    record {
      tokens = tokens;
      l = l;
      read = a;
      defined = ground (arith, b, e3);
      sized = ground (arith, c, e3);
      moved = ground (arith, e3);
      fits = ground (arith, e3);
    }

first-Extends :
    (lines : List Text) (p q : Pass) → first p lines ≡ ok q → Extends p.symbols q.symbols
unfolding first
first-Extends [] p q e name v h = ground (arith, e, h)
first-Extends (line ∷ lines) p q e name v h =
    let (r, a, b) = bind-ok (first_line p line) _ e in
    let placed = first_line-Placed p r line a in
    first-Extends lines r q b name v
      (define_label-Extends placed.tokens p.pc p.symbols r.symbols placed.defined name v h)

-- And what the second pass does with it.
record Emitted (symbols : List Symbol) (pc : ℕ) (line : Text) (lines : List Text) (out : List ℕ)
    : Type 0 where
  tokens : List Text
  l : Line
  rest : List ℕ
  read : tokenize line ≡ ok tokens
  sized : line_size symbols true pc (after_label tokens) ≡ ok l
  goes_on : second symbols (pc + l.size) lines ≡ ok rest
  whole : printed (after_label tokens) l ++ rest ≡ out

ok_inj : {A : Type 0} {a b : A} → ok a ≡ ok b → a ≡ b
ok_inj h = cc

second-Emitted :
    (symbols : List Symbol) (pc : ℕ) (line : Text) (lines : List Text) (out : List ℕ)
    → second symbols pc (line ∷ lines) ≡ ok out
    → Emitted symbols pc line lines out
unfolding second
second-Emitted symbols pc line lines out e =
    let (tokens, a, e1) = bind-ok (tokenize line) _ e in
    let (l, b, e2) = bind-ok (line_size symbols true pc (after_label tokens)) _ e1 in
    let (rest, c, e3) = bind-ok (second symbols (pc + l.size) lines) _ e2 in
    record {
      tokens = tokens;
      l = l;
      rest = rest;
      read = a;
      sized = b;
      goes_on = c;
      whole = ok_inj e3;
    }

-- The line takes as much room in both passes.
same_size :
    (p r : Pass) (symbols : List Symbol) (line : Text) (lines : List Text) (out : List ℕ)
    → Extends r.symbols symbols
    → (a : Placed p line r) (b : Emitted symbols p.pc line lines out) → a.l.size ≡ b.l.size
same_size p r symbols line lines out ext a b =
    let agree : a.tokens ≡ b.tokens = ok_inj (sym a.read ∙ b.read) in
    line_size-agrees r.symbols symbols p.pc (after_label b.tokens) a.l b.l ext
      (subst (λ t. line_size r.symbols false p.pc (after_label t) ≡ ok a.l) agree a.sized) b.sized

nothing_printed :
    (symbols : List Symbol) (pc : ℕ) (out : List ℕ) → second symbols pc [] ≡ ok out → length out ≡ 0
unfolding second
nothing_printed symbols pc out e = ground (arith, e)

pub second-first :
    (lines : List Text) (p q : Pass) (symbols : List Symbol) (out : List ℕ)
    → Extends q.symbols symbols
    → first p lines ≡ ok q
    → second symbols p.pc lines ≡ ok out
    → p.pc + length out ≡ q.pc
unfolding first
second-first [] p q symbols out ext e f = ground (arith, e, nothing_printed symbols p.pc out f)
second-first (line ∷ lines) p q symbols out ext e f =
    let (r, a, b) = bind-ok (first_line p line) _ e in
    let placed = first_line-Placed p r line a in
    let emitted = second-Emitted symbols p.pc line lines out f in
    let known : Extends r.symbols symbols =
      λ name v h. ext name v (first-Extends lines r q b name v h) in
    let size = same_size p r symbols line lines out known placed emitted in
    let at_r : p.pc + emitted.l.size ≡ r.pc = omega (arith, placed.moved, size) in
    let later =
      second-first lines r q symbols emitted.rest ext b
        (subst (λ pc. second symbols pc lines ≡ ok emitted.rest) at_r emitted.goes_on) in
    omega (
      arith,
      later,
      at_r,
      ap length emitted.whole,
      length-append (printed (after_label emitted.tokens) emitted.l) emitted.rest,
      length-printed symbols p.pc (after_label emitted.tokens) emitted.l emitted.sized,
    )

first-fits :
    (lines : List Text) (p q : Pass) → p.pc ≤ memory_end → first p lines ≡ ok q → q.pc ≤ memory_end
unfolding first
first-fits [] p q le e = ground (arith, e)
first-fits (line ∷ lines) p q le e =
    let (r, a, b) = bind-ok (first_line p line) _ e in
    first-fits lines r q (first_line-Placed p r line a).fits b

-- Whatever program the assembler prints fills the memory from 0x200 up to the address at which its first
-- pass ended, and fits there.
pub assemble-fits :
    (lines : List Text) (out : List ℕ)
    → assemble lines ≡ ok out
    → (p : Pass) × (first (record { symbols = []; pc = origin }) lines ≡ ok p)
      × (origin + length out ≡ p.pc)
      × (p.pc ≤ memory_end)
unfolding assemble
assemble-fits lines out e =
    let fresh : Pass = record { symbols = []; pc = origin } in
    let (p, a, b) = bind-ok (first fresh lines) _ e in
    (
      p,
      a,
      second-first lines fresh p p.symbols out (λ name v h. h) a b,
      first-fits lines fresh p (omega arith) a,
    )
