-- ===== src/Asm/Passes.antt =====
-- `line_size` of src/asm.c, and the two passes of `main`.
pub mod Sizes
pub mod Agree
use chip_eight_jit.Common.{
  ℕ, zero, suc, ◌+◌, ◌-◌, ◌*◌, ◌/◌, ◌%◌, ◌^◌, Bool, true, false, ◌||◌, List, [], ◌∷◌, ◌++◌, length,
  ltb, leb, ◌==◌, if◌then◌else◌,
}
use chip_eight_jit.Asm.Result.{Result, ok, fail, ◌>>=◌}
use chip_eight_jit.Asm.Lexer.{Text, tokenize}
use chip_eight_jit.Asm.Values.{Symbol, define, value_of, in_range}
use chip_eight_jit.Asm.Instruction.{at, is_text, instruction}

-- The same two numbers as in src/chip8.h.
abbrev pub origin : ℕ
origin = 0x200

abbrev pub memory_end : ℕ
memory_end = 0x1000

-- What `line_size` returns, and what it writes to `out`.
pub record Line : Type 0 where
  pub size : ℕ
  pub out : List ℕ

abbrev pub bytes_of_word : ℕ → List ℕ
bytes_of_word v = v / 2 ^ 8 % 2 ^ 8 ∷ v % 2 ^ 8 ∷ []

module _ (symbols : List Symbol) (resolve : Bool) where
  -- The loops of `.BYTE` and `.WORD` over their operands.
  unfoldable pub byte_values : List Text → Result (List ℕ)
  byte_values [] = ok []
  byte_values (s ∷ ss) = value_of symbols resolve s >>= in_range 0xff >>= λ v.
      byte_values ss >>= λ bytes. ok (v ∷ bytes)

  unfoldable pub word_values : List Text → Result (List ℕ)
  word_values [] = ok []
  word_values (s ∷ ss) = value_of symbols resolve s >>= in_range 0xffff >>= λ v.
      word_values ss >>= λ bytes. ok (bytes_of_word v ++ bytes)

  unfoldable pub org_line : ℕ → Text → Result Line
  org_line pc s = value_of symbols resolve s >>= λ p.
      if ltb p origin || leb memory_end p
      then fail
      else if ltb p pc
      then fail
      else ok (record { size = p - pc; out = [] })

  -- The name of a line's first token, and its operands.
  unfoldable pub directive : ℕ → Text → List Text → Result Line
  directive pc name operands =
      if is_text name ".ORG"
      then (if length operands == 1 then org_line pc (at operands 0) else fail)
      else if is_text name ".BYTE"
      then (if length operands == 0
          then fail
          else byte_values operands >>= λ bytes.
              ok (record { size = length operands; out = bytes }))
      else if is_text name ".WORD"
      then (if length operands == 0
          then fail
          else word_values operands >>= λ bytes.
              ok (record { size = 2 * length operands; out = bytes }))
      else instruction symbols resolve (name ∷ operands) >>= λ op.
          ok (record { size = 2; out = bytes_of_word op })

  unfoldable pub line_size : ℕ → List Text → Result Line
  line_size pc [] = ok (record { size = 0; out = [] })
  line_size pc (name ∷ operands) = directive pc name operands

-- `t[0][strlen (t[0]) - 1] == ':'`
abbrev pub is_label : Text → Bool
is_label [] = false
is_label (c ∷ []) = c == b':'
is_label (c ∷ d ∷ s) = is_label (d ∷ s)

-- `t[0][strlen (t[0]) - 1] = 0`
abbrev pub without_last : Text → Text
without_last [] = []
without_last (c ∷ []) = []
without_last (c ∷ d ∷ s) = c ∷ without_last (d ∷ s)

-- What the tokens of a line hold: its label, and the tokens after it.
abbrev pub has_label : List Text → Bool
has_label [] = false
has_label (t ∷ ts) = is_label t

abbrev pub after_label : List Text → List Text
after_label [] = []
after_label (t ∷ ts) = if is_label t then ts else t ∷ ts

unfoldable pub define_label : List Text → ℕ → List Symbol → Result (List Symbol)
define_label tokens pc symbols =
    if has_label tokens then define (without_last (at tokens 0)) pc symbols else ok symbols

-- The state of the first pass after some lines.
pub record Pass : Type 0 where
  pub symbols : List Symbol
  pub pc : ℕ

-- The body of the first loop.
unfoldable pub first_line : Pass → Text → Result Pass
first_line p line = tokenize line >>= λ tokens. define_label tokens p.pc p.symbols >>= λ symbols.
    line_size symbols false p.pc (after_label tokens) >>= λ l.
    if ltb memory_end (p.pc + l.size)
    then fail
    else ok (record { symbols = symbols; pc = p.pc + l.size })

unfoldable pub first : Pass → List Text → Result Pass
first p [] = ok p
first p (line ∷ lines) = first_line p line >>= λ q. first q lines

abbrev pub zeros : ℕ → List ℕ
zeros zero = []
zeros (suc n) = 0 ∷ zeros n

-- What the body of the second loop prints.
unfoldable pub printed : List Text → Line → List ℕ
printed tokens l = if is_text (at tokens 0) ".ORG" then zeros l.size else l.out

-- The second loop, from `pc` on.
unfoldable pub second : List Symbol → ℕ → List Text → Result (List ℕ)
second symbols pc [] = ok []
second symbols pc (line ∷ lines) = tokenize line >>= λ tokens.
    line_size symbols true pc (after_label tokens) >>= λ l.
    second symbols (pc + l.size) lines >>= λ rest. ok (printed (after_label tokens) l ++ rest)

-- The program that `main` prints for the lines that `fgets` reads, each of fewer than `MAX_LINE`
-- characters.
unfoldable pub assemble : List Text → Result (List ℕ)
assemble lines =
    first (record { symbols = []; pc = origin }) lines >>= λ p. second p.symbols origin lines
