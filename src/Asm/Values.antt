-- ===== src/Asm/Values.antt =====
-- Symbols and operands of src/asm.c.
use chip_eight_jit.Common.{
  ℕ, ◌+◌, ◌-◌, ◌*◌, ◌%◌, ◌^◌, Bool, true, false, not, ◌&&◌, ◌||◌, Option, none, some, List, [], ◌∷◌,
  ◌++◌, length, ltb, leb, ◌==◌, if◌then◌else◌,
}
use chip_eight_jit.Asm.Result.{Result, ok, fail, overflow}
use chip_eight_jit.Asm.Lexer.{Text, same, isdigit, is_name}

abbrev pub max_symbols : ℕ
max_symbols = 2048

abbrev pub name_size : ℕ
name_size = 128

pub record Symbol : Type 0 where
  pub name : Text
  pub value : ℕ

unfoldable pub lookup : List Symbol → Text → Option ℕ
lookup [] name = none
lookup (s ∷ ss) name = let rest = lookup ss name in if same s.name name then some s.value else rest

abbrev pub is_some : Option ℕ → Bool
is_some none = false
is_some (some v) = true

-- `strcpy` copies the name with its final 0.
unfoldable pub define : Text → ℕ → List Symbol → Result (List Symbol)
define name v symbols =
    if not (is_name name)
    then fail
    else if is_some (lookup symbols name)
    then fail
    else if length symbols == max_symbols
    then fail
    else if leb name_size (length name)
    then overflow
    else ok (symbols ++ (record { name = name; value = v }) ∷ [])

-- The value of a digit, in base 36.
abbrev pub digit_value : ℕ → ℕ
digit_value c =
    if isdigit c
    then c - b'0'
    else if leb b'A' c && leb c b'Z'
    then c - b'A' + 10
    else if leb b'a' c && leb c b'z'
    then c - b'a' + 10
    else 36

-- The digits up to the end of the text, which has one at least where `some_digit` is false yet.
abbrev pub digits : ℕ → Bool → ℕ → Text → Option ℕ
digits base some_digit n [] = if some_digit then some n else none
digits base some_digit n (c ∷ cs) =
    let rest = digits base true (n * base + digit_value c) cs in
    if ltb (digit_value c) base then rest else none

abbrev pub is_x : ℕ → Bool
is_x c = c == b'X' || c == b'x'

-- The base 0 of `strtoul`: 16 after `0x`, else 8 after `0`, else 10.
abbrev pub unsigned_text : Text → Option ℕ
unsigned_text [] = none
unsigned_text (c ∷ []) = digits 10 false 0 (c ∷ [])
unsigned_text (c ∷ d ∷ cs) =
    if c == b'0'
    then (if is_x d then digits 16 false 0 cs else digits 8 true 0 (d ∷ cs))
    else digits 10 false 0 (c ∷ d ∷ cs)

abbrev pub in_long : (ℕ → ℕ) → Option ℕ → Option ℕ
in_long sign none = none
in_long sign (some n) = if ltb n (2 ^ 64) then some (sign n) else none

-- The number that `strtoul (s, &end, 0)` returns, where it reads the whole of `s` and sets no error. A
-- minus sign negates in `unsigned long`, of 64 bits. A token has no space that could be skipped.
unfoldable pub strtoul_whole : Text → Option ℕ
strtoul_whole [] = none
strtoul_whole (c ∷ cs) =
    if c == b'-'
    then in_long (λ n. (2 ^ 64 - n) % 2 ^ 64) (unsigned_text cs)
    else if c == b'+'
    then in_long (λ n. n) (unsigned_text cs)
    else in_long (λ n. n) (unsigned_text (c ∷ cs))

abbrev pub symbol_value : Bool → Option ℕ → Result ℕ
symbol_value resolve (some v) = ok v
symbol_value true none = fail
symbol_value false none = ok 0

unfoldable pub value_of : List Symbol → Bool → Text → Result ℕ
value_of symbols resolve s = elim (strtoul_whole s) [
  | some n ↦ if ltb 0xffff n then fail else ok n
  | none ↦ symbol_value resolve (lookup symbols s)
]

-- A letter past F, or a small one, gives more than 15, if it is a digit in base 16 at all.
unfoldable pub reg : Text → Result ℕ
reg [] = fail
reg (c ∷ []) = fail
reg (c ∷ d ∷ []) =
    if c == b'V' && (isdigit d || (leb b'A' d && leb d b'F')) then ok (digit_value d) else fail
reg (c ∷ d ∷ e ∷ s) = fail

-- `range`
abbrev pub in_range : ℕ → ℕ → Result ℕ
in_range max n = if ltb max n then fail else ok n
