-- ===== src/Disas/Format.antt =====
-- The conversions that `printf` makes for src/disas.c.
pub mod Reading
pub mod Numbers
use chip_eight_jit.Common.{
  ℕ, zero, suc, ◌+◌, ◌-◌, ◌/◌, ◌%◌, List, [], ◌∷◌, ◌++◌, ltb, ◌==◌, if◌then◌else◌,
}
use chip_eight_jit.Asm.Lexer.{Text, text}

-- A digit of `%X`.
unfoldable pub hex_digit : ℕ → ℕ
hex_digit d = if ltb d 10 then b'0' + d else b'A' + (d - 10)

-- `%0kX` of a number of at most `k` hexadecimal digits.
abbrev pub hex : ℕ → ℕ → Text
hex zero n = []
hex (suc k) n = hex k (n / 16) ++ hex_digit (n % 16) ∷ []

-- `%d` of a number below 100.
abbrev pub decimal : ℕ → Text
decimal n = if ltb n 10 then (b'0' + n) ∷ [] else (b'0' + n / 10) ∷ (b'0' + n % 10) ∷ []

-- `V%X`
abbrev pub reg_text : ℕ → Text
reg_text x = b'V' ∷ hex_digit x ∷ []

-- `block%03X`
abbrev pub block_text : ℕ → Text
block_text a = text "block" ++ hex 3 a
