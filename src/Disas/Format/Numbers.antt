-- ===== src/Disas/Format/Numbers.antt =====
-- The registers, numbers and labels that src/disas.c prints, as src/asm.c reads them.
use chip_eight_jit.Common.{
  ℕ, ◌+◌, ◌*◌, ◌/◌, ◌%◌, ◌<◌, ◌≡◌, ◌∙◌, ap, Bool, true, false, ◌||◌, List, [], ◌∷◌, ◌++◌, some,
  arith,
}
use chip_eight_jit.Asm.Result.{ok}
use chip_eight_jit.Asm.Lexer.{Text, text, toupper, normalize, separates, starts_comment}
use chip_eight_jit.Asm.Values.{
  Symbol, lookup, digit_value, digits, in_long, strtoul_whole, value_of, reg,
}
use chip_eight_jit.Disas.Format.{hex_digit, hex, reg_text, block_text}
use chip_eight_jit.Disas.Format.Reading.{
  IsToken, separates-hex_digit, starts_comment-hex_digit, toupper-hex_digit, digit_value-hex_digit,
}

-- `0x%0kX`, and how it stands in a token.
abbrev pub number : ℕ → ℕ → Text
number k n = text "0x" ++ hex k n

abbrev pub upper_number : ℕ → ℕ → Text
upper_number k n = text "0X" ++ hex k n

-- A digit is part of a word, at any place of a number.
pub plain :
    (n : ℕ)
    → ((separates (hex_digit (n % 16)) || starts_comment (hex_digit (n % 16))) ≡ false)
      × (toupper (hex_digit (n % 16)) ≡ hex_digit (n % 16))
plain n = ground (
  arith,
  separates-hex_digit (n % 16) (omega arith),
  starts_comment-hex_digit (n % 16) (omega arith),
  toupper-hex_digit (n % 16) (omega arith),
)

value_at : (n : ℕ) → digit_value (hex_digit (n % 16)) ≡ n % 16
value_at n = digit_value-hex_digit (n % 16) (omega arith)

digits-digit :
    (b : Bool) (acc n : ℕ) (cs : Text)
    → digits 16 b acc (hex_digit (n % 16) ∷ cs) ≡ digits 16 true (acc * 16 + n % 16) cs
digits-digit b acc n cs = ground (arith, value_at n)

pub reg-reg_text : (x : ℕ) → x < 16 → reg (reg_text x) ≡ ok x
unfolding reg hex_digit
reg-reg_text x h = ground arith

pub reg_text-IsToken : (x : ℕ) → x < 16 → IsToken (reg_text x)
reg_text-IsToken x h = ground (arith, separates-hex_digit x h, starts_comment-hex_digit x h)

pub normalize-reg_text : (x : ℕ) → x < 16 → normalize (reg_text x) ≡ reg_text x
unfolding normalize
normalize-reg_text x h = ground (arith, toupper-hex_digit x h)

module _ (n : ℕ) where
  pub number-IsToken :
      IsToken (number 1 n) × IsToken (number 2 n) × IsToken (number 3 n) × IsToken (number 4 n)
  number-IsToken =
      ground (arith, plain n, plain (n / 16), plain (n / 16 / 16), plain (n / 16 / 16 / 16))

  pub normalize-number :
      (normalize (number 1 n) ≡ upper_number 1 n)
      × (normalize (number 2 n) ≡ upper_number 2 n)
      × (normalize (number 3 n) ≡ upper_number 3 n)
      × (normalize (number 4 n) ≡ upper_number 4 n)
  unfolding normalize
  normalize-number =
      ground (arith, plain n, plain (n / 16), plain (n / 16 / 16), plain (n / 16 / 16 / 16))

  strtoul-number1 : n < 0x10 → strtoul_whole (upper_number 1 n) ≡ some n
  unfolding strtoul_whole
  strtoul-number1 h = ground (arith, value_at n)

  strtoul-number2 : n < 0x100 → strtoul_whole (upper_number 2 n) ≡ some n
  unfolding strtoul_whole
  strtoul-number2 h = ground (arith, value_at n, value_at (n / 16))

  strtoul-number3 : n < 0x1000 → strtoul_whole (upper_number 3 n) ≡ some n
  unfolding strtoul_whole
  strtoul-number3 h = ground (arith, value_at n, value_at (n / 16), value_at (n / 16 / 16))

  digits-number4 : n < 0x10000 → digits 16 false 0 (hex 4 n) ≡ some n
  digits-number4 h =
      let a = hex_digit (n / 16 / 16 % 16) in
      let b = hex_digit (n / 16 % 16) in
      let c = hex_digit (n % 16) in
      let p = 0 * 16 + n / 16 / 16 / 16 % 16 in
      let q = p * 16 + n / 16 / 16 % 16 in
      let r = q * 16 + n / 16 % 16 in
      digits-digit false 0 (n / 16 / 16 / 16) (a ∷ b ∷ c ∷ [])
      ∙ digits-digit true p (n / 16 / 16) (b ∷ c ∷ [])
      ∙ digits-digit true q (n / 16) (c ∷ [])
      ∙ digits-digit true r n []
      ∙ ap some (omega arith)

  strtoul-number4 : n < 0x10000 → strtoul_whole (upper_number 4 n) ≡ some n
  unfolding strtoul_whole
  strtoul-number4 h = ap (in_long (λ v. v)) (digits-number4 h) ∙ ground arith

  module _ (symbols : List Symbol) (resolve : Bool) where
    pub value_of-number1 : n < 0x10 → value_of symbols resolve (upper_number 1 n) ≡ ok n
    unfolding value_of
    value_of-number1 h = ground (arith, strtoul-number1)

    pub value_of-number2 : n < 0x100 → value_of symbols resolve (upper_number 2 n) ≡ ok n
    unfolding value_of
    value_of-number2 h = ground (arith, strtoul-number2)

    pub value_of-number3 : n < 0x1000 → value_of symbols resolve (upper_number 3 n) ≡ ok n
    unfolding value_of
    value_of-number3 h = ground (arith, strtoul-number3)

    pub value_of-number4 : n < 0x10000 → value_of symbols resolve (upper_number 4 n) ≡ ok n
    unfolding value_of
    value_of-number4 h = ground (arith, strtoul-number4)

  -- The name of a block, in a token, is no number.
  abbrev pub block_name : Text
  block_name = text "BLOCK" ++ hex 3 n

  pub block_text-IsToken : IsToken (block_text n)
  block_text-IsToken = ground (arith, plain n, plain (n / 16), plain (n / 16 / 16))

  pub normalize-block_text : normalize (block_text n) ≡ block_name
  unfolding normalize
  normalize-block_text = ground (arith, plain n, plain (n / 16), plain (n / 16 / 16))

  pub value_of-block_name :
      (symbols : List Symbol) (resolve : Bool)
      → lookup symbols block_name ≡ some n
      → value_of symbols resolve block_name ≡ ok n
  unfolding value_of strtoul_whole
  value_of-block_name symbols resolve e = ground (arith, e)
