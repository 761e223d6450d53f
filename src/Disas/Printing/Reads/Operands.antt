-- ===== src/Disas/Printing/Reads/Operands.antt =====
-- The operands that src/disas.c prints.
use chip_eight_jit.Common.{ℕ, ◌<◌}
use chip_eight_jit.Disas.Format.{reg_text, block_text}
use chip_eight_jit.Disas.Format.Numbers.{
  number, upper_number, reg_text-IsToken, normalize-reg_text, number-IsToken, normalize-number,
  block_name, block_text-IsToken, normalize-block_text,
}
use chip_eight_jit.Disas.Printing.Reads.{Operand}

pub Operand-reg : (x : ℕ) → x < 16 → Operand (reg_text x) (reg_text x)
Operand-reg x h = record { token = reg_text-IsToken x h; upper = normalize-reg_text x h }

pub Operand-number1 : (n : ℕ) → Operand (number 1 n) (upper_number 1 n)
Operand-number1 n =
    let (t, _, _, _) = number-IsToken n in
    let (u, _, _, _) = normalize-number n in record { token = t; upper = u }

pub Operand-number2 : (n : ℕ) → Operand (number 2 n) (upper_number 2 n)
Operand-number2 n =
    let (_, t, _, _) = number-IsToken n in
    let (_, u, _, _) = normalize-number n in record { token = t; upper = u }

pub Operand-number3 : (n : ℕ) → Operand (number 3 n) (upper_number 3 n)
Operand-number3 n =
    let (_, _, t, _) = number-IsToken n in
    let (_, _, u, _) = normalize-number n in record { token = t; upper = u }

pub Operand-number4 : (n : ℕ) → Operand (number 4 n) (upper_number 4 n)
Operand-number4 n =
    let (_, _, _, t) = number-IsToken n in
    let (_, _, _, u) = normalize-number n in record { token = t; upper = u }

pub Operand-block : (n : ℕ) → Operand (block_text n) (block_name n)
Operand-block n = record { token = block_text-IsToken n; upper = normalize-block_text n }
