-- ===== src/Interp/Alu.antt =====
-- The handlers of src/interp.c that compute on registers. FLAGS is written last, so that it wins
-- where `x` is 15.
pub mod Laws
use chip_eight_jit.Common.{
  ℕ, suc, ◌+◌, ◌-◌, ◌*◌, ◌/◌, ◌%◌, ltb, leb, if◌then◌else◌, bit_and, bit_or, bit_xor,
}
use chip_eight_jit.Machine.{Machine, u8, x_of, y_of, immediate_eight, set_reg, set_flags}
use chip_eight_jit.Interp.Outcome.{Outcome, step_on}

unfoldable pub load_immediate : ℕ → Machine → Outcome
load_immediate op m = step_on (set_reg (x_of op) (immediate_eight op) m)

unfoldable pub add_immediate : ℕ → Machine → Outcome
add_immediate op m = step_on (set_reg (x_of op) ((m.regs (x_of op) + immediate_eight op) % u8) m)

unfoldable pub move : ℕ → Machine → Outcome
move op m = step_on (set_reg (x_of op) (m.regs (y_of op)) m)

unfoldable pub or_register : ℕ → Machine → Outcome
or_register op m = step_on (set_reg (x_of op) (bit_or (m.regs (x_of op)) (m.regs (y_of op))) m)

unfoldable pub and_register : ℕ → Machine → Outcome
and_register op m = step_on (set_reg (x_of op) (bit_and (m.regs (x_of op)) (m.regs (y_of op))) m)

unfoldable pub xor_register : ℕ → Machine → Outcome
xor_register op m = step_on (set_reg (x_of op) (bit_xor (m.regs (x_of op)) (m.regs (y_of op))) m)

-- The sum of two bytes fits the `uint16_t`.
unfoldable pub add_register : ℕ → Machine → Outcome
add_register op m =
    let tmp = m.regs (x_of op) + m.regs (y_of op) in
    step_on (set_flags (if ltb 0xff tmp then 1 else 0) (set_reg (x_of op) (tmp % u8) m))

unfoldable pub sub_register : ℕ → Machine → Outcome
sub_register op m =
    let vx = m.regs (x_of op) in
    let vy = m.regs (y_of op) in
    step_on (set_flags (if leb vy vx then 1 else 0) (set_reg (x_of op) ((vx + u8 - vy) % u8) m))

unfoldable pub shift_right : ℕ → Machine → Outcome
shift_right op m =
    let vx = m.regs (x_of op) in step_on (set_flags (vx % 2) (set_reg (x_of op) (vx / 2) m))

unfoldable pub subn_register : ℕ → Machine → Outcome
subn_register op m =
    let vx = m.regs (x_of op) in
    let vy = m.regs (y_of op) in
    step_on (set_flags (if leb vx vy then 1 else 0) (set_reg (x_of op) ((vy + u8 - vx) % u8) m))

-- `vx & 0x80` is the digit `vx / 0x80 % 2`.
unfoldable pub shift_left : ℕ → Machine → Outcome
shift_left op m =
    let vx = m.regs (x_of op) in
    step_on (set_flags (vx / 0x80 % 2) (set_reg (x_of op) (vx * 2 % u8) m))

unfoldable pub random_byte : ℕ → Machine → Outcome
random_byte op m =
    let v = bit_and (m.rand_values 0 % u8) (immediate_eight op) in
    step_on (set_reg (x_of op) v (record m { rand_values = λ i. m.rand_values (suc i) }))
