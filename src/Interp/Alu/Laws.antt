-- ===== src/Interp/Alu/Laws.antt =====
-- The arithmetic of the register handlers, with the flag as the bit that leaves the register.
use chip_eight_jit.Common.{ℕ, ◌+◌, ◌-◌, ◌*◌, ◌<◌, ◌≡◌, ◌≢◌, arith}
use chip_eight_jit.Machine.{Machine, IsWellFormed, x_of, y_of, u8}
use chip_eight_jit.Interp.Outcome.{stepped}
use chip_eight_jit.Interp.Alu.{add_register, sub_register, subn_register, shift_right, shift_left}

module _ (op : ℕ) (m s : Machine) (w : IsWellFormed m) (apart : x_of op ≢ 15) where
  -- 8xy4 adds: the register and the carry in VF make up the whole sum. `x` is not 15.
  pub add_register_lem :
      add_register op m ≡ stepped s
      → s.regs (x_of op) + u8 * s.regs 15 ≡ m.regs (x_of op) + m.regs (y_of op)
  unfolding add_register
  add_register_lem e = ground (arith, w.reg_bytes (x_of op), w.reg_bytes (y_of op))

  -- 8xy5 subtracts: VF is 1 if nothing was borrowed, else 0, and the register holds the difference, with
  -- 256 more if there was a borrow. `x` is not 15.
  pub sub_register_lem :
      sub_register op m ≡ stepped s
      → (s.regs (x_of op) + m.regs (y_of op) ≡ m.regs (x_of op) + u8 * (1 - s.regs 15))
        × (s.regs 15 < 2)
  unfolding sub_register
  sub_register_lem e = ground (arith, w.reg_bytes (x_of op), w.reg_bytes (y_of op))

  -- 8xy7 likewise, with the operands exchanged.
  pub subn_register_lem :
      subn_register op m ≡ stepped s
      → (s.regs (x_of op) + m.regs (x_of op) ≡ m.regs (y_of op) + u8 * (1 - s.regs 15))
        × (s.regs 15 < 2)
  unfolding subn_register
  subn_register_lem e = ground (arith, w.reg_bytes (x_of op), w.reg_bytes (y_of op))

  -- The shifts 8xy6 and 8xyE lose no bit: what leaves the register is in VF. `x` is not 15.
  pub shift_lem :
      (t : Machine)
      → shift_right op m ≡ stepped s
      → shift_left op m ≡ stepped t
      → (2 * s.regs (x_of op) + s.regs 15 ≡ m.regs (x_of op))
        × (u8 * t.regs 15 + t.regs (x_of op) ≡ 2 * m.regs (x_of op))
  unfolding shift_right shift_left
  shift_lem t e f = ground (arith, w.reg_bytes (x_of op))
