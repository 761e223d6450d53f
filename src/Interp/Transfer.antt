-- ===== src/Interp/Transfer.antt =====
-- The handlers of src/interp.c on the address register and the memory it points to.
pub mod Laws
use chip_eight_jit.Common.{ℕ, zero, suc, ◌+◌, ◌*◌, ◌/◌, ◌%◌, ◌^◌, Array, update}
use chip_eight_jit.Machine.{Machine, u16, x_of, immediate_twelve, mem_at, set_mem}
use chip_eight_jit.Interp.Outcome.{Outcome, step_on}

unfoldable pub load_addr_immediate : ℕ → Machine → Outcome
load_addr_immediate op m = step_on (record m { addr = immediate_twelve op })

unfoldable pub add_addr : ℕ → Machine → Outcome
add_addr op m = step_on (record m { addr = (m.addr + m.regs (x_of op)) % u16 })

unfoldable pub load_sprite_addr : ℕ → Machine → Outcome
load_sprite_addr op m = step_on (record m { addr = m.regs (x_of op) % 2 ^ 4 * 5 })

-- `tmp %= 100` and `tmp %= 10` between the digits.
unfoldable pub store_bcd : ℕ → Machine → Outcome
store_bcd op m =
    let tmp = m.regs (x_of op) in
    let hundreds = tmp / 100 in
    let tens = tmp % 100 / 10 in
    let units = tmp % 100 % 10 in
    step_on (record m {
      memory =
          set_mem (set_mem (set_mem m.memory (m.addr + 0) hundreds) (m.addr + 1) tens) (m.addr + 2)
            units;
    })

-- `MEM_AT (addr + i) = regs[i]` from `i` on, with `left` rounds to go.
unfoldable pub save_from : Array → ℕ → ℕ → ℕ → Array → Array
save_from regs addr zero i memory = memory
save_from regs addr (suc left) i memory =
    save_from regs addr left (i + 1) (set_mem memory (addr + i) (regs i))

unfoldable pub save_registers : ℕ → Machine → Outcome
save_registers op m =
    step_on (record m { memory = save_from m.regs m.addr (suc (x_of op)) 0 m.memory })

-- `regs[i] = MEM_AT (addr + i)` likewise.
unfoldable pub restore_from : Array → ℕ → ℕ → ℕ → Array → Array
restore_from memory addr zero i regs = regs
restore_from memory addr (suc left) i regs =
    restore_from memory addr left (i + 1) (update regs i (mem_at memory (addr + i)))

unfoldable pub restore_registers : ℕ → Machine → Outcome
restore_registers op m =
    step_on (record m { regs = restore_from m.memory m.addr (suc (x_of op)) 0 m.regs })
