-- ===== src/Aot/LostErrors.antt =====
-- Where a compiled block and the interpreter differ.
use chip_eight_jit.Common.{ℕ, ◌+◌, ◌<◌, ◌≡◌, ◌≢◌, false, arith}
use chip_eight_jit.Machine.{u16, high_nibble}
use chip_eight_jit.Interp.Step.{execute}
use chip_eight_jit.Interp.Step.Errors.{is_instruction, execute-verdict}
use chip_eight_jit.Interp.Step.Errors.Verdicts.{verdict, fails}
use chip_eight_jit.Aot.Host.{Host}
use chip_eight_jit.Aot.Services.{aot_alu, aot_f_machine, aot_f}
use chip_eight_jit.Aot.Blocks.{block, dispatched, set_pc, exec, exec_all}

-- An opcode 8xyn or Fxkk that stands for no instruction stops the interpreter. The compiled block
-- goes on to the next instruction: the address 0xffff, by which `chip8_aot_alu` and `chip8_aot_f`
-- report the error, is overwritten by the block's own store of the program counter.
pub block_goes_on :
    (fuel op : ℕ) (h : Host)
    → op < u16
    → is_instruction op ≡ false
    → high_nibble op ≢ 0xe
    → (verdict (execute op h.machine) ≡ fails)
      × (exec_all fuel (block h.machine.program_counter op) h
          ≡ dispatched (set_pc (h.machine.program_counter + 2) h))
unfolding block exec exec_all aot_alu aot_f aot_f_machine
block_goes_on fuel op h lt bad k = ground (arith, execute-verdict op h.machine)
