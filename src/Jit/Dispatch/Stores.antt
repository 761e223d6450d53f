-- ===== src/Jit/Dispatch/Stores.antt =====
-- What `note_store` of src/libgccjit_jit.c tells of the writes behind it.
use chip_eight_jit.Common.{ℕ, zero, suc, ◌+◌, ◌%◌, ◌≡◌, refl, Bool, true, false, ◌||◌, Array, arith}
use chip_eight_jit.Machine.{memory_size, opcode_at, set_mem, x_of}
use chip_eight_jit.Interp.Transfer.{save_from}
use chip_eight_jit.Jit.Marks.{Marks, meets_mark, note_store}
use chip_eight_jit.Jit.Trace.Reads.{Agree}
use chip_eight_jit.Jit.Dispatch.{Jit, jit_store_bcd, jit_save_registers}

-- A byte that is no byte of code can be written.
Agree-set_mem :
    (code : Marks) (memory written : Array) (a v : ℕ)
    → code (a % memory_size) ≡ false
    → Agree code memory written
    → Agree code memory (set_mem written a v)
Agree-set_mem code memory written a v off agree b on = ground (arith, agree b on, off, on)

Agree-save_from :
    (code : Marks) (memory written regs : Array) (addr left i : ℕ)
    → meets_mark code addr left i ≡ false
    → Agree code memory written
    → Agree code memory (save_from regs addr left i written)
unfolding meets_mark save_from
Agree-save_from code memory written regs addr zero i off agree = agree
Agree-save_from code memory written regs addr (suc left) i off agree =
    Agree-save_from code memory (set_mem written (addr + i) (regs i)) regs addr left (i + 1)
      (ground (arith, off))
      (Agree-set_mem code memory written (addr + i) (regs i) (ground (arith, off)) agree)

either_off : (a b : Bool) → (a || b) ≡ false → (a ≡ false) × (b ≡ false)
either_off false b h = (refl, h)
either_off true b h = cc

-- Where the store of the registers raises no flag, each byte that a trace was compiled from is as before.
pub Agree-jit_save_registers :
    (j : Jit)
    → (jit_save_registers j).smc_pending ≡ false
    → Agree j.code_bytes j.machine.memory (jit_save_registers j).machine.memory
unfolding jit_save_registers note_store
Agree-jit_save_registers j off =
    let m = j.machine in
    let x = x_of (opcode_at m.memory m.program_counter) in
    let noted = either_off j.smc_pending (meets_mark j.code_bytes m.addr (suc x) 0) off in
    Agree-save_from j.code_bytes m.memory m.memory m.regs m.addr (suc x) 0 noted.1 (λ a on. refl)

pub Agree-jit_store_bcd :
    (j : Jit)
    → (jit_store_bcd j).smc_pending ≡ false
    → Agree j.code_bytes j.machine.memory (jit_store_bcd j).machine.memory
unfolding jit_store_bcd note_store meets_mark
Agree-jit_store_bcd j off =
    let m = j.machine in
    let noted = either_off j.smc_pending (meets_mark j.code_bytes m.addr 3 0) off in
    let a : j.code_bytes ((m.addr + 0) % memory_size) ≡ false = ground (arith, noted.1) in
    let b : j.code_bytes ((m.addr + 1) % memory_size) ≡ false = ground (arith, noted.1) in
    let c : j.code_bytes ((m.addr + 2) % memory_size) ≡ false = ground (arith, noted.1) in
    Agree-set_mem j.code_bytes m.memory _ (m.addr + 2) _ c (
      Agree-set_mem j.code_bytes m.memory _ (m.addr + 1) _ b
        (Agree-set_mem j.code_bytes m.memory m.memory (m.addr + 0) _ a (λ a on. refl)))
