-- ===== src/Disas/Opcodes.antt =====
-- `valid_opcode` and `labelable` of src/disas.c.
use chip_eight_jit.Common.{
  ℕ, ◌+◌, ◌*◌, ◌/◌, ◌%◌, ◌^◌, Bool, true, false, ◌&&◌, ◌||◌, Array, ltb, leb, ◌==◌, if◌then◌else◌,
  bit_or,
}
use chip_eight_jit.Machine.{immediate_four, immediate_eight}

abbrev pub rom_start : ℕ
rom_start = 0x200

abbrev pub memory_limit : ℕ
memory_limit = 0x1000

-- `(memory[pc] << 8) | memory[pc + 1]`, without the mask that the engines have.
unfoldable pub word_at : Array → ℕ → ℕ
word_at memory pc = bit_or (memory pc * 2 ^ 8) (memory (pc + 1))

-- The low bytes of the cases under 0xf.
abbrev pub is_misc : ℕ → Bool
is_misc kk =
    kk == 0x07
    || kk == 0x0a
    || kk == 0x15
    || kk == 0x18
    || kk == 0x1e
    || kk == 0x29
    || kk == 0x33
    || kk == 0x55
    || kk == 0x65

unfoldable pub valid_opcode : ℕ → Bool
valid_opcode op =
    let nibble = op / 2 ^ 12 in
    let n = immediate_four op in
    let kk = immediate_eight op in
    if op == 0x00e0 || op == 0x00ee
    then true
    else if nibble == 0x0
    then false
    else if nibble == 0x5 || nibble == 0x9
    then n == 0
    else if nibble == 0x8
    then leb n 7 || n == 0xe
    else if nibble == 0xe
    then kk == 0x9e || kk == 0xa1
    else if nibble == 0xf
    then is_misc kk
    else true

unfoldable pub labelable : ℕ → ℕ → Bool
labelable addr size = leb rom_start addr && ltb (addr + 1) (rom_start + size) && addr % 2 == 0
