-- ===== src/Machine.antt =====
-- src/chip8.h and src/chip8.c: the state that every engine shares, the accesses to its memory, and
-- the fields of an opcode. To it belong the engine's timers (src/interp.c) and the build's clock and
-- screen (src/bench_io.c). In this and the other files `v & (2 ^ k - 1)` is written `v % 2 ^ k` and
-- `v >> k` is written `v / 2 ^ k`.
pub mod Font
pub mod Digits
use chip_eight_jit.Common.{
  ℕ, ◌+◌, ◌*◌, ◌/◌, ◌%◌, ◌^◌, ◌≤◌, ◌<◌, List, [], ◌∷◌, Array, Below, update, get_or, bit_or,
}
use chip_eight_jit.Clock.{Clock}

abbrev pub stack_size : ℕ
stack_size = 0x10

abbrev pub memory_size : ℕ
memory_size = 0x1000

abbrev pub regfile_size : ℕ
regfile_size = 0x10

abbrev pub entrypoint : ℕ
entrypoint = 0x200

-- The values of `uint8_t` and of `uint16_t`.
abbrev pub u8 : ℕ
u8 = 0x100

abbrev pub u16 : ℕ
u16 = 0x10000

-- `rand_values` holds what the calls of `rand ()` will return, in order.
pub record Machine : Type 0 where
  pub memory : Array
  pub regs : Array
  pub stack : Array
  pub stack_pointer : ℕ
  pub addr : ℕ
  pub program_counter : ℕ
  pub delay_timer : ℕ
  pub sound_timer : ℕ
  pub last_tick : ℕ
  pub display : Array
  pub clock : Clock
  pub rand_values : Array

-- Every variable is in the range of its C type, the stack pointer within the stack, and a pixel is
-- 0 or 1.
pub record IsWellFormed (m : Machine) : Type 0 where
  pub memory_bytes : Below u8 m.memory
  pub reg_bytes : Below u8 m.regs
  pub stack_words : Below u16 m.stack
  pub stack_pointer_le : m.stack_pointer ≤ stack_size
  pub addr_lt : m.addr < u16
  pub program_counter_lt : m.program_counter < u16
  pub delay_timer_lt : m.delay_timer < u8
  pub sound_timer_lt : m.sound_timer < u8
  pub pixels : Below 2 m.display

-- `MEM_AT (a)`, read and written.
abbrev pub mem_at : Array → ℕ → ℕ
mem_at memory a = memory (a % memory_size)

abbrev pub set_mem : Array → ℕ → ℕ → Array
set_mem memory a v = update memory (a % memory_size) v

-- `OPCODE_AT (pc)`
unfoldable pub opcode_at : Array → ℕ → ℕ
opcode_at memory pc = bit_or (mem_at memory pc * 2 ^ 8) (mem_at memory (pc + 1))

-- The macros `X`, `Y`, `IMMEDIATE4`, `IMMEDIATE8` and `IMMEDIATE12`, and the high nibble.
abbrev pub x_of : ℕ → ℕ
x_of op = op / 2 ^ 8 % 2 ^ 4

abbrev pub y_of : ℕ → ℕ
y_of op = op / 2 ^ 4 % 2 ^ 4

abbrev pub immediate_four : ℕ → ℕ
immediate_four op = op % 2 ^ 4

abbrev pub immediate_eight : ℕ → ℕ
immediate_eight op = op % 2 ^ 8

abbrev pub immediate_twelve : ℕ → ℕ
immediate_twelve op = op % 2 ^ 12

abbrev pub high_nibble : ℕ → ℕ
high_nibble op = op / 2 ^ 12 % 2 ^ 4

abbrev pub set_reg : ℕ → ℕ → Machine → Machine
set_reg x v m = record m { regs = update m.regs x v }

-- `FLAGS`
abbrev pub set_flags : ℕ → Machine → Machine
set_flags = set_reg 15

abbrev pub skip : Machine → Machine
skip m = record m { program_counter = (m.program_counter + 2) % u16 }

-- The hexadecimal digits that `memory` is initialised with.
abbrev font : List ℕ
font =
    0xF0 ∷ 0x90 ∷ 0x90 ∷ 0x90 ∷ 0xF0 ∷ 0x20 ∷ 0x60 ∷ 0x20 ∷ 0x20 ∷ 0x70 ∷ 0xF0 ∷ 0x10 ∷ 0xF0 ∷ 0x80
    ∷ 0xF0 ∷ 0xF0 ∷ 0x10 ∷ 0xF0 ∷ 0x10 ∷ 0xF0 ∷ 0x90 ∷ 0x90 ∷ 0xF0 ∷ 0x10 ∷ 0x10 ∷ 0xF0 ∷ 0x80
    ∷ 0xF0 ∷ 0x10 ∷ 0xF0 ∷ 0xF0 ∷ 0x80 ∷ 0xF0 ∷ 0x90 ∷ 0xF0 ∷ 0xF0 ∷ 0x10 ∷ 0x20 ∷ 0x40 ∷ 0x40
    ∷ 0xF0 ∷ 0x90 ∷ 0xF0 ∷ 0x90 ∷ 0xF0 ∷ 0xF0 ∷ 0x90 ∷ 0xF0 ∷ 0x10 ∷ 0xF0 ∷ 0xF0 ∷ 0x90 ∷ 0xF0
    ∷ 0x90 ∷ 0x90 ∷ 0xE0 ∷ 0x90 ∷ 0xE0 ∷ 0x90 ∷ 0xE0 ∷ 0xF0 ∷ 0x80 ∷ 0x80 ∷ 0x80 ∷ 0xF0 ∷ 0xE0
    ∷ 0x90 ∷ 0x90 ∷ 0x90 ∷ 0xE0 ∷ 0xF0 ∷ 0x80 ∷ 0xF0 ∷ 0x80 ∷ 0xF0 ∷ 0xF0 ∷ 0x80 ∷ 0xF0 ∷ 0x80
    ∷ 0x80 ∷ []

unfoldable pub initial_memory : Array
initial_memory a = get_or font a 0
