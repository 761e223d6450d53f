-- ===== src/Interp/Run/Start.antt =====
-- The state in which the main loop starts.
use chip_eight_jit.Common.{
  ℕ, zero, suc, ◌+◌, ◌-◌, ◌*◌, ◌%◌, ◌≤◌, ◌<◌, ◌≡◌, ◌∙◌, List, [], ◌∷◌, Array, Below, get_or, update,
  arith,
}
use chip_eight_jit.Clock.{KeyMode}
use chip_eight_jit.Machine.{
  Machine, IsWellFormed, u8, initial_memory, entrypoint, memory_size, opcode_at, set_reg, x_of,
}
use chip_eight_jit.Machine.Digits.{picture, initial_memory-picture, initial_memory-zero}
use chip_eight_jit.Common.Bits.{bit_or_shifted}
use chip_eight_jit.Interp.Outcome.{Outcome, stepped}
use chip_eight_jit.Interp.Transfer.{load_sprite_addr}
use chip_eight_jit.Machine.Font.{initial_memory-lt}
use chip_eight_jit.Interp.Run.{load, start}

-- Every byte of the file.
abbrev pub AllBytes : List ℕ → Type 0
AllBytes [] = Unit
AllBytes (b ∷ bs) = (b < u8) × AllBytes bs

get_or-lt : (bs : List ℕ) (i d : ℕ) → AllBytes bs → d < u8 → get_or bs i d < u8
get_or-lt [] i d h k = k
get_or-lt (b ∷ bs) zero d h k = h.0
get_or-lt (b ∷ bs) (suc i) d h k = get_or-lt bs i d h.1 k

load-lt : (rom : List ℕ) → AllBytes rom → Below u8 (load rom)
unfolding load
load-lt rom h a =
    ground (arith, initial_memory-lt a, get_or-lt rom (a - entrypoint) (initial_memory a) h)

-- Any file of bytes gives a well-formed machine to start from.
pub start-IsWellFormed :
    (rom : List ℕ) (rand_values : Array) (budget : ℕ) (mode : KeyMode)
    → AllBytes rom
    → IsWellFormed (start rom rand_values budget mode)
start-IsWellFormed rom rand_values budget mode h = record {
  memory_bytes = load-lt rom h;
  reg_bytes = λ i. omega arith;
  stack_words = λ i. omega arith;
  stack_pointer_le = omega arith;
  addr_lt = omega arith;
  program_counter_lt = omega arith;
  delay_timer_lt = omega arith;
  sound_timer_lt = omega arith;
  pixels = λ i. omega arith;
}

-- The next thing that an outcome leads to is a machine with a property.
abbrev StepsTo : (Machine → Type 0) → Outcome → Type 0
StepsTo P (stepped s) = P s
StepsTo P _ = ⊥

-- A machine that is ready to run the file `rom`.
pub record IsLoaded (rom : List ℕ) (m : Machine) : Type 0 where
  pub well_formed : IsWellFormed m
  pub program :
      (i : ℕ) → i < memory_size - entrypoint → m.memory (m.program_counter + i) ≡ get_or rom i 0
  pub opcodes :
      (i : ℕ)
      → i + 1 < memory_size - entrypoint
      → opcode_at m.memory (m.program_counter + i) ≡ get_or rom i 0 * 256 + get_or rom (i + 1) 0
  pub digits :
      (op v i : ℕ)
      → i < 5
      → StepsTo
          (λ s. s.memory (s.addr + i) ≡ picture (v % 16) i)
          (load_sprite_addr op (set_reg (x_of op) v m))
  pub unused : (a : ℕ) → 80 ≤ a → a < entrypoint → m.memory a ≡ 0
  pub cut_off : (a : ℕ) → memory_size ≤ a → m.memory a ≡ 0

load-program :
    (rom : List ℕ) (i : ℕ)
    → i < memory_size - entrypoint
    → load rom (entrypoint + i) ≡ get_or rom i 0
unfolding load
load-program rom i h = ground (arith, initial_memory-zero (entrypoint + i), back)
  where
    back : entrypoint + i - entrypoint ≡ i
    back = omega arith

load-opcode :
    (rom : List ℕ) (i : ℕ)
    → AllBytes rom
    → i + 1 < memory_size - entrypoint
    → opcode_at (load rom) (entrypoint + i) ≡ get_or rom i 0 * 256 + get_or rom (i + 1) 0
unfolding opcode_at
load-opcode rom i h below =
    let first : (entrypoint + i) % memory_size ≡ entrypoint + i = omega (arith, below) in
    let second : (entrypoint + i + 1) % memory_size ≡ entrypoint + (i + 1) = omega (arith, below) in
    rw (first, second, load-program rom i (omega (arith, below)), load-program rom (i + 1) below)
      (bit_or_shifted 8 (get_or rom i 0) (get_or rom (i + 1) 0)
        (get_or-lt rom (i + 1) 0 h (omega arith)))

load-gap : (rom : List ℕ) (a : ℕ) → 80 ≤ a → a < entrypoint → load rom a ≡ 0
unfolding load
load-gap rom a above below = ground (arith, initial_memory-zero a)

load-cut : (rom : List ℕ) (a : ℕ) → memory_size ≤ a → load rom a ≡ 0
unfolding load
load-cut rom a above = ground arith

load-font : (rom : List ℕ) (a : ℕ) → a < entrypoint → load rom a ≡ initial_memory a
unfolding load
load-font rom a h = ground arith

-- Whatever bytes the file has, the machine that the loop starts from is well-formed. At its program
-- counter stand the bytes of the file, one after the other up to the end of the memory, and zeros
-- where the file is shorter; two of them at a time are the opcodes that are fetched. Behind the end of
-- the memory nothing is written. Fx29 finds the picture of each digit, row by row, in the memory
-- below the program, and what lies between the digits and the program is 0.
pub start-IsLoaded :
    (rom : List ℕ) (rand_values : Array) (budget : ℕ) (mode : KeyMode)
    → AllBytes rom
    → IsLoaded rom (start rom rand_values budget mode)
unfolding load_sprite_addr
start-IsLoaded rom rand_values budget mode h = record {
  well_formed = start-IsWellFormed rom rand_values budget mode h;
  program = load-program rom;
  opcodes = λ i below. load-opcode rom i h below;
  digits = λ op v i row.
      let own : update (λ _. 0) (x_of op) v (x_of op) ≡ v = ground arith in
      rw (own)
        (load-font rom (v % 16 * 5 + i) (omega (arith, row)) ∙ initial_memory-picture (v % 16) i);
  unused = λ a above below. load-gap rom a above below;
  cut_off = λ a above. load-cut rom a above;
}
