-- ===== src/Interp/Transfer/Laws.antt =====
-- What the handlers write to memory, and that registers which are saved come back.
use chip_eight_jit.Common.{
  ℕ, zero, suc, ◌+◌, ◌*◌, ◌%◌, ◌≤◌, ◌<◌, ◌≡◌, ◌≢◌, refl, ◌∙◌, Array, update, ◌&&◌, arith, ltb, leb,
  if◌then◌else◌,
}
use native.Mathlib.Decide.{ℕ_discrete}
use chip_eight_jit.Machine.{Machine, IsWellFormed, x_of, mem_at, set_mem, memory_size}
use chip_eight_jit.Interp.Outcome.{stepped}
use chip_eight_jit.Interp.Transfer.{
  store_bcd, save_from, save_registers, restore_from, restore_registers,
}

-- Fx33 stores the three decimal digits of Vx, and changes no other byte.
pub store_bcd_lem :
    (op : ℕ) (m s : Machine)
    → IsWellFormed m
    → store_bcd op m ≡ stepped s
    → (100 * mem_at s.memory m.addr
          + 10 * mem_at s.memory (m.addr + 1)
          + mem_at s.memory (m.addr + 2)
        ≡ m.regs (x_of op))
      × (mem_at s.memory (m.addr + 1) < 10)
      × (mem_at s.memory (m.addr + 2) < 10)
      × ((a : ℕ)
          → a ≢ m.addr % memory_size
          → a ≢ (m.addr + 1) % memory_size
          → a ≢ (m.addr + 2) % memory_size
          → s.memory a ≡ m.memory a)
unfolding store_bcd
store_bcd_lem op m s w e = (ground arith, ground arith, ground arith, λ a p q r. ground arith)

restore_from_lem :
    (memory : Array) (addr left i : ℕ) (regs : Array) (k : ℕ)
    → restore_from memory addr left i regs k
      ≡ (if leb i k && ltb k (i + left) then mem_at memory (addr + k) else regs k)
unfolding restore_from
restore_from_lem memory addr zero i regs k = ground arith
restore_from_lem memory addr (suc left) i regs k =
    ground (
      arith,
      restore_from_lem memory addr left (i + 1) (update regs i (mem_at memory (addr + i))) k,
    )

-- A byte that no round writes to.
save_from_apart :
    (regs : Array) (addr left i : ℕ) (memory : Array) (a : ℕ)
    → ((k : ℕ) → i ≤ k → k < i + left → a ≢ (addr + k) % memory_size)
    → save_from regs addr left i memory a ≡ memory a
unfolding save_from
save_from_apart regs addr zero i memory a h = refl
save_from_apart regs addr (suc left) i memory a h =
    save_from_apart regs addr left (i + 1) _ a (λ k p q. h k (omega arith) (omega arith))
    ∙ missed (h i (omega arith) (omega arith))
  where
    missed : a ≢ (addr + i) % memory_size → set_mem memory (addr + i) (regs i) a ≡ memory a
    missed ne = ground arith

save_from_at :
    (regs : Array) (addr left i : ℕ) (memory : Array) (k : ℕ)
    → i ≤ k
    → k < i + left
    → i + left ≤ memory_size
    → mem_at (save_from regs addr left i memory) (addr + k) ≡ regs k
unfolding save_from
save_from_at regs addr zero i memory k h p q = absurd (omega arith)
save_from_at regs addr (suc left) i memory k h p q = elim (ℕ_discrete k i) [
  | yes e ↦
      save_from_apart regs addr left (i + 1) (set_mem memory (addr + i) (regs i))
        ((addr + k) % memory_size) (λ j a b. omega arith)
      ∙ ground arith
  | no e ↦ save_from_at regs addr left (i + 1) _ k (omega arith) (omega arith) (omega arith)
]

-- Fx65 brings back what Fx55 has saved, wherever the address register points: if memory and address
-- are those that the save has left, the registers up to `x` are as they were, and those above keep
-- the values that they have got since.
pub restore_registers-save_registers :
    (op : ℕ) (m s t u : Machine) (k : ℕ)
    → save_registers op m ≡ stepped s
    → t.memory ≡ s.memory
    → t.addr ≡ s.addr
    → restore_registers op t ≡ stepped u
    → u.regs k ≡ (if leb k (x_of op) then m.regs k else t.regs k)
unfolding save_registers restore_registers
restore_registers-save_registers op m s t u k e f g h = ground (
  arith,
  restore_from_lem t.memory t.addr (suc (x_of op)) 0 t.regs k,
  save_from_at m.regs m.addr (suc (x_of op)) 0 m.memory k,
)
