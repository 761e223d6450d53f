-- ===== src/Disas/Analysis/Leaders.antt =====
-- Where the labels stand: `analyze` and `glue_unreachable` of src/disas.c.
use chip_eight_jit.Common.{
  ℕ, zero, suc, ◌+◌, ◌/◌, ◌%◌, ◌≤◌, ◌<◌, ◌≡◌, Bool, true, false, ◌&&◌, Array, arith, if◌then◌else◌,
}
use chip_eight_jit.Machine.{immediate_twelve}
use chip_eight_jit.Disas.Opcodes.{rom_start, word_at, labelable}
use chip_eight_jit.Disas.Analysis.{
  Flags, start_at, start_below, sets_skip, ends_block, has_target, analyze_word, analyze_from,
  analyze, glue_from, glue_unreachable,
}

-- Every label stands at the even address of a byte of the ROM.
abbrev pub Placed : Flags → ℕ → Type 0
Placed leader size = (a : ℕ) → leader a ≡ true → (0x200 ≤ a) × (a < 0x200 + size) × (a % 2 ≡ 0)

module _ (size : ℕ) where
  either :
      (b : Bool) {leader other : Flags}
      → Placed leader size
      → Placed other size
      → Placed (if b then leader else other) size
  either true p q = p
  either false p q = q

  start_at-Placed :
      (leader : Flags) (a : ℕ)
      → 0x200 ≤ a
      → a < 0x200 + size
      → a % 2 ≡ 0
      → Placed leader size
      → Placed (start_at a leader) size
  start_at-Placed leader a h k e placed b on = ground (arith, placed b)

  start_below-Placed :
      (leader : Flags) (a : ℕ)
      → 0x200 ≤ a
      → a % 2 ≡ 0
      → Placed leader size
      → Placed (start_below (rom_start + size) a leader) size
  start_below-Placed leader a h e placed b on = ground (arith, placed b)

  target-Placed :
      (leader : Flags) (a : ℕ) (c : Bool)
      → Placed leader size
      → Placed (if c && labelable a size then start_at a leader else leader) size
  unfolding labelable
  target-Placed leader a c placed b on = ground (arith, placed b)

  analyze_word-Placed :
      (pc op : ℕ) (leader : Flags)
      → 0x200 ≤ pc
      → pc % 2 ≡ 0
      → Placed leader size
      → Placed (analyze_word size pc op leader) size
  unfolding analyze_word
  analyze_word-Placed pc op leader h e placed =
      let end = rom_start + size in
      let nnn = immediate_twelve op in
      let targeted = if has_target op && labelable nnn size then start_at nnn leader else leader in
      let p = target-Placed leader nnn (has_target op) placed in
      let q = start_below-Placed targeted (pc + 2) (omega arith) (omega arith) p in
      let r =
        start_below-Placed (start_below end (pc + 2) targeted) (pc + 4) (omega arith) (omega arith)
          q in
      let skipped =
        if sets_skip op
        then start_below end (pc + 4) (start_below end (pc + 2) targeted)
        else targeted in
      let s = either (sets_skip op) r p in
      either (ends_block op) (start_below-Placed skipped (pc + 2) (omega arith) (omega arith) s) s

  analyze_from-Placed :
      (memory : Array) (left pc : ℕ) (leader : Flags)
      → 0x200 ≤ pc
      → pc % 2 ≡ 0
      → Placed leader size
      → Placed (analyze_from memory size left pc leader) size
  unfolding analyze_from
  analyze_from-Placed memory zero pc leader h e placed = placed
  analyze_from-Placed memory (suc left) pc leader h e placed =
      analyze_from-Placed memory left (pc + 2) (analyze_word size pc (word_at memory pc) leader)
        (omega arith) (omega arith) (analyze_word-Placed pc (word_at memory pc) leader h e placed)

  glue_from-Placed :
      (reach : Flags) (left pc : ℕ) (in_run : Bool) (leader : Flags)
      → Placed leader size
      → Placed (glue_from reach size left in_run pc leader) size
  unfolding glue_from labelable
  glue_from-Placed reach zero pc in_run leader placed = placed
  glue_from-Placed reach (suc left) pc in_run leader placed =
      glue_from-Placed reach left (pc + 1) (if reach pc then false else true) _
        (λ b on. ground (arith, placed b))

-- The labels of a ROM of one byte at least, of which no byte is passed over, are at even addresses in it.
pub glue_unreachable-Placed :
    (memory : Array) (reach : Flags) (size : ℕ)
    → 1 ≤ size
    → Placed (glue_unreachable reach size (analyze memory size)) size
unfolding glue_unreachable analyze
glue_unreachable-Placed memory reach size h = glue_from-Placed size reach size rom_start false _ (
    analyze_from-Placed size memory (size / 2) rom_start (start_at rom_start (λ _. false))
      (omega arith) (omega arith) (λ a on. ground arith))
