-- ===== src/Disas/Analysis.antt =====
-- `analyze` and `glue_unreachable` of src/disas.c: which addresses start a block.
pub mod Leaders
use chip_eight_jit.Common.{
  ℕ, zero, suc, ◌+◌, ◌*◌, ◌/◌, ◌%◌, ◌^◌, Bool, true, false, ◌&&◌, ◌||◌, Array, update, ltb, leb,
  ◌==◌, if◌then◌else◌,
}
use chip_eight_jit.Machine.{immediate_four, immediate_eight, immediate_twelve}
use chip_eight_jit.Disas.Opcodes.{rom_start, word_at, labelable}

-- A flag for each address.
abbrev pub Flags : Type 0
Flags = ℕ → Bool

abbrev pub start_at : ℕ → Flags → Flags
start_at a leader = update leader a true

-- `if (a < end) leader[a] = true`
abbrev pub start_below : ℕ → ℕ → Flags → Flags
start_below end a leader = if ltb a end then start_at a leader else leader

-- The cases of the switch that set `skip`, `ends_block`, and that have a static target.
abbrev pub sets_skip : ℕ → Bool
sets_skip op =
    let nibble = op / 2 ^ 12 in
    let kk = immediate_eight op in
    (nibble == 0x3 || nibble == 0x4)
    || ((nibble == 0x5 || nibble == 0x9) && immediate_four op == 0)
    || (nibble == 0xe && (kk == 0x9e || kk == 0xa1))

abbrev pub ends_block : ℕ → Bool
ends_block op = op == 0x00ee || op / 2 ^ 12 == 0x1 || op / 2 ^ 12 == 0xb

abbrev pub has_target : ℕ → Bool
has_target op = op / 2 ^ 12 == 0x1 || op / 2 ^ 12 == 0x2

-- The body of the loop of `analyze`.
unfoldable pub analyze_word : ℕ → ℕ → ℕ → Flags → Flags
analyze_word size pc op leader =
    let end = rom_start + size in
    let nnn = immediate_twelve op in
    let targeted = if has_target op && labelable nnn size then start_at nnn leader else leader in
    let skipped =
      if sets_skip op
      then start_below end (pc + 4) (start_below end (pc + 2) targeted)
      else targeted in
    if ends_block op then start_below end (pc + 2) skipped else skipped

-- Its rounds from `pc` on, of which `left` are to go.
unfoldable pub analyze_from : Array → ℕ → ℕ → ℕ → Flags → Flags
analyze_from memory size zero pc leader = leader
analyze_from memory size (suc left) pc leader =
    analyze_from memory size left (pc + 2) (analyze_word size pc (word_at memory pc) leader)

unfoldable pub analyze : Array → ℕ → Flags
analyze memory size =
    analyze_from memory size (size / 2) rom_start (start_at rom_start (λ _. false))

-- `glue_unreachable`, address by address: `in_run` tells whether the address before was in the run of
-- unreachable bytes. The start of a run becomes a leader if it can have a label, and keeps what it was
-- if not; the other addresses of the run lose theirs.
unfoldable pub glue_from : Flags → ℕ → ℕ → Bool → ℕ → Flags → Flags
glue_from reach size zero in_run pc leader = leader
glue_from reach size (suc left) in_run pc leader =
    glue_from reach size left (if reach pc then false else true) (pc + 1) (
      if reach pc
      then leader
      else if in_run
      then update leader pc false
      else if labelable pc size
      then start_at pc leader
      else leader)

unfoldable pub glue_unreachable : Flags → ℕ → Flags → Flags
glue_unreachable reach size leader = glue_from reach size size false rom_start leader
