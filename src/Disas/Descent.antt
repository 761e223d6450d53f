-- ===== src/Disas/Descent.antt =====
-- `mark_data`, `note_write` and `descend` of src/disas.c: which bytes are code.
pub mod Ends
pub mod Closed
use chip_eight_jit.Common.{
  ℕ, zero, suc, ◌+◌, ◌*◌, ◌/◌, ◌%◌, ◌^◌, Bool, true, false, not, ◌&&◌, ◌||◌, Option, none, some,
  List, [], ◌∷◌, length, Array, update, ltb, leb, ◌==◌, if◌then◌else◌,
}
use chip_eight_jit.Machine.{x_of, immediate_four, immediate_eight, immediate_twelve}
use chip_eight_jit.Disas.Opcodes.{rom_start, memory_limit, word_at, valid_opcode, labelable}
use chip_eight_jit.Disas.Analysis.{Flags}

-- `kinds` is `class`: 0 for unknown, 1 for code, 2 for data.
pub record Map : Type 0 where
  pub reach : Flags
  pub kinds : Array
  pub smc_possible : Bool
  pub indirect_jump_seen : Bool

abbrev pub fresh_map : Map
fresh_map = record {
  reach = λ _. false;
  kinds = λ _. 0;
  smc_possible = false;
  indirect_jump_seen = false;
}

-- The loop of `mark_data` from `a` on.
unfoldable pub mark_from : ℕ → ℕ → ℕ → Array → Array
mark_from size zero a kinds = kinds
mark_from size (suc left) a kinds = mark_from size left (a + 1) (
    if ltb a (rom_start + size) && ltb a memory_limit && not (kinds a == 1)
    then update kinds a 2
    else kinds)

unfoldable pub mark_data : ℕ → ℕ → ℕ → Map → Map
mark_data size addr len m = record m { kinds = mark_from size len addr m.kinds }

-- Whether the loop of `note_write` meets a byte of code from `a` on.
unfoldable pub meets_code : Flags → ℕ → ℕ → Bool
meets_code reach zero a = false
meets_code reach (suc left) a = (ltb a memory_limit && reach a) || meets_code reach left (a + 1)

-- `have_ldi` and `last_ldi` are one option.
unfoldable pub note_write : Option ℕ → ℕ → Map → Map
note_write none len m = record m { smc_possible = true }
note_write (some addr) len m = record m {
  smc_possible = m.smc_possible || meets_code m.reach len addr;
}

abbrev pub mark_ldi : ℕ → Option ℕ → ℕ → Map → Map
mark_ldi size none len m = m
mark_ldi size (some addr) len m = mark_data size addr len m

-- The effects of an instruction on the map: the cases of the switch but for the path.
unfoldable pub note : ℕ → ℕ → Option ℕ → Map → Map
note size op ldi m =
    let nibble = op / 2 ^ 12 in
    let kk = immediate_eight op in
    let len = x_of op + 1 in
    if nibble == 0xb
    then record m { indirect_jump_seen = true }
    else if nibble == 0xd
    then mark_ldi size ldi (immediate_four op) m
    else if nibble == 0xf && kk == 0x33
    then mark_ldi size ldi 3 (note_write ldi 3 m)
    else if nibble == 0xf && kk == 0x55
    then mark_ldi size ldi len (note_write ldi len m)
    else if nibble == 0xf && kk == 0x65
    then mark_ldi size ldi len m
    else m

-- What the switch pushes: a static target, or the address after a skipped instruction.
unfoldable pub pushes : ℕ → ℕ → ℕ → Option ℕ
pushes size pc op =
    let nibble = op / 2 ^ 12 in
    let nnn = immediate_twelve op in
    if nibble == 0x1 || nibble == 0x2 || nibble == 0xb
    then (if labelable nnn size then some nnn else none)
    else if nibble == 0x3 || nibble == 0x4 || nibble == 0x5 || nibble == 0x9 || nibble == 0xe
    then (if ltb (pc + 4) (rom_start + size) then some (pc + 4) else none)
    else none

-- Whether the path goes on to the next instruction: `next` is not set to 0.
unfoldable pub falls_through : ℕ → Bool
falls_through op = not (op == 0x00ee || op / 2 ^ 12 == 0x1 || op / 2 ^ 12 == 0xb)

unfoldable pub next_ldi : ℕ → Option ℕ → Option ℕ
next_ldi op ldi = if op / 2 ^ 12 == 0xa then some (immediate_twelve op) else ldi

-- The room of `stack[MEMORY_SIZE / 2]`.
abbrev pub stack_room : ℕ
stack_room = memory_limit / 2

-- `stack[sp++]`; `none` where that is out of bounds.
unfoldable pub push : Option ℕ → List ℕ → Option (List ℕ)
push none stack = some stack
push (some a) stack = if ltb (length stack) stack_room then some (a ∷ stack) else none

-- `reach[pc] = reach[pc + 1] = 1` and `class[pc] = class[pc + 1] = 1`
unfoldable pub mark_code_at : ℕ → Map → Map
mark_code_at pc m = record m {
  reach = update (update m.reach (pc + 1) true) pc true;
  kinds = update (update m.kinds (pc + 1) 1) pc 1;
}

-- The inner loop: one path. `none` when the fuel runs out, or the stack is full.
unfoldable pub walk : Array → ℕ → ℕ → ℕ → Option ℕ → Map → List ℕ → Option (Map × List ℕ)
walk memory size zero pc ldi m stack = none
walk memory size (suc fuel) pc ldi m stack =
    let op = word_at memory pc in
    let m' = note size op ldi (mark_code_at pc m) in
    if ltb (pc + 1) (rom_start + size) && not (m.reach pc) && valid_opcode op
    then (elim (push (pushes size pc op) stack) [
      | none ↦ none
      | some stack' ↦
          let rest = walk memory size fuel (pc + 2) (next_ldi op ldi) m' stack' in
          if falls_through op then rest else some (m', stack')
    ])
    else some (m, stack)

-- The outer loop.
unfoldable pub descend_from : Array → ℕ → ℕ → Map → List ℕ → Option Map
descend_from memory size fuel m [] = some m
descend_from memory size zero m (pc ∷ stack) = none
descend_from memory size (suc fuel) m (pc ∷ stack) =
    elim (walk memory size (suc size) pc none m stack) [
      | none ↦ none
      | some (m', stack') ↦ descend_from memory size fuel m' stack'
    ]

-- One round more than the words of the ROM.
unfoldable pub descend : Array → ℕ → Option Map
descend memory size = descend_from memory size (size / 2 + 1) fresh_map (rom_start ∷ [])
