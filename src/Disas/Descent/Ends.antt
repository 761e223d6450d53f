-- ===== src/Disas/Descent/Ends.antt =====
-- `descend` of src/disas.c ends, within its fuel, and its stack has the room.
use chip_eight_jit.Common.{
  ℕ, zero, suc, ◌+◌, ◌*◌, ◌/◌, ◌%◌, ◌≤◌, ◌<◌, ◌≡◌, refl, ◌∙◌, ap, true, false, not, ◌&&◌, Option,
  none, some, List, [], ◌∷◌, length, Array, update, arith, ltb, ◌==◌, if◌then◌else◌, Bool-cases,
  inl, inr, lt→ltb,
}
use chip_eight_jit.Disas.Opcodes.{rom_start, word_at, valid_opcode, labelable}
use chip_eight_jit.Disas.Analysis.{Flags}
use chip_eight_jit.Disas.Descent.{
  Map, fresh_map, mark_data, note_write, note, pushes, falls_through, next_ldi, stack_room, push,
  mark_code_at, walk, descend_from, descend,
}

-- How many of the words from `pc` on no path has reached.
abbrev pub unreached : Flags → ℕ → ℕ → ℕ
unreached reach zero pc = 0
unreached reach (suc left) pc = (if reach pc then 0 else 1) + unreached reach left (pc + 2)

abbrev pub reach_word : ℕ → Flags → Flags
reach_word a reach = update (update reach (a + 1) true) a true

unreached_before :
    (reach : Flags) (left pc a : ℕ)
    → a + 1 < pc
    → unreached (reach_word a reach) left pc ≡ unreached reach left pc
unreached_before reach zero pc a h = refl
unreached_before reach (suc left) pc a h =
    ground (arith, unreached_before reach left (pc + 2) a (omega arith))

-- A word that is reached for the first time is one less.
unreached-reach_word :
    (reach : Flags) (left pc a : ℕ)
    → pc ≤ a
    → a < pc + 2 * left
    → a % 2 ≡ pc % 2
    → reach a ≡ false
    → unreached (reach_word a reach) left pc + 1 ≡ unreached reach left pc
unreached-reach_word reach zero pc a h k e new = absurd (omega arith)
unreached-reach_word reach (suc left) pc a h k e new = elim (Bool-cases (a == pc)) [
  | inl here ↦
      let at_pc : a ≡ pc = ground arith in
      ground (arith, unreached_before reach left (pc + 2) a (omega arith))
  | inr later ↦
      let after : pc + 2 ≤ a = ground arith in
      let rest = unreached-reach_word reach left (pc + 2) a after (omega arith) (omega arith) new in
      ground (arith, rest)
]

note_reach : (size op : ℕ) (ldi : Option ℕ) (m : Map) → (note size op ldi m).reach ≡ m.reach
unfolding note note_write mark_data
note_reach size op none m = ground arith
note_reach size op (some a) m = ground arith

pub marked_reach :
    (size op pc : ℕ) (ldi : Option ℕ) (m : Map)
    → (note size op ldi (mark_code_at pc m)).reach ≡ reach_word pc m.reach
unfolding mark_code_at
marked_reach size op pc ldi m = note_reach size op ldi (mark_code_at pc m)

-- What can be on the stack: an even address from the start of the ROM on.
abbrev pub IsStart : ℕ → Type 0
IsStart a = (0x200 ≤ a) × (a % 2 ≡ 0)

abbrev pub AllStarts : List ℕ → Type 0
AllStarts [] = Unit
AllStarts (a ∷ stack) = IsStart a × AllStarts stack

pub pushes-IsStart : (size pc op a : ℕ) → IsStart pc → pushes size pc op ≡ some a → IsStart a
unfolding pushes labelable
pushes-IsStart size pc op a (h, e) on = ground arith

-- What a push of a start, or of nothing, leaves.
push-AllStarts :
    (o : Option ℕ) (stack : List ℕ)
    → ((a : ℕ) → o ≡ some a → IsStart a)
    → AllStarts stack
    → length stack < stack_room
    → (after : List ℕ) × (push o stack ≡ some after)
      × (length after ≤ suc (length stack))
      × AllStarts after
unfolding push
push-AllStarts none stack h all room = (stack, refl, omega arith, all)
push-AllStarts (some a) stack h all room =
    (a ∷ stack, rw (lt→ltb (length stack) stack_room room) refl, omega arith, (h a refl, all))

-- A path ends, and leaves no more behind than it found: the words that it reaches pay for what it pushes.
abbrev Ends : ℕ → Map → List ℕ → Option (Map × List ℕ) → Type 0
Ends size m stack o =
    (m' : Map) × (stack' : List ℕ) × (o ≡ some (m', stack'))
    × (length stack' + unreached m'.reach (size / 2) rom_start
        ≤ length stack + unreached m.reach (size / 2) rom_start)
    × AllStarts stack'

walk-Ends :
    (memory : Array) (size fuel pc : ℕ) (ldi : Option ℕ) (m : Map) (stack : List ℕ)
    → size ≤ 0xe00
    → IsStart pc
    → AllStarts stack
    → unreached m.reach (size / 2) rom_start < fuel
    → length stack + unreached m.reach (size / 2) rom_start ≤ size / 2
    → Ends size m stack (walk memory size fuel pc ldi m stack)
unfolding walk
walk-Ends memory size zero pc ldi m stack room h all enough few = absurd (omega arith)
walk-Ends memory size (suc fuel) pc ldi m stack room (low, even) all enough few =
    elim (Bool-cases
      (ltb (pc + 1) (rom_start + size) && not (m.reach pc) && valid_opcode (word_at memory pc))) [
        | inr off ↦ rw (off) (m, stack, refl, omega arith, all)
        | inl on ↦
            let op = word_at memory pc in
            let m' = note size op ldi (mark_code_at pc m) in
            let new : m.reach pc ≡ false = ground arith in
            let inside : pc < rom_start + 2 * (size / 2) = ground arith in
            let fewer = unreached-reach_word m.reach (size / 2) rom_start pc low inside even new in
            let same : m'.reach ≡ reach_word pc m.reach = marked_reach size op pc ldi m in
            let counted : unreached m'.reach (size / 2) rom_start + 1
                ≡ unreached m.reach (size / 2) rom_start =
              ap (λ r. unreached r (size / 2) rom_start + 1) same ∙ fewer in
            let (after, pushed, grown, starts) =
              push-AllStarts (pushes size pc op) stack
                (λ a e. pushes-IsStart size pc op a (low, even) e) all (omega (arith, counted)) in
            elim (Bool-cases (falls_through op)) [
              | inr stop ↦ rw (on, pushed, stop) (m', after, refl, omega (arith, counted), starts)
              | inl next ↦
                  let (m'', last, ended, less, placed) =
                    walk-Ends memory size fuel (pc + 2) (next_ldi op ldi) m' after room
                      (omega arith, omega arith) starts (omega (arith, counted))
                      (omega (arith, counted)) in
                  rw (on, pushed, next) (m'', last, ended, omega (arith, counted, less), placed)
            ]
      ]

descend_from-ends :
    (memory : Array) (size fuel : ℕ) (m : Map) (stack : List ℕ)
    → size ≤ 0xe00
    → AllStarts stack
    → length stack + unreached m.reach (size / 2) rom_start ≤ fuel
    → length stack + unreached m.reach (size / 2) rom_start ≤ size / 2 + 1
    → (m' : Map) × (descend_from memory size fuel m stack ≡ some m')
unfolding descend_from
descend_from-ends memory size fuel m [] room all enough few = (m, refl)
descend_from-ends memory size zero m (pc ∷ stack) room all enough few = absurd (omega arith)
descend_from-ends memory size (suc fuel) m (pc ∷ stack) room (h, all) enough few =
    let (m', after, ended, less, starts) =
      walk-Ends memory size (suc size) pc none m stack room h all (omega arith) (omega arith) in
    rw (ended, descend_from)
      (descend_from-ends memory size fuel m' after room starts (omega (arith, less))
        (omega (arith, less)))

unreached_all : (left pc : ℕ) → unreached (λ a. false) left pc ≡ left
unreached_all zero pc = refl
unreached_all (suc left) pc = omega (arith, unreached_all left (pc + 2))

-- For every ROM that fits in the memory, the recursive descent ends, in no more rounds than there are
-- words in the ROM, and one, each of at most one step more than the size of the ROM; and its stack never
-- needs more than the 2,048 entries that it has.
pub descend-ends :
    (memory : Array) (size : ℕ) → size ≤ 0xe00 → (m : Map) × (descend memory size ≡ some m)
unfolding descend
descend-ends memory size room =
    descend_from-ends memory size (size / 2 + 1) fresh_map (rom_start ∷ []) room
      ((omega arith, omega arith), tt) (omega (arith, unreached_all (size / 2) rom_start))
      (omega (arith, unreached_all (size / 2) rom_start))
