-- ===== src/Jit/Native/Shape.antt =====
-- The shape of what `codegen` of src/libgccjit_jit.c makes: one instruction after the other, from any block on.
use chip_eight_jit.Common.{ℕ, ◌+◌, ◌%◌, ◌≡◌, true, List, [], ◌∷◌, ◌++◌, Array, arith}
use chip_eight_jit.Machine.{u16, opcode_at}
use chip_eight_jit.Jit.Marks.{Marks}
use chip_eight_jit.Jit.Trace.{
  Piece, at_block, safepoint, set_pc, Ending, closed, Next, goes_on, ends, bails, emit, emit_jump,
  emit_skip, emit_arithmetic, emit_keyboard, emit_misc, front,
}
use chip_eight_jit.Jit.Native.Agrees.{HasBlock}

-- What `codegen` reads of the memory for an instruction.
abbrev pub emitted_at : Array → ℕ → ℕ → Marks → Next
emitted_at memory pc op_count seen =
    emit (opcode_at memory pc) pc op_count seen (opcode_at memory ((pc + 2) % u16))

module _ (memory : Array) (trace : List Piece) where
  abbrev pub AllBlocks : Marks → Type 0
  AllBlocks seen = (b : ℕ) → seen b ≡ true → HasBlock memory trace b

  -- The pieces from the block of an address on, and the end.
  pub data Follows : ℕ → List Piece → Ending → Type 0 where
    falls :
        {pc : ℕ} → HasBlock memory trace pc → Follows pc (safepoint ∷ set_pc pc ∷ []) (closed pc)
    goes :
        {pc next : ℕ} {body rest : List Piece} {e : Ending} (op_count : ℕ) (seen : Marks)
        → AllBlocks seen
        → emitted_at memory pc op_count seen ≡ goes_on body next
        → Follows next rest e
        → Follows pc (front pc op_count ++ (body ++ rest)) e
    halts :
        {pc : ℕ} {body : List Piece} {e : Ending} (op_count : ℕ) (seen : Marks)
        → AllBlocks seen
        → emitted_at memory pc op_count seen ≡ ends body e
        → Follows pc (front pc op_count ++ body) e

-- No piece opens a block.
abbrev pub NoBlock : List Piece → Type 0
NoBlock [] = Unit
NoBlock (at_block pc ∷ ps) = ⊥
NoBlock (p ∷ ps) = NoBlock ps

abbrev pub NoBlockIn : Next → Type 0
NoBlockIn (goes_on ps next) = NoBlock ps
NoBlockIn (ends ps e) = NoBlock ps
NoBlockIn bails = Unit

pub emit-NoBlock :
    (op pc op_count fused_op : ℕ) (seen : Marks) → NoBlockIn (emit op pc op_count seen fused_op)
unfolding emit emit_jump emit_skip emit_arithmetic emit_keyboard emit_misc
emit-NoBlock op pc op_count fused_op seen = ground arith
