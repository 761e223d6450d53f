-- ===== src/Jit/Trace.antt =====
-- `codegen` of src/libgccjit_jit.c: which pieces a trace is made of, in order. The calls that build a piece in
-- libgccjit depend on the numbers that the piece carries and on nothing else.
pub mod Ends
pub mod Grows
pub mod Reads
pub mod Anywhere
use chip_eight_jit.Common.{
  ℕ, zero, suc, ◌+◌, ◌*◌, ◌/◌, ◌%◌, ◌^◌, Bool, true, false, not, ◌&&◌, ◌||◌, List, [], ◌∷◌, ◌++◌,
  Array, update, ltb, leb, ◌==◌, if◌then◌else◌,
}
use chip_eight_jit.Machine.{
  u16, memory_size, opcode_at, immediate_four, immediate_eight, immediate_twelve,
}
use chip_eight_jit.Jit.Marks.{Marks, mark_code}

-- `HOST_FNS`
pub data HostFn : Type 0 where
  clearscreen_fn : HostFn
  retern_fn : HostFn
  call_fn : HostFn
  random_byte_fn : HostFn
  draw_fn : HostFn
  skip_key_x_down_fn : HostFn
  skip_key_x_up_fn : HostFn
  load_on_key_fn : HostFn
  sync_timers_fn : HostFn
  store_bcd_fn : HostFn
  save_registers_fn : HostFn
  restore_registers_fn : HostFn

-- `inline` is the straight-line code of an opcode. `skip_out` is the conditional of a skip, which
-- sets the program counter and returns where the skip is not taken; `skip_fused` one with the jump behind it
-- folded in, which is closed onto its target or returns.
pub data Piece : Type 0 where
  at_block : ℕ → Piece
  safepoint : Piece
  retire : ℕ → Piece
  set_pc : ℕ → Piece
  call_host : HostFn → Piece
  inline : ℕ → Piece
  skip_out : ℕ → ℕ → Piece
  skip_fused : ℕ → ℕ → Bool → Piece

-- `end_of_trace`, or a back edge onto the block of an address.
pub data Ending : Type 0 where
  returned : Ending
  closed : ℕ → Ending

-- How the body of the loop ends for an instruction: with the next address, with the trace's end, or
-- in BAIL_ERRER.
pub data Next : Type 0 where
  goes_on : List Piece → ℕ → Next
  ends : List Piece → Ending → Next
  bails : Next

-- `STEP_AND_CONTINUE`
abbrev pub step_and_continue : ℕ → List Piece → Next
step_and_continue pc ps = goes_on ps ((pc + 2) % u16)

-- `CALL_HOST_OP`
abbrev pub call_host_op : ℕ → HostFn → List Piece
call_host_op pc fn = set_pc pc ∷ call_host fn ∷ []

abbrev pub max_trace : ℕ
max_trace = 2 ^ 8

-- `case 0x0` and `case 0x1`
unfoldable pub emit_jump : ℕ → ℕ → Marks → Next
emit_jump op op_count seen =
    let immediate = immediate_twelve op in
    let ps = safepoint ∷ set_pc immediate ∷ [] in
    if seen immediate
    then ends ps (closed immediate)
    else if ltb op_count max_trace
    then goes_on ps immediate
    else ends ps returned

-- The skips. `fused_op` is the opcode that is skipped.
unfoldable pub emit_skip : ℕ → ℕ → Marks → ℕ → Next
emit_skip op pc seen fused_op =
    let fused_target = immediate_twelve fused_op in
    let edge =
      if fused_op / 2 ^ 12 == 0x1
      then skip_fused op fused_target (seen fused_target)
      else skip_out op ((pc + 2) % u16) in
    goes_on (edge ∷ set_pc ((pc + 4) % u16) ∷ []) ((pc + 4) % u16)

-- `case 0x8`
unfoldable pub emit_arithmetic : ℕ → ℕ → Next
emit_arithmetic op pc =
    if leb (immediate_four op) 7 || immediate_four op == 0xe
    then step_and_continue pc (inline op ∷ [])
    else bails

-- `case 0xe`
unfoldable pub emit_keyboard : ℕ → ℕ → Next
emit_keyboard op pc =
    if immediate_eight op == 0x9e
    then ends (call_host_op pc skip_key_x_down_fn) returned
    else if immediate_eight op == 0xa1
    then ends (call_host_op pc skip_key_x_up_fn) returned
    else bails

-- `case 0xf`
unfoldable pub emit_misc : ℕ → ℕ → Next
emit_misc op pc =
    let kk = immediate_eight op in
    if kk == 0x07 || kk == 0x15 || kk == 0x18
    then step_and_continue pc (call_host sync_timers_fn ∷ inline op ∷ [])
    else if kk == 0x0a
    then ends (call_host_op pc load_on_key_fn) returned
    else if kk == 0x1e || kk == 0x29
    then step_and_continue pc (inline op ∷ [])
    else if kk == 0x33
    then ends (call_host_op pc store_bcd_fn) returned
    else if kk == 0x55
    then ends (call_host_op pc save_registers_fn) returned
    else if kk == 0x65
    then step_and_continue pc (call_host_op pc restore_registers_fn)
    else bails

-- `case 0x3`, `case 0x4`, `case 0x5` and `case 0x9`
abbrev pub is_skip : ℕ → Bool
is_skip op =
    let nibble = op / 2 ^ 12 in nibble == 0x3 || nibble == 0x4 || nibble == 0x5 || nibble == 0x9

-- The body of the loop behind the safepoint.
unfoldable pub emit : ℕ → ℕ → ℕ → Marks → ℕ → Next
emit op pc op_count seen fused_op =
    let nibble = op / 2 ^ 12 in
    if op == 0x00e0
    then step_and_continue pc (call_host clearscreen_fn ∷ [])
    else if op == 0x00ee
    then ends (call_host retern_fn ∷ []) returned
    else if nibble == 0x0 || nibble == 0x1
    then emit_jump op op_count seen
    else if nibble == 0x2
    then ends (call_host_op pc call_fn) returned
    else if is_skip op
    then emit_skip op pc seen fused_op
    else if nibble == 0x6 || nibble == 0x7 || nibble == 0xa
    then step_and_continue pc (inline op ∷ [])
    else if nibble == 0x8
    then emit_arithmetic op pc
    else if nibble == 0xb
    then ends (inline op ∷ []) returned
    else if nibble == 0xc
    then step_and_continue pc (call_host_op pc random_byte_fn)
    else if nibble == 0xd
    then step_and_continue pc (call_host_op pc draw_fn)
    else if nibble == 0xe
    then emit_keyboard op pc
    else emit_misc op pc

abbrev pub op_interval : ℕ
op_interval = 32

-- What is emitted in front of it.
abbrev pub front : ℕ → ℕ → List Piece
front pc op_count =
    if not (op_count == 0) && op_count % op_interval == 0
    then at_block pc ∷ safepoint ∷ retire 1 ∷ []
    else at_block pc ∷ retire 1 ∷ []

-- `outside` is a use of `pc_block` past its end, `endless` that the fuel runs out.
pub data Compiled : Type 0 where
  compiled : Marks → List Piece → Ending → Compiled
  bailed : Marks → Compiled
  outside : Compiled
  endless : Compiled

abbrev pub prepend : List Piece → Compiled → Compiled
prepend ps (compiled code qs e) = compiled code (ps ++ qs) e
prepend ps (bailed code) = bailed code
prepend ps outside = outside
prepend ps endless = endless

-- `mark_code` for the opcode, and for the one that a skip reads ahead.
abbrev pub mark_read : ℕ → ℕ → Marks → Marks
mark_read op pc code =
    let here = mark_code pc 2 code in if is_skip op then mark_code ((pc + 2) % u16) 2 here else here

-- What a round of the loop leads to, given what the next one does.
abbrev pub carry_on : List Piece → Marks → (ℕ → Compiled) → Next → Compiled
carry_on ps code rest (goes_on qs next) = prepend (ps ++ qs) (rest next)
carry_on ps code rest (ends qs e) = compiled code (ps ++ qs) e
carry_on ps code rest bails = bailed code

-- The loop. `seen` tells which entries of `pc_block` are set.
unfoldable pub codegen_from : Array → ℕ → ℕ → ℕ → Marks → Marks → Compiled
codegen_from memory zero pc op_count seen code = endless
codegen_from memory (suc fuel) pc op_count seen code =
    let op = opcode_at memory pc in
    if leb memory_size pc
    then outside
    else if seen pc
    then compiled (mark_code pc 2 code) (safepoint ∷ set_pc pc ∷ []) (closed pc)
    else carry_on (front pc op_count) (mark_read op pc code)
        (λ next.
          codegen_from memory fuel next (op_count + 1) (update seen pc true) (mark_read op pc code))
        (emit op pc op_count (update seen pc true) (opcode_at memory ((pc + 2) % u16)))

-- One round more than `pc_block` has entries.
unfoldable pub codegen : Array → ℕ → Marks → Compiled
codegen memory pc code = codegen_from memory (memory_size + 1) pc 0 (λ a. false) code
