-- ===== src/Aot/Blocks.antt =====
-- src/aot.c: the LLVM IR that `block` emits for one opcode, what that IR does, and the dispatcher
-- that `main` puts around the blocks.
use chip_eight_jit.Common.{
  ℕ, ◌+◌, ◌-◌, ◌*◌, ◌/◌, ◌%◌, ◌^◌, Bool, true, false, not, ◌&&◌, Option, none, some, List, [], ◌∷◌,
  ltb, leb, ◌==◌, if◌then◌else◌, bit_or, get_or, length,
}
use chip_eight_jit.Machine.{
  Machine, u8, u16, entrypoint, x_of, y_of, immediate_four, immediate_eight, immediate_twelve,
  set_reg,
}
use chip_eight_jit.Aot.Host.{Host, aot_retire}
use chip_eight_jit.Aot.Services.{
  Service, served, shift_undefined, waits, aot_clear, aot_return, aot_call, aot_alu, aot_random,
  aot_draw, aot_key, aot_f,
}

-- One text that `block` prints after its head, each with the SSA names that it uses: the pointer to
-- a register and its value are printed once in a block, and named there.
pub data Ir : Type 0 where
  -- `next`: `store i16 pc + 2, ptr @program_counter`, and the branch to the dispatcher
  next : ℕ → Ir
  -- the branch to the dispatcher alone
  to_dispatcher : Ir
  -- `store i16 n, ptr @program_counter`, and that branch
  goto : ℕ → Ir
  -- `icmp eq` (or `ne`) of a register and a byte, `select` of the two addresses, `store`, that branch
  skip_immediate : Bool → ℕ → ℕ → ℕ → ℕ → Ir
  -- likewise of two registers
  skip_register : Bool → ℕ → ℕ → ℕ → ℕ → Ir
  -- `store i8 kk` to a register
  store_reg : ℕ → ℕ → Ir
  -- `add i8` of a register and `kk`, and `store`
  add_reg : ℕ → ℕ → Ir
  -- `store i16 n, ptr @addr`
  store_addr : ℕ → Ir
  -- `zext` of register 0, `add i16`, `store` to the program counter, and the branch
  goto_sum : ℕ → Ir
  call_clear call_return : Ir
  call_call : ℕ → ℕ → Ir
  call_alu : ℕ → ℕ → ℕ → Ir
  call_random : ℕ → ℕ → Ir
  call_draw : ℕ → ℕ → ℕ → Ir
  call_key : ℕ → Bool → Ir
  call_f : ℕ → ℕ → Ir
  -- the call that prints an error, and the branch to `exit`
  call_bad : ℕ → ℕ → Ir

-- `block`, without the head that every block has.
unfoldable pub block : ℕ → ℕ → List Ir
block pc op =
    let x = x_of op in
    let y = y_of op in
    let n = immediate_four op in
    let kk = immediate_eight op in
    let nnn = immediate_twelve op in
    let nibble = op / 2 ^ 12 in
    if op == 0x00e0
    then call_clear ∷ next pc ∷ []
    else if op == 0x00ee
    then call_return ∷ to_dispatcher ∷ []
    else if leb nibble 1
    then goto nnn ∷ []
    else if nibble == 2
    then call_call nnn (pc + 2) ∷ to_dispatcher ∷ []
    else if leb nibble 4
    then skip_immediate (nibble == 3) x kk (pc + 4) (pc + 2) ∷ []
    else if nibble == 5
    then skip_register true x y (pc + 4) (pc + 2) ∷ []
    else if nibble == 6
    then store_reg x kk ∷ next pc ∷ []
    else if nibble == 7
    then add_reg x kk ∷ next pc ∷ []
    else if nibble == 8
    then call_alu x y n ∷ next pc ∷ []
    else if nibble == 9
    then skip_register false x y (pc + 4) (pc + 2) ∷ []
    else if nibble == 0xa
    then store_addr nnn ∷ next pc ∷ []
    else if nibble == 0xb
    then goto_sum nnn ∷ []
    else if nibble == 0xc
    then call_random x kk ∷ next pc ∷ []
    else if nibble == 0xd
    then call_draw x y n ∷ next pc ∷ []
    else if nibble == 0xe
    then call_key x (kk == 0xa1) ∷ to_dispatcher ∷ []
    else if nibble == 0xf
    then call_f x kk ∷ next pc ∷ []
    else call_bad op pc ∷ []

-- How far a block has come: it goes on to its next text, it has branched to the dispatcher or to
-- `exit`, or a service has not returned.
pub data Flow : Type 0 where
  goes_on : Host → Flow
  dispatched : Host → Flow
  exited : Host → Flow
  lost : Service → Flow

-- The host with a changed machine.
abbrev pub with_machine : Host → Machine → Host
with_machine h m = record h { machine = m }

abbrev pub set_pc : ℕ → Host → Host
set_pc n h = with_machine h (record h.machine { program_counter = n % u16 })

abbrev pub after_service : Service → Flow
after_service (served h) = goes_on h
after_service shift_undefined = lost shift_undefined
after_service waits = lost waits

-- What a text does, by the meaning of the LLVM instructions in it.
unfoldable pub exec : ℕ → Ir → Host → Flow
exec fuel (next pc) h = dispatched (set_pc (pc + 2) h)
exec fuel to_dispatcher h = dispatched h
exec fuel (goto n) h = dispatched (set_pc n h)
exec fuel (skip_immediate eq x kk there on) h =
    let same = h.machine.regs x == kk in
    dispatched (set_pc (if (if eq then same else not same) then there else on) h)
exec fuel (skip_register eq x y there on) h =
    let same = h.machine.regs x == h.machine.regs y in
    dispatched (set_pc (if (if eq then same else not same) then there else on) h)
exec fuel (store_reg x kk) h = goes_on (with_machine h (set_reg x kk h.machine))
exec fuel (add_reg x kk) h =
    goes_on (with_machine h (set_reg x ((h.machine.regs x + kk) % u8) h.machine))
exec fuel (store_addr n) h = goes_on (with_machine h (record h.machine { addr = n }))
exec fuel (goto_sum n) h = dispatched (set_pc (n + h.machine.regs 0) h)
exec fuel call_clear h = goes_on (with_machine h (aot_clear h.machine))
exec fuel call_return h = goes_on (with_machine h (aot_return h.machine))
exec fuel (call_call dst ret) h = goes_on (with_machine h (aot_call dst ret h.machine))
exec fuel (call_alu x y n) h = goes_on (with_machine h (aot_alu x y n h.machine))
exec fuel (call_random x kk) h = goes_on (with_machine h (aot_random x kk h.machine))
exec fuel (call_draw x y n) h = after_service (aot_draw fuel x y n h)
exec fuel (call_key x up) h = after_service (aot_key x up h)
exec fuel (call_f x kk) h = after_service (aot_f fuel x kk h)
exec fuel (call_bad op pc) h = exited h

unfoldable pub exec_all : ℕ → List Ir → Host → Flow
exec_all fuel [] h = goes_on h
exec_all fuel (ir ∷ irs) h = elim (exec fuel ir h) [
  | goes_on s ↦ exec_all fuel irs s
  | dispatched s ↦ dispatched s
  | exited s ↦ exited s
  | lost why ↦ lost why
]

-- The word of the ROM at `pc`, if the dispatcher has a label for `pc`.
unfoldable pub label : List ℕ → ℕ → Option ℕ
label rom pc =
    if leb entrypoint pc && ltb pc (entrypoint + length rom) && pc % 2 == 0
    then some (bit_or (get_or rom (pc - entrypoint) 0 * 2 ^ 8) (get_or rom (pc - entrypoint + 1) 0))
    else none

-- One turn of the dispatcher: the head of the block (the call of `chip8_aot_retire`, and the branch
-- to `exit` if it says so), and the block.
unfoldable pub turn : ℕ → List ℕ → Host → Flow
turn fuel rom h = elim (label rom h.machine.program_counter) [
  | none ↦ exited h
  | some op ↦
      let (stop, s) = aot_retire h in
      if stop then exited s else exec_all fuel (block h.machine.program_counter op) s
]
