-- ===== src/Jit/Dispatch/Coherent.antt =====
-- No trace outlives the bytes that it was compiled from: the cache of src/libgccjit_jit.c.
use chip_eight_jit.Common.{
  ℕ, ◌≡◌, refl, subst, sym, ap, Bool, true, false, ◌||◌, some, Array, arith, ◌==◌, if◌then◌else◌,
  Bool-cases, inl, inr,
}
use chip_eight_jit.Machine.{Machine}
use chip_eight_jit.Interp.Timers.{interrupt, sync_timers}
use chip_eight_jit.Interp.Input.{all_keys_down}
use chip_eight_jit.Jit.Marks.{Marks, Within}
use chip_eight_jit.Jit.Trace.{Compiled, compiled, bailed, outside, endless, codegen}
use chip_eight_jit.Jit.Trace.Grows.{codegen-Within}
use chip_eight_jit.Jit.Trace.Reads.{Agree, codegen-same}
use chip_eight_jit.Jit.Dispatch.Stores.{Agree-jit_store_bcd, Agree-jit_save_registers}
use chip_eight_jit.Jit.Dispatch.{
  Code, Jit, jit_store_bcd, jit_save_registers, check_interrupt, flush, Turn, turns, over, exits,
  undefined, bad_shift, unending, keep, compile_round, after_trace,
}

-- The code is what `codegen` makes for the address from the memory, and the marks cover what that depends on.
abbrev pub MadeFrom : Array → Marks → ℕ → Code → Type 0
MadeFrom memory code pc c =
    (before : Marks) × (after : Marks) × (codegen memory pc before
      ≡ compiled after c.pieces c.ending)
    × Within after code

-- Each trace in the cache is what `codegen` would make of the memory as it is.
abbrev pub UpToDate : Jit → Type 0
UpToDate j = (pc : ℕ) (c : Code) → j.cache pc ≡ some c → MadeFrom j.machine.memory j.code_bytes pc c

-- That is so, unless the flag is raised that lets the cache be flushed.
abbrev pub IsCoherent : Jit → Type 0
IsCoherent j = j.smc_pending ≡ false → UpToDate j

MadeFrom-Agree :
    (memory other : Array) (code : Marks) (pc : ℕ) (c : Code)
    → Agree code memory other
    → MadeFrom memory code pc c
    → MadeFrom other code pc c
MadeFrom-Agree memory other code pc c agree (before, after, made, within) = (
  before,
  after,
  codegen-same memory other pc before after c.pieces c.ending (λ a on. agree a (within a on)) made,
  within,
)

-- A change of the machine that keeps what the marks cover, keeps the cache up to date.
pub UpToDate-Agree :
    (j k : Jit)
    → k.cache ≡ j.cache
    → k.code_bytes ≡ j.code_bytes
    → Agree j.code_bytes j.machine.memory k.machine.memory
    → UpToDate j
    → UpToDate k
UpToDate-Agree j k e f agree up pc c h = rw (f) (
    MadeFrom-Agree j.machine.memory k.machine.memory j.code_bytes pc c agree
      (up pc c (rw (e) at h)))

either_off : (a b : Bool) → (a || b) ≡ false → a ≡ false
either_off false b h = refl
either_off true b h = h

pub perform_bcd : (j : Jit) → IsCoherent j → IsCoherent (jit_store_bcd j)
unfolding jit_store_bcd
perform_bcd j h off =
    UpToDate-Agree j (jit_store_bcd j) refl refl (Agree-jit_store_bcd j off)
      (h (either_off j.smc_pending _ off))

pub perform_save : (j : Jit) → IsCoherent j → IsCoherent (jit_save_registers j)
unfolding jit_save_registers
perform_save j h off =
    UpToDate-Agree j (jit_save_registers j) refl refl (Agree-jit_save_registers j off)
      (h (either_off j.smc_pending _ off))

pub interrupt_memory : (m : Machine) → (interrupt m).memory ≡ m.memory
unfolding interrupt sync_timers
interrupt_memory m = ground arith

pub perform_check : (j : Jit) → IsCoherent j → IsCoherent (check_interrupt j)
unfolding check_interrupt
perform_check j h off =
    UpToDate-Agree j (check_interrupt j) refl refl
      (λ a on. ap (λ (m : Array). m a) (sym (interrupt_memory j.machine))) (h off)

-- At the head of the loop, the flag is down, and the cache is up to date.
abbrev pub IsClean : Jit → Type 0
IsClean j = (j.smc_pending ≡ false) × UpToDate j

flush-IsClean : (j : Jit) → IsCoherent j → IsClean (flush j)
unfolding flush
flush-IsClean j h = elim (Bool-cases j.smc_pending) [
  | inl on ↦ rw (on) (refl, λ pc c eq. cc)
  | inr off ↦ rw (off) (refl, h off)
]

-- Where the loop goes on, it does so in a state with the property.
abbrev pub Leads : (Jit → Type 0) → Turn → Type 0
Leads P (turns j) = P j
Leads P (over j) = Unit
Leads P (exits j) = Unit
Leads P undefined = Unit
Leads P bad_shift = Unit
Leads P unending = Unit

pub either_way : (b : Bool) (j k : Jit) → IsClean k → Leads IsClean (if b then over j else turns k)
either_way true j k h = tt
either_way false j k h = h

pub after_trace-IsClean : (j : Jit) → IsCoherent j → Leads IsClean (after_trace j)
unfolding after_trace all_keys_down
after_trace-IsClean j h =
    let clean = flush-IsClean (check_interrupt j) (perform_check j h) in either_way _ _ _ clean

some_inj : {c d : Code} → some c ≡ some d → c ≡ d
some_inj h = cc

keep-IsClean :
    (j : Jit) (c : Compiled)
    → IsClean j
    → codegen j.machine.memory j.machine.program_counter j.code_bytes ≡ c
    → Leads IsClean (keep j c)
keep-IsClean j (compiled code ps e) (down, up) made = (
  down,
  λ pc c h. elim (Bool-cases (j.machine.program_counter == pc)) [
    | inl here ↦
        let same : j.machine.program_counter ≡ pc = ground arith in
        let code_of : some (record { pieces = ps; ending = e }) ≡ some c =
          ground (arith, h, here) in
        subst (λ p. MadeFrom j.machine.memory code p c) same
          (subst (MadeFrom j.machine.memory code j.machine.program_counter) (some_inj code_of)
            (j.code_bytes, code, made, λ a on. on))
    | inr other ↦
        let (before, after, was, within) = up pc c (ground (arith, h, other)) in
        (
          before,
          after,
          was,
          λ a on.
              codegen-Within j.machine.memory j.machine.program_counter j.code_bytes code ps e made
                a (within a on),
        )
  ],
)
keep-IsClean j (bailed code) clean made = tt
keep-IsClean j outside clean made = tt
keep-IsClean j endless clean made = tt

pub compiles : (j : Jit) → IsClean j → Leads IsClean (compile_round j)
unfolding compile_round
compiles j clean =
    keep-IsClean j (codegen j.machine.memory j.machine.program_counter j.code_bytes) clean refl
