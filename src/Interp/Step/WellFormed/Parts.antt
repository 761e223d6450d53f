-- ===== src/Interp/Step/WellFormed/Parts.antt =====
-- The invariant of a step, and the pieces that handlers are made of.
use chip_eight_jit.Common.{ℕ, ◌<◌, ◌≡◌, refl, Bool, true, false, Below-update, arith, if◌then◌else◌}
use chip_eight_jit.Machine.{Machine, IsWellFormed, u8, set_reg, skip}
use chip_eight_jit.Interp.Outcome.{Outcome, stepped, failed, undefined, hangs}
use chip_eight_jit.Interp.Timers.{sync_timers, interrupt}

-- `s` is well formed, and has the counters and limits of `m`.
pub record Keeps (m s : Machine) : Type 0 where
  pub well_formed : IsWellFormed s
  pub retired_eq : s.clock.retired ≡ m.clock.retired
  pub budget_eq : s.clock.budget ≡ m.clock.budget
  pub clock_cap_eq : s.clock.clock_cap ≡ m.clock.clock_cap
  pub key_mode_eq : s.clock.key_mode ≡ m.clock.key_mode

-- The state that a handler ends in, if it returns, satisfies `P`.
abbrev pub Ends : (Machine → Type 0) → Outcome → Type 0
Ends P (stepped s) = P s
Ends P (failed s code) = P s
Ends P undefined = Unit {0}
Ends P hangs = Unit {0}

pub if-Ends :
    (P : Machine → Type 0) (t : Bool) (a b : Outcome)
    → Ends P a
    → Ends P b
    → Ends P (if t then a else b)
if-Ends P true a b p q = p
if-Ends P false a b p q = q

pub Keeps-refl : (m : Machine) → IsWellFormed m → Keeps m m
Keeps-refl m w = record {
  well_formed = w;
  retired_eq = refl;
  budget_eq = refl;
  clock_cap_eq = refl;
  key_mode_eq = refl;
}

pub Keeps-trans : {m s t : Machine} → Keeps m s → Keeps s t → Keeps m t
Keeps-trans k l = record {
  well_formed = l.well_formed;
  retired_eq = cc;
  budget_eq = cc;
  clock_cap_eq = cc;
  key_mode_eq = cc;
}

pub skip-IsWellFormed : {m : Machine} → IsWellFormed m → IsWellFormed (skip m)
skip-IsWellFormed w = ground arith

pub set_reg-IsWellFormed :
    {m : Machine} (x v : ℕ) → v < u8 → IsWellFormed m → IsWellFormed (set_reg x v m)
set_reg-IsWellFormed {m} x v h w = ground (arith, Below-update u8 m.regs x v)

pub sync_timers-Keeps : (m : Machine) → IsWellFormed m → Keeps m (sync_timers m)
unfolding sync_timers
sync_timers-Keeps m w = ground arith

pub interrupt-Keeps : (m : Machine) → IsWellFormed m → Keeps m (interrupt m)
unfolding interrupt
interrupt-Keeps m w = sync_timers-Keeps m w

pub Ends-Keeps : {m s : Machine} (o : Outcome) → Keeps m s → Ends (Keeps s) o → Ends (Keeps m) o
Ends-Keeps (stepped t) k e = Keeps-trans k e
Ends-Keeps (failed t code) k e = Keeps-trans k e
Ends-Keeps undefined k e = tt
Ends-Keeps hangs k e = tt
