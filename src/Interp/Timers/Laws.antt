-- ===== src/Interp/Timers/Laws.antt =====
-- How often the timers are caught up does not show.
use chip_eight_jit.Common.{ℕ, ◌-◌, ◌≤◌, ◌<◌, ◌≡◌, ◌∙◌, sym, false, arith, ltb, lt→ltb, max}
use native.Mathlib.Decide.{dec_lt}
use chip_eight_jit.Clock.{Clock, bench_tick}
use chip_eight_jit.Machine.{Machine, IsWellFormed, x_of, u8}
use chip_eight_jit.Interp.Outcome.{stepped}
use chip_eight_jit.Interp.Timers.{count_down, sync_timers, get_delay_timer, set_delay_timer}

count_down_lem : (timer elapsed : ℕ) → timer < u8 → count_down timer elapsed ≡ timer - elapsed
count_down_lem timer elapsed h = ground arith

same_timers :
    (m : Machine) {d d' s s' l l' : ℕ}
    → d ≡ d'
    → s ≡ s'
    → l ≡ l'
    → record m { delay_timer = d; sound_timer = s; last_tick = l }
      ≡ record m { delay_timer = d'; sound_timer = s'; last_tick = l' }
same_timers m p q r = λ i. record m { delay_timer = p i; sound_timer = q i; last_tick = r i }

-- `sync_timers` without its test: it subtracts the ticks that have passed, down to 0.
pub sync_timers_lem :
    (m : Machine)
    → IsWellFormed m
    → sync_timers m ≡ record m {
      delay_timer = m.delay_timer - (bench_tick m.clock - m.last_tick);
      sound_timer = m.sound_timer - (bench_tick m.clock - m.last_tick);
      last_tick = max m.last_tick (bench_tick m.clock);
    }
unfolding sync_timers
sync_timers_lem m w = elim (dec_lt m.last_tick (bench_tick m.clock)) [
  | yes p ↦ rw (lt→ltb _ _ p) (
      same_timers m (count_down_lem m.delay_timer _ w.delay_timer_lt)
        (count_down_lem m.sound_timer _ w.sound_timer_lt) (omega arith))
  | no p ↦ rw (off p) (same_timers m (omega arith) (omega arith) (omega arith))
]
  where
    off : ¬ (m.last_tick < bench_tick m.clock) → ltb m.last_tick (bench_tick m.clock) ≡ false
    off h = ground arith

with_clock : (m : Machine) (c : Clock) → IsWellFormed m → IsWellFormed (record m { clock = c })
with_clock m c w = ground arith

settled :
    {m : Machine} (c d : Clock)
    → IsWellFormed m
    → IsWellFormed (record m {
      delay_timer = m.delay_timer - (bench_tick c - m.last_tick);
      sound_timer = m.sound_timer - (bench_tick c - m.last_tick);
      last_tick = max m.last_tick (bench_tick c);
      clock = d;
    })
settled c d w = ground arith

-- Catching the timers up at an earlier clock first changes nothing: the state after a
-- `sync_timers` depends on the clock then, and not on when the engine synchronised before.
pub sync_timers_twice :
    (m : Machine) (c d : Clock)
    → IsWellFormed m
    → bench_tick c ≤ bench_tick d
    → sync_timers (record (sync_timers (record m { clock = c })) { clock = d })
      ≡ sync_timers (record m { clock = d })
sync_timers_twice m c d w h =
    let first = sync_timers_lem (record m { clock = c }) (with_clock m c w) in
    rw first (
      sync_timers_lem _ (settled c d w)
      ∙ same_timers (record m { clock = d }) (omega arith) (omega arith) (omega arith)
      ∙ sym (sync_timers_lem (record m { clock = d }) (with_clock m d w)))

-- A delay timer that is set by Fx15 and read by Fx07 at a later clock has counted down by the ticks
-- between, and stopped at 0.
pub get_delay_timer-set_delay_timer :
    (op op' : ℕ) (m s t : Machine) (d : Clock)
    → IsWellFormed m
    → m.last_tick ≤ bench_tick m.clock
    → bench_tick m.clock ≤ bench_tick d
    → set_delay_timer op m ≡ stepped s
    → get_delay_timer op' (record s { clock = d }) ≡ stepped t
    → t.regs (x_of op') ≡ m.regs (x_of op) - (bench_tick d - bench_tick m.clock)
unfolding set_delay_timer get_delay_timer
get_delay_timer-set_delay_timer op op' m s t d w h k e f =
    let first = sync_timers_lem m w in
    let ws : IsWellFormed (record s { clock = d }) = ground (arith, w.reg_bytes (x_of op)) in
    let later = sync_timers_lem (record s { clock = d }) ws in ground (arith, w.reg_bytes (x_of op))
