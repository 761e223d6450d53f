-- ===== src/Aot/Waits.antt =====
-- The wait of `chip8_aot_draw` for the next tick.
use chip_eight_jit.Common.{ℕ, zero, suc, ◌≡◌, ◌≢◌, refl, some, arith, Bool-cases, inl, inr, ◌==◌}
use chip_eight_jit.Aot.Host.{Host, later, service_timers, poll_keys_if_due}
use chip_eight_jit.Aot.Services.{served, shown, await_tick, aot_draw}

await_tick_ends :
    (k : ℕ) (h : Host)
    → h.ticks k ≢ h.machine.last_tick
    → (t : ℕ) × (s : Host) × (await_tick (suc k) h ≡ some (t, s)) × (t ≢ h.machine.last_tick)
unfolding await_tick
await_tick_ends zero h moved = (h.ticks 0, record h { ticks = later h.ticks }, ground arith, moved)
await_tick_ends (suc k) h moved = elim (Bool-cases (h.ticks 0 == h.machine.last_tick)) [
  | inl still ↦
      let (t, s, runs, differs) = await_tick_ends k (record h { ticks = later h.ticks }) moved in
      (t, s, rw (still, await_tick) runs, differs)
  | inr now ↦
      (h.ticks 0, record h { ticks = later h.ticks }, rw (now, await_tick) refl, ground arith)
]

-- `chip8_aot_draw` returns once a reading of the clock differs from the tick at which the timers were
-- served: with fuel for the readings up to that one it returns, and `last_tick` is then another
-- tick.
pub aot_draw_returns :
    (k x y n : ℕ) (h : Host)
    → (service_timers (poll_keys_if_due h)).ticks k
      ≢ (service_timers (poll_keys_if_due h)).machine.last_tick
    → (t : Host) × (aot_draw (suc k) x y n h ≡ served t)
      × (t.machine.last_tick ≢ (service_timers (poll_keys_if_due h)).machine.last_tick)
unfolding aot_draw
aot_draw_returns k x y n h moved =
    let (t, s, runs, differs) = await_tick_ends k (shown x y n h) moved in
    (record s { machine = record s.machine { last_tick = t } }, rw (runs, aot_draw) refl, differs)
