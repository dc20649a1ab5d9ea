-- ===== src/Agent/Clock.antt =====
-- src/agent.rs: `next_periodic_wake` and `next_control_due_at`.
use cede_grid.Common.{
  ℕ, ◌+◌, ◌-◌, ◌*◌, ◌/◌, ◌≤◌, ◌<◌, min, max, ◌≡◌, refl, arith, ltb, Bool-cases, inl, inr,
}
use native.Mathlib.Nat.{div-add-mod, mod-lt, mul_assoc}
use cede_grid.Agent.{next_periodic_wake, next_control_due_at, as_millis, nanos_per_milli, u32_max}

-- The whole intervals in a time.
whole_intervals :
    (t interval : ℕ)
    → 0 < interval
    → (interval * (t / interval) ≤ t) × (t < interval * (t / interval) + interval)
whole_intervals t interval p =
    (omega (arith, div-add-mod t interval), omega (arith, div-add-mod t interval, mod-lt t p))

-- The next wake of a periodic timer is a whole number of intervals after the due time, not before
-- now, and at most one interval after whichever of them is later, unless more than 2^32 - 2 intervals
-- were missed.
pub next_periodic_wake-bounds :
    (due interval now : ℕ)
    → 0 < interval
    → (now - due) / interval < u32_max
    → (k : ℕ) × (next_periodic_wake due interval now ≡ due + interval * k)
      × (now ≤ next_periodic_wake due interval now)
      × (next_periodic_wake due interval now ≤ max due now + interval)
unfolding next_periodic_wake
next_periodic_wake-bounds due interval now p q = elim (Bool-cases (ltb now due)) [
  | inl y ↦ rw y (0, omega arith, ground (arith, y), omega arith)
  | inr n ↦
      let w = whole_intervals (now - due) interval p in
      let m : max interval 1 ≡ interval = omega (arith, p) in
      let c : min ((now - due) / interval + 1) u32_max ≡ (now - due) / interval + 1 =
        omega (arith, q) in
      let late : due ≤ now = ground (arith, n) in
      rw (n, m, c)
        (
          (now - due) / interval + 1,
          refl,
          omega (arith, w.0, w.1, late, distributes),
          omega (arith, w.0, w.1, late, distributes),
        )
]
  where
    distributes :
        interval * ((now - due) / interval + 1) ≡ interval * ((now - due) / interval) + interval
    distributes = omega arith

-- With an interval of whole milliseconds, the control timer is due one interval after its last slot,
-- and the slot that it then keeps is a whole number of intervals after the due time, not after now
-- unless it is the due time itself, and less than one interval before now, unless 2^32 - 1 intervals
-- or more were missed.
pub next_control_due_at-cadence :
    (last m now : ℕ)
    → 0 < m
    → as_millis (now - (last + nanos_per_milli * m)) / m < u32_max
    → (k : ℕ) × ((next_control_due_at last (nanos_per_milli * m) now).0
        ≡ last + nanos_per_milli * m)
      × ((next_control_due_at last (nanos_per_milli * m) now).1
          ≡ last + nanos_per_milli * m + nanos_per_milli * m * k)
      × ((next_control_due_at last (nanos_per_milli * m) now).1
          ≤ max (last + nanos_per_milli * m) now)
      × (now < (next_control_due_at last (nanos_per_milli * m) now).1 + nanos_per_milli * m)
unfolding next_control_due_at
next_control_due_at-cadence last m now p q =
    let late = now - (last + nanos_per_milli * m) in
    let missed = as_millis late / m in
    let w = whole_intervals late nanos_per_milli (omega arith) in
    let v = whole_intervals (as_millis late) m p in
    let i : max (as_millis (nanos_per_milli * m)) 1 ≡ m = omega (arith, p) in
    let c : min missed u32_max ≡ missed = omega (arith, q) in
    let slots : nanos_per_milli * m * missed ≡ nanos_per_milli * (m * missed) =
      mul_assoc nanos_per_milli m missed in
    rw (i, c) (missed, refl, refl, omega (arith, w.0, v.0, slots), omega (arith, w.1, v.1, slots))
