-- ===== src/Intel/Phase/Next.antt =====
-- `NextTransition` finds the next change of phase.
use optix.Base.{
  ℕ, zero, suc, ◌+◌, ◌*◌, ◌≡◌, ◌≢◌, ◌<◌, ◌≤◌, refl, true, false, none, some, arith, ltb, inl, inr,
  Bool-cases, Option-cases, sym, ap, ◌∙◌,
}
use optix.Base.Time.{Instant, Day, day_seconds}
use optix.Intel.Calendar.{day_of, minute_of, is_trading_day}
use optix.Intel.Calendar.Trading.{has_trading, has_trading_lem}
use optix.Intel.Phase.TradingDay.{
  bounds, shape, phase_at-off, phase_in_day, within_day, after_day, morning, night, ChangesAt,
}
use optix.Intel.Phase.{
  Phase, closed, phase_in, phase_at, day_boundaries, first_after, scan_days, next_transition,
}

premarket-ne-closed : Phase.premarket ≢ Phase.closed
premarket-ne-closed e = cc

-- Before day `d` begins, and closed since `t`.
record IsClosedTo (t : Instant) (d : Day) : Type 0 where
  passed : t < d * day_seconds
  shut : (u : Instant) → t ≤ u → u < d * day_seconds → phase_at u ≡ closed

-- What the scan returns, if it finds a boundary.
abbrev Found : Instant → Instant × Phase → Type 0
Found t (b, p) = ChangesAt t b × (p ≡ phase_at b)

module _ (t : Instant) (d : Day) (before : IsClosedTo t d) where
  closed_now : phase_at t ≡ closed
  closed_now = before.shut t (omega arith) before.passed

  -- A day without trading leaves the market closed.
  pass_day : is_trading_day d ≡ false → IsClosedTo t (suc d)
  pass_day off = record {
    passed = let p = before.passed in omega arith;
    shut = λ u from until. elim (Bool-cases (ltb u (d * day_seconds))) [
      | inl early ↦ before.shut u from (ground arith)
      | inr late ↦ phase_at-off d u (ground arith) off
    ];
  }

  -- On the next trading day it opens at 04:00.
  open_day :
      is_trading_day d ≡ true
      → (first_after t (day_boundaries d) ≡ some (d * day_seconds + 14400))
        × ChangesAt t (d * day_seconds + 14400)
  unfolding first_after
  open_day trading =
      let (c, s) = shape d trading in
      let opens = phase_in_day d trading c s in
      let p = before.passed in
      let at_open =
        opens (d * day_seconds + 14400) (omega arith)
        ∙ ap (phase_in c) (let e : minute_of (d * day_seconds + 14400) ≡ 240 = omega arith in e)
        ∙ morning c s.hours 240 (omega arith) (omega arith) in
      (
        ap (first_after t) s.bounded ∙ ground arith,
        record {
          later = omega arith;
          differs = λ e. premarket-ne-closed (sym at_open ∙ e ∙ closed_now);
          steady = λ u from until. elim (Bool-cases (ltb u (d * day_seconds))) [
            | inl early ↦ before.shut u from (ground arith) ∙ sym closed_now
            | inr late ↦
                opens u (ground arith)
                ∙ night c s.hours (minute_of u) (ground arith)
                ∙ sym closed_now
          ];
        },
      )

scan_found :
    (n : ℕ) (d : Day) (t b : Instant)
    → first_after t (day_boundaries d) ≡ some b
    → scan_days (suc n) d t ≡ (b, phase_at b)
unfolding scan_days
scan_found n d t b e = rw (e, scan_days)

scan_skip :
    (n : ℕ) (d : Day) (t : Instant)
    → first_after t (day_boundaries d) ≡ none
    → scan_days (suc n) d t ≡ scan_days n (suc d) t
unfolding scan_days
scan_skip n d t e = rw (e, scan_days)

no_boundaries :
    (d : Day) (t : Instant) → is_trading_day d ≡ false → first_after t (day_boundaries d) ≡ none
unfolding first_after day_boundaries
no_boundaries d t off = rw off

scan_days-Found_first :
    (n : ℕ) (d : Day) (t b : Instant)
    → first_after t (day_boundaries d) ≡ some b
    → ChangesAt t b
    → Found t (scan_days (suc n) d t)
scan_days-Found_first n d t b e c = rw (scan_found n d t b e) (c, refl)

scan_days-Found :
    (n : ℕ) (d : Day) (t : Instant)
    → has_trading n d ≡ true
    → IsClosedTo t d
    → Found t (scan_days n d t)
unfolding has_trading
scan_days-Found zero d t some_day before = cc
scan_days-Found (suc n) d t some_day before = elim (Bool-cases (is_trading_day d)) [
  | inl trading ↦
      let (e, c) = open_day t d before trading in
      scan_days-Found_first n d t (d * day_seconds + 14400) e c
  | inr off ↦
      rw (scan_skip n d t (no_boundaries d t off))
        (scan_days-Found n (suc d) t (ground arith) (pass_day t d before off))
]

next_transition-Found : (t : Instant) → Found t (next_transition t)
unfolding next_transition
next_transition-Found t =
    let d = day_of t in
    elim (Bool-cases (is_trading_day d)) [
      | inl trading ↦
          let (c, s) = shape d trading in
          elim (Option-cases (first_after t (bounds d c))) [
            | inr (b, e) ↦
                scan_days-Found_first 13 d t b (ap (first_after t) s.bounded ∙ e)
                  (within_day d trading c s t b (omega arith) e)
            | inl e ↦ rw (scan_skip 13 d t (ap (first_after t) s.bounded ∙ e)) (
                scan_days-Found 13 (suc d) t (has_trading_lem (suc d)) (record {
                  passed = omega arith;
                  shut = after_day d trading c s t (omega arith) e;
                }))
          ]
      | inr off ↦ rw (scan_skip 13 d t (no_boundaries d t off)) (
          scan_days-Found 13 (suc d) t (has_trading_lem (suc d)) (record {
            passed = omega arith;
            shut = λ u from until. phase_at-off d u (omega arith) off;
          }))
    ]

-- `NextTransition` always finds a time after the given one, within its fourteen days; the phase that
-- it returns is the phase at that time and differs from the present one.
pub next_transition-changes :
    (t : Instant) → let (b, p) = next_transition t in (t < b) × (p ≡ phase_at b) × (p ≢ phase_at t)
next_transition-changes t =
    let (c, e) = next_transition-Found t in (c.later, e, λ q. c.differs (sym e ∙ q))

-- Up to that time the phase stays what it is: no change of phase is skipped.
pub next_transition-steady :
    (t u : Instant) → t ≤ u → u < (next_transition t).0 → phase_at u ≡ phase_at t
next_transition-steady t u from until = (next_transition-Found t).0.steady u from until
