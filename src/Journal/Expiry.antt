-- ===== src/Journal/Expiry.antt =====
-- When `emitOpen` reports an open lot as expired, and with what P&L.
use optix.Base.{
  [], ◌∷◌, suc, ◌+◌, ◌*◌, ◌≡◌, ◌<◌, refl, sym, ◌∙◌, ap, true, false, some, some_inj, arith,
  Bool-cases, Option-cases, inl, inr, ◌⊎◌, ltb, ltb→lt,
}
use optix.Base.Int.{ℤ, neg, pos, negsuc, sub_ℕ, ◌-ℤ◌, ◌*ℤ◌}
use optix.Base.Text.{Text, codes, text_eq, text_eq→eq, text_eq_self}
use optix.Base.Time.{Day, Instant, day_seconds, zero_time, parse_compact}
use optix.Journal.Types.{Lot, InstrumentKey, RoundTrip, Direction, long, short, opened, expired}
use optix.Journal.Match.{emit_open, can_expire, expiry_eod, expiry_pnl, close_pnl}

-- An option, or a combination of options.
abbrev pub IsOption : InstrumentKey → Type 0
IsOption k = (k.sec_type ≡ codes "OPT") ⊎ (k.sec_type ≡ codes "BAG")

-- The option's expiration names a day whose last second is `eod`, and `eod` lies before `as_of`.
abbrev pub ExpiredAt : InstrumentKey → Instant → Instant → Type 0
ExpiredAt k as_of eod =
    IsOption k
    × ((d : Day) × (parse_compact k.expiration ≡ some d) × (suc eod ≡ suc d * day_seconds))
    × (eod < as_of)

-- The round trip of a lot that has expired at `eod`: it closes there, as if at a price of 0.
abbrev pub Expires : Instant → Lot → Direction → ℤ → RoundTrip → Type 0
Expires eod lo dir mult t =
    (t.status ≡ expired)
    × (t.close_time ≡ eod)
    × (t.holding_days ≡ sub_ℕ eod lo.time)
    × (t.realized_pnl ≡ close_pnl dir lo.avg_price (pos 0) lo.qty mult)

abbrev pub StaysOpen : RoundTrip → Type 0
StaysOpen t = (t.status ≡ opened) × (t.close_time ≡ zero_time) × (t.realized_pnl ≡ pos 0)

can_expire→IsOption : (k : InstrumentKey) → can_expire k ≡ true → IsOption k
unfolding can_expire
can_expire→IsOption k h = elim (Bool-cases (text_eq k.sec_type (codes "OPT"))) [
  | inl e ↦ inl (text_eq→eq k.sec_type (codes "OPT") e)
  | inr e ↦ inr (text_eq→eq k.sec_type (codes "BAG") (ground (arith, e, h)))
]

parsed-is_given : (s : Text) (d : Day) → parse_compact s ≡ some d → text_eq s [] ≡ false
unfolding text_eq parse_compact
parsed-is_given [] d h = cc
parsed-is_given (c ∷ s) d h = refl

IsOption→can_expire :
    (k : InstrumentKey) (d : Day)
    → IsOption k
    → parse_compact k.expiration ≡ some d
    → can_expire k ≡ true
unfolding can_expire
IsOption→can_expire k d (inl e) h = ground (
  arith,
  parsed-is_given k.expiration d h,
  ap (λ t. text_eq t (codes "OPT")) e ∙ text_eq_self (codes "OPT"),
)
IsOption→can_expire k d (inr e) h = ground (
  arith,
  parsed-is_given k.expiration d h,
  ap (λ t. text_eq t (codes "BAG")) e ∙ text_eq_self (codes "BAG"),
)

-- The last second, by the day.
expiry_eod-day :
    (k : InstrumentKey) (eod : Instant)
    → expiry_eod k.expiration ≡ some eod
    → (d : Day) × (parse_compact k.expiration ≡ some d) × (suc eod ≡ suc d * day_seconds)
unfolding expiry_eod
expiry_eod-day k eod h = elim (Option-cases (parse_compact k.expiration)) [
  | inl e ↦ ground (arith, e)
  | inr (d, e) ↦ (d, e, ground (arith, e, h))
]

-- No lot has expired where the code does not look for it, or looks in vain.
ExpiredAt-can_expire :
    (k : InstrumentKey) (as_of eod : Instant) → ExpiredAt k as_of eod → can_expire k ≡ true
ExpiredAt-can_expire k as_of eod (o, (d, e, q), past) = IsOption→can_expire k d o e

ExpiredAt-expiry_eod :
    (k : InstrumentKey) (as_of eod : Instant)
    → ExpiredAt k as_of eod
    → expiry_eod k.expiration ≡ some eod
unfolding expiry_eod
ExpiredAt-expiry_eod k as_of eod (o, (d, e, q), past) =
    let same : d * day_seconds + 86399 ≡ eod = omega (arith, q) in rw (e, expiry_eod) (ap some same)

minus_zero : (a : ℤ) → a ≡ a -ℤ pos 0
unfolding ◌-ℤ◌
minus_zero (pos a) = ground arith
minus_zero (negsuc a) = ground arith

zero_minus : (a : ℤ) → neg a ≡ pos 0 -ℤ a
unfolding ◌-ℤ◌
zero_minus (pos a) = ground arith
zero_minus (negsuc a) = ground arith

expiry_pnl-worthless :
    (dir : Direction) (lo : Lot) (mult : ℤ)
    → expiry_pnl dir lo mult ≡ close_pnl dir lo.avg_price (pos 0) lo.qty mult
unfolding expiry_pnl close_pnl
expiry_pnl-worthless long lo mult =
    ap (λ (a : ℤ). a *ℤ pos lo.qty *ℤ mult) (zero_minus lo.avg_price)
expiry_pnl-worthless short lo mult =
    ap (λ (a : ℤ). a *ℤ pos lo.qty *ℤ mult) (minus_zero lo.avg_price)

-- An open lot is reported as expired exactly if it is of an option or a combination, its expiration
-- names a day, and the last second of that day lies before `asOf`. Then it closes at that second, is
-- held until then, and has the P&L of a close at a price of 0; otherwise it stays open, with no
-- closing time and no P&L.
pub emit_open-expiry :
    (k : InstrumentKey) (lo : Lot) (dir : Direction) (mult : ℤ) (as_of : Instant)
    → ((eod : Instant) × ExpiredAt k as_of eod
        × Expires eod lo dir mult (emit_open k lo dir mult as_of))
      ⊎ (((eod : Instant) → ¬ ExpiredAt k as_of eod) × StaysOpen (emit_open k lo dir mult as_of))
unfolding emit_open
emit_open-expiry k lo dir mult as_of = elim (Bool-cases (can_expire k)) [
  | inr never ↦
      rw never (inr (λ eod h. cc (never, ExpiredAt-can_expire k as_of eod h), (refl, refl, refl)))
  | inl may ↦ elim (Option-cases (expiry_eod k.expiration)) [
    | inl unparsed ↦
        rw (may, unparsed)
          (inr (λ eod h. cc (unparsed, ExpiredAt-expiry_eod k as_of eod h), (refl, refl, refl)))
    | inr (eod, e) ↦ elim (Bool-cases (ltb eod as_of)) [
      | inl past ↦
          rw (may, e, past)
            (inl (
              eod,
              (can_expire→IsOption k may, expiry_eod-day k eod e, ltb→lt eod as_of past),
              (refl, refl, refl, expiry_pnl-worthless dir lo mult),
            ))
      | inr to_come ↦
          rw (may, e, to_come)
            (inr (
              λ d h.
                  let same : eod ≡ d = some_inj (sym e ∙ ExpiredAt-expiry_eod k as_of d h) in
                  ground (arith, to_come, same, h.2),
              (refl, refl, refl),
            ))
    ]
  ]
]
