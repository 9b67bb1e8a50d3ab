-- ===== src/Intel/Phase/TradingDay.antt =====
-- One trading day of the phase clock: its boundaries, and the phase between them.
use optix.Base.{
  ℕ, suc, ◌+◌, ◌*◌, ◌≡◌, ◌≢◌, ◌<◌, ◌≤◌, refl, true, false, List, [], ◌∷◌, none, some, arith, ◌⊎◌,
  inl, inr, sym, ap, ◌∙◌,
}
use optix.Base.Time.{Instant, Day, day_seconds}
use optix.Intel.Calendar.{day_of, minute_of, is_trading_day, early_close_at}
use optix.Intel.Phase.{
  Phase, premarket, intraday, postclose, closed, close_minute, phase_in, phase_at, day_boundaries,
  first_after,
}

-- The boundaries of a trading day that closes at second `c`.
abbrev pub bounds : Day → ℕ → List Instant
bounds d c =
    (d * day_seconds + 14400)
    ∷ (d * day_seconds + 34200)
    ∷ (d * day_seconds + c * 60)
    ∷ (d * day_seconds + c * 60 + 14400)
    ∷ []

pub record Shape (d : Day) (c : ℕ) : Type 0 where
  pub closes : close_minute d ≡ c
  pub bounded : day_boundaries d ≡ bounds d c
  pub hours : (c ≡ 960) ⊎ (c ≡ 780)

early_close_cases :
    (d : Day) → (early_close_at d ≡ none) ⊎ (early_close_at d ≡ some (d * day_seconds + 46800))
unfolding early_close_at
early_close_cases d = ground arith

pub shape : (d : Day) → is_trading_day d ≡ true → (c : ℕ) × Shape d c
unfolding close_minute day_boundaries
shape d h = elim (early_close_cases d) [
  | inl full ↦ (
    960,
    record {
      closes = rw (full, close_minute);
      bounded = rw (h, full) (ground arith);
      hours = inl refl;
    },
  )
  | inr half ↦ (
    780,
    record {
      closes = rw (half, close_minute) (omega arith);
      bounded = rw (h, half) (ground arith);
      hours = inr refl;
    },
  )
]

-- Which of four boundaries is the first after `t`.
abbrev pub FirstOf : (t b w x y z : Instant) → Type 0
FirstOf t b w x y z =
    ((b ≡ w) × (t < b))
    ⊎ ((b ≡ x) × (w ≤ t) × (t < b))
    ⊎ ((b ≡ y) × (x ≤ t) × (t < b))
    ⊎ ((b ≡ z) × (y ≤ t) × (t < b))

first_of :
    (t b w x y z : Instant) → first_after t (w ∷ x ∷ y ∷ z ∷ []) ≡ some b → FirstOf t b w x y z
unfolding first_after
first_of t b w x y z e = ground arith

module _ (d : Day) (u : Instant) (here : day_of u ≡ d) where
  phase_at-trading : is_trading_day d ≡ true → phase_at u ≡ phase_in (close_minute d) (minute_of u)
  unfolding phase_at
  phase_at-trading h = rw (here, h)

  pub phase_at-off : is_trading_day d ≡ false → phase_at u ≡ closed
  unfolding phase_at
  phase_at-off h = rw (here, h)

-- The phase changes at `b`, and not between `t` and `b`.
pub record ChangesAt (t b : Instant) : Type 0 where
  pub later : t < b
  pub differs : phase_at b ≢ phase_at t
  pub steady : (u : Instant) → t ≤ u → u < b → phase_at u ≡ phase_at t

module _ (c : ℕ) (hours : (c ≡ 960) ⊎ (c ≡ 780)) (m : ℕ) where
  pub night : m < 240 → phase_in c m ≡ closed
  unfolding phase_in
  night h = ground arith

  pub morning : 240 ≤ m → m < 570 → phase_in c m ≡ premarket
  unfolding phase_in
  morning h k = ground arith

  session : 570 ≤ m → m < c → phase_in c m ≡ intraday
  unfolding phase_in
  session h k = ground arith

  afternoon : c ≤ m → m < c + 240 → phase_in c m ≡ postclose
  unfolding phase_in
  afternoon h k = ground arith

  evening : c + 240 ≤ m → phase_in c m ≡ closed
  unfolding phase_in
  evening h = ground arith

module _ (d : Day) (trading : is_trading_day d ≡ true) (c : ℕ) (s : Shape d c) where
  pub phase_in_day : (u : Instant) → day_of u ≡ d → phase_at u ≡ phase_in c (minute_of u)
  phase_in_day u here =
      phase_at-trading d u here trading ∙ ap (λ m. phase_in m (minute_of u)) s.closes

  -- From one boundary to the next the phase is `p`, and there it becomes `q`.
  band :
      (p q : Phase) (lo hi : ℕ)
      → q ≢ p
      → hi < 1440
      → ((m : ℕ) → lo ≤ m → m < hi → phase_in c m ≡ p)
      → phase_in c hi ≡ q
      → (t b : Instant) → d * day_seconds + lo * 60 ≤ t
      → t < b
      → b ≡ d * day_seconds + hi * 60
      → ChangesAt t b
  band p q lo hi ne day_end within after t b from until at =
      let in_band : (u : Instant) → t ≤ u → u < b → phase_at u ≡ p =
        λ u h k. phase_in_day u (omega arith) ∙ within (minute_of u) (omega arith) (omega arith) in
      let before = in_band t (omega arith) until in
      let minute : minute_of b ≡ hi = omega arith in
      let there = phase_in_day b (omega arith) ∙ ap (phase_in c) minute ∙ after in
      record {
        later = until;
        differs = λ e. ne (sym there ∙ e ∙ before);
        steady = λ u h k. in_band u h k ∙ sym before;
      }

  -- A boundary of the day of `t` that is the first after `t` is where the phase changes next.
  pub within_day :
      (t b : Instant) → d * day_seconds ≤ t → first_after t (bounds d c) ≡ some b → ChangesAt t b
  within_day t b from e =
      let open_hours = s.hours in
      elim (first_of t b _ _ _ _ e) [
        | inl (at, until) ↦
            band closed premarket 0 240 (λ q. cc) (omega arith) (λ m _ h. night c open_hours m h)
              (morning c open_hours 240 (omega arith) (omega arith)) t b (omega arith) until
              (omega arith)
        | inr (inl (at, w, until)) ↦
            band premarket intraday 240 570 (λ q. cc) (omega arith) (morning c open_hours)
              (session c open_hours 570 (omega arith) (omega arith)) t b (omega arith) until
              (omega arith)
        | inr (inr (inl (at, x, until))) ↦
            band intraday postclose 570 c (λ q. cc) (omega arith) (session c open_hours)
              (afternoon c open_hours c (omega arith) (omega arith)) t b (omega arith) until
              (omega arith)
        | inr (inr (inr (at, y, until))) ↦
            band postclose closed c (c + 240) (λ q. cc) (omega arith) (afternoon c open_hours)
              (evening c open_hours (c + 240) (omega arith)) t b (omega arith) until (omega arith)
      ]

  -- After the last boundary of the day the market is closed to its end.
  pub after_day :
      (t : Instant)
      → d * day_seconds ≤ t
      → first_after t (bounds d c) ≡ none
      → (u : Instant) → t ≤ u
      → u < suc d * day_seconds
      → phase_at u ≡ closed
  unfolding first_after
  after_day t from e u h k =
      let open_hours = s.hours in
      phase_in_day u (omega arith) ∙ evening c open_hours (minute_of u) (ground arith)
