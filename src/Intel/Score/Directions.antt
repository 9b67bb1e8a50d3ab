-- ===== src/Intel/Score/Directions.antt =====
-- The outcomes of the three directions, at one pair of prices.
use optix.Base.{ℕ, ◌+◌, ◌*◌, ◌≡◌, ◌≤◌, ◌<◌, ◌⊎◌, ◌↔◌, inl, inr, arith, leb, Bool-cases}
use optix.Base.Int.{pos, ◌-ℤ◌, ◌*ℤ◌, abs}
use optix.Base.Text.{Text, text_eq, codes}
use optix.Intel.Score.{Outcome, hit, score, change_pct}

-- 100%, in the unit of a threshold.
abbrev pub whole : ℕ
whole = 100000000

module _ (t r e : ℕ) (h : 0 < r) (k : 0 < e) where
  outcome_of : Text → Outcome
  outcome_of d = (score d (pos t) (pos r) (pos e)).0

  up-hit : (outcome_of (codes "up") ≡ hit) ↔ (r * whole + t * r ≤ e * whole)
  unfolding outcome_of score change_pct text_eq ◌-ℤ◌ ◌*ℤ◌
  up-hit = ground arith

  down-hit : (outcome_of (codes "down") ≡ hit) ↔ (e * whole + t * r ≤ r * whole)
  unfolding outcome_of score change_pct text_eq ◌-ℤ◌ ◌*ℤ◌
  down-hit = ground arith

  flat-hit :
      (outcome_of (codes "flat") ≡ hit)
      ↔ ((e * whole ≤ r * whole + t * r) × (r * whole ≤ e * whole + t * r))
  unfolding outcome_of score change_pct text_eq ◌-ℤ◌ ◌*ℤ◌ abs
  flat-hit = ground arith

  covered :
      (outcome_of (codes "up") ≡ hit)
      ⊎ ((outcome_of (codes "down") ≡ hit) ⊎ (outcome_of (codes "flat") ≡ hit))
  covered = elim (Bool-cases (leb (r * whole + t * r) (e * whole))) [
    | inl u ↦ inl (up-hit.1 (ground arith))
    | inr u ↦ inr (elim (Bool-cases (leb (e * whole + t * r) (r * whole))) [
      | inl d ↦ inl (down-hit.1 (ground arith))
      | inr d ↦ inr (flat-hit.1 (ground arith))
    ])
  ]

-- Of a positive registered price `r`, a positive price `e` at the expiry and a threshold `t` that is
-- not negative: `up` is a hit where the price is at least `r` raised by the threshold, `down` where
-- it is at most `r` lowered by it, and `flat` where it is between the two, both included; so one of
-- the three directions is a hit.
pub score-bands :
    (t r e : ℕ)
    → 0 < r
    → 0 < e
    → let outcome = λ (d : Text). (score d (pos t) (pos r) (pos e)).0 in
      ((outcome (codes "up") ≡ hit) ↔ (r * whole + t * r ≤ e * whole))
      × ((outcome (codes "down") ≡ hit) ↔ (e * whole + t * r ≤ r * whole))
      × ((outcome (codes "flat") ≡ hit)
          ↔ ((e * whole ≤ r * whole + t * r) × (r * whole ≤ e * whole + t * r)))
      × ((outcome (codes "up") ≡ hit)
          ⊎ ((outcome (codes "down") ≡ hit) ⊎ (outcome (codes "flat") ≡ hit)))
unfolding outcome_of
score-bands t r e h k =
    (up-hit t r e h k, down-hit t r e h k, flat-hit t r e h k, covered t r e h k)
