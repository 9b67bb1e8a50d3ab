-- ===== src/Broker/Ibkr/Connect/Candidates.antt =====
-- Which client identifiers a connection has to try (clientIDCandidates).
use optix.Base.{
  ℕ, suc, ◌+◌, ◌≡◌, ◌⊎◌, ◌≤◌, ◌<◌, refl, ap, true, false, List, [], ◌∷◌, arith, Bool-cases, inl,
  inr,
}
use optix.Base.Int.{ℤ, pos, negsuc, eqb_ℤ}
use optix.Broker.Ibkr.Connect.{part, first_fallback, fallbacks, client_id_candidates}

first_fallback-bounds :
    (primary pid : ℤ)
    → (100000 ≤ first_fallback primary pid) × (first_fallback primary pid + 3 ≤ 2147483647)
unfolding first_fallback part
first_fallback-bounds (pos a) (pos b) = omega arith
first_fallback-bounds (pos a) (negsuc b) = omega arith
first_fallback-bounds (negsuc a) (pos b) = omega arith
first_fallback-bounds (negsuc a) (negsuc b) = omega arith

-- Two numbers from `n` on, neither of them the primary one.
abbrev AreOthers : ℤ → ℕ → ℕ → ℕ → Type 0
AreOthers primary n a b =
    (n ≤ a)
    × (a < b)
    × (b ≤ n + 2)
    × (eqb_ℤ (pos a) primary ≡ false)
    × (eqb_ℤ (pos b) primary ≡ false)

fallbacks-others :
    (primary : ℤ) (n : ℕ)
    → (a b : ℕ) × (fallbacks 3 2 primary n ≡ pos a ∷ pos b ∷ []) × AreOthers primary n a b
unfolding fallbacks
fallbacks-others primary n = elim (Bool-cases (eqb_ℤ (pos n) primary)) [
  | inl e ↦ (
    suc n,
    suc (suc n),
    ground (arith, e),
    (omega arith, omega arith, omega arith, ground (arith, e), ground (arith, e)),
  )
  | inr e ↦ elim (Bool-cases (eqb_ℤ (pos (suc n)) primary)) [
    | inl k ↦ (
      n,
      suc (suc n),
      ground (arith, e, k),
      (omega arith, omega arith, omega arith, e, ground (arith, k)),
    )
    | inr k ↦ (n, suc n, ground (arith, e, k), (omega arith, omega arith, omega arith, e, k))
  ]
]

-- Zero alone, or the primary identifier and two others within an int32.
abbrev pub AreCandidates : ℤ → List ℤ → Type 0
AreCandidates primary ids =
    ((eqb_ℤ primary (pos 0) ≡ true) × (ids ≡ pos 0 ∷ []))
    ⊎ ((a b : ℕ) × (ids ≡ primary ∷ pos a ∷ pos b ∷ [])
        × (100000 ≤ a)
        × (a < b)
        × (b ≤ 2147483647)
        × (eqb_ℤ (pos a) primary ≡ false)
        × (eqb_ℤ (pos b) primary ≡ false))

pub client_id_candidates-AreCandidates :
    (primary pid : ℤ) → AreCandidates primary (client_id_candidates primary pid)
unfolding client_id_candidates
client_id_candidates-AreCandidates primary pid = elim (Bool-cases (eqb_ℤ primary (pos 0))) [
  | inl e ↦ inl (e, rw e refl)
  | inr e ↦
      let (a, b, same, (low, up, high, k, l)) =
        fallbacks-others primary (first_fallback primary pid) in
      let (from, to) = first_fallback-bounds primary pid in
      inr (
        a,
        b,
        rw e (ap (◌∷◌ primary) same),
        omega (arith, from, low),
        up,
        omega (arith, to, high),
        k,
        l,
      )
]
