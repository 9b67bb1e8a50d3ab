-- ===== src/ShockIntel/Analogs/Similarity.antt =====
-- How alike two shocks are.
use optix.Base.{
  ℕ, ◌+◌, ◌*◌, ltb, ◌≡◌, ◌≤◌, refl, sym, All, ap, ap₂, ◌∙◌, arith, Bool, List, [], ◌∷◌, length, map,
  if◌then◌else◌,
}
use optix.Base.Text.{Text}
use optix.Base.Int.{ℤ}
use optix.ShockIntel.Analogs.{
  ShockVector, Pair, pair, pairs, full, same_sign, distance, pair_score, compare_pairs,
  analog_similarity,
}

compare_pairs-full : (ps : List Pair) → (compare_pairs ps).0 ≤ length ps * full
unfolding compare_pairs
compare_pairs-full [] = omega arith
compare_pairs-full (p ∷ ps) = ground (arith, compare_pairs-full ps)

abbrev swap : Pair → Pair
swap p = pair p.name p.y p.x p.weight

same_sign-swap : (p : Pair) → same_sign p.y p.x ≡ same_sign p.x p.y
same_sign-swap p = ground arith

distance-swap : (p : Pair) → distance p.y p.x ≡ distance p.x p.y
distance-swap p = omega arith

pair_score-swap : (p : Pair) → pair_score (swap p) ≡ pair_score p
pair_score-swap p = rw (same_sign-swap p, distance-swap p) refl

compare_pairs-swap : (ps : List Pair) → compare_pairs (map swap ps) ≡ compare_pairs ps
unfolding compare_pairs
compare_pairs-swap [] = refl
compare_pairs-swap (p ∷ ps) =
    let more = compare_pairs-swap ps in
    ap₂ (λ (n : ℕ) (fs : List Text). (n, fs)) (ap₂ ◌+◌ (pair_score-swap p) (ap (λ r. r.0) more))
      (ap₂ (λ (b : Bool) (fs : List Text). if b then p.name ∷ fs else fs) (same_sign-swap p)
        (ap (λ r. r.1) more))

pair_score_self : (name : Text) (x : ℤ) (w : ℕ) → pair_score (pair name x x w) ≡ full
pair_score_self name x w =
    let none_ : distance x x ≡ 0 = omega arith in ground (arith, ap (λ d. d * w) none_)

compare_pairs-alike :
    (ps : List Pair) → All (λ p. p.x ≡ p.y) ps → (compare_pairs ps).0 ≡ length ps * full
unfolding compare_pairs
compare_pairs-alike [] h = refl
compare_pairs-alike (p ∷ ps) (e, h) =
    let one : pair_score p ≡ full =
      ap (λ y. pair_score (pair p.name p.x y p.weight)) (sym e)
      ∙ pair_score_self p.name p.x p.weight in
    ground (arith, one, compare_pairs-alike ps h)

abbrev cut : ℕ → ℕ
cut n = if ltb (7 * full) n then 7 * full else n

cut-full : (n : ℕ) → cut n ≤ 7 * full
cut-full n = ground arith

alike_all : (a : ShockVector) → All (λ p. p.x ≡ p.y) (pairs a a)
alike_all a = (refl, (refl, (refl, (refl, (refl, (refl, (refl, tt)))))))

-- Of any two shocks: how alike they are, and in which features, does not depend on which of them is
-- compared with which; the similarity is at most the full one, and that of a shock with itself is the
-- full one.
pub analog_similarity_lem :
    (a b : ShockVector)
    → (analog_similarity a b ≡ analog_similarity b a)
      × ((analog_similarity a b).0 ≤ 7 * full)
      × ((analog_similarity a a).0 ≡ 7 * full)
unfolding analog_similarity
analog_similarity_lem a b = (
  ap (λ (r : ℕ × List Text). (cut r.0, r.1)) (compare_pairs-swap (pairs b a)),
  cut-full (compare_pairs (pairs a b)).0,
  ap cut (compare_pairs-alike (pairs a a) (alike_all a)),
)
