-- ===== src/ScanJournal/Stats/Bands.antt =====
-- The bands share out the pairs.
use mathlib.Core.List.{Perm}
use native.Mathlib.Nat.{suc-add}
use optix.Base.{
  ℕ, zero, suc, ◌+◌, ◌-◌, ◌≡◌, ◌≤◌, refl, sym, ◌∙◌, ap, Bool, List, [], ◌∷◌, arith, total,
  total-append, total-Perm, take, drop, length, take-append-drop,
}
use optix.Base.Int.{ℤ, pos_part}
use optix.Base.Text.{Text, codes}
use optix.ScanJournal.Stats.{
  Band, SettledPair, Group, hit_count, sums_of, band_of, bands_of, add_to_group, group_pairs,
  group_by, score_bands, high_size, mid_size, low_size, dte_label, bands_by, banded, key_below,
  higher_score,
}

abbrev pub hit_of : SettledPair → ℕ
hit_of p = hit_count p.rec

abbrev pub band_hits : Band → ℕ
band_hits b = pos_part b.hit_rate.num

sums_of-hits : (ps : List SettledPair) → (sums_of ps).hits ≡ total hit_of ps
unfolding sums_of
sums_of-hits [] = refl
sums_of-hits (p ∷ ps) = omega (arith, sums_of-hits ps)

length-total : (ps : List SettledPair) → length ps ≡ total (λ p. 1) ps
length-total [] = refl
length-total (p ∷ ps) = omega (arith, length-total ps)

band_of-n : (k : Text) (ps : List SettledPair) → (band_of k ps).n ≡ total (λ p. 1) ps
unfolding band_of
band_of-n k [] = refl
band_of-n k (p ∷ ps) = omega (arith, length-total ps)

band_of-hits : (k : Text) (ps : List SettledPair) → band_hits (band_of k ps) ≡ total hit_of ps
unfolding band_of
band_of-hits k [] = refl
band_of-hits k (p ∷ ps) = sums_of-hits (p ∷ ps)

drop-nil : (n : ℕ) → drop {A = SettledPair} n [] ≡ []
drop-nil zero = refl
drop-nil (suc n) = refl

drop_add : (a b : ℕ) (ps : List SettledPair) → drop (a + b) ps ≡ drop b (drop a ps)
drop_add zero b ps = ground arith
drop_add (suc a) b [] = drop-nil (suc a + b) ∙ sym (drop-nil b)
drop_add (suc a) b (p ∷ ps) = rw suc-add (drop_add a b ps)

-- A weight of pairs, and one of bands that sums it.
module _ (m : SettledPair → ℕ) (w : Band → ℕ)
    (band : (k : Text) (ps : List SettledPair) → w (band_of k ps) ≡ total m ps) where
  take-total :
      (a : ℕ) (ps : List SettledPair) → total m (take a ps) + total m (drop a ps) ≡ total m ps
  take-total a ps =
      sym (total-append m (take a ps) (drop a ps)) ∙ ap (total m) (take-append-drop a ps)

  take-whole : (c : ℕ) (ps : List SettledPair) → length ps ≤ c → total m (take c ps) ≡ total m ps
  take-whole zero [] h = refl
  take-whole zero (p ∷ ps) h = absurd (omega arith)
  take-whole (suc c) [] h = refl
  take-whole (suc c) (p ∷ ps) h = ground (arith, take-whole c ps)

  group_weight : List Group → ℕ
  group_weight gs = total (λ (g : Group). total m g.1) gs

  add_to_group-weight :
      (k : Text) (p : SettledPair) (gs : List Group)
      → group_weight (add_to_group k p gs) ≡ m p + group_weight gs
  unfolding add_to_group group_weight
  add_to_group-weight k p [] = omega arith
  add_to_group-weight k p ((l, ps) ∷ gs) =
      ground (arith, add_to_group-weight k p gs, total-append m ps (p ∷ []))

  group_pairs-weight :
      (key : SettledPair → Text) (ps : List SettledPair) (gs : List Group)
      → group_weight (group_pairs key ps gs) ≡ total m ps + group_weight gs
  unfolding group_pairs
  group_pairs-weight key [] gs = omega arith
  group_pairs-weight key (p ∷ ps) gs = omega (
    arith,
    group_pairs-weight key ps (add_to_group (key p) p gs),
    add_to_group-weight (key p) p gs,
  )

  bands_of-weight : (gs : List Group) → total w (bands_of gs) ≡ group_weight gs
  unfolding group_weight
  bands_of-weight [] = refl
  bands_of-weight ((k, ps) ∷ gs) = omega (arith, bands_of-weight gs, band k ps)

length-drop : (a : ℕ) (ps : List SettledPair) → length (drop a ps) ≡ length ps - a
length-drop zero ps = omega arith
length-drop (suc a) [] = omega arith
length-drop (suc a) (p ∷ ps) = omega (arith, length-drop a ps)

sizes_add : (n : ℕ) → high_size n + mid_size n + low_size n ≡ n
unfolding high_size mid_size low_size
sizes_add n = ground arith

module _ (sort_groups : (Group → Group → Bool) → List Group → List Group)
    (sort_pairs : (SettledPair → SettledPair → Bool) → List SettledPair → List SettledPair)
    (groups_perm : (gs : List Group) → Perm (sort_groups key_below gs) gs)
    (pairs_perm : (ps : List SettledPair) → Perm (sort_pairs higher_score ps) ps)
    (m : SettledPair → ℕ) (w : Band → ℕ)
    (band : (k : Text) (ps : List SettledPair) → w (band_of k ps) ≡ total m ps) where
  group_by-weight :
      (key : SettledPair → Text) (ps : List SettledPair)
      → total w (group_by sort_groups sort_pairs key ps) ≡ total m ps
  unfolding group_by group_weight
  group_by-weight key ps = omega (
    arith,
    bands_of-weight m w band (sort_groups key_below (group_pairs key ps [])),
    total-Perm (λ (g : Group). total m g.1) (groups_perm (group_pairs key ps [])),
    group_pairs-weight m w band key ps [],
  )

  score_bands-weight :
      (ps : List SettledPair) → total w (score_bands sort_groups sort_pairs ps) ≡ total m ps
  unfolding score_bands
  score_bands-weight ps =
      let sorted = sort_pairs higher_score ps in
      let n = length ps in
      let a = high_size n in
      let b = mid_size n in
      let rest = drop b (drop a sorted) in
      let same : length sorted ≡ n =
        length-total sorted ∙ total-Perm (λ p. 1) (pairs_perm ps) ∙ sym (length-total ps) in
      omega (
        arith,
        band (codes "high") (take a sorted),
        band (codes "mid") (take b (drop a sorted)),
        band (codes "low") (take (low_size n) (drop (a + b) sorted)),
        ap (λ (xs : List SettledPair). total m (take (low_size n) xs)) (drop_add a b sorted),
        take-whole m w band (low_size n) rest
            (omega (arith, same, sizes_add n, length-drop b (drop a sorted), length-drop a sorted)),
        take-total m w band a sorted,
        take-total m w band b (drop a sorted),
        total-Perm m (pairs_perm ps),
      )

  banded-weight :
      (rank_label : ℤ → Text) (days_ago : ℕ → Text) (window by : Text) (ps : List SettledPair)
      → total w (banded sort_groups sort_pairs rank_label days_ago window by ps).bands ≡ total m ps
  unfolding banded bands_by
  banded-weight rank_label days_ago window by ps = ground (
    arith,
    band (codes "all") ps,
    score_bands-weight ps,
    group_by-weight (λ p. rank_label p.cand.input.rank) ps,
    group_by-weight dte_label ps,
  )

-- However the rows are banded, by score, rank or days to expiry or not at all, and whatever order
-- `sort.Slice` gives to equal items, each settled pair is in one band: the sizes of the bands add up
-- to the number of pairs, and their hits to the number of hits.
pub banded_counts :
    (sort_groups : (Group → Group → Bool) → List Group → List Group)
    (sort_pairs : (SettledPair → SettledPair → Bool) → List SettledPair → List SettledPair)
    (rank_label : ℤ → Text) (days_ago : ℕ → Text) (window by : Text) (ps : List SettledPair)
    → ((gs : List Group) → Perm (sort_groups key_below gs) gs)
    → ((qs : List SettledPair) → Perm (sort_pairs higher_score qs) qs)
    → let out = banded sort_groups sort_pairs rank_label days_ago window by ps in
      (total (λ (b : Band). b.n) out.bands ≡ length ps)
      × (total band_hits out.bands ≡ total hit_of ps)
banded_counts sort_groups sort_pairs rank_label days_ago window by ps gp pp = (
  banded-weight sort_groups sort_pairs gp pp (λ p. 1) (λ (b : Band). b.n) band_of-n rank_label
        days_ago window by ps
      ∙ sym (length-total ps),
  banded-weight sort_groups sort_pairs gp pp hit_of band_hits band_of-hits rank_label days_ago
      window by ps,
)
