-- ===== src/ScanJournal/Stats.antt =====
-- `Stats` (internal/scanjournal/stats.go). Parameters: the date some days ago in the layout of the
-- dates, the label of a rank (`fmt.Sprintf`), and `sort.Slice`, which may order equal items in any
-- way.
pub mod Bands
use optix.Base.{
  ℕ, zero, suc, ◌+◌, ◌-◌, ◌*◌, ◌/◌, ◌%◌, Bool, true, false, ◌&&◌, ◌||◌, not, List, [], ◌∷◌, ◌++◌,
  Option, none, some, ◌⊎◌, inl, inr, ltb, leb, ◌==◌, if◌then◌else◌, keep, length, take, drop,
}
use optix.Base.Int.{ℤ, pos, ◌+ℤ◌, ◌*ℤ◌, ltb_ℤ}
use optix.Base.Text.{Text, text_eq, text_lt, codes}
use optix.Base.Time.{number}
use optix.Base.Sort.{stable_sort}
use optix.ScanJournal.Types.{
  CandidateId, Ratio, ScanCandidate, ScanReconciliation, Outcome, hit, miss, void,
}
use optix.ScanJournal.Settle.{zero_ratio}
use optix.ScanJournal.Store.{Store, same_id}

pub record Band : Type 0 where
  pub label : Text
  pub n : ℕ
  pub hit_rate : Ratio
  pub avg_pnl : Ratio
  pub touched_rate : Ratio
  pub avg_max_breach : Ratio

pub record SettledPair : Type 0 where
  pub cand : ScanCandidate
  pub rec : ScanReconciliation

pub data StatsError : Type 0 where
  invalid_window invalid_by : StatsError

-- `note` says that there are too few rows for bands.
pub record StatsResult : Type 0 where
  pub window : Text
  pub by : Text
  pub bands : List Band
  pub note : Bool

abbrev is_empty : Text → Bool
is_empty [] = true
is_empty (c ∷ s) = false

-- The window's name, and its days.
unfoldable pub window_of : Text → Option (Text × Option ℕ)
unfolding text_eq
window_of w =
    if is_empty w || text_eq w (codes "all")
    then some (codes "all", none)
    else if text_eq w (codes "30d")
    then some (w, some 30)
    else if text_eq w (codes "90d")
    then some (w, some 90)
    else none

unfoldable pub by_of : Text → Option Text
unfolding text_eq
by_of b =
    if is_empty b
    then some (codes "score-band")
    else if text_eq b (codes "score-band") || text_eq b (codes "rank") || text_eq b (codes "dte")
    then some b
    else none

-- `ORDER BY scan_date, rank`
abbrev scanned_before : ScanCandidate → ScanCandidate → Bool
scanned_before a b =
    text_lt a.scan_date b.scan_date
    || (text_eq a.scan_date b.scan_date && ltb_ℤ a.input.rank b.input.rank)

unfoldable pub list_scan_candidates_since : Option Text → Store → List ScanCandidate
unfolding stable_sort
list_scan_candidates_since none st = stable_sort scanned_before st.candidates
list_scan_candidates_since (some from) st =
    stable_sort scanned_before
      (keep (λ (c : ScanCandidate). not (text_lt c.scan_date from)) st.candidates)

-- `recs[id]`
unfoldable pub reconciliation_of : CandidateId → List ScanReconciliation → Option ScanReconciliation
reconciliation_of i [] = none
reconciliation_of i (r ∷ rs) = if same_id i r.candidate_id then some r else reconciliation_of i rs

abbrev pub is_void : Outcome → Bool
is_void hit = false
is_void miss = false
is_void void = true

unfoldable pub settled_pairs : List ScanReconciliation → List ScanCandidate → List SettledPair
unfolding reconciliation_of
settled_pairs rs [] = []
settled_pairs rs (c ∷ cs) =
    let rest = settled_pairs rs cs in
    elim (reconciliation_of c.candidate_id rs) [
      | none ↦ rest
      | some r ↦ if is_void r.outcome then rest else record { cand = c; rec = r } ∷ rest
    ]

-- The sums of the loop in `bandOf`.
pub record Sums : Type 0 where
  pub hits : ℕ
  pub touched : ℕ
  pub pnl : ℤ
  pub breach : Ratio

abbrev add_ratio : Ratio → Ratio → Ratio
add_ratio a b = record { num = a.num *ℤ b.den +ℤ b.num *ℤ a.den; den = a.den *ℤ b.den }

abbrev pub hit_count : ScanReconciliation → ℕ
hit_count r = elim r.outcome [ hit ↦ 1 | miss ↦ 0 | void ↦ 0 ]

unfoldable pub sums_of : List SettledPair → Sums
unfolding ◌+ℤ◌
sums_of [] = record { hits = 0; touched = 0; pnl = pos 0; breach = zero_ratio }
sums_of (p ∷ ps) =
    let s = sums_of ps in
    record {
      hits = hit_count p.rec + s.hits;
      touched = (if p.rec.touched then 1 else 0) + s.touched;
      pnl = p.rec.realized_pnl +ℤ s.pnl;
      breach = add_ratio p.rec.max_breach_pct s.breach;
    }

unfoldable pub band_of : Text → List SettledPair → Band
unfolding sums_of ◌*ℤ◌
band_of label [] = record {
  label = label;
  n = 0;
  hit_rate = zero_ratio;
  avg_pnl = zero_ratio;
  touched_rate = zero_ratio;
  avg_max_breach = zero_ratio;
}
band_of label (p ∷ ps) =
    let s = sums_of (p ∷ ps) in
    let n = length (p ∷ ps) in
    record {
      label = label;
      n = n;
      hit_rate = record { num = pos s.hits; den = pos n };
      avg_pnl = record { num = s.pnl; den = pos n };
      touched_rate = record { num = pos s.touched; den = pos n };
      avg_max_breach = record { num = s.breach.num; den = s.breach.den *ℤ pos n };
    }

-- The first run of digits in a label, as a number; 2 ^ 30 where there is none. A run too long for an
-- int does not occur.
abbrev is_digit : ℕ → Bool
is_digit c = leb b'0' c && leb c b'9'

abbrev digits_end : Text → Text
digits_end [] = []
digits_end (c ∷ s) = let rest = digits_end s in if is_digit c then c ∷ rest else []

abbrev from_digit : Text → Text
from_digit [] = []
from_digit (c ∷ s) = let rest = from_digit s in if is_digit c then c ∷ s else rest

unfoldable pub band_sort_key : Text → ℕ
unfolding number
band_sort_key label = elim (digits_end (from_digit label)) [
  | [] ↦ 1073741824
  | c ∷ s ↦ elim (number 0 (c ∷ s)) [ none ↦ 1073741824 | some n ↦ n ]
]

-- A group with its label; the groups stand in the order of their first pairs.
abbrev pub Group : Type 0
Group = Text × List SettledPair

unfoldable pub add_to_group : Text → SettledPair → List Group → List Group
add_to_group k p [] = (k, p ∷ []) ∷ []
add_to_group k p ((l, ps) ∷ gs) =
    let rest = add_to_group k p gs in if text_eq k l then (l, ps ++ p ∷ []) ∷ gs else (l, ps) ∷ rest

unfoldable pub group_pairs : (SettledPair → Text) → List SettledPair → List Group → List Group
unfolding add_to_group
group_pairs key [] gs = gs
group_pairs key (p ∷ ps) gs = group_pairs key ps (add_to_group (key p) p gs)

abbrev pub key_below : Group → Group → Bool
key_below g h = ltb (band_sort_key g.0) (band_sort_key h.0)

abbrev pub bands_of : List Group → List Band
bands_of [] = []
bands_of ((k, ps) ∷ gs) = band_of k ps ∷ bands_of gs

abbrev pub dte_label : SettledPair → Text
dte_label p =
    if not (ltb_ℤ (pos 10) p.cand.input.dte)
    then codes "dte-7-10"
    else if not (ltb_ℤ (pos 17) p.cand.input.dte)
    then codes "dte-11-17"
    else codes "dte-18-24"

-- The sizes of the three score bands: the remainder goes to the first ones.
unfoldable pub high_size : ℕ → ℕ
high_size n = n / 3 + (if ltb 0 (n % 3) then 1 else 0)

unfoldable pub mid_size : ℕ → ℕ
mid_size n = n / 3 + (if ltb 1 (n % 3) then 1 else 0)

unfoldable pub low_size : ℕ → ℕ
low_size n = n / 3

abbrev pub higher_score : SettledPair → SettledPair → Bool
higher_score a b = ltb_ℤ b.cand.input.score a.cand.input.score

module _ (sort_groups : (Group → Group → Bool) → List Group → List Group)
    (sort_pairs : (SettledPair → SettledPair → Bool) → List SettledPair → List SettledPair) where
  unfoldable pub group_by : (SettledPair → Text) → List SettledPair → List Band
  unfolding group_pairs band_of band_sort_key
  group_by key ps = bands_of (sort_groups key_below (group_pairs key ps []))

  unfoldable pub score_bands : List SettledPair → List Band
  unfolding high_size mid_size low_size band_of
  score_bands ps =
      let sorted = sort_pairs higher_score ps in
      let n = length ps in
      band_of (codes "high") (take (high_size n) sorted)
      ∷ band_of (codes "mid") (take (mid_size n) (drop (high_size n) sorted))
      ∷ band_of (codes "low") (take (low_size n) (drop (high_size n + mid_size n) sorted))
      ∷ []

  module _ (rank_label : ℤ → Text) (days_ago : ℕ → Text) where
    unfoldable pub bands_by : Text → List SettledPair → List Band
    unfolding score_bands group_by text_eq
    bands_by by ps =
        if text_eq by (codes "score-band")
        then score_bands ps
        else if text_eq by (codes "rank")
        then group_by (λ p. rank_label p.cand.input.rank) ps
        else group_by dte_label ps

    -- The bands of the pairs, or one band where there are fewer than three.
    unfoldable pub banded : Text → Text → List SettledPair → StatsResult
    unfolding bands_by band_of
    banded window by ps =
        if ltb (length ps) 3
        then record { window = window; by = by; bands = band_of (codes "all") ps ∷ []; note = true }
        else record { window = window; by = by; bands = bands_by by ps; note = false }

    unfoldable pub stats : Text → Text → Store → StatsError ⊎ StatsResult
    unfolding window_of by_of list_scan_candidates_since settled_pairs banded
    stats window by st = elim (window_of window) [
      | none ↦ inl invalid_window
      | some (w, days) ↦ elim (by_of by) [
        | none ↦ inl invalid_by
        | some b ↦
            let from : Option Text = elim days [ none ↦ none | some d ↦ some (days_ago d) ] in
            inr (banded w b (settled_pairs st.reconciliations (list_scan_candidates_since from st)))
      ]
    ]
