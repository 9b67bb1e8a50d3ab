-- ===== src/ShockIntel/Analogs.antt =====
-- The historical analogs of a shock (internal/shockintel/analogs.go). A vector is in halves of a
-- thousandth of a percent, so that the mean of two changes is whole; a similarity is in units of one
-- 2520000th, which every scale divides, and their mean over seven is left as their sum.
pub mod Similarity
use optix.Base.{
  ℕ, zero, suc, ◌+◌, ◌-◌, ◌*◌, Bool, true, false, ◌&&◌, ◌||◌, not, List, [], ◌∷◌, ◌++◌, Option,
  none, some, ltb, if◌then◌else◌, map, length,
}
use optix.Base.Int.{ℤ, pos, ◌+ℤ◌, ◌-ℤ◌, ◌*ℤ◌, ltb_ℤ, neg, pos_part, neg_part}
use optix.Base.Text.{Text, codes}
use optix.Base.Time.{Instant, day_number, day_seconds}
use optix.ShockIntel.Types.{ShockQuote, value_at, over}
use optix.ShockIntel.Regime.{min}

pub record ShockVector : Type 0 where
  pub equity : ℤ
  pub vol : ℤ
  pub credit : ℤ
  pub rates : ℤ
  pub dollar : ℤ
  pub oil : ℤ
  pub gold : ℤ

pub record AnalogTemplate : Type 0 where
  pub name : Text
  pub date : Instant
  pub category : Text
  pub vector : ShockVector
  pub next_session_bias : Text

pub record AnalogRow : Type 0 where
  pub name : Text
  pub date : Instant
  pub category : Text
  pub similarity : ℕ
  pub next_session_bias : Text
  pub matched_features : List Text

pub record AnalogsDto : Type 0 where
  pub as_of : Instant
  pub source : Text
  pub rows : List AnalogRow
  pub warnings : List Text

abbrev change_or_zero : Option ShockQuote → ℤ
change_or_zero none = pos 0
change_or_zero (some q) = q.change_pct *ℤ pos 2

-- `changeOf`
unfoldable pub change_of : List (Text × ShockQuote) → Text → ℤ
unfolding value_at ◌*ℤ◌
change_of quotes i = change_or_zero (value_at i quotes)

-- The loop of averageChange: the sum, and how many there are.
unfoldable pub sum_changes : List (Text × ShockQuote) → List Text → ℤ × ℕ
unfolding value_at ◌+ℤ◌
sum_changes quotes [] = (pos 0, 0)
sum_changes quotes (i ∷ is) =
    let (sum, n) = sum_changes quotes is in
    elim (value_at i quotes) [ none ↦ (sum, n) | some q ↦ (q.change_pct +ℤ sum, suc n) ]

unfoldable pub average_change : List (Text × ShockQuote) → List Text → ℤ
unfolding sum_changes ◌*ℤ◌
average_change quotes ids =
    let (sum, n) = sum_changes quotes ids in
    elim n [ zero ↦ pos 0 | suc k ↦ over (sum *ℤ pos 2) (suc k) ]

unfoldable pub build_shock_vector : List (Text × ShockQuote) → ShockVector
unfolding change_of average_change
build_shock_vector quotes = record {
  equity = average_change quotes (codes "SPY" ∷ codes "QQQ" ∷ []);
  vol = change_of quotes (codes "VIX");
  credit = change_of quotes (codes "HYG");
  rates = change_of quotes (codes "US10Y");
  dollar = change_of quotes (codes "UUP");
  oil = change_of quotes (codes "USO");
  gold = change_of quotes (codes "GLD");
}

-- One of the pairs; `weight` is the unit over the scale.
pub record Pair : Type 0 where
  pub name : Text
  pub x : ℤ
  pub y : ℤ
  pub weight : ℕ

abbrev pub pair : Text → ℤ → ℤ → ℕ → Pair
pair name_ x_ y_ w = record { name = name_; x = x_; y = y_; weight = w }

abbrev pub pairs : ShockVector → ShockVector → List Pair
pairs a b =
    pair (codes "equity") a.equity b.equity 210
    ∷ pair (codes "vol") a.vol b.vol 28
    ∷ pair (codes "credit") a.credit b.credit 420
    ∷ pair (codes "rates") a.rates b.rates 504
    ∷ pair (codes "dollar") a.dollar b.dollar 504
    ∷ pair (codes "oil") a.oil b.oil 90
    ∷ pair (codes "gold") a.gold b.gold 315
    ∷ []

abbrev pub full : ℕ
full = 2520000

-- Neither is 0, and `sign` is the same.
abbrev pub same_sign : ℤ → ℤ → Bool
same_sign x y = (ltb_ℤ (pos 0) x && ltb_ℤ (pos 0) y) || (ltb_ℤ x (pos 0) && ltb_ℤ y (pos 0))

abbrev pub distance : ℤ → ℤ → ℕ
distance x y =
    (pos_part x + neg_part y - (pos_part y + neg_part x))
    + (pos_part y + neg_part x - (pos_part x + neg_part y))

abbrev pub pair_score : Pair → ℕ
pair_score p =
    let score = full - min (distance p.x p.y * p.weight) full in
    if same_sign p.x p.y then min (score + 302400) full else score

-- The loop over the pairs.
unfoldable pub compare_pairs : List Pair → ℕ × List Text
compare_pairs [] = (0, [])
compare_pairs (p ∷ ps) =
    let (sum, features) = compare_pairs ps in
    (pair_score p + sum, if same_sign p.x p.y then p.name ∷ features else features)

-- Seven times the similarity, and the features.
unfoldable pub analog_similarity : ShockVector → ShockVector → ℕ × List Text
unfolding compare_pairs
analog_similarity a b =
    let (sum, features) = compare_pairs (pairs a b) in (min sum (7 * full), features)

unfoldable pub analog_row : ShockVector → AnalogTemplate → AnalogRow
unfolding analog_similarity
analog_row v t =
    let (similarity_, features) = analog_similarity v t.vector in
    record {
      name = t.name;
      date = t.date;
      category = t.category;
      similarity = similarity_;
      next_session_bias = t.next_session_bias;
      matched_features = features;
    }

abbrev pub more_similar : AnalogRow → AnalogRow → Bool
more_similar a b = ltb b.similarity a.similarity

-- `sort` is `sort.Slice`, which may leave equal rows in any order.
unfoldable pub build_shock_analogs :
    ((AnalogRow → AnalogRow → Bool) → List AnalogRow → List AnalogRow)
    → ShockVector
    → List AnalogTemplate
    → Instant
    → AnalogsDto
unfolding analog_row
build_shock_analogs sort v templates now = record {
  as_of = now;
  source = codes "local_shock_template_fixture";
  rows = sort more_similar (map (analog_row v) templates);
  warnings = [];
}

-- `dateUTC`
abbrev date_utc : ℕ → ℕ → ℕ → Instant
date_utc y m d = day_number y m d * day_seconds

-- The changes of a template are given in tenths of a percent.
abbrev vector_of : ℤ → ℤ → ℤ → ℤ → ℤ → ℤ → ℤ → ShockVector
vector_of e v c r d o g = record {
  equity = e *ℤ pos 200;
  vol = v *ℤ pos 200;
  credit = c *ℤ pos 200;
  rates = r *ℤ pos 200;
  dollar = d *ℤ pos 200;
  oil = o *ℤ pos 200;
  gold = g *ℤ pos 200;
}

unfoldable pub default_analog_templates : List AnalogTemplate
unfolding day_number ◌*ℤ◌
default_analog_templates =
    record {
      name = codes "COVID liquidity shock";
      date = date_utc 2020 3 12;
      category = codes "liquidity";
      vector =
          vector_of (neg (pos 45)) (pos 380) (neg (pos 20)) (neg (pos 10)) (pos 5) (neg (pos 60))
            (pos 12);
      next_session_bias = codes "mixed";
    }
    ∷ record {
      name = codes "Inflation policy shock";
      date = date_utc 2022 6 13;
      category = codes "policy";
      vector =
          vector_of (neg (pos 32)) (pos 220) (neg (pos 11)) (pos 13) (pos 11) (pos 18)
            (neg (pos 7));
      next_session_bias = codes "risk_off";
    }
    ∷ record {
      name = codes "Growth demand scare";
      date = date_utc 2018 12 24;
      category = codes "demand";
      vector =
          vector_of (neg (pos 20)) (pos 180) (neg (pos 8)) (neg (pos 2)) (neg (pos 4))
            (neg (pos 25)) (pos 3);
      next_session_bias = codes "mixed";
    }
    ∷ record {
      name = codes "Oil supply shock";
      date = date_utc 2019 9 16;
      category = codes "supply";
      vector = vector_of (neg (pos 6)) (pos 80) (neg (pos 2)) (pos 2) (pos 3) (pos 120) (pos 15);
      next_session_bias = codes "mixed";
    }
    ∷ []
