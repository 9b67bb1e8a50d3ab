-- ===== src/Portfolio/Stress.antt =====
-- The shocks of a stress test (internal/portfolio/stress.go). A magnitude is in 1e-4 and a beta in
-- 1e-2, so that a change of price is in 1e-6; a change of volatility is in 1e-4 of a point. A map is
-- the list of its entries.
pub mod Run
mod Tests
use optix.Base.{
  ℕ, Bool, true, false, ◌&&◌, ◌||◌, not, List, [], ◌∷◌, ◌++◌, Option, none, some, if◌then◌else◌,
  map,
}
use optix.Base.Int.{ℤ, pos, ◌+ℤ◌, ◌*ℤ◌, neg}
use optix.Base.Text.{Text, text_eq, to_upper, lower, codes}
use optix.Base.Time.{Instant}
use optix.Portfolio.Types.{Mark, finite, not_finite}

pub record StressShock : Type 0 where
  pub axis : Text
  pub magnitude : ℤ

pub record StressScenario : Type 0 where
  pub id : Text
  pub label : Text
  pub shocks : List StressShock

pub record StressBetaSource : Type 0 where
  pub key : Text
  pub beta : Mark
  pub source : Text
  pub observations : ℕ
  pub as_of : Option Instant
  pub updated_at : Option Instant

abbrev spy : ℤ → StressShock
spy m = record { axis = codes "spy_pct"; magnitude = m }

abbrev scenario : Text → Text → List StressShock → StressScenario
scenario id_ label_ shocks_ = record { id = id_; label = label_; shocks = shocks_ }

abbrev points : ℤ → StressShock
points m = record { axis = codes "iv_points"; magnitude = m }

abbrev pub default_stress_scenarios : List StressScenario
default_stress_scenarios =
    scenario (codes "spy-down-3") (codes "SPY -3%") (spy (neg (pos 300)) ∷ [])
    ∷ scenario (codes "spy-down-5") (codes "SPY -5%") (spy (neg (pos 500)) ∷ [])
    ∷ scenario (codes "spy-down-10") (codes "SPY -10%") (spy (neg (pos 1000)) ∷ [])
    ∷ scenario (codes "iv-up-5") (codes "IV +5 pts") (points (pos 50000) ∷ [])
    ∷ scenario (codes "qqq-down-5") (codes "QQQ -5%")
        (record { axis = codes "qqq_pct"; magnitude = neg (pos 500) } ∷ [])
    ∷ scenario (codes "tech-correlated-5") (codes "Tech correlated -5%")
        (spy (neg (pos 300)) ∷ points (pos 30000) ∷ [])
    ∷ []

abbrev default_stress_betas : List (Text × ℤ)
default_stress_betas =
    (codes "AAPL", pos 120)
    ∷ (codes "MSFT", pos 100)
    ∷ (codes "GOOGL", pos 110)
    ∷ (codes "GOOG", pos 110)
    ∷ (codes "META", pos 120)
    ∷ (codes "AMZN", pos 120)
    ∷ (codes "NVDA", pos 180)
    ∷ (codes "AMD", pos 170)
    ∷ (codes "TSLA", pos 160)
    ∷ (codes "KO", pos 50)
    ∷ (codes "XOM", pos 80)
    ∷ (codes "QQQ", pos 100)
    ∷ (codes "SPY", pos 100)
    ∷ []

abbrev default_qqq_stress_targets : List Text
default_qqq_stress_targets =
    codes "AAPL"
    ∷ codes "MSFT"
    ∷ codes "GOOGL"
    ∷ codes "GOOG"
    ∷ codes "META"
    ∷ codes "AMZN"
    ∷ codes "NVDA"
    ∷ codes "AMD"
    ∷ codes "AVGO"
    ∷ codes "QCOM"
    ∷ codes "INTC"
    ∷ codes "ADBE"
    ∷ codes "CRM"
    ∷ codes "TSLA"
    ∷ codes "NFLX"
    ∷ codes "QQQ"
    ∷ codes "mega-cap-tech"
    ∷ codes "ai-chips"
    ∷ codes "software-cloud"
    ∷ codes "ai-auto-mobility"
    ∷ codes "ecommerce-consumer"
    ∷ codes "media-entertainment"
    ∷ codes "ai-interconnect"
    ∷ []

unfoldable pub beta_in : Text → List (Text × ℤ) → Option ℤ
unfolding text_eq
beta_in k [] = none
beta_in k ((t, b) ∷ bs) = let rest = beta_in k bs in if text_eq k t then some b else rest

unfoldable pub is_target : Text → List Text → Bool
unfolding text_eq
is_target k [] = false
is_target k (t ∷ ts) = text_eq k t || is_target k ts

-- `isQQQShockTarget`
unfoldable pub is_qqq_shock_target : Text → Bool
unfolding is_target to_upper
is_qqq_shock_target key =
    is_target (to_upper key) default_qqq_stress_targets
    || is_target (map lower key) default_qqq_stress_targets

abbrev static_beta : Text → ℤ → StressBetaSource
static_beta k b = record {
  key = k;
  beta = finite b;
  source = codes "static_fallback";
  observations = 0;
  as_of = none;
  updated_at = none;
}

unfoldable pub default_beta : Text → StressBetaSource
unfolding beta_in to_upper
default_beta key = elim (beta_in (to_upper key) default_stress_betas) [
  | some b ↦ static_beta (to_upper key) b
  | none ↦ static_beta (to_upper key) (pos 100)
]

abbrev is_finite : Mark → Bool
is_finite (finite v) = true
is_finite not_finite = false

unfoldable pub with_key : Text → StressBetaSource → StressBetaSource
unfolding text_eq to_upper
with_key key b = if text_eq b.key [] then record b { key = to_upper key } else b

-- `stressBeta`; without a provider there is none to answer.
unfoldable pub stress_beta : Option (Text → Option StressBetaSource) → Text → StressBetaSource
unfolding default_beta with_key
stress_beta none key = default_beta key
stress_beta (some provider) key = elim (provider key) [
  | none ↦ default_beta key
  | some b ↦ if is_finite b.beta then with_key key b else default_beta key
]

-- `StaticStressBetaProvider.BetaForStress`, of a map
unfoldable pub beta_at : Text → List (Text × StressBetaSource) → Option StressBetaSource
unfolding text_eq
beta_at k [] = none
beta_at k ((t, b) ∷ bs) = let rest = beta_at k bs in if text_eq k t then some b else rest

unfoldable pub beta_for_stress : List (Text × StressBetaSource) → Text → Option StressBetaSource
unfolding beta_at with_key to_upper
beta_for_stress p key = elim (beta_at (to_upper key) p) [
  | some b ↦ some (with_key key b)
  | none ↦ elim (beta_at key p) [ some b ↦ some (with_key key b) | none ↦ none ]
]

-- `used[src.Key] = src`
unfoldable pub note_beta : StressBetaSource → List StressBetaSource → List StressBetaSource
unfolding text_eq
note_beta b [] = b ∷ []
note_beta b (c ∷ cs) = let rest = note_beta b cs in if text_eq b.key c.key then b ∷ cs else c ∷ rest

-- The changes of a key, and the betas that were used.
pub record Axes : Type 0 where
  pub price_pct : ℤ
  pub iv_points : ℤ
  pub used : List StressBetaSource

-- A beta that is used is finite.
abbrev pub size_of : Mark → ℤ
size_of (finite v) = v
size_of not_finite = pos 0

unfoldable pub add_beta_shock : StressShock → StressBetaSource → Axes → Axes
unfolding note_beta ◌+ℤ◌ ◌*ℤ◌
add_beta_shock sh src a = record a {
  used = note_beta src a.used;
  price_pct = a.price_pct +ℤ sh.magnitude *ℤ size_of src.beta;
}

unfoldable pub add_shock :
    Option (Text → Option StressBetaSource) → Text → StressShock → Axes → Axes
unfolding stress_beta add_beta_shock is_qqq_shock_target text_eq ◌+ℤ◌ ◌*ℤ◌
add_shock provider key sh a =
    let shocked = add_beta_shock sh (stress_beta provider key) a in
    if text_eq sh.axis (codes "underlying_pct")
    then record a { price_pct = a.price_pct +ℤ sh.magnitude *ℤ pos 100 }
    else if text_eq sh.axis (codes "spy_pct")
    then shocked
    else if text_eq sh.axis (codes "qqq_pct")
    then (if is_qqq_shock_target key then shocked else a)
    else if text_eq sh.axis (codes "iv_points")
    then record a { iv_points = a.iv_points +ℤ sh.magnitude }
    else a

unfoldable pub add_shocks :
    Option (Text → Option StressBetaSource) → Text → List StressShock → Axes → Axes
unfolding add_shock
add_shocks provider key [] a = a
add_shocks provider key (sh ∷ shs) a = add_shocks provider key shs (add_shock provider key sh a)

-- `stressAxesForGroup`
unfoldable pub stress_axes_for_group :
    Option (Text → Option StressBetaSource) → Text → List StressShock → List StressBetaSource → Axes
unfolding add_shocks
stress_axes_for_group provider key shocks used_ =
    add_shocks provider key shocks (record { price_pct = pos 0; iv_points = pos 0; used = used_ })
