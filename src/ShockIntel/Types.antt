-- ===== src/ShockIntel/Types.antt =====
-- The data of the shock service (internal/shockintel/dto.go). Prices, sizes, percentages, basis points
-- and scores are whole numbers of a thousandth; a quotient is cut to that unit, so that it passes a
-- threshold, which is a whole number of it, exactly where the fraction does.
use optix.Base.{ℕ, ◌/◌, suc, List, [], ◌∷◌, Option, none, some, if◌then◌else◌}
use optix.Base.Int.{ℤ, pos, negsuc, neg}
use optix.Base.Text.{Text, text_eq, codes}
use optix.Base.Time.{Instant}

pub record ShockQuote : Type 0 where
  pub id : Text
  pub label : Text
  pub price : ℤ
  pub change_pct : ℤ
  pub bid : ℤ
  pub ask : ℤ
  pub bid_size : ℤ
  pub ask_size : ℤ
  pub source : Text
  pub basis : Text
  pub as_of : Instant

pub record ShockDepthLevel : Type 0 where
  pub side : Text
  pub price : ℤ
  pub size : ℤ

pub record DepthSnapshot : Type 0 where
  pub source : Text
  pub basis : Text
  pub as_of : Instant
  pub levels : List ShockDepthLevel

-- A map of quotes or of depth, without a key twice.
unfoldable pub value_at : {A : Type 0} → Text → List (Text × A) → Option A
unfolding text_eq
value_at i [] = none
value_at i ((j, a) ∷ m) = let rest = value_at i m in if text_eq i j then some a else rest

-- A quotient, cut toward 0.
abbrev pub over : ℤ → ℕ → ℤ
over (pos n) d = pos (n / d)
over (negsuc n) d = neg (pos (suc n / d))

-- `nonEmpty`
abbrev pub non_empty : Text → Text → Text
non_empty [] fallback = fallback
non_empty (c ∷ s) fallback = c ∷ s

-- The sources of the loop of aggregateSource that are not empty, each once.
unfoldable pub add_source : Text → List Text → List Text
unfolding text_eq
add_source s [] = s ∷ []
add_source s (t ∷ ts) = let rest = add_source s ts in if text_eq s t then t ∷ ts else t ∷ rest

unfoldable pub sources_of : List (Text × ShockQuote) → List Text
unfolding add_source text_eq
sources_of [] = []
sources_of ((i, q) ∷ m) =
    let rest = sources_of m in if text_eq q.source [] then rest else add_source q.source rest

abbrev single_source : Text → List Text → Text
single_source fallback [] = fallback
single_source fallback (s ∷ []) = s
single_source fallback (s ∷ t ∷ ts) = codes "mixed"

unfoldable pub aggregate_source : Text → List (Text × ShockQuote) → Text
unfolding sources_of
aggregate_source fallback m = single_source fallback (sources_of m)
