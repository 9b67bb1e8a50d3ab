-- ===== src/Broker/Ibkr/Float.antt =====
-- A float64 of a tick: a number, in a unit so small that the mean of two is whole, an infinity, or
-- NaN. Sums do not overflow.
use optix.Base.{◌/◌, Bool, true, false, if◌then◌else◌}
use optix.Base.Int.{ℤ, pos, negsuc, ◌+ℤ◌, ltb_ℤ, eqb_ℤ}

pub data Float : Type 0 where
  finite : ℤ → Float
  plus_infinity minus_infinity nan : Float

abbrev pub zero_float : Float
zero_float = finite (pos 0)

-- `x > 0`
abbrev pub is_positive : Float → Bool
is_positive (finite v) = ltb_ℤ (pos 0) v
is_positive plus_infinity = true
is_positive minus_infinity = false
is_positive nan = false

-- `x <= 0`, which NaN is not
abbrev pub is_at_most_zero : Float → Bool
is_at_most_zero (finite v) = if ltb_ℤ (pos 0) v then false else true
is_at_most_zero plus_infinity = false
is_at_most_zero minus_infinity = true
is_at_most_zero nan = false

-- `x != 0`
abbrev pub is_nonzero : Float → Bool
is_nonzero (finite v) = if eqb_ℤ v (pos 0) then false else true
is_nonzero plus_infinity = true
is_nonzero minus_infinity = true
is_nonzero nan = true

-- `math.IsNaN(x) || math.IsInf(x, 0)`
abbrev pub is_not_finite : Float → Bool
is_not_finite (finite v) = false
is_not_finite plus_infinity = true
is_not_finite minus_infinity = true
is_not_finite nan = true

-- `x == v`, for a number
abbrev pub is_number : ℤ → Float → Bool
is_number u (finite v) = eqb_ℤ v u
is_number u plus_infinity = false
is_number u minus_infinity = false
is_number u nan = false

abbrev halved : ℤ → ℤ
halved (pos n) = pos (n / 2)
halved (negsuc n) = negsuc (n / 2)

-- `(x + y) / 2`
unfoldable pub mean : Float → Float → Float
unfolding ◌+ℤ◌
mean (finite a) (finite b) = finite (halved (a +ℤ b))
mean nan y = nan
mean (finite a) nan = nan
mean plus_infinity nan = nan
mean minus_infinity nan = nan
mean plus_infinity minus_infinity = nan
mean minus_infinity plus_infinity = nan
mean plus_infinity (finite b) = plus_infinity
mean plus_infinity plus_infinity = plus_infinity
mean minus_infinity (finite b) = minus_infinity
mean minus_infinity minus_infinity = minus_infinity
mean (finite a) plus_infinity = plus_infinity
mean (finite a) minus_infinity = minus_infinity
