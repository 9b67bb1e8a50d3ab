-- ===== src/Broker/Ibkr/Pending.antt =====
-- The other requests that wait for callbacks (internal/broker/ibkr/wrapper.go).
use optix.Base.{
  ℕ, ◌+◌, Bool, true, false, ◌&&◌, ◌||◌, not, if◌then◌else◌, List, [], ◌∷◌, Option, none, some,
}
use optix.Base.Int.{ℤ, pos, ltb_ℤ, eqb_ℤ}
use optix.Base.Text.{Text}
use optix.Broker.Ibkr.Float.{Float, finite, is_positive, is_at_most_zero, is_nonzero, is_not_finite}

-- `ibAPIError`
pub record ApiError : Type 0 where
  pub code : ℤ
  pub message : Text

pub record PendingOi : Type 0 where
  pub wait_for_metrics : Bool
  pub data_notice : Option ApiError
  pub right : Text
  pub volume : ℤ
  pub open_interest : ℤ
  pub iv : Float
  pub done : Bool

unfoldable pub maybe_complete_oi : PendingOi → PendingOi
maybe_complete_oi p =
    if ltb_ℤ (pos 0) p.open_interest
      && (not p.wait_for_metrics || (is_positive p.iv && ltb_ℤ (pos 0) p.volume))
    then record p { done = true }
    else p

unfoldable pub set_oi : ℤ → PendingOi → PendingOi
unfolding maybe_complete_oi
set_oi n p = if ltb_ℤ (pos 0) n then maybe_complete_oi (record p { open_interest = n }) else p

unfoldable pub set_oi_iv : Float → PendingOi → PendingOi
unfolding maybe_complete_oi
set_oi_iv iv p =
    if is_at_most_zero iv || is_not_finite iv
    then p
    else maybe_complete_oi (if is_nonzero p.iv then p else record p { iv = iv })

-- The least number that an int64 does not hold, in the units of a `Float`, and the conversion.
module _ (max_int64 : ℤ) (to_int64 : Float → ℤ) where
  abbrev pub is_volume : Float → Bool
  is_volume (finite v) = if ltb_ℤ v (pos 0) then false else ltb_ℤ v max_int64
  is_volume x = false

  unfoldable pub set_oi_volume : Float → PendingOi → PendingOi
  unfolding maybe_complete_oi
  set_oi_volume v p =
      if is_volume v then maybe_complete_oi (record p { volume = to_int64 v }) else p

pub record PendingBars (Bar : Type 0) : Type 0 where
  pub bars : List Bar
  pub done : Bool

pub record PendingOptParams : Type 0 where
  pub exp_set : List Text
  pub strike_set : List Float
  pub expirations : List Text
  pub strikes : List Float
  pub multiplier : Text
  pub done : Bool

pub record PendingContractDetails : Type 0 where
  pub con_id : ℤ
  pub done : Bool

pub record PendingExecutions (Execution : Type 0) : Type 0 where
  pub executions : List Execution
  pub done : Bool

-- `depthSide`
pub data Side : Type 0 where
  ask_side bid_side : Side

pub record DepthLevel : Type 0 where
  pub side : Side
  pub position : ℤ
  pub price : Float
  pub size : Float

pub record PendingDepth : Type 0 where
  pub notice : Option ApiError
  pub levels : List DepthLevel
  pub want : ℤ
  pub done : Bool

unfoldable pub depth_side : ℤ → Option Side
depth_side n =
    if eqb_ℤ n (pos 0) then some ask_side else if eqb_ℤ n (pos 1) then some bid_side else none

abbrev pub is_bid_side : Side → Bool
is_bid_side bid_side = true
is_bid_side ask_side = false

abbrev same_side : Side → Side → Bool
same_side bid_side s = is_bid_side s
same_side ask_side s = not (is_bid_side s)

abbrev pub is_at : Side → ℤ → DepthLevel → Bool
is_at side position l = same_side side l.side && eqb_ℤ l.position position

unfoldable pub delete_level : Side → ℤ → List DepthLevel → List DepthLevel
delete_level side position [] = []
delete_level side position (l ∷ ls) =
    let rest = delete_level side position ls in if is_at side position l then rest else l ∷ rest

unfoldable pub put_level : DepthLevel → List DepthLevel → List DepthLevel
put_level level [] = level ∷ []
put_level level (l ∷ ls) =
    let rest = put_level level ls in
    if is_at level.side level.position l then level ∷ ls else l ∷ rest

abbrev pub count_side : Side → List DepthLevel → ℕ
count_side side [] = 0
count_side side (l ∷ ls) = (if same_side side l.side then 1 else 0) + count_side side ls

-- `completeLocked`
unfoldable pub is_complete_depth : PendingDepth → Bool
is_complete_depth p =
    let want : ℤ = if ltb_ℤ (pos 0) p.want then p.want else pos 1 in
    not (ltb_ℤ (pos (count_side bid_side p.levels)) want)
    && not (ltb_ℤ (pos (count_side ask_side p.levels)) want)

unfoldable pub update_depth : ℤ → ℤ → ℤ → Float → Float → PendingDepth → PendingDepth
unfolding depth_side delete_level put_level is_complete_depth
update_depth position operation side price size p = elim (depth_side side) [
  | none ↦ p
  | some s ↦
      if eqb_ℤ operation (pos 2) || is_at_most_zero price || is_at_most_zero size
      then record p { levels = delete_level s position p.levels }
      else let level : DepthLevel = record {
        side = s;
        position = position;
        price = price;
        size = size;
      } in
        let p' = record p { levels = put_level level p.levels } in
        if is_complete_depth p' then record p' { done = true } else p'
]
