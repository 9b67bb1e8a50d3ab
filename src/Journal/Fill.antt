-- ===== src/Journal/Fill.antt =====
-- The loop of `matchGroup` over the opposite queue, one front lot at a time.
use optix.Base.{ℕ, ◌+◌, ◌-◌, ◌≡◌, ◌<◌, List, [], ◌∷◌, arith, ltb, Bool-cases, inl, inr}
use optix.Base.Int.{ℤ}
use optix.Journal.Types.{Execution, Lot, InstrumentKey, Direction}
use optix.Journal.Match.{closed_trip, close_lots}

module _ (k : InstrumentKey) (mult : ℤ) (dir : Direction) (e : Execution) where
  -- What happens at a front lot: nothing is left to place, the lot is used up, or it is not.
  pub data FrontCase (qty : ℕ) (l : Lot) (ls : List Lot) : Type 0 where
    placed :
        qty ≡ 0
        → close_lots k mult dir e qty (l ∷ ls) ≡ record { trips = []; queue = l ∷ ls; rest = 0 }
        → FrontCase qty l ls
    used_up :
        (more : ℕ)
        → qty ≡ l.qty + more
        → close_lots k mult dir e qty (l ∷ ls) ≡ record {
          trips = closed_trip k mult dir e l l.qty ∷ (close_lots k mult dir e more ls).trips;
          queue = (close_lots k mult dir e more ls).queue;
          rest = (close_lots k mult dir e more ls).rest;
        }
        → FrontCase qty l ls
    remains :
        (left : ℕ)
        → 0 < qty
        → l.qty ≡ qty + left
        → close_lots k mult dir e qty (l ∷ ls) ≡ record {
          trips = closed_trip k mult dir e l qty ∷ [];
          queue = record l { qty = left } ∷ ls;
          rest = 0;
        }
        → FrontCase qty l ls

  pub front_case : (qty : ℕ) (l : Lot) (ls : List Lot) → FrontCase qty l ls
  unfolding close_lots
  front_case qty l ls = elim (Bool-cases (ltb 0 qty)) [
    | inr none_left ↦ placed (ground arith) (ground arith)
    | inl some_left ↦ elim (Bool-cases (ltb qty l.qty)) [
      | inl last ↦ remains (l.qty - qty) (ground arith) (ground arith) (ground arith)
      | inr more ↦ used_up (qty - l.qty) (ground arith) (ground arith)
    ]
  ]
