-- ===== src/Portfolio/Tests.antt =====
-- A portfolio of two names and a foreign one, and its theorems at it.
use mathlib.Core.List.{Perm}
use mathlib.Core.List.Perm
use optix.Base.{ℕ, ◌≡◌, ◌≤◌, refl, true, List, [], ◌∷◌, none, some, total, take}
use optix.Base.Keyed.{count}
use optix.Base.Int.{pos, negsuc}
use optix.Base.Text.{codes, text_eq, to_upper}
use optix.Portfolio.Types.{finite, Position, SectorGroup}
use optix.Portfolio.Rollup.{abs_of, ticker_of, fallback_nlv}
use optix.Portfolio.Config.{default_config}
use optix.Portfolio.Report.{weight, sector_abs_of, Walks, IsWalk, compute}
use optix.Portfolio.Report.Order.{compute_walks}
use optix.Portfolio.Report.Sums.{compute_sectors}
use optix.Portfolio.Report.Top.{compute_top}
use optix.Portfolio.Money.{fmt_money}
use optix.Portfolio.Money.Read.{read_money, read_money-fmt_money}

abbrev stock : Position
stock = record {
  symbol = codes "aapl";
  sec_type = codes "STK";
  expiration = [];
  strike = pos 0;
  right = [];
  quantity = pos 10;
  currency = codes "USD";
  market_value = finite (pos 700);
}

abbrev short_call : Position
short_call = record stock {
  sec_type = codes "OPT";
  expiration = codes "20260116";
  strike = pos 15000;
  right = codes "C";
  quantity = negsuc 0;
  market_value = finite (negsuc 99);
}

abbrev other : Position
other = record stock { symbol = codes "MSFT"; market_value = finite (pos 200) }

abbrev foreign : Position
foreign = record stock { symbol = codes "FUTU"; currency = codes "HKD" }

abbrev positions : List Position
positions = stock ∷ short_call ∷ other ∷ foreign ∷ []

abbrev forward : Walks
forward = record {
  groups = λ xs. xs;
  sectors = λ xs. xs;
  missing = λ xs. xs;
  mismatches = λ xs. xs;
}

abbrev swapped : {A : Type 0} → List A → List A
swapped [] = []
swapped (x ∷ []) = x ∷ []
swapped (x ∷ y ∷ xs) = y ∷ x ∷ xs

swapped-perm : {A : Type 0} (xs : List A) → Perm (swapped xs) xs
swapped-perm [] = Perm.refl _
swapped-perm (x ∷ []) = Perm.refl _
swapped-perm (x ∷ y ∷ xs) = Perm.swap x y xs

abbrev other_way : Walks
other_way = record { groups = swapped; sectors = swapped; missing = swapped; mismatches = swapped }

forward-IsWalk : IsWalk forward
forward-IsWalk = record {
  groups = λ xs. Perm.refl xs;
  sectors = λ xs. Perm.refl xs;
  missing = λ xs. Perm.refl xs;
  mismatches = λ xs. Perm.refl xs;
}

other_way-IsWalk : IsWalk other_way
other_way-IsWalk = record {
  groups = swapped-perm;
  sectors = swapped-perm;
  missing = swapped-perm;
  mismatches = swapped-perm;
}

compute_walks_example :
    compute forward positions (pos 2000) default_config none
    ≡ compute other_way positions (pos 2000) default_config none
compute_walks_example =
    compute_walks forward other_way forward-IsWalk other_way-IsWalk positions (pos 2000)
      default_config none

positions-worth : fallback_nlv positions ≡ 1000
unfolding fallback_nlv text_eq to_upper
positions-worth = refl

compute_sectors_example :
    let r = compute forward positions (pos 2000) default_config none in
    (total sector_abs_of r.sectors ≡ r.deployed)
    × (total (λ (s : SectorGroup). count (λ u. u) (codes "AAPL") s.tickers) r.sectors
        ≡ count ticker_of (codes "AAPL") r.underlyings)
compute_sectors_example =
    compute_sectors forward forward-IsWalk positions (pos 2000) default_config none (codes "AAPL")

compute_top_example :
    let r = compute forward positions (pos 2000) default_config none in
    let xs = swapped r.underlyings in
    let weight_in = λ (k : ℕ). weight 2000 (total abs_of (take k xs)) in
    (weight_in 2 ≤ r.top2_pct) × (weight_in 5 ≤ r.top5_pct) × (weight_in r.top_n ≤ r.top_n_pct)
compute_top_example =
    compute_top forward forward-IsWalk positions (pos 2000) default_config none
      (swapped (compute forward positions (pos 2000) default_config none).underlyings)
      (swapped-perm (compute forward positions (pos 2000) default_config none).underlyings)

-- A short position of 1234567.49.
read_money-fmt_money_example : read_money (fmt_money (negsuc 123456748)) ≡ some (true, 1234567)
read_money-fmt_money_example = read_money-fmt_money (negsuc 123456748)

short_amount : fmt_money (negsuc 123456748) ≡ codes "-1,234,567"
unfolding fmt_money
short_amount = refl

-- A loss that rounds to nothing keeps its sign.
small_loss : fmt_money (negsuc 29) ≡ codes "-0"
unfolding fmt_money
small_loss = refl
