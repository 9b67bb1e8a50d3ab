-- ===== src/Journal/Tests.antt =====
-- Runs of the matcher, and its theorems at a small history of trades.
use Prim.Native.String.{String}
use mathlib.Core.List.{reverse, reverse_perm}
use optix.Base.{ℕ, ◌+◌, ◌≡◌, ◌⊎◌, refl, List, [], ◌∷◌, All, spread, total, map}
use optix.Base.Int.{pos, negsuc, ℤ, ◌-ℤ◌, ◌*ℤ◌}
use optix.Base.Text.{codes, text_eq}
use optix.Base.Time.{Instant}
use optix.Journal.Types.{Execution, InstrumentKey, RoundTrip, Direction, long, short, Lot}
use optix.Journal.Match.{
  match_group, emit_open, multiplier_for, match_one, close_lots, closed_trip, push_lot, can_expire,
}
use optix.Journal.Accounting.{trip_bought, trip_sold, exec_bought, exec_sold}
use optix.Journal.Sides.{OpenOn, match_group_one_sided}
use optix.Journal.Cash.{sum, trip_cash, exec_cash, match_group_cash}
use optix.Journal.Fifo.{closed_shares, open_shares, fifo_all, no_shares}
use optix.Journal.Fifo.Refines.{match_group_fifo}
use optix.Journal.Expiry.{ExpiredAt, Expires, StaysOpen, emit_open-expiry}
use optix.Journal.Groups.{Groups, match_round_trips}
use optix.Journal.Groups.Partition.{match_round_trips_plain}

abbrev share_key : InstrumentKey
share_key = record {
  account = codes "U1";
  symbol = codes "AAPL";
  sec_type = codes "STK";
  currency = codes "USD";
  expiration = [];
  strike = pos 0;
  right = [];
}

abbrev trade : String → ℕ → ℕ → ℕ → ℕ → Execution
trade side at shares price perm = record {
  exec_id = codes side;
  time = 63_900_000_000 + at;
  account = codes "U1";
  symbol = codes "AAPL";
  sec_type = codes "STK";
  expiration = [];
  strike = pos 0;
  right = [];
  side = codes side;
  shares = shares;
  price = pos price;
  avg_price = pos price;
  currency = codes "usd ";
  exchange = codes "SMART";
  order_id = pos 0;
  perm_id = pos perm;
}

-- Two purchases, then a sale of the first and half of the second, then one that goes short.
abbrev history : List Execution
history =
    trade "BOT" 0 100 150 11
    ∷ trade "BOT" 60 50 152 12
    ∷ trade "SLD" 120 125 155 13
    ∷ trade "SLD" 180 40 149 14
    ∷ []

abbrev summary : RoundTrip → ℕ × ℕ × ℤ
summary t = (t.open_qty, t.close_qty, t.realized_pnl)

abbrev now : Instant
now = 63_900_100_000

history_trips :
    map summary (match_group share_key history now)
    ≡ (100, 100, pos 500) ∷ (25, 25, pos 75) ∷ (25, 25, negsuc 74) ∷ (15, 0, pos 0) ∷ []
unfolding match_group multiplier_for text_eq match_one close_lots closed_trip push_lot emit_open
    can_expire ◌*ℤ◌ ◌-ℤ◌
history_trips = refl

match_group_one_sided_example : (d : Direction) × All (OpenOn d) (match_group share_key history now)
match_group_one_sided_example = match_group_one_sided share_key history now

match_group_cash_example :
    sum trip_cash (match_group share_key history now)
    ≡ sum (exec_cash (multiplier_for share_key.sec_type)) history
match_group_cash_example = match_group_cash share_key history now

match_group_fifo_example :
    let ts = match_group share_key history now in
    let q = fifo_all history no_shares in
    (spread closed_shares ts ≡ q.trips)
    × (spread (open_shares long) ts ≡ q.longs)
    × (spread (open_shares short) ts ≡ q.shorts)
match_group_fifo_example = match_group_fifo share_key history now

-- The maps visited backwards.
abbrev backwards : List (List Execution) → List (List Execution)
backwards gs = reverse gs

abbrev keys_backwards : Groups → Groups
keys_backwards gs = reverse gs

match_round_trips_plain_example :
    let ts = match_round_trips backwards keys_backwards history now in
    (total trip_bought ts ≡ total exec_bought history)
    × (total trip_sold ts ≡ total exec_sold history)
unfolding text_eq
match_round_trips_plain_example =
    match_round_trips_plain backwards keys_backwards history now (λ gs. reverse_perm gs)
      (λ gs. reverse_perm gs) (refl, (refl, (refl, (refl, tt))))

-- A vertical spread: the combination row and its two legs.
abbrev leg : String → String → Execution
leg kind expiration = record (trade "SLD" 0 1 120 77) {
  sec_type = codes kind;
  expiration = codes expiration;
}

abbrev spread_rows : List Execution
spread_rows = leg "OPT" "20240119" ∷ leg "BAG" "" ∷ leg "OPT" "20240216" ∷ []

abbrev option_key : InstrumentKey
option_key = record share_key {
  sec_type = codes "OPT";
  expiration = codes "20240119";
  strike = pos 150;
}

abbrev short_put : Lot
short_put = record { time = 63_800_000_000; qty = 2; avg_price = pos 120; exec_id = codes "p1" }

emit_open-expiry_example :
    let t = emit_open option_key short_put short (pos 100) now in
    ((eod : Instant) × ExpiredAt option_key now eod × Expires eod short_put short (pos 100) t)
    ⊎ (((eod : Instant) → ¬ ExpiredAt option_key now eod) × StaysOpen t)
emit_open-expiry_example = emit_open-expiry option_key short_put short (pos 100) now
