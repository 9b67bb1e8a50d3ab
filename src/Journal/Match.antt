-- ===== src/Journal/Match.antt =====
-- `matchGroup`, `emitOpen` and `multiplierFor` of internal/journal/matcher.go: the FIFO matching of
-- the executions of one instrument.
use optix.Base.{
  ℕ, ◌+◌, ◌-◌, ◌*◌, Bool, ◌&&◌, ◌||◌, not, List, [], ◌∷◌, ◌++◌, map, Option, none, some, ltb, ◌==◌,
  if◌then◌else◌,
}
use optix.Base.Int.{ℤ, pos, sub_ℕ, ◌-ℤ◌, ◌*ℤ◌, neg}
use optix.Base.Text.{Text, codes, text_eq}
use optix.Base.Time.{Instant, day_seconds, zero_time, parse_compact}
use optix.Journal.Types.{
  Execution, Lot, InstrumentKey, RoundTrip, Direction, long, short, opened, closed, expired,
}

unfoldable pub multiplier_for : Text → ℤ
multiplier_for t = if text_eq t (codes "OPT") || text_eq t (codes "BAG") then pos 100 else pos 1

-- The two queues of open lots, oldest first, and the round trips found so far.
pub record Book : Type 0 where
  pub longs : List Lot
  pub shorts : List Lot
  pub trips : List RoundTrip

-- The P&L of closing `q` units: a short gains what the price fell, a long what it rose.
unfoldable pub close_pnl : Direction → ℤ → ℤ → ℕ → ℤ → ℤ
close_pnl short opened_at closed_at q mult = (opened_at -ℤ closed_at) *ℤ pos q *ℤ mult
close_pnl long opened_at closed_at q mult = (closed_at -ℤ opened_at) *ℤ pos q *ℤ mult

-- The round trip that the loops append for `take` units of the lot in front.
unfoldable pub closed_trip : InstrumentKey → ℤ → Direction → Execution → Lot → ℕ → RoundTrip
unfolding close_pnl
closed_trip k mult dir e front take = record {
  symbol = e.symbol;
  sec_type = k.sec_type;
  expiration = k.expiration;
  strike = k.strike;
  right = k.right;
  account = k.account;
  currency = k.currency;
  direction = dir;
  open_time = front.time;
  close_time = e.time;
  open_qty = take;
  close_qty = take;
  open_avg_price = front.avg_price;
  close_avg_price = e.avg_price;
  multiplier = mult;
  realized_pnl = close_pnl dir front.avg_price e.avg_price take mult;
  holding_days = sub_ℕ e.time front.time;
  status = closed;
  open_exec_ids = front.exec_id ∷ [];
  close_exec_ids = e.exec_id ∷ [];
}

-- What a loop leaves: the round trips that it appended, the queue, and the units still to place.
pub record Filled : Type 0 where
  pub trips : List RoundTrip
  pub queue : List Lot
  pub rest : ℕ

abbrev also : RoundTrip → Filled → Filled
also t f = record f { trips = t ∷ f.trips }

-- `for qty > 0 && len(opens) > 0`. A front lot that is not used up leaves no unit to place, so the
-- loop ends there by its test.
unfoldable pub close_lots : InstrumentKey → ℤ → Direction → Execution → ℕ → List Lot → Filled
close_lots k mult dir e qty [] = record { trips = []; queue = []; rest = qty }
close_lots k mult dir e qty (front ∷ lots) =
    let take = if ltb front.qty qty then front.qty else qty in
    let trip = closed_trip k mult dir e front take in
    let popped = also trip (close_lots k mult dir e (qty - take) lots) in
    if not (ltb 0 qty)
    then record { trips = []; queue = front ∷ lots; rest = qty }
    else if front.qty - take == 0
    then popped
    else record {
      trips = trip ∷ [];
      queue = record front { qty = front.qty - take } ∷ lots;
      rest = qty - take;
    }

-- `lot{e.Time, qty, e.AvgPrice, e.ExecID}`, appended if any unit is left.
unfoldable pub push_lot : Execution → ℕ → List Lot → List Lot
push_lot e qty lots =
    if ltb 0 qty
    then lots
      ++ record { time = e.time; qty = qty; avg_price = e.avg_price; exec_id = e.exec_id } ∷ []
    else lots

abbrev pub is_buy : Execution → Bool
is_buy e = text_eq e.side (codes "BOT")

abbrev pub is_sell : Execution → Bool
is_sell e = not (text_eq e.side (codes "BOT")) && text_eq e.side (codes "SLD")

buy : InstrumentKey → ℤ → Execution → Book → Book
buy k mult e b =
    let f = close_lots k mult short e e.shares b.shorts in
    record { longs = push_lot e f.rest b.longs; shorts = f.queue; trips = b.trips ++ f.trips }

sell : InstrumentKey → ℤ → Execution → Book → Book
sell k mult e b =
    let f = close_lots k mult long e e.shares b.longs in
    record { longs = f.queue; shorts = push_lot e f.rest b.shorts; trips = b.trips ++ f.trips }

-- The body of the loop over the executions: the `switch` on the side.
unfoldable pub match_one : InstrumentKey → ℤ → Execution → Book → Book
unfolding buy sell
match_one k mult e b = if is_buy e then buy k mult e b else if is_sell e then sell k mult e b else b

unfoldable pub match_all : InstrumentKey → ℤ → List Execution → Book → Book
match_all k mult [] b = b
match_all k mult (e ∷ es) b = match_all k mult es (match_one k mult e b)

-- A round trip that was not closed, before the expiry is looked at.
still_open : InstrumentKey → Lot → Direction → ℤ → RoundTrip
still_open k lo dir mult = record {
  symbol = k.symbol;
  sec_type = k.sec_type;
  expiration = k.expiration;
  strike = k.strike;
  right = k.right;
  account = k.account;
  currency = k.currency;
  direction = dir;
  open_time = lo.time;
  close_time = zero_time;
  open_qty = lo.qty;
  close_qty = 0;
  open_avg_price = lo.avg_price;
  close_avg_price = pos 0;
  multiplier = mult;
  realized_pnl = pos 0;
  holding_days = pos 0;
  status = opened;
  open_exec_ids = lo.exec_id ∷ [];
  close_exec_ids = [];
}

-- The P&L of an option that expires unclosed: a long loses its price, a short keeps it.
unfoldable pub expiry_pnl : Direction → Lot → ℤ → ℤ
expiry_pnl long lo mult = neg lo.avg_price *ℤ pos lo.qty *ℤ mult
expiry_pnl short lo mult = lo.avg_price *ℤ pos lo.qty *ℤ mult

-- 23:59:59 UTC on the day that a text in the layout 20060102 names, if it does.
unfoldable pub expiry_eod : Text → Option Instant
unfolding parse_compact
expiry_eod s = elim (parse_compact s) [ none ↦ none | some d ↦ some (d * day_seconds + 86399) ]

-- Only options and combinations expire.
unfoldable pub can_expire : InstrumentKey → Bool
can_expire k =
    (text_eq k.sec_type (codes "OPT") || text_eq k.sec_type (codes "BAG"))
    && not (text_eq k.expiration [])

expire : Option Instant → Lot → Direction → ℤ → Instant → RoundTrip → RoundTrip
unfolding expiry_pnl
expire none lo dir mult as_of rt = rt
expire (some eod) lo dir mult as_of rt =
    if ltb eod as_of
    then record rt {
      status = expired;
      close_time = eod;
      holding_days = sub_ℕ eod lo.time;
      realized_pnl = expiry_pnl dir lo mult;
    }
    else rt

unfoldable pub emit_open : InstrumentKey → Lot → Direction → ℤ → Instant → RoundTrip
unfolding still_open expire
emit_open k lo dir mult as_of =
    let rt = still_open k lo dir mult in
    if can_expire k then expire (expiry_eod k.expiration) lo dir mult as_of rt else rt

abbrev pub no_lots : Book
no_lots = record { longs = []; shorts = []; trips = [] }

-- The two loops at the end: the long lots that are left, then the short ones.
unfoldable pub finish : InstrumentKey → ℤ → Instant → Book → List RoundTrip
finish k mult as_of b =
    b.trips
    ++ (map (λ lo. emit_open k lo long mult as_of) b.longs
        ++ map (λ so. emit_open k so short mult as_of) b.shorts)

unfoldable pub match_group : InstrumentKey → List Execution → Instant → List RoundTrip
unfolding match_all finish
match_group k execs as_of =
    let mult = multiplier_for k.sec_type in finish k mult as_of (match_all k mult execs no_lots)
