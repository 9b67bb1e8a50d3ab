-- ===== src/Journal/Fifo.antt =====
-- First in, first out, one share at a time: the queue discipline that `matchGroup` of
-- internal/journal/matcher.go promises, described without lots and quantities.
pub mod Refines
use optix.Base.{
  spread, ℕ, zero, suc, List, [], ◌∷◌, ◌++◌, Bool, true, false, if◌then◌else◌, replicate,
}
use optix.Base.Int.{ℤ}
use optix.Base.Text.{Text}
use optix.Base.Time.{Instant}
use optix.Journal.Types.{
  Execution, Lot, RoundTrip, Direction, long, short, Status, opened, closed, expired,
}
use optix.Journal.Match.{Book, is_buy, is_sell}

-- One share that is held open.
pub record Share : Type 0 where
  pub time : Instant
  pub avg_price : ℤ
  pub exec_ids : List Text

-- One share that was opened and closed.
pub record ShareTrip : Type 0 where
  pub direction : Direction
  pub share : Share
  pub close_time : Instant
  pub close_avg_price : ℤ
  pub close_exec_ids : List Text

pub record Queues : Type 0 where
  pub longs : List Share
  pub shorts : List Share
  pub trips : List ShareTrip

abbrev pub exec_share : Execution → Share
exec_share e = record { time = e.time; avg_price = e.avg_price; exec_ids = e.exec_id ∷ [] }

abbrev pub close_share : Direction → Execution → Share → ShareTrip
close_share dir e s = record {
  direction = dir;
  share = s;
  close_time = e.time;
  close_avg_price = e.avg_price;
  close_exec_ids = e.exec_id ∷ [];
}

-- A share bought closes the oldest short share, or is held long if there is none.
buy_from : Execution → List Share → Queues → Queues
buy_from e [] q = record q { longs = q.longs ++ exec_share e ∷ [] }
buy_from e (s ∷ ss) q = record q { shorts = ss; trips = q.trips ++ close_share short e s ∷ [] }

sell_from : Execution → List Share → Queues → Queues
sell_from e [] q = record q { shorts = q.shorts ++ exec_share e ∷ [] }
sell_from e (s ∷ ss) q = record q { longs = ss; trips = q.trips ++ close_share long e s ∷ [] }

pub buy_shares : ℕ → Execution → Queues → Queues
unfolding buy_from
buy_shares zero e q = q
buy_shares (suc n) e q = buy_shares n e (buy_from e q.shorts q)

pub sell_shares : ℕ → Execution → Queues → Queues
unfolding sell_from
sell_shares zero e q = q
sell_shares (suc n) e q = sell_shares n e (sell_from e q.longs q)

pub fifo_one : Execution → Queues → Queues
fifo_one e q =
    if is_buy e then buy_shares e.shares e q else if is_sell e then sell_shares e.shares e q else q

pub fifo_all : List Execution → Queues → Queues
fifo_all [] q = q
fifo_all (e ∷ es) q = fifo_all es (fifo_one e q)

abbrev pub no_shares : Queues
no_shares = record { longs = []; shorts = []; trips = [] }

-- The shares that a lot stands for, and those that a round trip closed or left open on a side.
abbrev pub lot_share : Lot → Share
lot_share lo = record { time = lo.time; avg_price = lo.avg_price; exec_ids = lo.exec_id ∷ [] }

abbrev pub lot_shares : Lot → List Share
lot_shares lo = replicate lo.qty (lot_share lo)

abbrev pub trip_share : RoundTrip → Share
trip_share t = record {
  time = t.open_time;
  avg_price = t.open_avg_price;
  exec_ids = t.open_exec_ids;
}

abbrev pub closed_shares : RoundTrip → List ShareTrip
closed_shares t = replicate t.close_qty (record {
  direction = t.direction;
  share = trip_share t;
  close_time = t.close_time;
  close_avg_price = t.close_avg_price;
  close_exec_ids = t.close_exec_ids;
})

abbrev pub same_side : Direction → Direction → Bool
same_side long long = true
same_side short short = true
same_side long short = false
same_side short long = false

abbrev pub open_shares : Direction → RoundTrip → List Share
open_shares d t =
    if same_side d t.direction
    then elim t.status [
      | opened ↦ replicate t.open_qty (trip_share t)
      | closed ↦ []
      | expired ↦ replicate t.open_qty (trip_share t)
    ]
    else []

abbrev pub book_shares : Book → Queues
book_shares b = record {
  longs = spread lot_shares b.longs;
  shorts = spread lot_shares b.shorts;
  trips = spread closed_shares b.trips;
}
