-- ===== src/Journal/Types.antt =====
-- The data of the trade journal: executions (pkg/model/account.go), round trips
-- (pkg/model/round_trip.go), and the lots and instrument keys of internal/journal/matcher.go.
-- Shares are counted in the broker's smallest fraction of a share and prices in its smallest price
-- step, so that the float64 sums of the source are sums of whole numbers; a number of shares is
-- not negative (the loops of the matcher skip an execution of no shares and a negative one alike).
use optix.Base.{ℕ, List}
use optix.Base.Int.{ℤ}
use optix.Base.Text.{Text}
use optix.Base.Time.{Instant}

pub record Execution : Type 0 where
  pub exec_id : Text
  pub time : Instant
  pub account : Text
  pub symbol : Text
  pub sec_type : Text
  pub expiration : Text
  pub strike : ℤ
  pub right : Text
  pub side : Text
  pub shares : ℕ
  pub price : ℤ
  pub avg_price : ℤ
  pub currency : Text
  pub exchange : Text
  pub order_id : ℤ
  pub perm_id : ℤ

pub record Lot : Type 0 where
  pub time : Instant
  pub qty : ℕ
  pub avg_price : ℤ
  pub exec_id : Text

pub record InstrumentKey : Type 0 where
  pub account : Text
  pub symbol : Text
  pub sec_type : Text
  pub currency : Text
  pub expiration : Text
  pub strike : ℤ
  pub right : Text

pub data Direction : Type 0 where
  long short : Direction

pub data Status : Type 0 where
  opened closed expired : Status

-- `holding_days` counts in days of 86400 parts, that is in seconds.
pub record RoundTrip : Type 0 where
  pub symbol : Text
  pub sec_type : Text
  pub expiration : Text
  pub strike : ℤ
  pub right : Text
  pub account : Text
  pub currency : Text
  pub direction : Direction
  pub open_time : Instant
  pub close_time : Instant
  pub open_qty : ℕ
  pub close_qty : ℕ
  pub open_avg_price : ℤ
  pub close_avg_price : ℤ
  pub multiplier : ℤ
  pub realized_pnl : ℤ
  pub holding_days : ℤ
  pub status : Status
  pub open_exec_ids : List Text
  pub close_exec_ids : List Text
