-- ===== src/Broker/Ibkr/Quote.antt =====
-- The quote that the ticks of a request fill (internal/broker/ibkr/wrapper.go, `pendingQuote`). `unset`
-- is ibapi's UNSET_FLOAT, and the conversion to int32, which Go leaves open out of range, is a parameter.
pub mod Fields
pub mod Resolved
pub mod History
pub mod Sides
use optix.Base.{ℕ, Bool, true, false, ◌&&◌, ◌||◌, not, if◌then◌else◌, List, [], ◌∷◌}
use optix.Broker.Ibkr.Ticks.{
  price_field, iv_field, is_model, size_field, TickType, bid, ask, last, close, mark_price,
  delayed_bid, delayed_ask, delayed_last, delayed_close, model_option, last_option_computation,
  bid_option_computation, ask_option_computation, delayed_model_option, delayed_last_option,
  delayed_bid_option, delayed_ask_option, volume, delayed_volume, option_call_volume,
  option_put_volume, open_interest, tick_86, option_call_open_interest, option_put_open_interest,
  other_tick, PriceField, to_bid, to_ask, to_mark, to_last, to_close, to_none, IvField, from_model,
  from_last, from_bid, from_ask, from_none, SizeField, to_volume, to_call_volume, to_put_volume,
  to_interest, to_call_interest, to_put_interest, to_no_size,
}
use optix.Base.Int.{ℤ, pos, ltb_ℤ}
use optix.Base.Text.{Text, codes, text_eq}
use optix.Broker.Ibkr.Float.{
  Float, finite, nan, zero_float, is_positive, is_at_most_zero, is_nonzero, is_number, mean,
}

pub record Greeks : Type 0 where
  pub price : Float
  pub delta : Float
  pub gamma : Float
  pub theta : Float
  pub vega : Float

pub record PendingQuote : Type 0 where
  pub right : Text
  pub bid : Float
  pub ask : Float
  pub mark : Float
  pub last : Float
  pub close : Float
  pub mark_from_tick : Bool
  pub volume : Float
  pub open_interest : ℤ
  pub implied_volatility : Float
  pub iv_model : Float
  pub iv_last : Float
  pub iv_bid : Float
  pub iv_ask : Float
  pub greeks : Greeks
  pub market_data_type : Text
  pub done : Bool

abbrev pub new_quote : Text → PendingQuote
new_quote right = record {
  right = right;
  bid = zero_float;
  ask = zero_float;
  mark = zero_float;
  last = zero_float;
  close = zero_float;
  mark_from_tick = false;
  volume = zero_float;
  open_interest = pos 0;
  implied_volatility = zero_float;
  iv_model = zero_float;
  iv_last = zero_float;
  iv_bid = zero_float;
  iv_ask = zero_float;
  greeks = record {
    price = zero_float;
    delta = zero_float;
    gamma = zero_float;
    theta = zero_float;
    vega = zero_float;
  };
  market_data_type = [];
  done = false;
}

unfoldable pub put_price : PriceField → Float → PendingQuote → PendingQuote
put_price to_bid price q = record q { bid = price }
put_price to_ask price q = record q { ask = price }
put_price to_mark price q = record q { mark = price; mark_from_tick = true }
put_price to_last price q = record q { last = price }
put_price to_close price q = record q { close = price }
put_price to_none price q = q

unfoldable pub set_price : TickType → Float → PendingQuote → PendingQuote
unfolding put_price price_field
set_price t price q = if is_at_most_zero price then q else put_price (price_field t) price q

unfoldable pub complete : PendingQuote → Bool
complete q =
    is_positive q.bid
    && is_positive q.ask
    && (is_positive q.mark || is_positive q.last)
    && is_positive q.implied_volatility
    && is_nonzero q.greeks.delta

unfoldable pub maybe_complete : PendingQuote → PendingQuote
unfolding complete
maybe_complete q = if complete q then record q { done = true } else q

unfoldable pub set_volume : Float → PendingQuote → PendingQuote
set_volume v q = if is_at_most_zero v then q else record q { volume = v }

unfoldable pub set_open_interest : ℤ → PendingQuote → PendingQuote
set_open_interest n q = if ltb_ℤ (pos 0) n then record q { open_interest = n } else q

abbrev pub is_empty : Text → Bool
is_empty [] = true
is_empty (c ∷ s) = false

unfoldable pub set_market_data_type : Text → PendingQuote → PendingQuote
set_market_data_type t q = if is_empty t then q else record q { market_data_type = t }

-- `resolveIVLocked`
unfoldable pub resolve_iv : Float → Float → Float → Float → Float
unfolding mean
resolve_iv iv_model iv_last iv_bid iv_ask =
    if is_positive iv_model
    then iv_model
    else if is_positive iv_last
    then iv_last
    else if is_positive iv_bid && is_positive iv_ask
    then mean iv_bid iv_ask
    else if is_positive iv_bid
    then iv_bid
    else iv_ask

unfoldable pub put_iv : IvField → Float → PendingQuote → PendingQuote
put_iv from_model iv q = record q { iv_model = iv }
put_iv from_last iv q = record q { iv_last = iv }
put_iv from_bid iv q = record q { iv_bid = iv }
put_iv from_ask iv q = record q { iv_ask = iv }
put_iv from_none iv q = q

-- The fields of a `TickOptionComputation`.
pub record Computation : Type 0 where
  pub implied_vol : Float
  pub delta : Float
  pub opt_price : Float
  pub gamma : Float
  pub vega : Float
  pub theta : Float

module _ (unset : ℤ) where
  abbrev pub is_set_positive : Float → Bool
  is_set_positive x = is_positive x && not (is_number unset x)

  unfoldable pub set_iv : IvField → Float → PendingQuote → PendingQuote
  unfolding put_iv resolve_iv
  set_iv f iv q =
      let q' = put_iv f iv q in
      if is_set_positive iv
      then record q' { implied_volatility = resolve_iv q'.iv_model q'.iv_last q'.iv_bid q'.iv_ask }
      else q

  unfoldable pub set_model_price : IvField → Float → PendingQuote → PendingQuote
  set_model_price f price q =
      if is_set_positive price
      then record q {
        greeks = record (q.greeks) { price = price };
        mark = if is_model f && not q.mark_from_tick then price else q.mark;
      }
      else q

  -- A Greek that is not UNSET_FLOAT replaces the one before.
  abbrev pub or_before : Float → Float → Float
  or_before x before = if is_number unset x then before else x

  unfoldable pub set_option_computation : TickType → Computation → PendingQuote → PendingQuote
  unfolding set_iv set_model_price iv_field
  set_option_computation t c q =
      let f = iv_field t in
      let q' = set_model_price f c.opt_price (set_iv f c.implied_vol q) in
      record q' {
        greeks = record (q'.greeks) {
          delta = or_before c.delta q'.greeks.delta;
          gamma = or_before c.gamma q'.greeks.gamma;
          theta = or_before c.theta q'.greeks.theta;
          vega = or_before c.vega q'.greeks.vega;
        };
      }

abbrev pub is_right : Text → PendingQuote → Bool
is_right r q = text_eq q.right r

module _ (to_int32 : Float → ℤ) where
  unfoldable pub put_size : SizeField → Float → PendingQuote → PendingQuote
  unfolding set_volume set_open_interest text_eq
  put_size to_volume size q = set_volume size q
  put_size to_call_volume size q = if is_right (codes "C") q then set_volume size q else q
  put_size to_put_volume size q = if is_right (codes "P") q then set_volume size q else q
  put_size to_interest size q = set_open_interest (to_int32 size) q
  put_size to_call_interest size q =
      if is_right (codes "C") q then set_open_interest (to_int32 size) q else q
  put_size to_put_interest size q =
      if is_right (codes "P") q then set_open_interest (to_int32 size) q else q
  put_size to_no_size size q = q

-- What arrives for a quote: `TickPrice`, `TickSize`, `TickOptionComputation`, `MarketDataType`.
pub data Tick : Type 0 where
  price_tick : TickType → Float → Tick
  size_tick : TickType → Float → Tick
  computation_tick : TickType → Computation → Tick
  data_type_tick : Text → Tick

module _ (unset : ℤ) (to_int32 : Float → ℤ) where
  unfoldable pub on_tick : Tick → PendingQuote → PendingQuote
  unfolding maybe_complete set_price put_size size_field set_option_computation set_market_data_type
  on_tick (price_tick t price) q = maybe_complete (set_price t price q)
  on_tick (size_tick t size) q = put_size to_int32 (size_field t) size q
  on_tick (computation_tick t c) q = maybe_complete (set_option_computation unset t c q)
  on_tick (data_type_tick name) q = set_market_data_type name q
