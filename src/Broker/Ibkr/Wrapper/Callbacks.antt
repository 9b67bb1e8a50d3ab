-- ===== src/Broker/Ibkr/Wrapper/Callbacks.antt =====
-- The callbacks that bring data (internal/broker/ibkr/wrapper.go). A callback without a request of its
-- identifier changes nothing, since there is no entry to modify.
use optix.Base.{Bool, true, false, ◌&&◌, if◌then◌else◌, [], ◌∷◌, ◌++◌, Option, none, some}
use optix.Base.Int.{ℤ, pos, eqb_ℤ}
use optix.Base.Text.{Text, codes, text_eq}
use optix.Broker.Ibkr.Float.{Float}
use optix.Broker.Ibkr.Ticks.{
  TickType, volume, delayed_volume, tick_86, option_call_open_interest, option_put_open_interest,
  SizeField, to_no_size, size_field,
}
use optix.Broker.Ibkr.Quote.{
  Computation, price_tick, size_tick, computation_tick, data_type_tick, on_tick,
}
use optix.Broker.Ibkr.Registry.{has, modify}
use optix.Broker.Ibkr.Pending.{
  PendingOi, PendingBars, PendingContractDetails, PendingExecutions, set_oi, set_oi_iv,
  set_oi_volume, update_depth,
}
use optix.Broker.Ibkr.Wrapper.{Wrapper}
use optix.Broker.Ibkr.Wrapper.Routing.{end_quote, end_bars, end_details, end_executions}

-- `TickSize` for a request of open interest.
module _ (max_int64 : ℤ) (to_int32 to_int64 : Float → ℤ) where
  unfoldable pub put_oi_size : TickType → Float → PendingOi → PendingOi
  unfolding set_oi set_oi_volume text_eq
  put_oi_size t size p = elim t [
    | volume ↦ set_oi_volume max_int64 to_int64 size p
    | delayed_volume ↦ set_oi_volume max_int64 to_int64 size p
    | tick_86 ↦ set_oi (to_int32 size) p
    | option_call_open_interest ↦
        if text_eq p.right (codes "C") then set_oi (to_int32 size) p else p
    | option_put_open_interest ↦ if text_eq p.right (codes "P") then set_oi (to_int32 size) p else p
    | _ ↦ p
  ]

-- A tick that the `switch` for quotes has a case for goes no further.
abbrev pub is_taken : SizeField → Bool
is_taken f = elim f [ to_no_size ↦ false | _ ↦ true ]

-- ibapi's kinds of market data, and `marketDataTypeName`.
pub data MarketDataType : Type 0 where
  realtime frozen delayed delayed_frozen other_type : MarketDataType

unfoldable pub market_data_type_name : MarketDataType → Text
market_data_type_name realtime = codes "real_time"
market_data_type_name frozen = codes "frozen"
market_data_type_name delayed = codes "delayed"
market_data_type_name delayed_frozen = codes "delayed_frozen"
market_data_type_name other_type = codes "unknown"

module _ {Bar Position Execution : Type 0} where
  unfoldable pub on_next_valid_id :
      ℤ → Wrapper Bar Position Execution → Wrapper Bar Position Execution
  on_next_valid_id id w = elim w.next_valid_id [
    | none ↦ record w { next_valid_id = some id }
    | some i ↦ w
  ]

  unfoldable pub update_mkt_depth :
      ℤ
      → ℤ
      → ℤ
      → ℤ
      → Float
      → Float
      → Wrapper Bar Position Execution
      → Wrapper Bar Position Execution
  unfolding modify update_depth
  update_mkt_depth id position operation side price size w = record w {
    depth = modify id (update_depth position operation side price size) w.depth;
  }

  module _ (unset max_int64 : ℤ) (to_int32 to_int64 : Float → ℤ) where
    unfoldable pub tick_price :
        ℤ → TickType → Float → Wrapper Bar Position Execution → Wrapper Bar Position Execution
    unfolding modify on_tick
    tick_price id t price w = record w {
      quotes = modify id (on_tick unset to_int32 (price_tick t price)) w.quotes;
    }

    unfoldable pub tick_size :
        ℤ → TickType → Float → Wrapper Bar Position Execution → Wrapper Bar Position Execution
    unfolding modify has on_tick put_oi_size size_field
    tick_size id t size w =
        if has id w.quotes && is_taken (size_field t)
        then record w { quotes = modify id (on_tick unset to_int32 (size_tick t size)) w.quotes }
        else record w { oi = modify id (put_oi_size max_int64 to_int32 to_int64 t size) w.oi }

    unfoldable pub tick_option_computation :
        ℤ → TickType → Computation → Wrapper Bar Position Execution → Wrapper Bar Position Execution
    unfolding modify on_tick set_oi_iv
    tick_option_computation id t c w = record w {
      oi = modify id (set_oi_iv c.implied_vol) w.oi;
      quotes = modify id (on_tick unset to_int32 (computation_tick t c)) w.quotes;
    }

    unfoldable pub on_market_data_type :
        ℤ → MarketDataType → Wrapper Bar Position Execution → Wrapper Bar Position Execution
    unfolding modify on_tick market_data_type_name
    on_market_data_type id n w = record w {
      quotes =
          modify id (on_tick unset to_int32 (data_type_tick (market_data_type_name n))) w.quotes;
    }

  unfoldable pub tick_snapshot_end :
      ℤ → Wrapper Bar Position Execution → Wrapper Bar Position Execution
  unfolding modify
  tick_snapshot_end id w = record w { quotes = modify id end_quote w.quotes }

  unfoldable pub historical_data :
      ℤ → Bar → Wrapper Bar Position Execution → Wrapper Bar Position Execution
  unfolding modify
  historical_data id bar w = record w {
    bars = modify id (λ (p : PendingBars Bar). record p { bars = p.bars ++ bar ∷ [] }) w.bars;
  }

  unfoldable pub historical_data_end :
      ℤ → Wrapper Bar Position Execution → Wrapper Bar Position Execution
  unfolding modify
  historical_data_end id w = record w { bars = modify id end_bars w.bars }

  -- The identifier of the first contract that has one.
  unfoldable pub on_contract_details :
      ℤ → ℤ → Wrapper Bar Position Execution → Wrapper Bar Position Execution
  unfolding modify
  on_contract_details id con_id w = record w {
    contract_details =
        modify id
          (λ (p : PendingContractDetails).
            if eqb_ℤ p.con_id (pos 0) then record p { con_id = con_id } else p)
          w.contract_details;
  }

  unfoldable pub contract_details_end :
      ℤ → Wrapper Bar Position Execution → Wrapper Bar Position Execution
  unfolding modify
  contract_details_end id w = record w {
    contract_details = modify id end_details w.contract_details;
  }

  unfoldable pub on_position :
      Position → Wrapper Bar Position Execution → Wrapper Bar Position Execution
  on_position x w = elim w.positions [
    | none ↦ w
    | some p ↦ record w { positions = some (record p { positions = p.positions ++ x ∷ [] }) }
  ]

  -- To close the channel a second time is a panic: there is no state after it.
  unfoldable pub position_end :
      Wrapper Bar Position Execution → Option (Wrapper Bar Position Execution)
  position_end w = elim w.positions [
    | none ↦ some w
    | some p ↦
        if p.done then none else some (record w { positions = some (record p { done = true }) })
  ]

  unfoldable pub exec_details :
      ℤ → Execution → Wrapper Bar Position Execution → Wrapper Bar Position Execution
  unfolding modify
  exec_details id x w = record w {
    executions =
        modify id
          (λ (p : PendingExecutions Execution). record p { executions = p.executions ++ x ∷ [] })
          w.executions;
  }

  unfoldable pub exec_details_end :
      ℤ → Wrapper Bar Position Execution → Wrapper Bar Position Execution
  unfolding modify
  exec_details_end id w = record w { executions = modify id end_executions w.executions }

  unfoldable pub connection_closed : Wrapper Bar Position Execution → Wrapper Bar Position Execution
  connection_closed w = record w { disconnected = true }

  unfoldable pub current_time : Wrapper Bar Position Execution → Wrapper Bar Position Execution
  current_time w = record w { pinged = true }
