-- ===== src/Broker/Ibkr/Wrapper.antt =====
-- `IbWrapper`: the requests that wait, by their identifiers, and the callbacks that ibapi makes
-- (internal/broker/ibkr/wrapper.go). A buffered channel of one is what it holds; `done` of a request
-- says that its channel is closed. The bars, positions and executions are of ibapi's types, converted.
-- A caller's pointer to its request is the entry of the map while it is registered.
pub mod Callbacks
pub mod OptParams
pub mod Routing
pub mod Errors
pub mod Ends
pub mod Delivery
use optix.Base.{
  ℕ, Bool, true, false, ◌&&◌, ◌||◌, not, if◌then◌else◌, List, [], ◌∷◌, ◌++◌, Option, none, some,
}
use optix.Base.Int.{ℤ, pos, ltb_ℤ, eqb_ℤ}
use optix.Base.Text.{Text}
use optix.Broker.Ibkr.Quote.{PendingQuote, new_quote}
use optix.Broker.Ibkr.Registry.{Registry, get, has, put, delete, modify}
use optix.Broker.Ibkr.Float.{zero_float}
use optix.Broker.Ibkr.Pending.{
  ApiError, PendingOi, PendingBars, PendingOptParams, PendingContractDetails, PendingExecutions,
  PendingDepth,
}

pub record PendingPositions (Position : Type 0) : Type 0 where
  pub positions : List Position
  pub done : Bool

pub record Wrapper (Bar Position Execution : Type 0) : Type 0 where
  pub quotes : Registry PendingQuote
  pub bars : Registry (PendingBars Bar)
  pub opt_params : Registry PendingOptParams
  pub contract_details : Registry PendingContractDetails
  pub oi : Registry PendingOi
  pub depth : Registry PendingDepth
  pub positions : Option (PendingPositions Position)
  pub executions : Registry (PendingExecutions Execution)
  pub errors : Registry (Option ApiError)
  pub strict_req_ids : Registry Bool
  pub next_valid_id : Option ℤ
  pub connect_errors : Option ApiError
  pub disconnected : Bool
  pub pinged : Bool

module _ {Bar Position Execution : Type 0} where
  abbrev pub new_wrapper : Wrapper Bar Position Execution
  new_wrapper = record {
    quotes = [];
    bars = [];
    opt_params = [];
    contract_details = [];
    oi = [];
    depth = [];
    positions = none;
    executions = [];
    errors = [];
    strict_req_ids = [];
    next_valid_id = none;
    connect_errors = none;
    disconnected = false;
    pinged = false;
  }

  unfoldable pub register_quote :
      ℤ → Text → Wrapper Bar Position Execution → Wrapper Bar Position Execution
  unfolding put
  register_quote id right w = record w { quotes = put id (new_quote right) w.quotes }

  unfoldable pub register_bars : ℤ → Wrapper Bar Position Execution → Wrapper Bar Position Execution
  unfolding put
  register_bars id w = record w { bars = put id (record { bars = []; done = false }) w.bars }

  unfoldable pub register_opt_params :
      ℤ → Wrapper Bar Position Execution → Wrapper Bar Position Execution
  unfolding put
  register_opt_params id w = record w {
    opt_params =
        put id
          (record {
            exp_set = [];
            strike_set = [];
            expirations = [];
            strikes = [];
            multiplier = [];
            done = false;
          })
          w.opt_params;
  }

  unfoldable pub register_contract_details :
      ℤ → Wrapper Bar Position Execution → Wrapper Bar Position Execution
  unfolding put
  register_contract_details id w = record w {
    contract_details = put id (record { con_id = pos 0; done = false }) w.contract_details;
  }

  unfoldable pub register_oi :
      ℤ → Text → Wrapper Bar Position Execution → Wrapper Bar Position Execution
  unfolding put
  register_oi id right w = record w {
    oi =
        put id
          (record {
            wait_for_metrics = false;
            data_notice = none;
            right = right;
            volume = pos 0;
            open_interest = pos 0;
            iv = zero_float;
            done = false;
          })
          w.oi;
  }

  unfoldable pub register_depth :
      ℤ → ℤ → Wrapper Bar Position Execution → Wrapper Bar Position Execution
  unfolding put
  register_depth id levels w = record w {
    depth = put id (record { notice = none; levels = []; want = levels; done = false }) w.depth;
  }

  unfoldable pub register_positions :
      Wrapper Bar Position Execution → Wrapper Bar Position Execution
  register_positions w = record w { positions = some (record { positions = []; done = false }) }

  unfoldable pub unregister_positions :
      Wrapper Bar Position Execution → Wrapper Bar Position Execution
  unregister_positions w = record w { positions = none }

  unfoldable pub register_executions :
      ℤ → Wrapper Bar Position Execution → Wrapper Bar Position Execution
  unfolding put
  register_executions id w = record w {
    executions = put id (record { executions = []; done = false }) w.executions;
  }

  unfoldable pub register_error :
      ℤ → Wrapper Bar Position Execution → Wrapper Bar Position Execution
  unfolding put
  register_error id w = record w { errors = put id none w.errors }

  unfoldable pub register_strict_error :
      ℤ → Wrapper Bar Position Execution → Wrapper Bar Position Execution
  unfolding put
  register_strict_error id w = record w {
    errors = put id none w.errors;
    strict_req_ids = put id true w.strict_req_ids;
  }

  unfoldable pub unregister : ℤ → Wrapper Bar Position Execution → Wrapper Bar Position Execution
  unfolding delete
  unregister id w = record w {
    quotes = delete id w.quotes;
    bars = delete id w.bars;
    opt_params = delete id w.opt_params;
    contract_details = delete id w.contract_details;
    oi = delete id w.oi;
    depth = delete id w.depth;
    executions = delete id w.executions;
    errors = delete id w.errors;
    strict_req_ids = delete id w.strict_req_ids;
  }
