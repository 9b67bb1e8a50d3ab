-- ===== src/Broker/Fallback.antt =====
-- `FallbackBroker` (internal/broker/fallback.go). The two brokers are parameters, by what their
-- methods answer; the calls of them that `Connect` makes are kept in a list, in order.
pub mod Session
use optix.Base.{ℕ, Bool, true, false, List, [], ◌∷◌, ◌++◌, Option, none, some, if◌then◌else◌}

pub data Inner : Type 0 where
  primary fallback : Inner

pub record FallbackBroker : Type 0 where
  pub active : Option Inner
  pub using_fallback : Bool

-- `NewFallbackBroker`
abbrev pub new_fallback_broker : FallbackBroker
new_fallback_broker = record { active = none; using_fallback = false }

pub data InnerCall : Type 0 where
  connects disconnects : Inner → InnerCall

pub data ConnectError : Type 0 where
  cancelled both_unavailable : ConnectError

-- What `Connect` meets: whether each broker connects, and whether the context is cancelled by the
-- time that the primary has failed.
pub record Weather : Type 0 where
  pub primary_connects : Bool
  pub is_cancelled : Bool
  pub fallback_connects : Bool

pub record Connected : Type 0 where
  pub error : Option ConnectError
  pub calls : List InnerCall
  pub broker : FallbackBroker

unfoldable pub connect : Weather → FallbackBroker → Connected
connect w fb =
    if w.primary_connects
    then record {
      error = none;
      calls = connects primary ∷ [];
      broker = record { active = some primary; using_fallback = false };
    }
    else if w.is_cancelled
    then record {
      error = some cancelled;
      calls = connects primary ∷ disconnects primary ∷ [];
      broker = fb;
    }
    else if w.fallback_connects
    then record {
      error = none;
      calls = connects primary ∷ disconnects primary ∷ connects fallback ∷ [];
      broker = record { active = some fallback; using_fallback = true };
    }
    else record {
      error = some both_unavailable;
      calls = connects primary ∷ disconnects primary ∷ connects fallback ∷ [];
      broker = fb;
    }

-- The call of `Disconnect`, where there is one.
unfoldable pub disconnect : FallbackBroker → List InnerCall
disconnect fb = elim fb.active [ none ↦ [] | some b ↦ disconnects b ∷ [] ]

pub data SourceName : Type 0 where
  ibkr yahoo_finance : SourceName

unfoldable pub source_name : FallbackBroker → SourceName
source_name fb = if fb.using_fallback then yahoo_finance else ibkr

-- The optional interfaces.
pub data Capability : Type 0 where
  pinger oi_fetcher market_depth_fetcher account_reader option_quoter : Capability
  detailed_option_quoter oi_spot_fetcher : Capability

-- The methods that are passed on to the active broker.
pub data Method : Type 0 where
  ping get_quote get_historical_bars get_option_chain get_option_chain_with_oi : Method
  get_market_depth get_positions get_executions get_option_quote get_option_quote_details : Method
  get_option_chain_with_spot : Method

pub data CallError : Type 0 where
  not_connected oi_not_supported market_depth_not_supported account_not_supported : CallError
  market_data_not_supported : CallError

-- What a method does: it passes the call on, answers by itself, or calls a method of no broker.
pub data Answer : Type 0 where
  passed_on : Inner → Answer
  nothing_to_do : Answer
  refused : CallError → Answer
  nil_dereference : Answer

-- The three methods that every broker has look at no `active == nil`.
unfoldable pub direct : FallbackBroker → Answer
direct fb = elim fb.active [ none ↦ nil_dereference | some b ↦ passed_on b ]

-- A method for which the active broker needs a capability, with the answer where it lacks it.
unfoldable pub guarded : (Inner → Capability → Bool) → Capability → Answer → FallbackBroker → Answer
guarded has need otherwise fb = elim fb.active [
  | none ↦ refused not_connected
  | some b ↦ if has b need then passed_on b else otherwise
]

-- `GetOptionChainWithSpot` asserts the interface of a nil broker too, which fails.
unfoldable pub spot_chain : (Inner → Capability → Bool) → FallbackBroker → Answer
spot_chain has fb = elim fb.active [
  | none ↦ refused oi_not_supported
  | some b ↦ if has b oi_spot_fetcher then passed_on b else refused oi_not_supported
]

unfoldable pub call : (Inner → Capability → Bool) → Method → FallbackBroker → Answer
unfolding direct guarded spot_chain
call has ping fb = guarded has pinger nothing_to_do fb
call has get_quote fb = direct fb
call has get_historical_bars fb = direct fb
call has get_option_chain fb = direct fb
call has get_option_chain_with_oi fb = guarded has oi_fetcher (refused oi_not_supported) fb
call has get_market_depth fb =
    guarded has market_depth_fetcher (refused market_depth_not_supported) fb
call has get_positions fb = guarded has account_reader (refused account_not_supported) fb
call has get_executions fb = guarded has account_reader (refused account_not_supported) fb
call has get_option_quote fb = guarded has option_quoter (refused account_not_supported) fb
call has get_option_quote_details fb =
    guarded has detailed_option_quoter (refused market_data_not_supported) fb
call has get_option_chain_with_spot fb = spot_chain has fb
