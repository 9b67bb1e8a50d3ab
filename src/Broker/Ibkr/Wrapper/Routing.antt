-- ===== src/Broker/Ibkr/Wrapper/Routing.antt =====
-- `Error`: where an error of IB goes (internal/broker/ibkr/wrapper.go).
use optix.Base.{Bool, true, false, ◌&&◌, ◌||◌, not, if◌then◌else◌, Option, none, some}
use optix.Base.Int.{ℤ, pos, ltb_ℤ, eqb_ℤ}
use optix.Broker.Ibkr.Quote.{PendingQuote}
use optix.Broker.Ibkr.Registry.{get, has, modify}
use optix.Broker.Ibkr.Pending.{
  ApiError, PendingOi, PendingBars, PendingOptParams, PendingContractDetails, PendingExecutions,
  PendingDepth,
}
use optix.Broker.Ibkr.Wrapper.{Wrapper}

-- A send with a default: what does not fit is dropped.
abbrev pub offer {ℓ} : {A : Type ℓ} → A → Option A → Option A
offer a none = some a
offer a (some b) = some b

-- `close(done)`, once.
abbrev pub end_quote : PendingQuote → PendingQuote
end_quote p = record p { done = true }

abbrev pub end_bars : {Bar : Type 0} → PendingBars Bar → PendingBars Bar
end_bars p = record p { done = true }

abbrev pub end_params : PendingOptParams → PendingOptParams
end_params p = record p { done = true }

abbrev pub end_details : PendingContractDetails → PendingContractDetails
end_details p = record p { done = true }

abbrev pub end_oi : PendingOi → PendingOi
end_oi p = record p { done = true }

abbrev pub end_executions :
    {Execution : Type 0} → PendingExecutions Execution → PendingExecutions Execution
end_executions p = record p { done = true }

-- `strictErrorCodes`
abbrev pub is_strict_code : ℤ → Bool
is_strict_code code =
    eqb_ℤ code (pos 200) || eqb_ℤ code (pos 162) || eqb_ℤ code (pos 300) || eqb_ℤ code (pos 321)

abbrev pub client_id_in_use : ℤ
client_id_in_use = pos 326

module _ {Bar Position Execution : Type 0} where
  abbrev pub is_strict : ℤ → Wrapper Bar Position Execution → Bool
  is_strict id w = elim (get id w.strict_req_ids) [ none ↦ false | some b ↦ b ]

  -- The error reaches the request's channel, and the requests of its identifier end.
  unfoldable pub deliver :
      ℤ → ApiError → Wrapper Bar Position Execution → Wrapper Bar Position Execution
  unfolding has modify
  deliver id e w =
      if has id w.errors
      then record w {
        errors = modify id (offer e) w.errors;
        quotes = modify id end_quote w.quotes;
        bars = modify id end_bars w.bars;
        opt_params = modify id end_params w.opt_params;
        contract_details = modify id end_details w.contract_details;
        oi = modify id end_oi w.oi;
        executions = modify id end_executions w.executions;
      }
      else w

  -- The codes below 2000 that are dropped.
  unfoldable pub is_dropped : ℤ → ℤ → Wrapper Bar Position Execution → Bool
  unfolding has get
  is_dropped id code w =
      ltb_ℤ code (pos 2000)
      && not (has id w.depth && eqb_ℤ code (pos 309))
      && (not (is_strict id w) || not (is_strict_code code))

  -- `Error` after its notices.
  unfoldable pub route :
      ℤ → ApiError → Wrapper Bar Position Execution → Wrapper Bar Position Execution
  unfolding deliver is_dropped
  route id e w =
      if eqb_ℤ e.code client_id_in_use
      then record w { connect_errors = offer e w.connect_errors }
      else if is_dropped id e.code w
      then w
      else if eqb_ℤ e.code (pos 10167)
      then w
      else deliver id e w

  -- A notice on the subscription is kept for the request of open interest.
  unfoldable pub note :
      ℤ → ApiError → Wrapper Bar Position Execution → Wrapper Bar Position Execution
  unfolding modify
  note id e w =
      if eqb_ℤ e.code (pos 354) || eqb_ℤ e.code (pos 10167)
      then record w { oi = modify id (λ (p : PendingOi). record p { data_notice = some e }) w.oi }
      else w

  unfoldable pub error :
      ℤ → ApiError → Wrapper Bar Position Execution → Wrapper Bar Position Execution
  unfolding has modify note route
  error id e w =
      if eqb_ℤ e.code (pos 2152) && has id w.depth
      then record w {
        depth = modify id (λ (p : PendingDepth). record p { notice = some e }) w.depth;
      }
      else route id e (note id e w)
