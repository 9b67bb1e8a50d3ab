-- ===== src/Broker/Ibkr/Tests.antt =====
-- Ticks and errors of two requests, and the theorems at them.
use optix.Base.{none, false, ◌≤◌, ◌==◌, if◌then◌else◌, ℕ, ◌≡◌, refl, true, List, [], ◌∷◌, some}
use optix.Base.Int.{ℤ, pos}
use optix.Base.Text.{codes, text_eq}
use optix.Broker.Ibkr.Float.{Float, finite, plus_infinity, minus_infinity, nan, zero_float}
use optix.Broker.Ibkr.Ticks.{
  bid, mark_price, model_option, option_put_volume, open_interest, is_model,
}
use optix.Broker.Ibkr.Quote.{Computation, Tick, price_tick, size_tick, computation_tick, resolve_iv}
use optix.Broker.Ibkr.Quote.Fields.{
  or_else, is_bid, is_ask, is_mark, is_last, price_of, is_last_iv, is_bid_iv, is_ask_iv, iv_of,
  model_price_of,
}
use optix.Broker.Ibkr.Quote.History.{newest, quote_after, quote_after_lem}
use optix.Broker.Ibkr.Registry.{get, has}
use optix.Broker.Ibkr.Pending.{ApiError}
use optix.Broker.Ibkr.Wrapper.{
  Wrapper, new_wrapper, register_quote, register_error, register_strict_error, register_depth,
}
use optix.Broker.Ibkr.Wrapper.Routing.{error}
use optix.Broker.Ibkr.Wrapper.Errors.{IsRouted, error-IsRouted, reaches}
use optix.Broker.Ibkr.Connect.{Answers, client_id_candidates, run_client_id_attempts}
use optix.Broker.Ibkr.Connect.Candidates.{AreCandidates}
use optix.Broker.Ibkr.Connect.Ends.{timeouts, AreHeard, IsEnd}
use optix.Broker.Ibkr.Connect.Attempts.{Connects, are_retried, run_client_id_attempts_lem}
use optix.Broker.Ibkr.Wrapper.Delivery.{
  Callback, IsQuote, has_end, end_for, error_for, price_for, size_for, ticks_for, after_callbacks,
  after_callbacks-IsQuote,
}

-- A conversion of the numbers.
abbrev whole : Float → ℤ
whole (finite v) = v
whole plus_infinity = pos 0
whole minus_infinity = pos 0
whole nan = pos 0

abbrev unset : ℤ
unset = pos 1000000

abbrev model : Computation
model = record {
  implied_vol = finite (pos 30);
  delta = finite (pos 5);
  opt_price = finite (pos 120);
  gamma = finite unset;
  vega = finite unset;
  theta = finite unset;
}

-- A mark tick, and a later price of the model.
abbrev ticks : List Tick
ticks =
    computation_tick model_option model
    ∷ size_tick option_put_volume (finite (pos 9))
    ∷ price_tick mark_price (finite (pos 110))
    ∷ price_tick bid (finite (pos 100))
    ∷ []

mark_stays : (quote_after unset whole (codes "C") ticks).mark ≡ finite (pos 110)
unfolding quote_after text_eq
mark_stays = refl

put_volume_ignored : (quote_after unset whole (codes "C") ticks).volume ≡ finite (pos 0)
unfolding quote_after text_eq
put_volume_ignored = refl

quote_after_lem_example :
    let q = quote_after unset whole (codes "C") ticks in
    (q.bid ≡ or_else (newest (price_of is_bid) ticks) zero_float)
    × (q.ask ≡ or_else (newest (price_of is_ask) ticks) zero_float)
    × (q.last ≡ or_else (newest (price_of is_last) ticks) zero_float)
    × (q.mark
        ≡ or_else
            (newest (price_of is_mark) ticks)
            (or_else (newest (model_price_of unset) ticks) zero_float))
    × (q.implied_volatility
        ≡ resolve_iv
            (or_else (newest (iv_of unset is_model) ticks) zero_float)
            (or_else (newest (iv_of unset is_last_iv) ticks) zero_float)
            (or_else (newest (iv_of unset is_bid_iv) ticks) zero_float)
            (or_else (newest (iv_of unset is_ask_iv) ticks) zero_float))
quote_after_lem_example = quote_after_lem unset whole (codes "C") ticks

abbrev Empty : Type 0
Empty = Wrapper ℕ ℕ ℕ

abbrev two_requests : Empty
two_requests = register_depth (pos 9) (pos 1) (
    register_error (pos 9)
      (register_strict_error (pos 7) (register_quote (pos 7) (codes "C") new_wrapper)))

abbrev no_definition : ApiError
no_definition = record { code = pos 200; message = codes "No security definition" }

strict_reached : reaches (pos 7) (pos 200) two_requests ≡ true
unfolding register_depth register_error register_strict_error register_quote has
strict_reached = refl

error-IsRouted_example :
    IsRouted (pos 7) no_definition two_requests (error (pos 7) no_definition two_requests)
error-IsRouted_example = error-IsRouted (pos 7) no_definition two_requests

-- A price, the end of the snapshot, and callbacks for another request.
abbrev callbacks : List Callback
callbacks =
    end_for (pos 7)
    ∷ size_for (pos 9) open_interest (finite (pos 4))
    ∷ error_for (pos 9) no_definition
    ∷ price_for (pos 7) bid (finite (pos 100))
    ∷ []

after_callbacks-IsQuote_example :
    IsQuote
      (has_end (pos 7) callbacks)
      (quote_after unset whole (codes "C") (ticks_for (pos 7) callbacks))
      (get
        (pos 7)
        (after_callbacks unset unset whole whole callbacks
          (register_quote (pos 7) (codes "C") two_requests)).quotes)
after_callbacks-IsQuote_example =
    after_callbacks-IsQuote unset unset whole whole two_requests (pos 7) (codes "C") callbacks

-- The gateway times out on the primary identifier, and takes the next one.
abbrev wedged : Answers
wedged = record {
  connect = λ (n : ℕ). if n == 0 then some (record { retryable = true; timeout = true }) else none;
  is_done = λ n. false;
  is_done_waiting = λ n. false;
}

second_connects :
    (run_client_id_attempts wedged (client_id_candidates (pos 30) (pos 12))).connected
    ≡ some (pos 2500060)
unfolding run_client_id_attempts client_id_candidates
second_connects = refl

run_client_id_attempts_lem_example :
    let ids = client_id_candidates (pos 30) (pos 12) in
    let o = run_client_id_attempts wedged ids in
    AreCandidates (pos 30) ids
    × Connects ids o.connected o.errors o.dialled
    × (timeouts o.errors ≤ 2)
    × (are_retried o.errors o.connected ≡ true)
    × AreHeard wedged 0 o.errors
    × IsEnd wedged 0 0 ids o
run_client_id_attempts_lem_example = run_client_id_attempts_lem wedged (pos 30) (pos 12)
