-- ===== src/Broker/Ibkr/Wrapper/Ends.antt =====
-- A quote that has ended takes its ticks as one that has not.
use optix.Base.{◌≡◌, refl, ◌∙◌, ap, Bool-cases, inl, inr, arith}
use optix.Base.Int.{ℤ}
use optix.Base.Text.{Text}
use optix.Broker.Ibkr.Float.{Float, is_at_most_zero}
use optix.Broker.Ibkr.Ticks.{
  TickType, PriceField, to_bid, to_ask, to_mark, to_last, to_close, to_none, price_field, SizeField,
  to_volume, to_call_volume, to_put_volume, to_interest, to_call_interest, to_put_interest,
  to_no_size, size_field, IvField, from_model, from_last, from_bid, from_ask, from_none, iv_field,
}
use optix.Broker.Ibkr.Quote.{
  Computation, PendingQuote, put_price, set_price, complete, maybe_complete, set_volume,
  set_open_interest, set_market_data_type, put_iv, set_iv, set_model_price, set_option_computation,
  put_size, Tick, price_tick, size_tick, computation_tick, data_type_tick, on_tick,
}
use optix.Broker.Ibkr.Wrapper.Routing.{end_quote}

put_price-end :
    (f : PriceField) (price : Float) (q : PendingQuote)
    → put_price f price (end_quote q) ≡ end_quote (put_price f price q)
unfolding put_price
put_price-end to_bid price q = refl
put_price-end to_ask price q = refl
put_price-end to_mark price q = refl
put_price-end to_last price q = refl
put_price-end to_close price q = refl
put_price-end to_none price q = refl

set_price-end :
    (t : TickType) (price : Float) (q : PendingQuote)
    → set_price t price (end_quote q) ≡ end_quote (set_price t price q)
unfolding set_price
set_price-end t price q = elim (Bool-cases (is_at_most_zero price)) [
  | inl e ↦ rw e refl
  | inr e ↦ rw e (put_price-end (price_field t) price q)
]

complete-end : (q : PendingQuote) → complete (end_quote q) ≡ complete q
unfolding complete
complete-end q = refl

maybe_complete-end :
    (q : PendingQuote) → maybe_complete (end_quote q) ≡ end_quote (maybe_complete q)
unfolding maybe_complete
maybe_complete-end q = elim (Bool-cases (complete q)) [
  | inl e ↦ rw (complete-end q ∙ e) refl
  | inr e ↦ rw (complete-end q ∙ e) refl
]

set_volume-end :
    (v : Float) (q : PendingQuote) → set_volume v (end_quote q) ≡ end_quote (set_volume v q)
unfolding set_volume
set_volume-end v q = ground arith

set_open_interest-end :
    (n : ℤ) (q : PendingQuote)
    → set_open_interest n (end_quote q) ≡ end_quote (set_open_interest n q)
unfolding set_open_interest
set_open_interest-end n q = ground arith

set_market_data_type-end :
    (t : Text) (q : PendingQuote)
    → set_market_data_type t (end_quote q) ≡ end_quote (set_market_data_type t q)
unfolding set_market_data_type
set_market_data_type-end t q = ground arith

put_iv-end :
    (f : IvField) (iv : Float) (q : PendingQuote)
    → put_iv f iv (end_quote q) ≡ end_quote (put_iv f iv q)
unfolding put_iv
put_iv-end from_model iv q = refl
put_iv-end from_last iv q = refl
put_iv-end from_bid iv q = refl
put_iv-end from_ask iv q = refl
put_iv-end from_none iv q = refl

module _ (unset : ℤ) where
  set_iv-end :
      (f : IvField) (iv : Float) (q : PendingQuote)
      → set_iv unset f iv (end_quote q) ≡ end_quote (set_iv unset f iv q)
  unfolding set_iv put_iv
  set_iv-end from_model iv q = ground arith
  set_iv-end from_last iv q = ground arith
  set_iv-end from_bid iv q = ground arith
  set_iv-end from_ask iv q = ground arith
  set_iv-end from_none iv q = ground arith

  set_model_price-end :
      (f : IvField) (price : Float) (q : PendingQuote)
      → set_model_price unset f price (end_quote q) ≡ end_quote (set_model_price unset f price q)
  unfolding set_model_price
  set_model_price-end f price q = ground arith

  set_option_computation-end :
      (t : TickType) (c : Computation) (q : PendingQuote)
      → set_option_computation unset t c (end_quote q)
        ≡ end_quote (set_option_computation unset t c q)
  unfolding set_option_computation
  set_option_computation-end t c q = rw (set_iv-end (iv_field t) c.implied_vol q) (
      rw (set_model_price-end (iv_field t) c.opt_price (set_iv unset (iv_field t) c.implied_vol q))
        refl)

module _ (to_int32 : Float → ℤ) where
  put_size-end :
      (f : SizeField) (size : Float) (q : PendingQuote)
      → put_size to_int32 f size (end_quote q) ≡ end_quote (put_size to_int32 f size q)
  unfolding put_size
  put_size-end to_volume size q = set_volume-end size q
  put_size-end to_call_volume size q = ground (arith, set_volume-end size q)
  put_size-end to_put_volume size q = ground (arith, set_volume-end size q)
  put_size-end to_interest size q = set_open_interest-end (to_int32 size) q
  put_size-end to_call_interest size q = ground (arith, set_open_interest-end (to_int32 size) q)
  put_size-end to_put_interest size q = ground (arith, set_open_interest-end (to_int32 size) q)
  put_size-end to_no_size size q = refl

  pub on_tick-end :
      (unset : ℤ) (t : Tick) (q : PendingQuote)
      → on_tick unset to_int32 t (end_quote q) ≡ end_quote (on_tick unset to_int32 t q)
  unfolding on_tick
  on_tick-end unset (price_tick t price) q =
      ap maybe_complete (set_price-end t price q) ∙ maybe_complete-end (set_price t price q)
  on_tick-end unset (size_tick t size) q = put_size-end (size_field t) size q
  on_tick-end unset (computation_tick t c) q =
      ap maybe_complete (set_option_computation-end unset t c q)
      ∙ maybe_complete-end (set_option_computation unset t c q)
  on_tick-end unset (data_type_tick name) q = set_market_data_type-end name q
