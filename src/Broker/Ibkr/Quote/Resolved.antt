-- ===== src/Broker/Ibkr/Quote/Resolved.antt =====
-- The implied volatility of a quote is always the one that its sources give.
use optix.Base.{◌≡◌, refl, sym, ◌∙◌, subst, Bool-cases, inl, inr, arith}
use optix.Base.Int.{ℤ}
use optix.Base.Text.{Text}
use optix.Broker.Ibkr.Float.{Float}
use optix.Broker.Ibkr.Ticks.{
  TickType, PriceField, to_bid, to_ask, to_mark, to_last, to_close, to_none, IvField, SizeField,
  to_volume, to_call_volume, to_put_volume, to_interest, to_call_interest, to_put_interest,
  to_no_size, price_field, iv_field, size_field,
}
use optix.Broker.Ibkr.Quote.{
  Tick, price_tick, size_tick, computation_tick, data_type_tick, Computation, PendingQuote,
  put_price, set_price, set_iv, set_model_price, set_option_computation, is_set_positive,
  resolve_iv, put_size, set_volume, set_open_interest, set_market_data_type, maybe_complete,
  on_tick,
}

-- The implied volatility is the one that the four sources resolve to.
abbrev pub Ivs : Type 0
Ivs = Float × Float × Float × Float × Float

abbrev pub ivs_of : PendingQuote → Ivs
ivs_of q = (q.implied_volatility, q.iv_model, q.iv_last, q.iv_bid, q.iv_ask)

abbrev pub IsResolved : Ivs → Type 0
IsResolved (iv, iv_model, iv_last, iv_bid, iv_ask) = iv ≡ resolve_iv iv_model iv_last iv_bid iv_ask

put_price-ivs :
    (f : PriceField) (p : Float) (q : PendingQuote) → ivs_of (put_price f p q) ≡ ivs_of q
unfolding put_price
put_price-ivs to_bid p q = refl
put_price-ivs to_ask p q = refl
put_price-ivs to_mark p q = refl
put_price-ivs to_last p q = refl
put_price-ivs to_close p q = refl
put_price-ivs to_none p q = refl

put_size-ivs :
    (to_int32 : Float → ℤ) (f : SizeField) (size : Float) (q : PendingQuote)
    → ivs_of (put_size to_int32 f size q) ≡ ivs_of q
unfolding put_size set_volume set_open_interest
put_size-ivs to_int32 to_volume size q = ground arith
put_size-ivs to_int32 to_call_volume size q = ground arith
put_size-ivs to_int32 to_put_volume size q = ground arith
put_size-ivs to_int32 to_interest size q = ground arith
put_size-ivs to_int32 to_call_interest size q = ground arith
put_size-ivs to_int32 to_put_interest size q = ground arith
put_size-ivs to_int32 to_no_size size q = refl

maybe_complete-ivs : (q : PendingQuote) → ivs_of (maybe_complete q) ≡ ivs_of q
unfolding maybe_complete
maybe_complete-ivs q = ground arith

set_price-ivs : (t : TickType) (p : Float) (q : PendingQuote) → ivs_of (set_price t p q) ≡ ivs_of q
unfolding set_price
set_price-ivs t p q = ground (arith, put_price-ivs (price_field t) p q)

set_market_data_type-ivs :
    (n : Text) (q : PendingQuote) → ivs_of (set_market_data_type n q) ≡ ivs_of q
unfolding set_market_data_type
set_market_data_type-ivs n q = ground arith

module _ (unset : ℤ) where
  set_iv-IsResolved :
      (f : IvField) (iv : Float) (q : PendingQuote)
      → IsResolved (ivs_of q)
      → IsResolved (ivs_of (set_iv unset f iv q))
  unfolding set_iv
  set_iv-IsResolved f iv q h = elim (Bool-cases (is_set_positive unset iv)) [
    | inl e ↦ rw e refl
    | inr e ↦ rw e h
  ]

  set_model_price-ivs :
      (f : IvField) (p : Float) (q : PendingQuote) → ivs_of (set_model_price unset f p q) ≡ ivs_of q
  unfolding set_model_price
  set_model_price-ivs f p q = ground arith

  set_option_computation-IsResolved :
      (t : TickType) (c : Computation) (q : PendingQuote)
      → IsResolved (ivs_of q)
      → IsResolved (ivs_of (set_option_computation unset t c q))
  unfolding set_option_computation
  set_option_computation-IsResolved t c q h =
      subst IsResolved
        (sym (
          set_model_price-ivs (iv_field t) c.opt_price (set_iv unset (iv_field t) c.implied_vol q)))
        (set_iv-IsResolved (iv_field t) c.implied_vol q h)

  pub on_tick-IsResolved :
      (to_int32 : Float → ℤ) (t : Tick) (q : PendingQuote)
      → IsResolved (ivs_of q)
      → IsResolved (ivs_of (on_tick unset to_int32 t q))
  unfolding on_tick
  on_tick-IsResolved to_int32 (price_tick t p) q h =
      subst IsResolved (sym (maybe_complete-ivs (set_price t p q) ∙ set_price-ivs t p q)) h
  on_tick-IsResolved to_int32 (computation_tick t c) q h =
      subst IsResolved (sym (maybe_complete-ivs (set_option_computation unset t c q)))
        (set_option_computation-IsResolved t c q h)
  on_tick-IsResolved to_int32 (size_tick t size) q h =
      subst IsResolved (sym (put_size-ivs to_int32 (size_field t) size q)) h
  on_tick-IsResolved to_int32 (data_type_tick n) q h =
      subst IsResolved (sym (set_market_data_type-ivs n q)) h
