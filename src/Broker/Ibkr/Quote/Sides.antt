-- ===== src/Broker/Ibkr/Quote/Sides.antt =====
-- The ticks that a quote ignores, and the signal that it is complete.
use optix.Base.{
  ◌≡◌, refl, ◌∙◌, ap, Bool, true, false, List, [], ◌∷◌, arith, keep, Bool-cases, inl, inr,
}
use optix.Base.Int.{ℤ}
use optix.Base.Text.{Text, codes, text_eq}
use optix.Broker.Ibkr.Float.{Float}
use optix.Broker.Ibkr.Ticks.{
  PriceField, to_bid, to_ask, to_mark, to_last, to_close, to_none, IvField, from_model, from_last,
  from_bid, from_ask, from_none, SizeField, to_volume, to_call_volume, to_put_volume, to_interest,
  to_call_interest, to_put_interest, to_no_size, price_field, iv_field, size_field,
}
use optix.Broker.Ibkr.Quote.{
  Tick, price_tick, size_tick, computation_tick, data_type_tick, PendingQuote, put_price, set_price,
  put_iv, set_iv, set_model_price, set_option_computation, put_size, set_volume, set_open_interest,
  set_market_data_type, maybe_complete, on_tick,
}
use optix.Broker.Ibkr.Quote.History.{quote_after}

-- Whether a size is one that a contract of this right takes.
abbrev pub is_size_for : Text → SizeField → Bool
is_size_for right f = elim f [
  | to_call_volume ↦ text_eq right (codes "C")
  | to_call_interest ↦ text_eq right (codes "C")
  | to_put_volume ↦ text_eq right (codes "P")
  | to_put_interest ↦ text_eq right (codes "P")
  | _ ↦ true
]

abbrev pub is_tick_for : Text → Tick → Bool
is_tick_for right (size_tick t size) = is_size_for right (size_field t)
is_tick_for right (price_tick t price) = true
is_tick_for right (computation_tick t c) = true
is_tick_for right (data_type_tick name) = true

put_price-right :
    (f : PriceField) (p : Float) (q : PendingQuote) → (put_price f p q).right ≡ q.right
unfolding put_price
put_price-right to_bid p q = refl
put_price-right to_ask p q = refl
put_price-right to_mark p q = refl
put_price-right to_last p q = refl
put_price-right to_close p q = refl
put_price-right to_none p q = refl

put_iv-right : (f : IvField) (iv : Float) (q : PendingQuote) → (put_iv f iv q).right ≡ q.right
unfolding put_iv
put_iv-right from_model iv q = refl
put_iv-right from_last iv q = refl
put_iv-right from_bid iv q = refl
put_iv-right from_ask iv q = refl
put_iv-right from_none iv q = refl

put_size-right :
    (to_int32 : Float → ℤ) (f : SizeField) (size : Float) (q : PendingQuote)
    → (put_size to_int32 f size q).right ≡ q.right
unfolding put_size set_volume set_open_interest
put_size-right to_int32 to_volume size q = ground arith
put_size-right to_int32 to_call_volume size q = ground arith
put_size-right to_int32 to_put_volume size q = ground arith
put_size-right to_int32 to_interest size q = ground arith
put_size-right to_int32 to_call_interest size q = ground arith
put_size-right to_int32 to_put_interest size q = ground arith
put_size-right to_int32 to_no_size size q = refl

-- A size that is not for the quote's right.
put_size-ignored :
    (to_int32 : Float → ℤ) (f : SizeField) (size : Float) (q : PendingQuote)
    → is_size_for q.right f ≡ false
    → put_size to_int32 f size q ≡ q
unfolding put_size
put_size-ignored to_int32 to_volume size q h = ground arith
put_size-ignored to_int32 to_call_volume size q h = rw h refl
put_size-ignored to_int32 to_put_volume size q h = rw h refl
put_size-ignored to_int32 to_interest size q h = ground arith
put_size-ignored to_int32 to_call_interest size q h = rw h refl
put_size-ignored to_int32 to_put_interest size q h = rw h refl
put_size-ignored to_int32 to_no_size size q h = refl

maybe_complete-right : (q : PendingQuote) → (maybe_complete q).right ≡ q.right
unfolding maybe_complete
maybe_complete-right q = ground arith

set_iv-right :
    (unset : ℤ) (f : IvField) (iv : Float) (q : PendingQuote)
    → (set_iv unset f iv q).right ≡ q.right
unfolding set_iv
set_iv-right unset f iv q = ground (arith, put_iv-right f iv q)

module _ (unset : ℤ) (to_int32 : Float → ℤ) where
  on_tick-right : (t : Tick) (q : PendingQuote) → (on_tick unset to_int32 t q).right ≡ q.right
  unfolding on_tick
  on_tick-right (price_tick t p) q =
      maybe_complete-right (set_price t p q)
      ∙ unfold set_price in ground (arith, put_price-right (price_field t) p q)
  on_tick-right (computation_tick t c) q =
      maybe_complete-right (set_option_computation unset t c q)
      ∙ unfold set_option_computation set_model_price in
        ground (arith, set_iv-right unset (iv_field t) c.implied_vol q)
  on_tick-right (size_tick t size) q = put_size-right to_int32 (size_field t) size q
  on_tick-right (data_type_tick n) q = unfold set_market_data_type in ground arith

  on_tick-ignored :
      (t : Tick) (q : PendingQuote) → is_tick_for q.right t ≡ false → on_tick unset to_int32 t q ≡ q
  unfolding on_tick
  on_tick-ignored (price_tick t p) q h = ground arith
  on_tick-ignored (computation_tick t c) q h = ground arith
  on_tick-ignored (size_tick t size) q h = put_size-ignored to_int32 (size_field t) size q h
  on_tick-ignored (data_type_tick n) q h = ground arith

  module _ (right : Text) where
    quote_after-right : (ts : List Tick) → (quote_after unset to_int32 right ts).right ≡ right
    unfolding quote_after
    quote_after-right [] = refl
    quote_after-right (t ∷ ts) = on_tick-right t _ ∙ quote_after-right ts

    -- A quote is what it would be without the volumes and the open interests of the other side: a
    -- request for a call ignores those of the puts, one for a put those of the calls, and one for a
    -- stock both.
    pub quote_after-sides :
        (ts : List Tick)
        → quote_after unset to_int32 right ts
          ≡ quote_after unset to_int32 right (keep (is_tick_for right) ts)
    unfolding quote_after
    quote_after-sides [] = refl
    quote_after-sides (t ∷ ts) = elim (Bool-cases (is_tick_for right t)) [
      | inl e ↦ rw e (ap (on_tick unset to_int32 t) (quote_after-sides ts))
      | inr e ↦ rw e (
          on_tick-ignored t _ (ap (λ r. is_tick_for r t) (quote_after-right ts) ∙ e)
          ∙ quote_after-sides ts)
    ]
