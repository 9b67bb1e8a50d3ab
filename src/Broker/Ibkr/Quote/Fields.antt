-- ===== src/Broker/Ibkr/Quote/Fields.antt =====
-- What a tick changes of the fields that make a quote's prices and volatilities.
use optix.Base.{
  ◌≡◌, refl, ◌∙◌, Bool, true, false, ◌&&◌, ◌||◌, if◌then◌else◌, Option, none, some, arith,
}
use optix.Base.Int.{ℤ}
use optix.Base.Text.{Text}
use optix.Broker.Ibkr.Float.{Float, is_at_most_zero}
use optix.Broker.Ibkr.Ticks.{
  TickType, PriceField, to_bid, to_ask, to_mark, to_last, to_close, to_none, IvField, from_model,
  from_last, from_bid, from_ask, from_none, SizeField, to_volume, to_call_volume, to_put_volume,
  to_interest, to_call_interest, to_put_interest, to_no_size, price_field, iv_field, is_model,
  size_field,
}
use optix.Broker.Ibkr.Quote.{
  Tick, price_tick, size_tick, computation_tick, data_type_tick, Computation, PendingQuote,
  put_price, set_price, put_iv, set_iv, set_model_price, set_option_computation, is_set_positive,
  put_size, set_volume, set_open_interest, set_market_data_type, maybe_complete, on_tick,
}

abbrev pub or_else {ℓ} : {A : Type ℓ} → Option A → A → A
or_else (some a) d = a
or_else none d = d

abbrev pub is_bid : PriceField → Bool
is_bid f = elim f [ to_bid ↦ true | _ ↦ false ]

abbrev pub is_ask : PriceField → Bool
is_ask f = elim f [ to_ask ↦ true | _ ↦ false ]

abbrev pub is_mark : PriceField → Bool
is_mark f = elim f [ to_mark ↦ true | _ ↦ false ]

abbrev pub is_last : PriceField → Bool
is_last f = elim f [ to_last ↦ true | _ ↦ false ]

-- The price of a tick of a kind, which is not zero or below.
unfoldable pub price_of : (PriceField → Bool) → Tick → Option Float
unfolding price_field
price_of is (price_tick t p) =
    if is_at_most_zero p then none else if is (price_field t) then some p else none
price_of is (size_tick t s) = none
price_of is (computation_tick t c) = none
price_of is (data_type_tick n) = none

abbrev pub is_last_iv : IvField → Bool
is_last_iv f = elim f [ from_last ↦ true | _ ↦ false ]

abbrev pub is_bid_iv : IvField → Bool
is_bid_iv f = elim f [ from_bid ↦ true | _ ↦ false ]

abbrev pub is_ask_iv : IvField → Bool
is_ask_iv f = elim f [ from_ask ↦ true | _ ↦ false ]

module _ (unset : ℤ) where
  -- The implied volatility of a tick of a kind, which is set and positive.
  unfoldable pub iv_of : (IvField → Bool) → Tick → Option Float
  unfolding iv_field
  iv_of is (computation_tick t c) =
      if is_set_positive unset c.implied_vol && is (iv_field t) then some c.implied_vol else none
  iv_of is (price_tick t p) = none
  iv_of is (size_tick t s) = none
  iv_of is (data_type_tick n) = none

  unfoldable pub model_price_of : Tick → Option Float
  unfolding iv_field
  model_price_of (computation_tick t c) =
      if is_set_positive unset c.opt_price && is_model (iv_field t) then some c.opt_price else none
  model_price_of (price_tick t p) = none
  model_price_of (size_tick t s) = none
  model_price_of (data_type_tick n) = none

-- The fields that make a quote's prices and volatilities.
pub record Core : Type 0 where
  pub bid : Float
  pub ask : Float
  pub last : Float
  pub mark : Float
  pub mark_from_tick : Bool
  pub iv_model : Float
  pub iv_last : Float
  pub iv_bid : Float
  pub iv_ask : Float

abbrev pub core_of : PendingQuote → Core
core_of q = record {
  bid = q.bid;
  ask = q.ask;
  last = q.last;
  mark = q.mark;
  mark_from_tick = q.mark_from_tick;
  iv_model = q.iv_model;
  iv_last = q.iv_last;
  iv_bid = q.iv_bid;
  iv_ask = q.iv_ask;
}

put_size-core :
    (to_int32 : Float → ℤ) (f : SizeField) (size : Float) (q : PendingQuote)
    → core_of (put_size to_int32 f size q) ≡ core_of q
unfolding put_size set_volume set_open_interest
put_size-core to_int32 to_volume size q = ground arith
put_size-core to_int32 to_call_volume size q = ground arith
put_size-core to_int32 to_put_volume size q = ground arith
put_size-core to_int32 to_interest size q = ground arith
put_size-core to_int32 to_call_interest size q = ground arith
put_size-core to_int32 to_put_interest size q = ground arith
put_size-core to_int32 to_no_size size q = refl

maybe_complete-core : (q : PendingQuote) → core_of (maybe_complete q) ≡ core_of q
unfolding maybe_complete
maybe_complete-core q = ground arith

set_market_data_type-core :
    (n : Text) (q : PendingQuote) → core_of (set_market_data_type n q) ≡ core_of q
unfolding set_market_data_type
set_market_data_type-core n q = ground arith

put_price-core :
    (f : PriceField) (p : Float) (q : PendingQuote)
    → core_of (put_price f p q) ≡ record (core_of q) {
      bid = if is_bid f then p else q.bid;
      ask = if is_ask f then p else q.ask;
      last = if is_last f then p else q.last;
      mark = if is_mark f then p else q.mark;
      mark_from_tick = is_mark f || q.mark_from_tick;
    }
unfolding put_price
put_price-core to_bid p q = refl
put_price-core to_ask p q = refl
put_price-core to_mark p q = refl
put_price-core to_last p q = refl
put_price-core to_close p q = refl
put_price-core to_none p q = refl

abbrev pub some_of : Option Float → Bool
some_of (some p) = true
some_of none = false

-- The fields after one more tick.
module _ (unset : ℤ) (to_int32 : Float → ℤ) where
  abbrev pub core_next : Tick → Core → Core
  core_next t c =
      let iv_model = or_else (iv_of unset is_model t) c.iv_model in
      let iv_last = or_else (iv_of unset is_last_iv t) c.iv_last in
      let iv_bid = or_else (iv_of unset is_bid_iv t) c.iv_bid in
      let iv_ask = or_else (iv_of unset is_ask_iv t) c.iv_ask in
      record {
        bid = or_else (price_of is_bid t) c.bid;
        ask = or_else (price_of is_ask t) c.ask;
        last = or_else (price_of is_last t) c.last;
        mark =
            or_else (price_of is_mark t)
              (if c.mark_from_tick then c.mark else or_else (model_price_of unset t) c.mark);
        mark_from_tick = some_of (price_of is_mark t) || c.mark_from_tick;
        iv_model = iv_model;
        iv_last = iv_last;
        iv_bid = iv_bid;
        iv_ask = iv_ask;
      }

  set_price-core :
      (t : TickType) (p : Float) (q : PendingQuote)
      → core_of (set_price t p q) ≡ core_next (price_tick t p) (core_of q)
  unfolding set_price price_of iv_of model_price_of
  set_price-core t p q = ground (arith, put_price-core (price_field t) p q)

  put_iv-core :
      (f : IvField) (iv : Float) (q : PendingQuote)
      → core_of (put_iv f iv q) ≡ record (core_of q) {
        iv_model = if is_model f then iv else q.iv_model;
        iv_last = if is_last_iv f then iv else q.iv_last;
        iv_bid = if is_bid_iv f then iv else q.iv_bid;
        iv_ask = if is_ask_iv f then iv else q.iv_ask;
      }
  unfolding put_iv
  put_iv-core from_model iv q = refl
  put_iv-core from_last iv q = refl
  put_iv-core from_bid iv q = refl
  put_iv-core from_ask iv q = refl
  put_iv-core from_none iv q = refl

  set_option_computation-core :
      (t : TickType) (c : Computation) (q : PendingQuote)
      → core_of (set_option_computation unset t c q) ≡ core_next (computation_tick t c) (core_of q)
  unfolding set_option_computation set_iv set_model_price price_of iv_of model_price_of
  set_option_computation-core t c q = ground (arith, put_iv-core (iv_field t) c.implied_vol q)

  pub on_tick-core :
      (t : Tick) (q : PendingQuote) → core_of (on_tick unset to_int32 t q) ≡ core_next t (core_of q)
  unfolding on_tick
  on_tick-core (price_tick t p) q = maybe_complete-core (set_price t p q) ∙ set_price-core t p q
  on_tick-core (computation_tick t c) q =
      maybe_complete-core (set_option_computation unset t c q) ∙ set_option_computation-core t c q
  on_tick-core (size_tick t size) q =
      put_size-core to_int32 (size_field t) size q
      ∙ unfold price_of iv_of model_price_of in ground arith
  on_tick-core (data_type_tick n) q =
      set_market_data_type-core n q ∙ unfold price_of iv_of model_price_of in ground arith
