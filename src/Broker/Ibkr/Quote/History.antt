-- ===== src/Broker/Ibkr/Quote/History.antt =====
-- What a quote holds, in terms of the ticks that have arrived.
use optix.Base.{◌≡◌, refl, ◌∙◌, ap, Bool, ◌||◌, if◌then◌else◌, List, [], ◌∷◌, Option, none, some}
use optix.Base.Int.{ℤ}
use optix.Base.Text.{Text}
use optix.Broker.Ibkr.Float.{Float, zero_float}
use optix.Broker.Ibkr.Ticks.{IvField, is_model}
use optix.Broker.Ibkr.Quote.{Tick, PendingQuote, new_quote, resolve_iv, on_tick}
use optix.Broker.Ibkr.Quote.Resolved.{ivs_of, IsResolved, on_tick-IsResolved}
use optix.Broker.Ibkr.Quote.Fields.{
  or_else, is_bid, is_ask, is_mark, is_last, price_of, is_last_iv, is_bid_iv, is_ask_iv, iv_of,
  model_price_of, Core, core_of, some_of, core_next, on_tick-core,
}

abbrev pub first {ℓ} : {A : Type ℓ} → Option A → Option A → Option A
first (some a) o = some a
first none o = o

-- The newest item that a tick of a list gives, the list with its newest tick first.
abbrev pub newest {ℓ} : {A : Type ℓ} → (Tick → Option A) → List Tick → Option A
newest f [] = none
newest f (t ∷ ts) = first (f t) (newest f ts)

or_first : (a b : Option Float) (d : Float) → or_else a (or_else b d) ≡ or_else (first a b) d
or_first none b d = refl
or_first (some x) b d = refl

some_first : (a b : Option Float) → (some_of a || some_of b) ≡ some_of (first a b)
some_first none b = refl
some_first (some x) b = refl

mark_first :
    (a b m n : Option Float) (d : Float)
    → or_else a (if some_of b then or_else b (or_else n d) else or_else m (or_else b (or_else n d)))
      ≡ or_else (first a b) (or_else (first m n) d)
mark_first (some x) b m n d = refl
mark_first none (some y) m n d = refl
mark_first none none (some z) n d = refl
mark_first none none none n d = refl

module _ (unset : ℤ) (to_int32 : Float → ℤ) (right : Text) where
  unfoldable pub quote_after : List Tick → PendingQuote
  unfolding on_tick
  quote_after [] = new_quote right
  quote_after (t ∷ ts) = on_tick unset to_int32 t (quote_after ts)

  -- The fields by the newest ticks of each kind.
  abbrev core_after : List Tick → Core
  core_after ts =
      let mark = newest (price_of is_mark) ts in
      record {
        bid = or_else (newest (price_of is_bid) ts) zero_float;
        ask = or_else (newest (price_of is_ask) ts) zero_float;
        last = or_else (newest (price_of is_last) ts) zero_float;
        mark = or_else mark (or_else (newest (model_price_of unset) ts) zero_float);
        mark_from_tick = some_of mark;
        iv_model = or_else (newest (iv_of unset is_model) ts) zero_float;
        iv_last = or_else (newest (iv_of unset is_last_iv) ts) zero_float;
        iv_bid = or_else (newest (iv_of unset is_bid_iv) ts) zero_float;
        iv_ask = or_else (newest (iv_of unset is_ask_iv) ts) zero_float;
      }

  core_next-after :
      (t : Tick) (ts : List Tick) → core_next unset to_int32 t (core_after ts) ≡ core_after (t ∷ ts)
  core_next-after t ts =
      let bids = or_first (price_of is_bid t) (newest (price_of is_bid) ts) zero_float in
      let asks = or_first (price_of is_ask t) (newest (price_of is_ask) ts) zero_float in
      let lasts = or_first (price_of is_last t) (newest (price_of is_last) ts) zero_float in
      let marks =
        mark_first (price_of is_mark t) (newest (price_of is_mark) ts) (model_price_of unset t)
          (newest (model_price_of unset) ts) zero_float in
      let from_tick = some_first (price_of is_mark t) (newest (price_of is_mark) ts) in
      let ivs = λ (is : IvField → Bool).
        or_first (iv_of unset is t) (newest (iv_of unset is) ts) zero_float in
      cc (
        bids,
        asks,
        lasts,
        marks,
        from_tick,
        ivs is_model,
        ivs is_last_iv,
        ivs is_bid_iv,
        ivs is_ask_iv,
      )

  quote_after-core : (ts : List Tick) → core_of (quote_after ts) ≡ core_after ts
  unfolding quote_after
  quote_after-core [] = refl
  quote_after-core (t ∷ ts) =
      on_tick-core unset to_int32 t (quote_after ts)
      ∙ ap (core_next unset to_int32 t) (quote_after-core ts)
      ∙ core_next-after t ts

  quote_after-IsResolved : (ts : List Tick) → IsResolved (ivs_of (quote_after ts))
  unfolding quote_after
  quote_after-IsResolved [] = unfold resolve_iv in refl
  quote_after-IsResolved (t ∷ ts) =
      on_tick-IsResolved unset to_int32 t (quote_after ts) (quote_after-IsResolved ts)

  -- After any ticks, listed with the newest first: the bid, the ask and the last price are the newest
  -- ones of their kinds that were not zero or below. The mark is the newest such price of a mark tick,
  -- or, where there was none, the newest positive price of the option model, whichever came later. The
  -- implied volatility is what the newest positive ones of the four sources resolve to.
  pub quote_after_lem :
      (ts : List Tick)
      → let q = quote_after ts in
        (q.bid ≡ or_else (newest (price_of is_bid) ts) zero_float)
        × (q.ask ≡ or_else (newest (price_of is_ask) ts) zero_float)
        × (q.last ≡ or_else (newest (price_of is_last) ts) zero_float)
        × (q.mark
            ≡ or_else
                (newest (price_of is_mark) ts)
                (or_else (newest (model_price_of unset) ts) zero_float))
        × (q.implied_volatility
            ≡ resolve_iv
                (or_else (newest (iv_of unset is_model) ts) zero_float)
                (or_else (newest (iv_of unset is_last_iv) ts) zero_float)
                (or_else (newest (iv_of unset is_bid_iv) ts) zero_float)
                (or_else (newest (iv_of unset is_ask_iv) ts) zero_float))
  quote_after_lem ts =
      let e = quote_after-core ts in
      let q = quote_after ts in
      (
        ap (λ (c : Core). c.bid) e,
        ap (λ (c : Core). c.ask) e,
        ap (λ (c : Core). c.last) e,
        ap (λ (c : Core). c.mark) e,
        quote_after-IsResolved ts
            ∙ ap (λ (c : Core). resolve_iv c.iv_model c.iv_last c.iv_bid c.iv_ask) e,
      )
