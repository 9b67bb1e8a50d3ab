-- ===== src/Broker/Ibkr/Wrapper/Delivery.antt =====
-- The callbacks bring to a quote the ticks of its identifier, and no others.
use optix.Base.{
  ◌≡◌, refl, sym, ◌∙◌, ap, ◌⊎◌, ◌||◌, none, Bool, true, false, ◌&&◌, if◌then◌else◌, List, [], ◌∷◌,
  Option, some, arith, Bool-cases, inl, inr,
}
use optix.Base.Int.{ℤ, eqb_ℤ}
use optix.Base.Text.{Text}
use optix.Broker.Ibkr.Float.{Float}
use optix.Broker.Ibkr.Ticks.{
  TickType, SizeField, to_volume, to_call_volume, to_put_volume, to_interest, to_call_interest,
  to_put_interest, to_no_size, size_field,
}
use optix.Broker.Ibkr.Quote.{
  Computation, PendingQuote, put_size, Tick, price_tick, size_tick, computation_tick,
  data_type_tick, on_tick, new_quote,
}
use optix.Broker.Ibkr.Quote.History.{quote_after}
use optix.Broker.Ibkr.Registry.{get, has, modify, map_some, get-modify_at, get_same, get-put}
use optix.Broker.Ibkr.Wrapper.{Wrapper, register_quote}
use optix.Broker.Ibkr.Wrapper.Callbacks.{
  tick_snapshot_end, tick_price, tick_size, tick_option_computation, on_market_data_type,
  MarketDataType, market_data_type_name, is_taken,
}
use optix.Broker.Ibkr.Pending.{ApiError}
use optix.Broker.Ibkr.Wrapper.Routing.{end_quote, error}
use optix.Broker.Ibkr.Wrapper.Errors.{ends, error-elsewhere, error-IsRouted}
use optix.Broker.Ibkr.Wrapper.Ends.{on_tick-end}

-- A callback with the identifier of its request.
pub data Callback : Type 0 where
  price_for : ℤ → TickType → Float → Callback
  size_for : ℤ → TickType → Float → Callback
  computation_for : ℤ → TickType → Computation → Callback
  type_for : ℤ → MarketDataType → Callback
  end_for : ℤ → Callback
  error_for : ℤ → ApiError → Callback

abbrev pub id_of : Callback → ℤ
id_of (price_for id t p) = id
id_of (size_for id t s) = id
id_of (computation_for id t c) = id
id_of (type_for id n) = id
id_of (end_for id) = id
id_of (error_for id e) = id

-- The end of a snapshot and an error bring no tick.
unfoldable pub tick_of : Callback → Option Tick
unfolding market_data_type_name
tick_of (price_for id t p) = some (price_tick t p)
tick_of (size_for id t s) = some (size_tick t s)
tick_of (computation_for id t c) = some (computation_tick t c)
tick_of (type_for id n) = some (data_type_tick (market_data_type_name n))
tick_of (end_for id) = none
tick_of (error_for id e) = none

abbrev pub with_tick : Option Tick → List Tick → List Tick
with_tick none ts = ts
with_tick (some t) ts = t ∷ ts

-- The ticks of one identifier, in their order.
abbrev pub ticks_for : ℤ → List Callback → List Tick
ticks_for id [] = []
ticks_for id (c ∷ cs) =
    if eqb_ℤ (id_of c) id then with_tick (tick_of c) (ticks_for id cs) else ticks_for id cs

-- A snapshot of the identifier ended, or there was an error of it.
abbrev pub has_end : ℤ → List Callback → Bool
has_end id [] = false
has_end id (c ∷ cs) =
    (eqb_ℤ (id_of c) id && (elim (tick_of c) [ none ↦ true | some t ↦ false ])) || has_end id cs

-- The quote is as given, or, where it may have ended, it is that with its end.
abbrev pub IsQuote : Bool → PendingQuote → Option PendingQuote → Type 0
IsQuote may_end q got = (got ≡ some q) ⊎ ((may_end ≡ true) × (got ≡ some (end_quote q)))

module _ (unset max_int64 : ℤ) (to_int32 to_int64 : Float → ℤ) where
  abbrev pub on_callback :
      {Bar Position Execution : Type 0}
      → Callback
      → Wrapper Bar Position Execution
      → Wrapper Bar Position Execution
  on_callback (price_for id t p) w = tick_price unset max_int64 to_int32 to_int64 id t p w
  on_callback (size_for id t s) w = tick_size unset max_int64 to_int32 to_int64 id t s w
  on_callback (computation_for id t c) w =
      tick_option_computation unset max_int64 to_int32 to_int64 id t c w
  on_callback (type_for id n) w = on_market_data_type unset max_int64 to_int32 to_int64 id n w
  on_callback (end_for id) w = tick_snapshot_end id w
  on_callback (error_for id e) w = error id e w

  -- The callbacks, the newest first.
  abbrev pub after_callbacks :
      {Bar Position Execution : Type 0}
      → List Callback
      → Wrapper Bar Position Execution
      → Wrapper Bar Position Execution
  after_callbacks [] w = w
  after_callbacks (c ∷ cs) w = on_callback c (after_callbacks cs w)

  put_size-untaken :
      (f : SizeField) (size : Float) (q : PendingQuote)
      → is_taken f ≡ false
      → put_size to_int32 f size q ≡ q
  unfolding put_size
  put_size-untaken to_no_size size q h = refl
  put_size-untaken to_volume size q h = cc
  put_size-untaken to_call_volume size q h = cc
  put_size-untaken to_put_volume size q h = cc
  put_size-untaken to_interest size q h = cc
  put_size-untaken to_call_interest size q h = cc
  put_size-untaken to_put_interest size q h = cc

  module _ {Bar Position Execution : Type 0} (w : Wrapper Bar Position Execution) (k : ℤ) where
    abbrev step : ℤ → Tick → Option PendingQuote
    step id t =
        if eqb_ℤ id k then map_some (on_tick unset to_int32 t) (get k w.quotes) else get k w.quotes

    modify-step :
        (id : ℤ) (t : Tick) → get k (modify id (on_tick unset to_int32 t) w.quotes) ≡ step id t
    modify-step id t = get-modify_at id k (on_tick unset to_int32 t) w.quotes

    -- A size that the quote does not take, or a size without a quote.
    size-step :
        (id : ℤ) (t : TickType) (size : Float)
        → (has id w.quotes && is_taken (size_field t)) ≡ false
        → get k w.quotes ≡ step id (size_tick t size)
    unfolding has on_tick
    size-step id t size h = elim (Bool-cases (is_taken (size_field t))) [
      | inl taken ↦ ground (arith, get_same id k w.quotes, taken, h)
      | inr other ↦ ground (arith, put_size-untaken (size_field t) size, other)
    ]

    -- What a callback can make of the quote: its tick, or its end.
    abbrev IsStep : ℤ → Option Tick → Option PendingQuote → Type 0
    IsStep id (some t) q = (q ≡ step id t)
    IsStep id none q =
        (q ≡ get k w.quotes) ⊎ ((eqb_ℤ id k ≡ true) × (q ≡ map_some end_quote (get k w.quotes)))

    end-IsStep : (id : ℤ) → IsStep id none (get k (modify id end_quote w.quotes))
    end-IsStep id = elim (Bool-cases (eqb_ℤ id k)) [
      | inl e ↦ inr (e, get-modify_at id k end_quote w.quotes ∙ rw e refl)
      | inr e ↦ inl (get-modify_at id k end_quote w.quotes ∙ rw e refl)
    ]

    error-IsStep : (id : ℤ) (e : ApiError) → IsStep id none (get k (error id e w).quotes)
    error-IsStep id e = elim (Bool-cases (eqb_ℤ id k)) [
      | inr h ↦ inl (ap (λ r. r.0) (error-elsewhere id k e w h))
      | inl h ↦
          let there = get_same id k (error id e w).quotes h ∙ (error-IsRouted id e w).1 in
          elim (Bool-cases (ends id e.code w)) [
            | inl b ↦
                inr (h, there ∙ rw b (ap (map_some end_quote) (sym (get_same id k w.quotes h))))
            | inr b ↦ inl (there ∙ rw b (sym (get_same id k w.quotes h)))
          ]
    ]

    on_callback-IsStep :
        (c : Callback) → IsStep (id_of c) (tick_of c) (get k (on_callback c w).quotes)
    unfolding tick_of
    on_callback-IsStep (price_for id t p) = unfold tick_price in modify-step id (price_tick t p)
    on_callback-IsStep (computation_for id t c) =
        unfold tick_option_computation in modify-step id (computation_tick t c)
    on_callback-IsStep (type_for id n) =
        unfold on_market_data_type in modify-step id (data_type_tick (market_data_type_name n))
    on_callback-IsStep (size_for id t size) =
        unfold tick_size in
        elim (Bool-cases (has id w.quotes && is_taken (size_field t))) [
          | inl e ↦ rw e (modify-step id (size_tick t size))
          | inr e ↦ rw e (size-step id t size e)
        ]
    on_callback-IsStep (end_for id) = unfold tick_snapshot_end in end-IsStep id
    on_callback-IsStep (error_for id e) = error-IsStep id e

  next-IsQuote :
      {Bar Position Execution : Type 0} (w : Wrapper Bar Position Execution)
      → (id j : ℤ) (t : Option Tick) (b : Bool) (ts : List Tick) (right : Text)
        (got : Option PendingQuote)
      → IsQuote b (quote_after unset to_int32 right ts) (get id w.quotes)
      → IsStep w id j t got
      → IsQuote
          ((eqb_ℤ j id && (elim t [ none ↦ true | some t ↦ false ])) || b)
          (quote_after unset to_int32 right (if eqb_ℤ j id then with_tick t ts else ts))
          got
  unfolding quote_after
  next-IsQuote w id j (some t) b ts right got (inl q) h = elim (Bool-cases (eqb_ℤ j id)) [
    | inl e ↦ rw e (inl (h ∙ rw e (ap (map_some (on_tick unset to_int32 t)) q)))
    | inr e ↦ rw e (inl (h ∙ rw e q))
  ]
  next-IsQuote w id j (some t) b ts right got (inr (m, q)) h = elim (Bool-cases (eqb_ℤ j id)) [
    | inl e ↦
        rw (e, m)
          (inr (
            refl,
            h
                ∙ rw e (
                    ap (map_some (on_tick unset to_int32 t)) q
                    ∙ ap some (on_tick-end to_int32 unset t (quote_after unset to_int32 right ts))),
          ))
    | inr e ↦ rw (e, m) (inr (refl, h ∙ rw e q))
  ]
  next-IsQuote w id j none b ts right got (inl q) (inl h) = elim (Bool-cases (eqb_ℤ j id)) [
    | inl e ↦ rw e (inl (h ∙ q))
    | inr e ↦ rw e (inl (h ∙ q))
  ]
  next-IsQuote w id j none b ts right got (inr (m, q)) (inl h) = elim (Bool-cases (eqb_ℤ j id)) [
    | inl e ↦ rw e (inr (refl, h ∙ q))
    | inr e ↦ rw (e, m) (inr (refl, h ∙ q))
  ]
  next-IsQuote w id j none b ts right got (inl q) (inr (e, h)) =
      rw e (inr (refl, h ∙ ap (map_some end_quote) q))
  next-IsQuote w id j none b ts right got (inr (m, q)) (inr (e, h)) =
      rw e (inr (refl, h ∙ ap (map_some end_quote) q))

  -- A quote that has just been registered, after any prices, sizes, computations, kinds of market data,
  -- snapshot ends and errors, for it and for other requests, holds what the ticks of its identifier
  -- alone make of a new quote, in their order. It is that quote to the last field, unless a snapshot
  -- of its identifier ended or there was an error of it, where it can have been ended besides.
  pub after_callbacks-IsQuote :
      {Bar Position Execution : Type 0} (w : Wrapper Bar Position Execution)
      → (id : ℤ) (right : Text) (cs : List Callback)
      → IsQuote
          (has_end id cs)
          (quote_after unset to_int32 right (ticks_for id cs))
          (get id (after_callbacks cs (register_quote id right w)).quotes)
  unfolding register_quote quote_after
  after_callbacks-IsQuote w id right [] = inl (get-put id (new_quote right) w.quotes)
  after_callbacks-IsQuote w id right (c ∷ cs) =
      let w' = after_callbacks cs (register_quote id right w) in
      next-IsQuote w' id (id_of c) (tick_of c) (has_end id cs) (ticks_for id cs) right _
        (after_callbacks-IsQuote w id right cs) (on_callback-IsStep w' id c)
