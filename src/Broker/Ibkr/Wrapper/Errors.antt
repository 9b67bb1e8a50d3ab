-- ===== src/Broker/Ibkr/Wrapper/Errors.antt =====
-- Which errors reach a request, and what they leave alone.
use optix.Base.{
  Bool, true, false, ◌&&◌, ◌||◌, Bool-cases, inl, inr, arith, sym, ap, subst, ◌∙◌, ◌≡◌, refl, not,
  if◌then◌else◌, Option, some,
}
use optix.Base.Int.{ℤ, pos, ltb_ℤ, eqb_ℤ}
use optix.Broker.Ibkr.Quote.{PendingQuote}
use optix.Broker.Ibkr.Registry.{Registry, get, has, modify, map_some, get-modify, get-modify_ne}
use optix.Broker.Ibkr.Pending.{
  ApiError, PendingOi, PendingBars, PendingOptParams, PendingContractDetails, PendingExecutions,
  PendingDepth,
}
use optix.Broker.Ibkr.Wrapper.{Wrapper}
use optix.Broker.Ibkr.Wrapper.Routing.{
  offer, end_quote, end_bars, end_params, end_details, end_executions, is_strict_code, is_strict,
  client_id_in_use, is_dropped, deliver, route, note, error,
}

-- A request that ends where the test says so.
abbrev pub ended : {A : Type 0} → (A → A) → Bool → Option A → Option A
ended f b p = if b then map_some f p else p

-- What of the requests of one identifier an error can change.
abbrev pub Requests : Type 0 → Type 0 → Type 0
Requests Bar Execution =
    Option PendingQuote
    × Option (PendingBars Bar)
    × Option PendingOptParams
    × Option PendingContractDetails
    × Option PendingOi
    × Option PendingDepth
    × Option (PendingExecutions Execution)
    × Option (Option ApiError)

module _ {Bar Position Execution : Type 0} where
  -- The codes that reach a request: 2000 and above without that of a client identifier in use, which
  -- is the connection's, 10167, which announces delayed data, and for a depth request 2152, which is
  -- kept as a notice; below 2000, 309 for a depth request, and four codes for a strict one.
  abbrev pub reaches : ℤ → ℤ → Wrapper Bar Position Execution → Bool
  reaches id code w =
      not (eqb_ℤ code client_id_in_use)
      && not (eqb_ℤ code (pos 10167))
      && not (eqb_ℤ code (pos 2152) && has id w.depth)
      && (not (ltb_ℤ code (pos 2000))
          || (has id w.depth && eqb_ℤ code (pos 309))
          || (is_strict id w && is_strict_code code))

  abbrev pub requests_of : ℤ → Wrapper Bar Position Execution → Requests Bar Execution
  requests_of id w = (
    get id w.quotes,
    get id w.bars,
    get id w.opt_params,
    get id w.contract_details,
    get id w.oi,
    get id w.depth,
    get id w.executions,
    get id w.errors,
  )

  deliver-elsewhere :
      (id k : ℤ) (e : ApiError) (w : Wrapper Bar Position Execution)
      → eqb_ℤ id k ≡ false
      → requests_of k (deliver id e w) ≡ requests_of k w
  unfolding deliver
  deliver-elsewhere id k e w h = elim (Bool-cases (has id w.errors)) [
    | inl a ↦ rw a (
        rw (get-modify_ne id k _ w.quotes h) (
          rw (get-modify_ne id k _ w.bars h) (
            rw (get-modify_ne id k _ w.opt_params h) (
              rw (get-modify_ne id k _ w.contract_details h) (
                rw (get-modify_ne id k _ w.oi h) (
                  rw (get-modify_ne id k _ w.executions h)
                    (rw (get-modify_ne id k _ w.errors h) refl)))))))
    | inr a ↦ rw a refl
  ]

  route-elsewhere :
      (id k : ℤ) (e : ApiError) (w : Wrapper Bar Position Execution)
      → eqb_ℤ id k ≡ false
      → requests_of k (route id e w) ≡ requests_of k w
  unfolding route
  route-elsewhere id k e w h = elim (Bool-cases (eqb_ℤ e.code client_id_in_use)) [
    | inl a ↦ rw a refl
    | inr a ↦ elim (Bool-cases (is_dropped id e.code w)) [
      | inl b ↦ rw a (rw b refl)
      | inr b ↦ elim (Bool-cases (eqb_ℤ e.code (pos 10167))) [
        | inl c ↦ rw a (rw b (rw c refl))
        | inr c ↦ rw a (rw b (rw c (deliver-elsewhere id k e w h)))
      ]
    ]
  ]

  note-elsewhere :
      (id k : ℤ) (e : ApiError) (w : Wrapper Bar Position Execution)
      → eqb_ℤ id k ≡ false
      → requests_of k (note id e w) ≡ requests_of k w
  unfolding note
  note-elsewhere id k e w h =
      elim (Bool-cases (eqb_ℤ e.code (pos 354) || eqb_ℤ e.code (pos 10167))) [
        | inl a ↦ rw a (rw (get-modify_ne id k _ w.oi h) refl)
        | inr a ↦ rw a refl
      ]

  -- An error of one request leaves every other as it is: its data, its end, and its error channel.
  pub error-elsewhere :
      (id k : ℤ) (e : ApiError) (w : Wrapper Bar Position Execution)
      → eqb_ℤ id k ≡ false
      → requests_of k (error id e w) ≡ requests_of k w
  unfolding error
  error-elsewhere id k e w h = elim (Bool-cases (eqb_ℤ e.code (pos 2152) && has id w.depth)) [
    | inl a ↦ rw a (rw (get-modify_ne id k _ w.depth h) refl)
    | inr a ↦ rw a (route-elsewhere id k e (note id e w) h ∙ note-elsewhere id k e w h)
  ]

  -- The error reaches the request, and its error channel is there.
  abbrev pub ends : ℤ → ℤ → Wrapper Bar Position Execution → Bool
  ends id code w = reaches id code w && has id w.errors

  module _ (id : ℤ) (e : ApiError) (w : Wrapper Bar Position Execution)
      (direct : (eqb_ℤ e.code (pos 2152) && has id w.depth) ≡ false) where
    route-errors :
        get id (route id e w).errors
        ≡ (if reaches id e.code w then map_some (offer e) (get id w.errors) else get id w.errors)
    unfolding route is_dropped deliver has
    route-errors = ground (arith, get-modify id (offer e) w.errors)

    route-quotes :
        get id (route id e w).quotes ≡ ended end_quote (ends id e.code w) (get id w.quotes)
    unfolding route is_dropped deliver
    route-quotes = ground (arith, get-modify id end_quote w.quotes)

    route-bars : get id (route id e w).bars ≡ ended end_bars (ends id e.code w) (get id w.bars)
    unfolding route is_dropped deliver
    route-bars = ground (arith, get-modify id end_bars w.bars)

    route-params :
        get id (route id e w).opt_params ≡ ended end_params (ends id e.code w) (get id w.opt_params)
    unfolding route is_dropped deliver
    route-params = ground (arith, get-modify id end_params w.opt_params)

    route-details :
        get id (route id e w).contract_details
        ≡ ended end_details (ends id e.code w) (get id w.contract_details)
    unfolding route is_dropped deliver
    route-details = ground (arith, get-modify id end_details w.contract_details)

    route-executions :
        get id (route id e w).executions
        ≡ ended end_executions (ends id e.code w) (get id w.executions)
    unfolding route is_dropped deliver
    route-executions = ground (arith, get-modify id end_executions w.executions)

  note_cases :
      (id : ℤ) (e : ApiError) (w : Wrapper Bar Position Execution)
      → (oi : Registry PendingOi) × (note id e w ≡ record w { oi = oi })
  unfolding note
  note_cases id e w = elim (Bool-cases (eqb_ℤ e.code (pos 354) || eqb_ℤ e.code (pos 10167))) [
    | inl a ↦ (modify id (λ (p : PendingOi). record p { data_notice = some e }) w.oi, rw a refl)
    | inr a ↦ (w.oi, rw a refl)
  ]

  -- What becomes of a request's channel and of its data when an error is of its identifier.
  abbrev pub IsRouted :
      ℤ → ApiError → Wrapper Bar Position Execution → Wrapper Bar Position Execution → Type 0
  IsRouted id e w w' =
      (get id w'.errors
        ≡ (if reaches id e.code w then map_some (offer e) (get id w.errors) else get id w.errors))
      × (get id w'.quotes ≡ ended end_quote (ends id e.code w) (get id w.quotes))
      × (get id w'.bars ≡ ended end_bars (ends id e.code w) (get id w.bars))
      × (get id w'.opt_params ≡ ended end_params (ends id e.code w) (get id w.opt_params))
      × (get id w'.contract_details
          ≡ ended end_details (ends id e.code w) (get id w.contract_details))
      × (get id w'.executions ≡ ended end_executions (ends id e.code w) (get id w.executions))

  route-IsRouted :
      (id : ℤ) (e : ApiError) (w : Wrapper Bar Position Execution)
      → (eqb_ℤ e.code (pos 2152) && has id w.depth) ≡ false
      → IsRouted id e w (route id e w)
  route-IsRouted id e w h = (
    route-errors id e w h,
    route-quotes id e w h,
    route-bars id e w h,
    route-params id e w h,
    route-details id e w h,
    route-executions id e w h,
  )

  kept-IsRouted :
      (id : ℤ) (e : ApiError) (w : Wrapper Bar Position Execution) (depth : Registry PendingDepth)
      → (eqb_ℤ e.code (pos 2152) && has id w.depth) ≡ true
      → IsRouted id e w (record w { depth = depth })
  kept-IsRouted id e w depth h =
      let out : reaches id e.code w ≡ false = ground (arith, h) in
      rw out (refl, refl, refl, refl, refl, refl)

  -- An error goes to the error channel of its request exactly where its code is one that reaches it,
  -- and stays out of it otherwise; a channel that holds one error keeps that one. Where it reaches a
  -- request that has an error channel, the quote, the bars, the option parameters, the contract
  -- details and the executions of that identifier end, with the data they have; elsewhere they go on.
  pub error-IsRouted :
      (id : ℤ) (e : ApiError) (w : Wrapper Bar Position Execution) → IsRouted id e w (error id e w)
  error-IsRouted id e w = elim (Bool-cases (eqb_ℤ e.code (pos 2152) && has id w.depth)) [
    | inl a ↦
        let kept : Wrapper Bar Position Execution = record w {
          depth = modify id (λ (p : PendingDepth). record p { notice = some e }) w.depth;
        } in
        let same : error id e w ≡ kept = unfold error in rw a refl in
        subst (IsRouted id e w) (sym same) (kept-IsRouted id e w kept.depth a)
    | inr a ↦
        let (oi, noted) = note_cases id e w in
        let same : error id e w ≡ route id e (note id e w) = unfold error in rw a refl in
        subst (IsRouted id e w) (sym (same ∙ ap (route id e) noted))
          (route-IsRouted id e (record w { oi = oi }) a)
  ]
