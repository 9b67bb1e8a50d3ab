-- ===== src/WebUi/Pool/Slots.antt =====
-- The slots of a pool are neither lost nor doubled.
use optix.Base.{
  ℕ, zero, suc, ◌+◌, ◌≡◌, refl, ◌∙◌, ap, Bool, ◌&&◌, List, [], ◌∷◌, ◌++◌, Option, none, some, ◌==◌,
  leb, ltb, if◌then◌else◌, arith, total, total-append, length, Option-cases, List-cases, inl, inr,
}
use optix.WebUi.Slot.{
  Broker, PooledConn, reconnect, check_slot, examine, clear_backoff_if_stable,
  track_reconnect_outcome,
}
use optix.WebUi.Pool.{
  Pool, Event, on_acquire, on_drain, on_close, on_dialed, on_release, on_redialed, on_check,
  on_drift, pull, acquire, dialed, release, requeue, redialed, drain_one, check_one, close, drift,
  fire, Reachable, new, step, new_slots, new_broker_pool, slots_for, pool_client_id_base,
  without_brokers, drifted,
}

-- A weight of client ids, summed over the slots.
abbrev weight : (ℕ → ℕ) → List PooledConn → ℕ
weight g cs = total (λ (c : PooledConn). g c.id) cs

abbrev pub outside : (ℕ → ℕ) → Pool → ℕ
outside g p =
    weight g p.held
    + weight g p.dialing
    + weight g p.redialing
    + weight g p.checked
    + weight g p.dropped

abbrev pub all_slots : (ℕ → ℕ) → Pool → ℕ
all_slots g p = weight g p.avail + outside g p

module _ (g : ℕ → ℕ) where
  weight-append : (cs ds : List PooledConn) → weight g (cs ++ ds) ≡ weight g cs + weight g ds
  weight-append cs ds = total-append (λ (c : PooledConn). g c.id) cs ds

  weight-pull :
      (i : ℕ) (cs : List PooledConn) (c : PooledConn) (rest : List PooledConn)
      → pull i cs ≡ some (c, rest)
      → weight g cs ≡ g c.id + weight g rest
  unfolding pull
  weight-pull i [] c rest h = ground arith
  weight-pull i (d ∷ cs) c rest h = elim (Option-cases (pull i cs)) [
    | inl e ↦ ground arith
    | inr ((c', rest'), e) ↦ ground (arith, weight-pull i cs c' rest' e)
  ]

  weight-without_brokers : (cs : List PooledConn) → weight g (without_brokers cs) ≡ weight g cs
  weight-without_brokers [] = refl
  weight-without_brokers (c ∷ cs) = omega (arith, weight-without_brokers cs)

  weight-drifted :
      (i : ℕ) (b : Option Broker) (cs : List PooledConn) → weight g (drifted i b cs) ≡ weight g cs
  weight-drifted i b [] = refl
  weight-drifted i b (c ∷ cs) = ground (arith, weight-drifted i b cs)

  check_slot-id :
      (now later : ℕ) (made : Option Broker) (c : PooledConn)
      → (check_slot now later made c).id ≡ c.id
  unfolding check_slot examine clear_backoff_if_stable track_reconnect_outcome reconnect
  check_slot-id now later made c = ground arith

  requeue-all_slots :
      (drop_ : Bool) (c : PooledConn) (p : Pool)
      → all_slots g (requeue drop_ c p) ≡ g c.id + all_slots g p
  unfolding requeue
  requeue-all_slots drop_ c p = ground (arith, weight-append p.avail (c ∷ []))

  acquire-all_slots : (p q : Pool) → acquire p ≡ some q → all_slots g q ≡ all_slots g p
  unfolding acquire
  acquire-all_slots p q h = ground arith

  drain_one-all_slots : (p q : Pool) → drain_one p ≡ some q → all_slots g q ≡ all_slots g p
  unfolding drain_one
  drain_one-all_slots p q h = elim (List-cases p.avail) [
    | inl e ↦ ground arith
    | inr (c, rest, e) ↦ ground (arith, e, weight-append p.checked (c ∷ []))
  ]

  check_one-all_slots :
      (now later : ℕ) (made : Option Broker) (drop_ : Bool) (p q : Pool)
      → check_one now later made drop_ p ≡ some q
      → all_slots g q ≡ all_slots g p
  unfolding check_one
  check_one-all_slots now later made drop_ p q h = elim (List-cases p.checked) [
    | inl e ↦ ground arith
    | inr (c, rest, e) ↦ ground (
      arith,
      e,
      ap g (check_slot-id now later made c),
      requeue-all_slots drop_ (check_slot now later made c) (record p { checked = rest }),
    )
  ]

  dialed-all_slots :
      (i : ℕ) (made : Option Broker) (p q : Pool)
      → dialed i made p ≡ some q
      → all_slots g q ≡ all_slots g p
  unfolding dialed reconnect
  dialed-all_slots i made p q h = elim (Option-cases (pull i p.dialing)) [
    | inl e ↦ ground arith
    | inr ((c, rest), e) ↦
        ground
          (arith, weight-pull i p.dialing c rest e, weight-append p.avail (reconnect none c ∷ []))
  ]

  release-all_slots :
      (i : ℕ) (healthy : Bool) (p q : Pool)
      → release i healthy p ≡ some q
      → all_slots g q ≡ all_slots g p
  unfolding release
  release-all_slots i healthy p q h = elim (Option-cases (pull i p.held)) [
    | inl e ↦ ground arith
    | inr ((c, rest), e) ↦
        ground (arith, weight-pull i p.held c rest e, weight-append p.avail (c ∷ []))
  ]

  redialed-all_slots :
      (i : ℕ) (made : Option Broker) (drop_ : Bool) (p q : Pool)
      → redialed i made drop_ p ≡ some q
      → all_slots g q ≡ all_slots g p
  unfolding redialed reconnect
  redialed-all_slots i made drop_ p q h = elim (Option-cases (pull i p.redialing)) [
    | inl e ↦ ground arith
    | inr ((c, rest), e) ↦ ground (
      arith,
      weight-pull i p.redialing c rest e,
      requeue-all_slots drop_ (reconnect made c) (record p { redialing = rest }),
    )
  ]

  fire-all_slots : (e : Event) (p q : Pool) → fire e p ≡ some q → all_slots g q ≡ all_slots g p
  unfolding fire close drift
  fire-all_slots on_acquire p q h = acquire-all_slots p q h
  fire-all_slots on_drain p q h = drain_one-all_slots p q h
  fire-all_slots on_close p q h = ground (
    arith,
    weight-without_brokers p.avail,
    weight-without_brokers p.held,
    weight-without_brokers p.dialing,
    weight-without_brokers p.redialing,
    weight-without_brokers p.checked,
    weight-without_brokers p.dropped,
  )
  fire-all_slots (on_dialed i made) p q h = dialed-all_slots i made p q h
  fire-all_slots (on_release i healthy) p q h = release-all_slots i healthy p q h
  fire-all_slots (on_redialed i made drop_) p q h = redialed-all_slots i made drop_ p q h
  fire-all_slots (on_check now later made drop_) p q h =
      check_one-all_slots now later made drop_ p q h
  fire-all_slots (on_drift i b) p q h =
      ground (arith, weight-drifted i b p.avail, weight-drifted i b p.held)

  Reachable-all_slots :
      (size : ℕ) (p : Pool)
      → Reachable size p
      → all_slots g p ≡ weight g (new_slots pool_client_id_base (slots_for size))
  unfolding new_broker_pool
  Reachable-all_slots size p new = omega arith
  Reachable-all_slots size q (step e {p = p} r h) =
      fire-all_slots e p q h ∙ Reachable-all_slots size p r

abbrev pub only : ℕ → ℕ → ℕ
only i j = if i == j then 1 else 0

new_slots-only :
    (i base n : ℕ)
    → weight (only i) (new_slots base n) ≡ (if leb base i && ltb i (base + n) then 1 else 0)
unfolding new_slots
new_slots-only i base zero = ground arith
new_slots-only i base (suc n) = ground (arith, new_slots-only i (suc base) n)

new_slots-length : (base n : ℕ) → weight (λ j. 1) (new_slots base n) ≡ n
unfolding new_slots
new_slots-length base zero = refl
new_slots-length base (suc n) = omega (arith, new_slots-length (suc base) n)

weight-length : (cs : List PooledConn) → weight (λ j. 1) cs ≡ length cs
weight-length [] = refl
weight-length (c ∷ cs) = omega (arith, weight-length cs)

-- Whatever the requests, the dials, the health checks and a shutdown do, and in whatever order, each
-- client id from 30 up to the pool's size has one slot, in one place, and no other id has any; the
-- queued slots and those elsewhere add up to the capacity, so that the channel has room for each
-- slot that is outside and queueing it again never blocks.
pub Reachable-slots :
    (size : ℕ) (p : Pool)
    → Reachable size p
    → ((i : ℕ)
        → all_slots (only i) p ≡ (
            if leb pool_client_id_base i && ltb i (pool_client_id_base + slots_for size)
            then 1
            else 0))
      × (length p.avail + outside (λ i. 1) p ≡ slots_for size)
Reachable-slots size p r = (
  λ i.
      Reachable-all_slots (only i) size p r ∙ new_slots-only i pool_client_id_base (slots_for size),
  omega (
    arith,
    Reachable-all_slots (λ j. 1) size p r,
    new_slots-length pool_client_id_base (slots_for size),
    weight-length p.avail,
  ),
)
