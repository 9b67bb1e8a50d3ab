-- ===== src/WebUi/Tests.antt =====
-- Runs of the pool, and its theorems at a pool of two slots.
use optix.Base.{
  ℕ, ◌+◌, ◌*◌, ◌≡◌, ◌<◌, refl, true, false, ◌&&◌, none, some, leb, ltb, if◌then◌else◌, arith,
  length,
}
use optix.WebUi.Slot.{Broker, PooledConn, second, backoff_for, check_slot}
use optix.WebUi.Pool.{
  Pool, new_broker_pool, on_acquire, on_dialed, fire, Reachable, new, step, slots_for,
  pool_client_id_base,
}
use optix.WebUi.Pool.Slots.{Reachable-slots, all_slots, only, outside}

abbrev live : Broker
live = record { is_connected = true; ping = some true; using_fallback = false }

abbrev delayed : Broker
delayed = record { is_connected = true; ping = some true; using_fallback = true }

abbrev recovered : PooledConn
recovered = record {
  id = 30;
  broker = some live;
  fail_count = 3;
  next_retry = 0;
  connected_since = 100 * second;
}

third_backoff : backoff_for 3 ≡ 240 * second
unfolding backoff_for
third_backoff = refl

cleared_after_a_minute :
    (check_slot (160 * second) 0 none recovered).fail_count < recovered.fail_count
unfolding check_slot
cleared_after_a_minute = omega arith

abbrev fallen_back : PooledConn
fallen_back = record recovered { broker = some delayed; next_retry = 100 * second }

abbrev probed : PooledConn
probed = check_slot (120 * second) (125 * second) (some delayed) fallen_back

-- The first slot is dialled for a caller, and the dial fails.
abbrev one_dialing : Pool
one_dialing = elim (fire on_acquire (new_broker_pool 2)) [ none ↦ new_broker_pool 2 | some p ↦ p ]

abbrev one_failed : Pool
one_failed = elim (fire (on_dialed 30 none) one_dialing) [ none ↦ one_dialing | some p ↦ p ]

one_failed-Reachable : Reachable 2 one_failed
unfolding fire new_broker_pool
one_failed-Reachable = step (on_dialed 30 none) (step on_acquire new refl) refl

Reachable-slots_example :
    ((i : ℕ)
      → all_slots (only i) one_failed
        ≡ (if leb pool_client_id_base i && ltb i (pool_client_id_base + slots_for 2) then 1 else 0))
    × (length one_failed.avail + outside (λ i. 1) one_failed ≡ slots_for 2)
Reachable-slots_example = Reachable-slots 2 one_failed one_failed-Reachable
