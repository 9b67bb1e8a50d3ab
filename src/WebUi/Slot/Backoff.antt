-- ===== src/WebUi/Slot/Backoff.antt =====
-- The backoff of a slot.
use optix.Base.{
  ℕ, zero, suc, ◌+◌, ◌*◌, ◌≡◌, ◌≢◌, ◌≤◌, ◌<◌, ◌⊎◌, true, false, Option, leb, if◌then◌else◌, arith,
}
use optix.WebUi.Slot.{
  Broker, PooledConn, health_check_interval, max_reconnect_backoff, dwell_window, double_capped,
  backoff_for, is_unhealthy, is_connected, is_on_fallback, track_reconnect_outcome,
  clear_backoff_if_stable, reconnect, examine, check_slot,
}

double_capped-suc :
    (n d : ℕ)
    → d ≤ max_reconnect_backoff
    → double_capped (suc n) d ≡ (
        if leb max_reconnect_backoff (2 * double_capped n d)
        then max_reconnect_backoff
        else 2 * double_capped n d)
unfolding double_capped
double_capped-suc zero d h = ground arith
double_capped-suc (suc n) d h = ground (arith, double_capped-suc n (d * 2))

double_capped-bounds :
    (n d : ℕ)
    → d ≤ max_reconnect_backoff
    → (d ≤ double_capped n d) × (double_capped n d ≤ max_reconnect_backoff)
unfolding double_capped
double_capped-bounds zero d h = omega arith
double_capped-bounds (suc n) d h = ground (arith, double_capped-bounds n (d * 2))

-- The backoff starts at twice the interval of the health checks. Each further failure doubles it, up
-- to the fifteen minutes that it never exceeds, so it never shrinks while the failures go on.
pub backoff_for_doubles :
    (n : ℕ)
    → (backoff_for 1 ≡ 2 * health_check_interval)
      × (backoff_for (suc (suc n)) ≡ (
          if leb max_reconnect_backoff (2 * backoff_for (suc n))
          then max_reconnect_backoff
          else 2 * backoff_for (suc n)))
      × (backoff_for n ≤ backoff_for (suc n))
      × (backoff_for n ≤ max_reconnect_backoff)
unfolding backoff_for double_capped
backoff_for_doubles zero = ground arith
backoff_for_doubles (suc n) = ground (
  arith,
  double_capped-suc (suc n) health_check_interval,
  double_capped-suc (suc (suc n)) health_check_interval,
  double_capped-bounds (suc n) health_check_interval,
)

-- A health check redials a slot only from its time of retry on: before it, the slot keeps its broker.
-- A redial that does not bring a live connection to IBKR counts one failure more, and sets the next
-- retry by the backoff.
pub check_slot_throttles :
    (now later : ℕ) (made : Option Broker) (c : PooledConn)
    → ((check_slot now later made c).broker ≡ c.broker)
      ⊎ ((c.next_retry ≤ now)
          × ((check_slot now later made c).broker ≡ made)
          × ((((check_slot now later made c).fail_count ≡ suc c.fail_count)
                × ((check_slot now later made c).next_retry
                    ≡ later + backoff_for (suc c.fail_count)))
              ⊎ ((is_connected (check_slot now later made c) ≡ true)
                  × (is_on_fallback (check_slot now later made c) ≡ false)
                  × ((check_slot now later made c).fail_count ≡ c.fail_count))))
unfolding check_slot examine clear_backoff_if_stable track_reconnect_outcome reconnect
check_slot_throttles now later made c = ground arith

-- A health check clears failures of a slot only where the slot is healthy, off the fallback, and was
-- first seen live at least the dwell window before.
pub check_slot_clears :
    (now later : ℕ) (made : Option Broker) (c : PooledConn)
    → (check_slot now later made c).fail_count < c.fail_count
    → (is_unhealthy c ≡ false)
      × (is_on_fallback c ≡ false)
      × (c.connected_since ≢ 0)
      × (c.connected_since + dwell_window ≤ now)
unfolding check_slot examine clear_backoff_if_stable track_reconnect_outcome reconnect
check_slot_clears now later made c h = ground arith
