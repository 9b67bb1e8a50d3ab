-- ===== src/WebUi/Slot.antt =====
-- One slot of the pool, and its backoff (internal/webui/broker_pool.go). Times are numbers of
-- nanoseconds from Go's zero time, which is 0. A broker is what the pool asks of it: whether it is
-- connected, what a ping answers where it takes one, and whether it serves the fallback.
pub mod Backoff
use optix.Base.{
  ℕ, zero, suc, ◌+◌, ◌-◌, ◌*◌, Bool, true, false, ◌&&◌, not, Option, none, some, ltb, leb, ◌==◌,
  if◌then◌else◌,
}

-- `ping` is absent where the broker is no `Pinger`; `fallback` is false where it is no
-- `fallbackReporter`.
pub record Broker : Type 0 where
  pub is_connected : Bool
  pub ping : Option Bool
  pub using_fallback : Bool

pub record PooledConn : Type 0 where
  pub id : ℕ
  pub broker : Option Broker
  pub fail_count : ℕ
  pub next_retry : ℕ
  pub connected_since : ℕ

abbrev pub second : ℕ
second = 1000000000

abbrev pub health_check_interval : ℕ
health_check_interval = 30 * second

abbrev pub max_reconnect_backoff : ℕ
max_reconnect_backoff = 900 * second

abbrev pub dwell_window : ℕ
dwell_window = 2 * health_check_interval

-- The loop of `backoffFor`, with `n` rounds left.
unfoldable pub double_capped : ℕ → ℕ → ℕ
double_capped zero d = d
double_capped (suc n) d =
    let rest = double_capped n (d * 2) in
    if leb max_reconnect_backoff (d * 2) then max_reconnect_backoff else rest

unfoldable pub backoff_for : ℕ → ℕ
unfolding double_capped
backoff_for zero = 0
backoff_for (suc n) = double_capped (suc n) health_check_interval

abbrev pub is_connected : PooledConn → Bool
is_connected c = elim c.broker [ none ↦ false | some b ↦ b.is_connected ]

abbrev pub is_on_fallback : PooledConn → Bool
is_on_fallback c = elim c.broker [ none ↦ false | some b ↦ b.using_fallback ]

abbrev pub has_broker : PooledConn → Bool
has_broker c = elim c.broker [ none ↦ false | some b ↦ true ]

abbrev pub is_unhealthy : PooledConn → Bool
is_unhealthy c = elim c.broker [
  | none ↦ true
  | some b ↦ elim b.ping [ some ok ↦ not ok | none ↦ not b.is_connected ]
]

unfoldable pub track_reconnect_outcome : ℕ → PooledConn → PooledConn
unfolding backoff_for
track_reconnect_outcome now c =
    if has_broker c && is_connected c && not (is_on_fallback c)
    then record c { connected_since = now }
    else record c {
      connected_since = 0;
      fail_count = c.fail_count + 1;
      next_retry = now + backoff_for (c.fail_count + 1);
    }

unfoldable pub clear_backoff_if_stable : ℕ → PooledConn → PooledConn
clear_backoff_if_stable now c =
    if not (has_broker c)
    then record c { connected_since = 0 }
    else if is_on_fallback c
    then record c { connected_since = 0 }
    else if c.connected_since == 0
    then record c { connected_since = now }
    else if leb dwell_window (now - c.connected_since)
    then record c { fail_count = 0; next_retry = 0 }
    else c

-- `reconnect`, with what the factory answers: a connected broker, or an error.
unfoldable pub reconnect : Option Broker → PooledConn → PooledConn
reconnect made c = record c { broker = made; connected_since = 0 }

-- The decision of `checkIdleConnections` about one slot, with the slot as it then is.
unfoldable pub examine : ℕ → PooledConn → Bool × PooledConn
unfolding clear_backoff_if_stable
examine now c =
    if is_unhealthy c
    then (not (ltb now c.next_retry), c)
    else let c' = clear_backoff_if_stable now c in
      (is_on_fallback c' && not (ltb now c'.next_retry), c')

-- One round of the loop of `checkIdleConnections`, with what the factory answers, and the time when
-- it has.
unfoldable pub check_slot : ℕ → ℕ → Option Broker → PooledConn → PooledConn
unfolding examine reconnect track_reconnect_outcome
check_slot now later made c =
    let (needs_reconnect, c') = examine now c in
    if needs_reconnect then track_reconnect_outcome later (reconnect made c') else c'
