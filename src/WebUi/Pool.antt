-- ===== src/WebUi/Pool.antt =====
-- The pool (internal/webui/broker_pool.go). Each slot is in one of five places: queued in the channel
-- `avail`, held by a caller, dialled by an `acquire` or by the goroutine of a `release`, or drained by
-- the health checker; a slot that is not queued again once the pool is closed is dropped. The
-- goroutines' work is cut at each operation on the channel, and an event is one such piece, with
-- what the factory answers.
pub mod Slots
use optix.Base.{
  ℕ, zero, suc, ◌+◌, ◌≡◌, Bool, true, false, ◌&&◌, List, [], ◌∷◌, ◌++◌, Option, none, some, ◌==◌,
  if◌then◌else◌,
}
use optix.WebUi.Slot.{Broker, PooledConn, is_connected, reconnect, check_slot}

pub record Pool : Type 0 where
  pub avail : List PooledConn
  pub held : List PooledConn
  pub dialing : List PooledConn
  pub redialing : List PooledConn
  pub checked : List PooledConn
  pub dropped : List PooledConn
  pub is_closed : Bool

abbrev pub pool_client_id_base : ℕ
pool_client_id_base = 30

abbrev pub default_pool_size : ℕ
default_pool_size = 8

abbrev pub new_slot : ℕ → PooledConn
new_slot i = record { id = i; broker = none; fail_count = 0; next_retry = 0; connected_since = 0 }

unfoldable pub new_slots : ℕ → ℕ → List PooledConn
new_slots base zero = []
new_slots base (suc n) = new_slot base ∷ new_slots (suc base) n

-- The number of slots for a size, which is the default one where it is not positive.
abbrev pub slots_for : ℕ → ℕ
slots_for size = if size == 0 then default_pool_size else size

unfoldable pub new_broker_pool : ℕ → Pool
unfolding new_slots
new_broker_pool size = record {
  avail = new_slots pool_client_id_base (slots_for size);
  held = [];
  dialing = [];
  redialing = [];
  checked = [];
  dropped = [];
  is_closed = false;
}

-- The first slot of a client id, and the others.
unfoldable pub pull : ℕ → List PooledConn → Option (PooledConn × List PooledConn)
pull i [] = none
pull i (c ∷ cs) =
    let rest = pull i cs in
    if c.id == i then some (c, cs) else elim rest [ none ↦ none | some (d, ds) ↦ some (d, c ∷ ds) ]

-- `acquire`, up to its dial: the slot at the head of the channel.
unfoldable pub acquire : Pool → Option Pool
acquire p = elim p.avail [
  | [] ↦ none
  | c ∷ q ↦
      if is_connected c
      then some (record p { avail = q; held = c ∷ p.held })
      else some (record p { avail = q; dialing = c ∷ p.dialing })
]

-- The dial of an `acquire` has ended: on an error the slot is queued again.
unfoldable pub dialed : ℕ → Option Broker → Pool → Option Pool
unfolding pull reconnect
dialed i made p = elim (pull i p.dialing) [
  | none ↦ none
  | some (c, rest) ↦ elim made [
    | some b ↦ some (record p { dialing = rest; held = reconnect (some b) c ∷ p.held })
    | none ↦ some (record p { dialing = rest; avail = p.avail ++ reconnect none c ∷ [] })
  ]
]

unfoldable pub release : ℕ → Bool → Pool → Option Pool
unfolding pull
release i healthy p = elim (pull i p.held) [
  | none ↦ none
  | some (c, rest) ↦
      if healthy && is_connected c
      then some (record p { held = rest; avail = p.avail ++ c ∷ [] })
      else some (record p { held = rest; redialing = c ∷ p.redialing })
]

-- A slot is queued again, or dropped where the pool is closed and `select` takes that case.
unfoldable pub requeue : Bool → PooledConn → Pool → Pool
requeue drop_ c p =
    if drop_ && p.is_closed
    then record p { dropped = c ∷ p.dropped }
    else record p { avail = p.avail ++ c ∷ [] }

-- The goroutine of `release` ends.
unfoldable pub redialed : ℕ → Option Broker → Bool → Pool → Option Pool
unfolding pull reconnect requeue
redialed i made drop_ p = elim (pull i p.redialing) [
  | none ↦ none
  | some (c, rest) ↦ some (requeue drop_ (reconnect made c) (record p { redialing = rest }))
]

-- One receive of the health checker's drain.
unfoldable pub drain_one : Pool → Option Pool
drain_one p = elim p.avail [
  | [] ↦ none
  | c ∷ q ↦ some (record p { avail = q; checked = p.checked ++ c ∷ [] })
]

-- The health checker is done with its first slot.
unfoldable pub check_one : ℕ → ℕ → Option Broker → Bool → Pool → Option Pool
unfolding check_slot requeue
check_one now later made drop_ p = elim p.checked [
  | [] ↦ none
  | c ∷ rest ↦ some (requeue drop_ (check_slot now later made c) (record p { checked = rest }))
]

-- `close` cancels the context and takes every slot's broker.
abbrev without_brokers : List PooledConn → List PooledConn
without_brokers [] = []
without_brokers (c ∷ cs) = record c { broker = none } ∷ without_brokers cs

unfoldable pub close : Pool → Pool
close p = record p {
  avail = without_brokers p.avail;
  held = without_brokers p.held;
  dialing = without_brokers p.dialing;
  redialing = without_brokers p.redialing;
  checked = without_brokers p.checked;
  dropped = without_brokers p.dropped;
  is_closed = true;
}

pub data Event : Type 0 where
  on_acquire on_drain on_close : Event
  on_dialed : ℕ → Option Broker → Event
  on_release : ℕ → Bool → Event
  on_redialed : ℕ → Option Broker → Bool → Event
  on_check : ℕ → ℕ → Option Broker → Bool → Event
  -- The broker of a queued or a held slot changes by itself.
  on_drift : ℕ → Option Broker → Event

abbrev drifted : ℕ → Option Broker → List PooledConn → List PooledConn
drifted i b [] = []
drifted i b (c ∷ cs) = (if c.id == i then record c { broker = b } else c) ∷ drifted i b cs

unfoldable pub drift : ℕ → Option Broker → Pool → Pool
drift i b p = record p { avail = drifted i b p.avail; held = drifted i b p.held }

-- What an event makes of the pool, where it can happen.
unfoldable pub fire : Event → Pool → Option Pool
unfolding acquire dialed release redialed drain_one check_one close drift
fire on_acquire p = acquire p
fire on_drain p = drain_one p
fire on_close p = some (close p)
fire (on_dialed i made) p = dialed i made p
fire (on_release i healthy) p = release i healthy p
fire (on_redialed i made drop_) p = redialed i made drop_ p
fire (on_check now later made drop_) p = check_one now later made drop_ p
fire (on_drift i b) p = some (drift i b p)

-- The pools that a new one of a size can become.
pub data Reachable (size : ℕ) : Pool → Type 0 where
  new : Reachable size (new_broker_pool size)
  step : (e : Event) {p q : Pool} → Reachable size p → fire e p ≡ some q → Reachable size q
