-- ===== src/Broker/Fallback/Session.antt =====
-- What a session of the fallback broker is after any number of connections.
use optix.Base.{
  ◌≡◌, ◌≢◌, refl, Bool, true, false, not, List, [], ◌∷◌, Option, none, some, arith, ◌⊎◌, ◌↔◌,
}
use optix.Broker.Fallback.{
  Inner, primary, fallback, FallbackBroker, new_fallback_broker, Weather, connect, connects,
  disconnects, cancelled, both_unavailable, source_name, yahoo_finance, Capability, Method,
  nil_dereference, refused, not_connected, call, InnerCall, direct, guarded, spot_chain,
}

-- The states that a new broker comes to by connecting, in whatever weather.
pub data Reachable : FallbackBroker → Type 0 where
  fresh : Reachable new_fallback_broker
  connected : (w : Weather) {fb : FallbackBroker} → Reachable fb → Reachable (connect w fb).broker

abbrev pub is_fallback : Option Inner → Bool
is_fallback none = false
is_fallback (some primary) = false
is_fallback (some fallback) = true

source-Reachable : (fb : FallbackBroker) → Reachable fb → fb.using_fallback ≡ is_fallback fb.active
unfolding connect
source-Reachable fb fresh = refl
source-Reachable fb (connected w r) = ground (arith, source-Reachable _ r)

-- The calls that ended open: a broker that was asked to connect, and not to disconnect since.
abbrev pub last_connected : Option Inner → List InnerCall → Option Inner
last_connected o [] = o
last_connected o (connects b ∷ cs) = last_connected (some b) cs
last_connected o (disconnects b ∷ cs) = last_connected none cs

-- The source that a session reports is the broker that its calls go to. A connection that succeeds
-- leaves active the broker that was connected last, which is the primary wherever it connects; one
-- that fails changes nothing, and once the context is cancelled it does not try the fallback.
pub connect_lem :
    (fb : FallbackBroker) (w : Weather)
    → Reachable fb
    → let c = connect w fb in
      ((source_name c.broker ≡ yahoo_finance) ↔ (c.broker.active ≡ some fallback))
      × (((c.error ≡ none)
            × (c.broker.active ≡ last_connected none c.calls)
            × (is_fallback c.broker.active ≡ not w.primary_connects))
          ⊎ ((c.error ≡ some cancelled)
              × (c.broker ≡ fb)
              × (last_connected none c.calls ≡ none)
              × (w.is_cancelled ≡ true))
          ⊎ ((c.error ≡ some both_unavailable)
              × (c.broker ≡ fb)
              × (w.fallback_connects ≡ false)
              × (w.is_cancelled ≡ false)))
unfolding connect source_name
connect_lem fb w r = ground (arith, source-Reachable fb r)

-- After a connection that succeeds, no method meets a nil broker or says that it is not connected:
-- it is answered by the active broker, or it reports what that broker does not support.
pub call_connected :
    (has : Inner → Capability → Bool) (method : Method) (fb : FallbackBroker) (w : Weather)
    → (connect w fb).error ≡ none
    → (call has method (connect w fb).broker ≢ nil_dereference)
      × (call has method (connect w fb).broker ≢ refused not_connected)
unfolding connect call direct guarded spot_chain
call_connected has method fb w h = ground arith
