-- ===== src/Broker/Tests.antt =====
-- The theorems on the fallback broker, in a session that falls back.
use optix.Base.{◌≡◌, refl, Bool, true, false, none, some, ◌⊎◌, ◌↔◌}
use optix.Broker.Fallback.{
  Inner, primary, fallback, FallbackBroker, new_fallback_broker, Weather, connect, cancelled,
  both_unavailable, source_name, yahoo_finance, Capability, get_positions, refused,
  account_not_supported, call,
}
use optix.Broker.Fallback.Session.{fresh, connected, connect_lem, is_fallback, last_connected}

-- IBKR is away and Yahoo Finance is there.
abbrev gateway_down : Weather
gateway_down = record { primary_connects = false; is_cancelled = false; fallback_connects = true }

abbrev delayed : FallbackBroker
delayed = record { active = some fallback; using_fallback = true }

delayed-connect : (connect gateway_down new_fallback_broker).broker ≡ delayed
unfolding connect
delayed-connect = refl

gateway_down-connect : (connect gateway_down new_fallback_broker).error ≡ none
unfolding connect
gateway_down-connect = refl

-- IBKR has every capability and Yahoo Finance none.
abbrev only_ibkr : Inner → Capability → Bool
only_ibkr primary need = true
only_ibkr fallback need = false

no_positions : call only_ibkr get_positions delayed ≡ refused account_not_supported
unfolding call
no_positions = refl

connect_lem_example :
    let c = connect gateway_down (connect gateway_down new_fallback_broker).broker in
    ((source_name c.broker ≡ yahoo_finance) ↔ (c.broker.active ≡ some fallback))
    × (((c.error ≡ none)
          × (c.broker.active ≡ last_connected none c.calls)
          × (is_fallback c.broker.active ≡ true))
        ⊎ ((c.error ≡ some cancelled)
            × (c.broker ≡ (connect gateway_down new_fallback_broker).broker)
            × (last_connected none c.calls ≡ none)
            × (false ≡ true))
        ⊎ ((c.error ≡ some both_unavailable)
            × (c.broker ≡ (connect gateway_down new_fallback_broker).broker)
            × (true ≡ false)
            × (false ≡ false)))
connect_lem_example =
    connect_lem (connect gateway_down new_fallback_broker).broker gateway_down
      (connected gateway_down fresh)
