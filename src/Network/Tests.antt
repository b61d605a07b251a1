-- ===== src/Network/Tests.antt =====
-- Runs of the connection's state machine and of the reconnection manager.
use ryu_ldn_nx.Prelude.{ℕ, ◌+◌, ◌-◌, ◌≤◌, ◌<◌, ◌≡◌, refl, true, some, List, [], ◌∷◌, arith, Sub}
use ryu_ldn_nx.Network.ConnectionState.{
  ConnectionEvent, connect, connect_success, connect_failed, handshake_success, backoff_expired,
  disconnected, ready, ConnectionStateMachine, process_event, run,
}
use ryu_ldn_nx.Network.ConnectionState.Lifecycle.{run-ready_owed}
use ryu_ldn_nx.Network.Reconnect.{ReconnectManager, default_config, delay_for}
use ryu_ldn_nx.Network.Reconnect.Delay.{IsSensible, ideal, delay_for_bounds, delay_for-ideal}
use ryu_ldn_nx.Network.Reconnect.Retries.{IsCurrent}

abbrev watched : ConnectionStateMachine
watched = record { state = disconnected; callback = true; retry_count = 0 }

-- One failed try, one that succeeds.
abbrev script : List ConnectionEvent
script = connect ∷ connect_failed ∷ backoff_expired ∷ connect_success ∷ handshake_success ∷ []

script-ready : (run watched script).0.state ≡ ready
unfolding run process_event
script-ready = refl

run-ready_owed_example : Sub (connect_success ∷ handshake_success ∷ []) script
run-ready_owed_example = run-ready_owed watched script script-ready

default-IsSensible : IsSensible default_config
unfolding default_config
default-IsSensible = record {
  fast_in = omega arith;
  initial_in = omega arith;
  grows = omega arith;
  fits = omega arith;
}

delay_for_bounds_example :
    (d d' : ℕ) × (delay_for default_config 3 ≡ some d)
    × (delay_for default_config (3 + 1) ≡ some d')
    × (d ≤ default_config.max_delay_ms)
    × (default_config.fast_retries ≤ 3 → (default_config.initial_delay_ms ≤ d) × (d ≤ d'))
    × (3 < default_config.fast_retries → d ≡ default_config.fast_delay_ms)
delay_for_bounds_example = delay_for_bounds default_config 3 default-IsSensible

delay_for-ideal_example :
    delay_for default_config 4
    ≡ some (ideal default_config (4 - default_config.fast_retries) default_config.initial_delay_ms)
unfolding default_config
delay_for-ideal_example = delay_for-ideal default_config 4 default-IsSensible refl (omega arith)

-- A manager at its first failure.
abbrev fresh : ReconnectManager
fresh = record { config = default_config; retry_count = 0; current_delay_ms = 200 }

fresh-IsCurrent : IsCurrent fresh
unfolding delay_for default_config
fresh-IsCurrent = record { computed = refl; counted = omega arith }
