-- ===== src/Network/ConnectionState.antt =====
-- sysmodule/source/network/connection_state.hpp and connection_state.cpp: the TCP connection's
-- state machine. The callback is a flag, whether one is registered; what it is called with is the
-- last part of a result. Logging is left out.
pub mod Lifecycle
pub mod Retries
use ryu_ldn_nx.Prelude.{
  ℕ, ◌+◌, ◌%◌, ◌^◌, Bool, true, false, ◌&&◌, ◌||◌, Option, none, some, List, [], ◌∷◌, ◌++◌,
  if◌then◌else◌,
}

pub data ConnectionState : Type 0 where
  disconnected connecting connected handshaking ready backoff retrying disconnecting error :
      ConnectionState

pub data ConnectionEvent : Type 0 where
  connect connect_success connect_failed handshake_started handshake_success handshake_failed :
      ConnectionEvent
  disconnect connection_lost backoff_expired retry_requested fatal_error : ConnectionEvent

pub data TransitionResult : Type 0 where
  success invalid_transition already_in_state : TransitionResult

-- One call of the callback.
pub record Notice : Type 0 where
  pub old_state : ConnectionState
  pub new_state : ConnectionState
  pub event : ConnectionEvent

pub record ConnectionStateMachine : Type 0 where
  pub state : ConnectionState
  pub callback : Bool
  pub retry_count : ℕ  -- uint32_t

unfoldable pub new : ConnectionStateMachine
new = record { state = disconnected; callback = false; retry_count = 0 }

unfoldable pub is_connected : ConnectionState → Bool
is_connected connected = true
is_connected handshaking = true
is_connected ready = true
is_connected _ = false

unfoldable pub is_transitioning : ConnectionState → Bool
is_transitioning connecting = true
is_transitioning handshaking = true
is_transitioning retrying = true
is_transitioning disconnecting = true
is_transitioning backoff = true
is_transitioning _ = false

-- The table, its valid entries one clause each.
unfoldable pub is_valid_transition : ConnectionState → ConnectionEvent → Option ConnectionState
is_valid_transition disconnected connect = some connecting
is_valid_transition disconnected retry_requested = some connecting
is_valid_transition connecting connect_success = some connected
is_valid_transition connecting connect_failed = some backoff
is_valid_transition connecting disconnect = some disconnected
is_valid_transition connecting fatal_error = some error
is_valid_transition connected handshake_started = some handshaking
is_valid_transition connected handshake_success = some ready
is_valid_transition connected handshake_failed = some backoff
is_valid_transition connected disconnect = some disconnecting
is_valid_transition connected connection_lost = some backoff
is_valid_transition connected fatal_error = some error
is_valid_transition handshaking handshake_success = some ready
is_valid_transition handshaking handshake_failed = some backoff
is_valid_transition handshaking disconnect = some disconnecting
is_valid_transition handshaking connection_lost = some backoff
is_valid_transition handshaking fatal_error = some error
is_valid_transition ready disconnect = some disconnecting
is_valid_transition ready connection_lost = some backoff
is_valid_transition ready fatal_error = some error
is_valid_transition backoff disconnect = some disconnected
is_valid_transition backoff backoff_expired = some retrying
is_valid_transition backoff retry_requested = some retrying
is_valid_transition backoff fatal_error = some error
is_valid_transition retrying connect_success = some connected
is_valid_transition retrying connect_failed = some backoff
is_valid_transition retrying disconnect = some disconnected
is_valid_transition retrying fatal_error = some error
is_valid_transition disconnecting connect_success = some disconnected
is_valid_transition disconnecting connect_failed = some disconnected
is_valid_transition disconnecting connection_lost = some disconnected
is_valid_transition disconnecting fatal_error = some disconnected
is_valid_transition error disconnect = some disconnected
is_valid_transition error retry_requested = some connecting
is_valid_transition _ _ = none

abbrev pub is_retrying : ConnectionState → Bool
is_retrying retrying = true
is_retrying _ = false

abbrev is_connecting : ConnectionState → Bool
is_connecting connecting = true
is_connecting _ = false

abbrev is_backoff : ConnectionState → Bool
is_backoff backoff = true
is_backoff _ = false

abbrev pub is_ready : ConnectionState → Bool
is_ready ready = true
is_ready _ = false

-- The counter's update in `transition_to`; `m_retry_count++` wraps.
unfoldable pub next_retry_count : ConnectionState → ConnectionState → ℕ → ℕ
next_retry_count old_state new_state count =
    let counted =
      if (is_retrying new_state || is_connecting new_state)
        && (is_backoff old_state || is_retrying old_state)
      then (count + 1) % 2 ^ 32
      else count in
    if is_ready new_state then 0 else counted

unfoldable pub transition_to :
    ConnectionStateMachine
    → ConnectionState
    → ConnectionEvent
    → ConnectionStateMachine × List Notice
unfolding next_retry_count
transition_to m new_state event = (
  record m { state = new_state; retry_count = next_retry_count m.state new_state m.retry_count },
  if m.callback
      then record { old_state = m.state; new_state = new_state; event = event } ∷ []
      else [],
)

-- The two tests of `process_event` that come before the table.
unfoldable pub is_already_there : ConnectionState → ConnectionEvent → Bool
is_already_there disconnected disconnect = true
is_already_there ready connect_success = true
is_already_there _ _ = false

unfoldable pub process_event :
    ConnectionStateMachine
    → ConnectionEvent
    → ConnectionStateMachine × TransitionResult × List Notice
unfolding is_already_there is_valid_transition transition_to
process_event m event =
    if is_already_there m.state event
    then (m, already_in_state, [])
    else elim (is_valid_transition m.state event) [
      | some target ↦ (let (m', notices) = transition_to m target event in (m', success, notices))
      | none ↦ (m, invalid_transition, [])
    ]

unfoldable pub set_state_change_callback : ConnectionStateMachine → Bool → ConnectionStateMachine
set_state_change_callback m callback = record m { callback = callback }

unfoldable pub force_state : ConnectionStateMachine → ConnectionState → ConnectionStateMachine
force_state m state = record m { state = state }

unfoldable pub reset_retry_count : ConnectionStateMachine → ConnectionStateMachine
reset_retry_count m = record m { retry_count = 0 }

-- A run over a list of events, with all that the callback sees.
unfoldable pub run :
    ConnectionStateMachine → List ConnectionEvent → ConnectionStateMachine × List Notice
run m [] = (m, [])
run m (e ∷ es) =
    let (m', result, notices) = process_event m e in
    let (m'', later) = run m' es in (m'', notices ++ later)
