-- ===== src/Network/Client.antt =====
-- sysmodule/source/network/client.hpp and client.cpp: `RyuLdnClient`, which drives the connection's
-- state machine and the reconnection policy over a TCP client. The TCP client and the values of
-- `std::rand` are parameters. The callbacks are flags, and the calls made to them are lists. An
-- operation is `none` where the reconnection policy divides by zero, or where the fuel of the receive
-- loop is used up. The user's pointers and logging are left out.
pub mod Connecting
pub mod Receiving
pub mod Sending
pub mod Updating
pub mod Calls
pub mod Retrying
pub mod Stuck
pub mod States
pub mod Moves
pub mod Readiness
pub mod Branches
pub mod Draining
pub mod Joining
mod Tests
use ryu_ldn_nx.Prelude.{
  ℕ, zero, suc, ◌+◌, ◌-◌, ◌*◌, ◌%◌, ◌^◌, Bool, true, false, Option, none, some, List, [], ◌∷◌, ◌++◌,
  leb, ◌==◌, if◌then◌else◌,
}
use ryu_ldn_nx.Network.ConnectionState.{
  ConnectionState, disconnected, connecting, connected, handshaking, ready, backoff, retrying,
  disconnecting, error, ConnectionEvent, ConnectionStateMachine,
}
use ryu_ldn_nx.Network.ConnectionState as Machine
use ryu_ldn_nx.Network.Reconnect.{ReconnectConfig, ReconnectManager}
use ryu_ldn_nx.Network.Reconnect as Reconnect
use ryu_ldn_nx.Network.TcpInterface.{ClientResult}
pub use ryu_ldn_nx.Network.TcpInterface.{is_sent}

pub data ClientOpResult : Type 0 where
  success not_connected not_ready already_connected connection_failed send_failed : ClientOpResult
  invalid_state timeout protocol_error internal_error : ClientOpResult

pub record ClientConfig : Type 0 where
  pub host : List ℕ
  pub port : ℕ
  pub connect_timeout_ms : ℕ  -- uint32_t
  pub recv_timeout_ms : ℕ  -- uint32_t
  pub ping_interval_ms : ℕ  -- uint32_t
  pub reconnect : ReconnectConfig
  pub auto_reconnect : Bool
  pub passphrase : List ℕ
  pub use_tls : Bool

-- The members, `m_tcp_client` being the state of the TCP client. `backoff_counter` is the static
-- variable of `start_backoff`, `rand_calls` counts the calls of `std::rand`, and the last two are the
-- calls of the state callback and of the packet callback, oldest first.
pub record Client (T : Type 0) : Type 0 where
  pub config : ClientConfig
  pub tcp : T
  pub machine : ConnectionStateMachine
  pub reconnect_manager : ReconnectManager
  pub state_callback : Bool
  pub packet_callback : Bool
  pub last_ping_time_ms : ℕ  -- uint64_t
  pub backoff_start_time_ms : ℕ  -- uint64_t
  pub current_backoff_delay_ms : ℕ  -- uint32_t
  pub last_update_time_ms : ℕ  -- uint64_t
  pub session_id : List ℕ
  pub mac_address : List ℕ
  pub handshake_sent : Bool
  pub initialized : Bool
  pub handshake_start_time_ms : ℕ  -- uint64_t
  pub handshake_timeout_ms : ℕ  -- uint32_t
  pub last_error_code : ℕ  -- uint32_t
  pub last_pong_time_ms : ℕ  -- uint64_t
  pub ping_timeout_ms : ℕ  -- uint32_t
  pub pending_ping_count : ℕ  -- uint32_t
  pub ping_id : ℕ  -- uint8_t
  pub backoff_counter : ℕ  -- uint32_t
  pub rand_calls : ℕ
  pub changes : List (ConnectionState × ConnectionState)
  pub packets : List (ℕ × List ℕ)

infixl 5 ◌>>=◌
abbrev pub ◌>>=◌ : {A B : Type 0} → Option A → (A → Option B) → Option B
none >>= f = none
some a >>= f = f a

-- `a - b` on a `uint64_t`.
abbrev pub elapsed : ℕ → ℕ → ℕ
elapsed a b = (a + 2 ^ 64 - b) % 2 ^ 64

-- Equality of states, for the tests that ask whether an event changed the state.
abbrev state_number : ConnectionState → ℕ
state_number disconnected = 0
state_number connecting = 1
state_number connected = 2
state_number handshaking = 3
state_number ready = 4
state_number backoff = 5
state_number retrying = 6
state_number disconnecting = 7
state_number error = 8

abbrev pub same_state : ConnectionState → ConnectionState → Bool
same_state s t = state_number s == state_number t

-- `NetworkErrorCode`, as far as the client names it.
abbrev pub error_none : ℕ
error_none = 0

abbrev pub version_mismatch : ℕ
version_mismatch = 1

abbrev pub invalid_session_id : ℕ
invalid_session_id = 3

abbrev pub handshake_timeout : ℕ
handshake_timeout = 4

abbrev pub connection_rejected : ℕ
connection_rejected = 202

abbrev pub internal_error_code : ℕ
internal_error_code = 900

abbrev pub recv_buffer_size : ℕ
recv_buffer_size = 2048

abbrev pub is_lost : ClientResult → Bool
is_lost ClientResult.connection_lost = true
is_lost _ = false

abbrev pub is_lost_or_down : ClientResult → Bool
is_lost_or_down ClientResult.connection_lost = true
is_lost_or_down ClientResult.not_connected = true
is_lost_or_down _ = false

abbrev pub is_op_success : ClientOpResult → Bool
is_op_success success = true
is_op_success _ = false

-- The first `n` values of `std::rand() & 0xFF` from the `k`-th call on.
unfoldable pub random_bytes : (ℕ → ℕ) → ℕ → ℕ → List ℕ
random_bytes rand k zero = []
random_bytes rand k (suc n) = rand k % 256 ∷ random_bytes rand (k + 1) n

module _ {T : Type 0} where
  unfoldable pub process_event : Client T → ConnectionEvent → Client T
  process_event c e = record c { machine = (Machine.process_event c.machine e).0 }

  -- A call of the state callback, if there is one.
  unfoldable pub notify : Client T → ConnectionState → Client T
  notify c before =
      if c.state_callback
      then record c { changes = c.changes ++ ((before, c.machine.state) ∷ []) }
      else c

  unfoldable pub notify_change : Client T → ConnectionState → Client T
  unfolding notify
  notify_change c before = if same_state before c.machine.state then c else notify c before

  unfoldable pub start_backoff : Client T → Client T
  start_backoff c =
      let counter = (c.backoff_counter + 1) % 2 ^ 32 in
      let seed = ((c.reconnect_manager.retry_count + 1) * 2654435761 + counter * 40503) % 2 ^ 32 in
      record c {
        backoff_start_time_ms = c.last_update_time_ms;
        backoff_counter = counter;
        current_backoff_delay_ms = Reconnect.get_next_delay_ms_with_jitter c.reconnect_manager seed;
      }

  -- `if (m_config.auto_reconnect) start_backoff();`
  unfoldable pub auto_backoff : Client T → Client T
  unfolding start_backoff
  auto_backoff c = if c.config.auto_reconnect then start_backoff c else c

  -- Whether the delay is over, and the client, whose timer may only start now.
  unfoldable pub is_backoff_expired : Client T → ℕ → Bool × Client T
  is_backoff_expired c now =
      if c.backoff_start_time_ms == 0
      then (false, record c { backoff_start_time_ms = now })
      else (leb c.current_backoff_delay_ms (elapsed now c.backoff_start_time_ms), c)

  unfoldable pub is_handshake_timeout : Client T → ℕ → Bool
  is_handshake_timeout c now =
      if c.handshake_start_time_ms == 0
      then false
      else leb c.handshake_timeout_ms (elapsed now c.handshake_start_time_ms)

  unfoldable pub generate_session_id : (ℕ → ℕ) → Client T → Client T
  unfolding random_bytes
  generate_session_id rand c = record c {
    session_id = random_bytes rand c.rand_calls 16;
    rand_calls = c.rand_calls + 16;
  }

  -- An event, and the callback if the state changed.
  unfoldable pub lose : Client T → ConnectionEvent → Client T
  unfolding process_event notify_change
  lose c e = notify_change (process_event c e) c.machine.state

  -- The same with a backoff between, and the callback in any case.
  unfoldable pub fail : Client T → ConnectionEvent → Client T
  unfolding process_event auto_backoff notify
  fail c e = notify (auto_backoff (process_event c e)) c.machine.state

  -- With a backoff between, and the callback if the state changed.
  unfoldable pub fail_change : Client T → ConnectionEvent → Client T
  unfolding process_event auto_backoff notify_change
  fail_change c e = notify_change (auto_backoff (process_event c e)) c.machine.state

  unfoldable pub set_config : Client T → ClientConfig → Option (Client T)
  set_config c config = do
    m ← Reconnect.set_config c.reconnect_manager config.reconnect
    some (record c { config = config; reconnect_manager = m })

  unfoldable pub set_state_callback : Client T → Bool → Client T
  set_state_callback c callback = record c { state_callback = callback }

  unfoldable pub set_packet_callback : Client T → Bool → Client T
  set_packet_callback c callback = record c { packet_callback = callback }

  unfoldable pub is_ready : Client T → Bool
  is_ready c = Machine.is_ready c.machine.state

  -- The constructors, for a TCP client that is handed over. `m_mac_address` is a constant.
  unfoldable pub new : (ℕ → ℕ) → ClientConfig → T → Option (Client T)
  unfolding generate_session_id
  new rand config tcp = do
    m ← Reconnect.new config.reconnect
    some (
        generate_session_id rand (record {
          config = config;
          tcp = tcp;
          machine = Machine.new;
          reconnect_manager = m;
          state_callback = false;
          packet_callback = false;
          last_ping_time_ms = 0;
          backoff_start_time_ms = 0;
          current_backoff_delay_ms = 0;
          last_update_time_ms = 0;
          session_id = [];
          mac_address = 2 ∷ 0 ∷ 94 ∷ 0 ∷ 83 ∷ 1 ∷ [];
          handshake_sent = false;
          initialized = false;
          handshake_start_time_ms = 0;
          handshake_timeout_ms = 5000;
          last_error_code = error_none;
          last_pong_time_ms = 0;
          ping_timeout_ms = 10000;
          pending_ping_count = 0;
          ping_id = 0;
          backoff_counter = 0;
          rand_calls = 0;
          changes = [];
          packets = [];
        }))
