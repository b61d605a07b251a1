-- ===== src/Network/TcpInterface.antt =====
-- `ITcpClient` of sysmodule/source/network/itcp_client.hpp, the interface through which the network
-- client uses a TCP client: its results, the messages that it sends, and the operations over a state
-- of the implementation's own. The payload structures that the network client only passes on are bytes.
use ryu_ldn_nx.Prelude.{ℕ, Bool, true, false, Option, List}

pub data ClientResult : Type 0 where
  success not_connected already_connected connection_failed connection_lost timeout : ClientResult
  invalid_packet protocol_error buffer_too_small encoding_error not_initialized : ClientResult
  internal_error : ClientResult

abbrev pub is_sent : ClientResult → Bool
is_sent success = true
is_sent _ = false

-- A call of one of the `send_` functions, with what it sends.
pub data Message : Type 0 where
  passphrase : List ℕ → Message
  initialize : List ℕ → List ℕ → Message  -- the session's id and the MAC address
  ping : ℕ → ℕ → Message  -- who asked, and the ping's number
  disconnect : ℕ → Message
  scan connect connect_private : List ℕ → Message
  create_access_point_private : List ℕ → Option (List ℕ) → Message  -- advertise data may be null
  create_access_point proxy_data : List ℕ → List ℕ → Message
  set_accept_policy : ℕ → Message
  set_advertise_data raw : List ℕ → Message
  reject : ℕ → ℕ → Message

-- Where `connect` connects to.
pub record Endpoint : Type 0 where
  pub host : List ℕ
  pub port : ℕ  -- uint16_t
  pub timeout_ms : ℕ  -- uint32_t
  pub use_tls : Bool

-- What `receive_packet` gives: its result, the packet's type byte, the payload and its size. With a failure
-- the type is 0 and there is no payload, but the size is also set when the caller's block is too small.
pub record Received : Type 0 where
  pub result : ClientResult
  pub id : ℕ
  pub payload : List ℕ
  pub payload_size : ℕ

-- The operations. `receive_packet` takes the size of the caller's block and the timeout.
pub record ITcpClient (T : Type 0) : Type 0 where
  pub initialize : T → Bool × T
  pub connect : T → Endpoint → ClientResult × T
  pub disconnect : T → T
  pub is_connected : T → Bool
  pub send : T → Message → ClientResult × T
  pub receive_packet : T → ℕ → ℕ → Received × T
