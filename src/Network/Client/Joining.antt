-- ===== src/Network/Client/Joining.antt =====
-- How a client gets ready: `connect`, an update that sends the handshake, and one that gets the answer.
-- What is carried along on the way.
pub mod Dialing
pub mod Handshake
use ryu_ldn_nx.Prelude.{ℕ, ◌≡◌, Bool, some, List, if◌then◌else◌, take, drop}
use ryu_ldn_nx.Network.ConnectionState.{ConnectionState, ready}
use ryu_ldn_nx.Network.TcpInterface.{ITcpClient}
use ryu_ldn_nx.Network.Client.{Client}
use ryu_ldn_nx.Network.Client.Connecting.{with_address}

-- The client of a `connect` with its configuration's own address.
abbrev pub dialing : {T : Type 0} → Client T → Client T
dialing c = with_address c (some c.config.host) c.config.port

-- What the steps of getting ready carry along: the state, the TCP client, and what the handshake uses.
pub record Reached {T : Type 0} (state : ConnectionState) (tcp : T) (sent : Bool) (c c' : Client T)
    : Type 0 where
  pub state_is : c'.machine.state ≡ state
  pub tcp_is : c'.tcp ≡ tcp
  pub sent_is : c'.handshake_sent ≡ sent
  pub same_config : c'.config ≡ (dialing c).config
  pub same_session : c'.session_id ≡ c.session_id
  pub same_mac : c'.mac_address ≡ c.mac_address
  pub same_timeout : c'.handshake_timeout_ms ≡ c.handshake_timeout_ms

-- The TCP client that `connect` uses: it is initialized on the first call.
abbrev pub started : {T : Type 0} → ITcpClient T → Client T → T
started I c = if c.initialized then c.tcp else (I.initialize c.tcp).1

-- A client that an `Initialize` packet has made ready.
pub record Joined {T : Type 0} (payload : List ℕ) (tcp : T) (c : Client T) : Type 0 where
  pub is_there : c.machine.state ≡ ready
  pub has_session : c.session_id ≡ take 16 payload
  pub has_mac : c.mac_address ≡ take 6 (drop 16 payload)
  pub has_tcp : c.tcp ≡ tcp
