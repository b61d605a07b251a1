-- ===== src/Network/Client/Moves/Diagram.antt =====
-- The diagram of the client's states: which state a call can lead to.
use ryu_ldn_nx.Prelude.{◌+◌, ◌%◌, ◌≡◌, true, false, Bool, ◌||◌, List, [], ◌∷◌, arith}
use ryu_ldn_nx.Network.ConnectionState.{
  ConnectionState, disconnected, connecting, connected, handshaking, ready, backoff, retrying,
  disconnecting, error, ConnectionEvent, ConnectionStateMachine, is_connected, is_transitioning,
}
use ryu_ldn_nx.Network.ConnectionState as Machine
use ryu_ldn_nx.Network.TcpInterface.{ClientResult, Message, ITcpClient}
use ryu_ldn_nx.Network.Client.{Client, is_lost, same_state}
use ryu_ldn_nx.Network.Client.Sending.{send_with, send_ping}
use ryu_ldn_nx.Network.Client.Calls.{Call}
use ryu_ldn_nx.Network.Client.States.{next, state-lose}

abbrev pub is_in : ConnectionState → List ConnectionState → Bool
is_in t [] = false
is_in t (s ∷ ss) = same_state t s || is_in t ss

-- Where `connect` can lead, where a function that sends can, and where `update` can.
abbrev pub connects : ConnectionState → List ConnectionState
connects disconnected = disconnected ∷ connected ∷ backoff ∷ []
connects s = s ∷ []

abbrev pub sends : ConnectionState → List ConnectionState
sends ready = ready ∷ backoff ∷ []
sends s = s ∷ []

abbrev pub updates : ConnectionState → List ConnectionState
updates connected = connected ∷ handshaking ∷ backoff ∷ []
updates handshaking = handshaking ∷ ready ∷ backoff ∷ error ∷ []
updates ready = ready ∷ backoff ∷ disconnecting ∷ disconnected ∷ []
updates backoff = backoff ∷ connected ∷ []
updates disconnecting = disconnected ∷ []
updates s = s ∷ []

abbrev pub targets : Call → ConnectionState → List ConnectionState
targets (Call.set_config config) s = s ∷ []
targets (Call.set_state_callback b) s = s ∷ []
targets (Call.set_packet_callback b) s = s ∷ []
targets Call.connect s = connects s
targets (Call.connect_to host port) s = connects s
targets Call.disconnect s = disconnected ∷ []
targets (Call.update fuel now) s = updates s
targets _ s = sends s

pub same-is_in : (s : ConnectionState) → is_in s (s ∷ []) ≡ true
same-is_in s = ground arith

pub sends_self : (s : ConnectionState) → is_in s (sends s) ≡ true
sends_self s = ground arith

pub sends-lost :
    (s : ConnectionState)
    → Machine.is_ready s ≡ true
    → is_in (next s ConnectionEvent.connection_lost) (sends s) ≡ true
unfolding next
sends-lost s r = ground arith

module _ {T : Type 0} (I : ITcpClient T) where
  pub send_with-sends :
      (lost : ClientResult → Bool) (c : Client T) (message : Message)
      → is_in (send_with I lost c message).1.machine.state (sends c.machine.state) ≡ true
  unfolding send_with
  send_with-sends lost c message =
      let (result, tcp) = I.send c.tcp message in
      ground (
        arith,
        sends_self c.machine.state,
        sends-lost c.machine.state,
        state-lose (record c { tcp = tcp }) ConnectionEvent.connection_lost,
      )

  pub send_ping-sends :
      (c : Client T) → is_in (send_ping I c).1.machine.state (sends c.machine.state) ≡ true
  unfolding send_ping
  send_ping-sends c = ground (
    arith,
    sends_self c.machine.state,
    send_with-sends is_lost (record c { ping_id = (c.ping_id + 1) % 256 })
        (Message.ping 1 c.ping_id),
  )
