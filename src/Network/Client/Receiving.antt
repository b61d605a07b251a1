-- ===== src/Network/Client/Receiving.antt =====
-- sysmodule/source/network/client.cpp: `handle_packet`, `process_packets`,
-- `process_handshake_response` and `handle_handshaking_state`.
use ryu_ldn_nx.Prelude.{
  ℕ, zero, suc, Bool, true, false, Option, none, some, List, [], ◌∷◌, ◌++◌, ltb, ◌==◌,
  if◌then◌else◌, length, get_or, take, drop,
}
use ryu_ldn_nx.Prelude.Bytes.{read_u32}
use ryu_ldn_nx.Protocol.Header as Header
use ryu_ldn_nx.Protocol.Header.{code}
use ryu_ldn_nx.Network.ConnectionState.{ConnectionEvent}
use ryu_ldn_nx.Network.TcpInterface.{ClientResult, Message, Received, ITcpClient}
use ryu_ldn_nx.Network.Client.{
  Client, error_none, version_mismatch, invalid_session_id, handshake_timeout, connection_rejected,
  internal_error_code, recv_buffer_size, is_sent, is_lost, is_lost_or_down, process_event, notify,
  notify_change, fail, fail_change, is_handshake_timeout, generate_session_id,
}

abbrev pub is_timeout : ClientResult → Bool
is_timeout ClientResult.timeout = true
is_timeout _ = false

module _ {T : Type 0} where
  unfoldable pub deliver : Client T → ℕ → List ℕ → Client T
  deliver c id payload =
      if c.packet_callback then record c { packets = c.packets ++ ((id, payload) ∷ []) } else c

  -- "Store assigned session ID and MAC address", where the message is long enough.
  unfoldable pub adopt : Client T → List ℕ → Client T
  adopt c payload =
      if ltb (length payload) 22
      then c
      else record c { session_id = take 16 payload; mac_address = take 6 (drop 16 payload) }

  -- `HandshakeSuccess`, with the error cleared and the callback.
  unfoldable pub succeed : Client T → Client T
  unfolding process_event notify
  succeed c =
      notify
        (process_event (record c { last_error_code = error_none })
          ConnectionEvent.handshake_success)
        c.machine.state

module _ {T : Type 0} (I : ITcpClient T) where
  unfoldable pub handle_packet : Client T → ℕ → List ℕ → Client T
  unfolding process_event deliver
  handle_packet c id payload =
      if id == code Header.PacketId.ping
      then if ltb (length payload) 2
        then c
        else if get_or payload 0 0 == 0
        then record c { tcp = (I.send c.tcp (Message.ping 0 (get_or payload 1 0))).1 }
        else record c { pending_ping_count = 0; last_pong_time_ms = c.last_ping_time_ms }
      else if id == code Header.PacketId.disconnect
      then process_event c ConnectionEvent.disconnect
      else deliver c id payload

  -- The loop of `process_packets`, on fuel.
  unfoldable pub receive_packets : ℕ → Client T → Option (Client T)
  unfolding handle_packet fail_change
  receive_packets zero c = none
  receive_packets (suc fuel) c =
      let (received, tcp) = I.receive_packet c.tcp recv_buffer_size c.config.recv_timeout_ms in
      let c' = record c { tcp = tcp } in
      let rest = receive_packets fuel (handle_packet c' received.id received.payload) in
      if is_timeout received.result
      then some c'
      else if is_lost_or_down received.result
      then some (fail_change c' ConnectionEvent.connection_lost)
      else if is_sent received.result
      then rest
      else some c'

  unfoldable pub process_packets : ℕ → Client T → Option (Client T)
  unfolding receive_packets
  process_packets fuel c = if I.is_connected c.tcp then receive_packets fuel c else some c

module _ {T : Type 0} (rand : ℕ → ℕ) where
  -- `PacketId::NetworkError`, once the error is read.
  unfoldable pub refuse : Client T → ℕ → Client T
  unfolding process_event notify fail generate_session_id
  refuse c error_code =
      let c' = record c { last_error_code = error_code } in
      if error_code == version_mismatch
      then notify (process_event c' ConnectionEvent.fatal_error) c.machine.state
      else fail (if error_code == invalid_session_id then generate_session_id rand c' else c')
          ConnectionEvent.handshake_failed

  -- Whether the handshake is over, and the client.
  unfoldable pub process_handshake_response : Client T → ℕ → List ℕ → Bool × Client T
  unfolding adopt succeed refuse fail deliver
  process_handshake_response c id payload =
      if id == code Header.PacketId.initialize
      then (true, succeed (adopt c payload))
      else if id == code Header.PacketId.network_error
      then (
        true,
        refuse c (if ltb (length payload) 4 then internal_error_code else read_u32 payload 0),
      )
      else if id == code Header.PacketId.sync_network
      then (true, succeed c)
      else if id == code Header.PacketId.disconnect
      then (
        true,
        fail (record c { last_error_code = connection_rejected }) ConnectionEvent.handshake_failed,
      )
      else (false, deliver c id payload)

  -- What follows `receive_packet` in `handle_handshaking_state`.
  unfoldable pub handshake_received : Client T → Received → Client T
  unfolding process_handshake_response notify_change fail
  handshake_received c received =
      let (over, c') = process_handshake_response c received.id received.payload in
      if is_sent received.result
      then if over then notify_change c' c.machine.state else c'
      else if is_lost received.result
      then fail c ConnectionEvent.connection_lost
      else c

module _ {T : Type 0} (I : ITcpClient T) (rand : ℕ → ℕ) where
  unfoldable pub handle_handshaking_state : Client T → ℕ → Client T
  unfolding is_handshake_timeout fail_change handshake_received
  handle_handshaking_state c now =
      let (received, tcp) = I.receive_packet c.tcp recv_buffer_size c.config.recv_timeout_ms in
      if is_handshake_timeout c now
      then fail_change (record c { last_error_code = handshake_timeout })
          ConnectionEvent.handshake_failed
      else handshake_received rand (record c { tcp = tcp }) received
