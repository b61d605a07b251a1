-- ===== src/Network/Client/Moves.antt =====
-- The client's calls keep to the diagram of its states.
pub mod Diagram
pub mod Connecting
pub mod Receiving
pub mod Handshake
use ryu_ldn_nx.Prelude.{
  ℕ, zero, suc, ◌+◌, ◌%◌, ◌≡◌, refl, true, false, Bool, ◌||◌, some, none, Option, List, [], ◌∷◌,
  arith, Bool-cases, inl, inr, ap, if◌then◌else◌, ◌∙◌, ◌==◌, subst, sym, ◌⊎◌, ◌&&◌, not,
}
use ryu_ldn_nx.Network.ConnectionState.{
  ConnectionState, disconnected, connecting, connected, handshaking, ready, backoff, retrying,
  disconnecting, error, ConnectionEvent, ConnectionStateMachine, is_connected, is_transitioning,
}
use ryu_ldn_nx.Network.ConnectionState as Machine
use ryu_ldn_nx.Network.Reconnect as Reconnect
use ryu_ldn_nx.Network.TcpInterface.{ClientResult, Message, Received, ITcpClient}
use ryu_ldn_nx.Network.Client.{
  ClientOpResult, already_connected, set_config, set_state_callback, set_packet_callback, Client,
  elapsed, ◌>>=◌, process_event, notify, notify_change, auto_backoff, lose, fail, fail_change,
  is_sent, is_lost, is_lost_or_down, recv_buffer_size, is_op_success, same_state,
  is_backoff_expired,
}
use ryu_ldn_nx.Network.Client.Connecting.{
  is_transition_success, is_busy, with_address, endpoint, connect_answered, try_connect,
  begin_connect, initialize_and_connect, connect_to, disconnect, sent_or_failed, send_initialize,
  connect,
}
use ryu_ldn_nx.Network.Client.Sending.{send_with, send_ping}
use ryu_ldn_nx.Network.Client.Receiving.{
  is_timeout, deliver, succeed, refuse, process_handshake_response, handshake_received,
  handle_handshaking_state, handle_packet, receive_packets, process_packets,
}
use ryu_ldn_nx.Network.Client.Updating.{
  is_overdue, is_due, ping, start_handshake, keep_alive, handle_ready_state, retry, wait_backoff,
  update_in, update,
}
use ryu_ldn_nx.Network.Client.Connecting as Joining
use ryu_ldn_nx.Network.Client.Sending as Sending
use ryu_ldn_nx.Network.Client.Calls.{Call, call, call_all}
use ryu_ldn_nx.Network.Client.States.{
  next, Each, Each-bind, Each-map, Each-of, if-holds, state-process_event, state-notify,
  state-notify_change, state-lose, state-fail, state-fail_change, state-connect_answered,
}
use ryu_ldn_nx.Network.Client.Moves.Diagram.{
  is_in, connects, sends, updates, targets, same-is_in, sends_self, sends-lost, send_with-sends,
  send_ping-sends,
}
use ryu_ldn_nx.Network.Client.Moves.Connecting.{
  process_event-connect, connects_self, from_disconnected, left-disconnected,
  sent_or_failed-connected, after_start, try_connect-connecting, try_connect-retrying,
  begin_connect-connects, initialize_and_connect-connects, connect_to-connects,
  disconnect-disconnected, send_initialize-connected, start_handshake-updates, retry-updates,
}
use ryu_ldn_nx.Network.Client.Moves.Receiving.{
  receiving, next-receiving, sends-receiving, state-deliver, handle_packet-receiving,
  receive_packets-receiving, ping-sends, keep_alive-receiving, handle_ready_state-receiving,
}
use ryu_ldn_nx.Network.Client.Moves.Handshake.{
  Accepts, unready, Outcome, handle_handshaking_state-Outcome,
}

-- What an outcome of a handshake is in the diagram.
outcome-updates :
    (received : Received) (t : ConnectionState)
    → Outcome received t
    → is_in t (updates handshaking) ≡ true
outcome-updates received t (inl (r, _, _)) = ap (λ u. is_in u (updates handshaking)) r
outcome-updates received t (inr h) = ground arith

state-is_backoff_expired :
    {T : Type 0} (c : Client T) (now : ℕ)
    → (is_backoff_expired c now).1.machine.state ≡ c.machine.state
unfolding is_backoff_expired
state-is_backoff_expired c now = ground arith

module _ {T : Type 0} (I : ITcpClient T) (rand : ℕ → ℕ) where
  wait_backoff-updates :
      (c : Client T) (now : ℕ)
      → c.machine.state ≡ backoff
      → Each (λ c'. is_in c'.machine.state (updates backoff) ≡ true) (wait_backoff I c now)
  unfolding wait_backoff
  wait_backoff-updates c now e =
      let (expired, c') = is_backoff_expired c now in
      let s : c'.machine.state ≡ backoff = state-is_backoff_expired c now ∙ e in
      if-holds
        (λ (o : Option (Client T)). Each (λ d. is_in d.machine.state (updates backoff) ≡ true) o)
        expired (retry I c') (some c') (retry-updates I c' s)
        (ap (λ t. is_in t (updates backoff)) s)

  pub update_in-updates :
      (s : ConnectionState) (fuel : ℕ) (c : Client T) (now : ℕ)
      → c.machine.state ≡ s
      → Each (λ c'. is_in c'.machine.state (updates s) ≡ true) (update_in I rand s fuel c now)
  unfolding update_in next
  update_in-updates disconnected fuel c now e = ground (arith, e)
  update_in-updates connecting fuel c now e = ground (arith, e)
  update_in-updates connected fuel c now e =
      if-holds (λ (d : Client T). is_in d.machine.state (updates connected) ≡ true) c.handshake_sent
        c (start_handshake I c now) (ground (arith, e)) (start_handshake-updates I c now e)
  update_in-updates handshaking fuel c now e =
      outcome-updates (I.receive_packet c.tcp recv_buffer_size c.config.recv_timeout_ms).0 _
        (handle_handshaking_state-Outcome I rand c now e)
  update_in-updates ready fuel c now e =
      handle_ready_state-receiving I fuel c now (ap (λ t. is_in t receiving) e)
  update_in-updates backoff fuel c now e = wait_backoff-updates c now e
  update_in-updates retrying fuel c now e = ground (arith, e)
  update_in-updates disconnecting fuel c now e = ground (
    arith,
    state-notify (process_event c ConnectionEvent.connection_lost) disconnecting,
    state-process_event c ConnectionEvent.connection_lost,
    e,
  )
  update_in-updates error fuel c now e = ground (arith, e)

  -- Every call keeps to the diagram: the state that it leaves is one that `targets` lists for this call and the
  -- state before it. The result may be missing, by a division by zero or for lack of fuel.
  pub call-targets :
      (c : Client T) (e : Call)
      → Each (λ c'. is_in c'.machine.state (targets e c.machine.state) ≡ true) (call I rand c e)
  unfolding call set_config set_state_callback set_packet_callback Joining.connect update
      Sending.send_scan Sending.send_connect Sending.send_create_access_point_private
      Sending.send_connect_private Sending.send_set_advertise_data Sending.send_raw_packet
      Sending.send_create_access_point Sending.send_proxy_data Sending.send_ping_response
      Sending.send_set_accept_policy Sending.send_reject Sending.send_disconnect_network
  call-targets c (Call.set_config config) =
      Each-of _ (Reconnect.set_config c.reconnect_manager config.reconnect) _
        (λ m. same-is_in c.machine.state)
  call-targets c (Call.set_state_callback b) = same-is_in c.machine.state
  call-targets c (Call.set_packet_callback b) = same-is_in c.machine.state
  call-targets c Call.connect =
      Each-bind _ _ (Joining.connect_to I c (some c.config.host) c.config.port) _
        (connect_to-connects I c (some c.config.host) c.config.port) (λ r h. h)
  call-targets c (Call.connect_to host port) =
      Each-bind _ _ (Joining.connect_to I c host port) _ (connect_to-connects I c host port)
        (λ r h. h)
  call-targets c Call.disconnect =
      Each-map (Joining.disconnect I c) (disconnect-disconnected I c)
        (λ c' e. ap (λ t. is_in t (disconnected ∷ [])) e)
  call-targets c (Call.update fuel now) =
      update_in-updates c.machine.state fuel (record c { last_update_time_ms = now }) now refl
  call-targets c Call.send_ping = send_ping-sends I c
  call-targets c Call.send_disconnect_network = send_with-sends I is_lost c (Message.disconnect 0)
  call-targets c (Call.send_scan filter) = send_with-sends I is_lost c (Message.scan filter)
  call-targets c (Call.send_connect request) = send_with-sends I is_lost c (Message.connect request)
  call-targets c (Call.send_create_access_point_private request) =
      send_with-sends I is_lost c (Message.create_access_point_private request none)
  call-targets c (Call.send_connect_private request) =
      send_with-sends I is_lost c (Message.connect_private request)
  call-targets c (Call.send_set_advertise_data bytes) =
      send_with-sends I is_lost c (Message.set_advertise_data bytes)
  call-targets c (Call.send_raw_packet bytes) = send_with-sends I is_lost c (Message.raw bytes)
  call-targets c (Call.send_create_access_point request advertise_data) =
      send_with-sends I is_lost c (Message.create_access_point request advertise_data)
  call-targets c (Call.send_proxy_data header bytes) =
      send_with-sends I is_lost_or_down c (Message.proxy_data header bytes)
  call-targets c (Call.send_ping_response ping_id) =
      send_with-sends I is_lost c (Message.ping 0 ping_id)
  call-targets c (Call.send_set_accept_policy policy) =
      send_with-sends I is_lost c (Message.set_accept_policy policy)
  call-targets c (Call.send_reject node_id reason) =
      send_with-sends I is_lost c (Message.reject node_id reason)
