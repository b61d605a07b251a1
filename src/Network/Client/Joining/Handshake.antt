-- ===== src/Network/Client/Joining/Handshake.antt =====
-- The updates that send the handshake and get its answer.
use ryu_ldn_nx.Prelude.{
  ℕ, ◌≤◌, ◌<◌, ◌≡◌, refl, subst, sym, ap, ap₂, ◌∙◌, Bool, true, false, ◌||◌, some, List, [], ◌∷◌,
  arith, length, take, drop, ltb, ge→ltb,
}
use ryu_ldn_nx.Protocol.Header.{code, initialize}
use ryu_ldn_nx.Network.ConnectionState.{
  ConnectionState, disconnected, connecting, connected, handshaking, ready,
}
use ryu_ldn_nx.Network.ConnectionState as Machine
use ryu_ldn_nx.Network.TcpInterface.{ClientResult, Message, Received, ITcpClient}
use ryu_ldn_nx.Network.Client.{
  ClientOpResult, ClientConfig, Client, elapsed, recv_buffer_size, notify_change,
  is_handshake_timeout,
}
use ryu_ldn_nx.Network.Client.Connecting.{
  endpoint, with_address, connect, send_initialize, sent_or_failed,
}
use ryu_ldn_nx.Network.Client.Updating.{start_handshake, update_in, update}
use ryu_ldn_nx.Network.Client.Receiving.{
  adopt, succeed, process_handshake_response, handshake_received, handle_handshaking_state,
}
use ryu_ldn_nx.Network.Client.Calls.{Call, call, call_all}
use ryu_ldn_nx.Network.Client.Retrying.{Returns, Returns-bind}
use ryu_ldn_nx.Network.Client.States.{if-false}
use ryu_ldn_nx.Network.Client.Joining.{dialing, Reached, started, Joined}
use ryu_ldn_nx.Network.Client.Joining.Dialing.{connect-Reached}

handshake-event :
    (m : Machine.ConnectionStateMachine)
    → m.state ≡ connected
    → (Machine.process_event m Machine.ConnectionEvent.handshake_started).0
      ≡ record m { state = handshaking }
unfolding Machine.process_event
handshake-event m s = ground (arith, s)

success-event :
    (m : Machine.ConnectionStateMachine)
    → m.state ≡ handshaking
    → ((Machine.process_event m Machine.ConnectionEvent.handshake_success).0).state ≡ ready
unfolding Machine.process_event
success-event m s = ground (arith, s)

module _ {T : Type 0} (I : ITcpClient T) where
  send_initialize-success :
      (d : Client T) (t tcp : T)
      → I.send d.tcp (Message.passphrase d.config.passphrase) ≡ (ClientResult.success, t)
      → I.send t (Message.initialize d.session_id d.mac_address) ≡ (ClientResult.success, tcp)
      → send_initialize I d ≡ (ClientOpResult.success, record d { tcp = tcp })
  unfolding send_initialize sent_or_failed
  send_initialize-success d t tcp first second = rw (first, second)

  handshake_started-Reached :
      (c d : Client T) (tcp : T) (now : ℕ)
      → send_initialize I d ≡ (ClientOpResult.success, record d { tcp = tcp })
      → Reached connected d.tcp false c d
      → Reached handshaking tcp true c (start_handshake I d now)
        × ((start_handshake I d now).handshake_start_time_ms ≡ now)
  unfolding start_handshake
  handshake_started-Reached c d tcp now e r =
      rw (e, handshake-event d.machine r.state_is) (ground arith)

module _ {T : Type 0} (I : ITcpClient T) (rand : ℕ → ℕ) where
  succeed-ready :
      (d : Client T)
      → d.machine.state ≡ handshaking
      → let d' = notify_change (succeed d) d.machine.state in
        (d'.machine.state ≡ ready)
        × (d'.session_id ≡ d.session_id)
        × (d'.mac_address ≡ d.mac_address)
        × (d'.tcp ≡ d.tcp)
  unfolding succeed notify_change
  succeed-ready d s = let e = success-event d.machine s in ground (arith, e)

  adopted-Joined :
      (d : Client T) (payload : List ℕ)
      → d.machine.state ≡ handshaking
      → 22 ≤ length payload
      → Joined payload d.tcp (notify_change (succeed (adopt d payload)) d.machine.state)
  unfolding adopt
  adopted-Joined d payload s long =
      let adopted = record d {
        session_id = take 16 payload;
        mac_address = take 6 (drop 16 payload);
      } in
      let (there, session, mac, tcp) = succeed-ready adopted s in
      subst (λ d'. Joined payload d.tcp (notify_change (succeed d') d.machine.state))
        (sym (if-false (ltb (length payload) 22) d adopted (ge→ltb (length payload) 22 long)))
        (record { is_there = there; has_session = session; has_mac = mac; has_tcp = tcp })

  initialize-received :
      (d : Client T) (payload : List ℕ)
      → handshake_received rand d (record {
        result = ClientResult.success;
        id = code initialize;
        payload = payload;
        payload_size = length payload;
      })
        ≡ notify_change (succeed (adopt d payload)) d.machine.state
  unfolding handshake_received process_handshake_response code
  initialize-received d payload = refl

  in_time :
      (d : Client T) (now : ℕ)
      → elapsed now d.handshake_start_time_ms < d.handshake_timeout_ms
      → is_handshake_timeout d now ≡ false
  unfolding is_handshake_timeout
  in_time d now soon = ground arith

  answer-Joined :
      (d : Client T) (tcp : T) (payload : List ℕ) (now : ℕ)
      → d.machine.state ≡ handshaking
      → 22 ≤ length payload
      → elapsed now d.handshake_start_time_ms < d.handshake_timeout_ms
      → I.receive_packet d.tcp recv_buffer_size d.config.recv_timeout_ms ≡ (
        record {
          result = ClientResult.success;
          id = code initialize;
          payload = payload;
          payload_size = length payload;
        },
        tcp,
      )
      → Joined payload tcp (handle_handshaking_state I rand d now)
  unfolding handle_handshaking_state
  answer-Joined d tcp payload now s long soon got =
      let e =
        if-false _ _ _ (in_time d now soon)
        ∙ ap (λ (a : Received × T). handshake_received rand (record d { tcp = a.1 }) a.0) got
        ∙ initialize-received (record d { tcp = tcp }) payload in
      subst (Joined payload tcp) (sym e) (adopted-Joined (record d { tcp = tcp }) payload s long)

  ticked :
      (state : ConnectionState) (tcp : T) (sent : Bool) (c d : Client T) (now : ℕ)
      → Reached state tcp sent c d
      → Reached state tcp sent c (record d { last_update_time_ms = now })
  ticked state tcp sent c d now r = ground arith

  -- The update that sends the handshake.
  update-handshaking :
      (c d : Client T) (t t' tcp : T) (fuel now : ℕ)
      → Reached connected t false c d
      → I.send t (Message.passphrase c.config.passphrase) ≡ (ClientResult.success, t')
      → I.send t' (Message.initialize c.session_id c.mac_address) ≡ (ClientResult.success, tcp)
      → Returns
          (λ d'. Reached handshaking tcp true c d' × (d'.handshake_start_time_ms ≡ now))
          (update I rand fuel d now)
  unfolding update update_in with_address
  update-handshaking c d t t' tcp fuel now r first second =
      let d' = record d { last_update_time_ms = now } in
      let e : update I rand fuel d now ≡ some (start_handshake I d' now) =
        ap (λ s. update_in I rand s fuel d' now) r.state_is ∙ ap some (if-false _ _ _ r.sent_is) in
      let passphrase = ap (λ (g : ClientConfig). g.passphrase) r.same_config in
      let sends =
        send_initialize-success I d' t' tcp
          (ap₂ (λ x p. I.send x (Message.passphrase p)) r.tcp_is passphrase ∙ first)
          (ap₂ (λ x p. I.send t' (Message.initialize x p)) r.same_session r.same_mac ∙ second) in
      subst (Returns _) (sym e) (
        handshake_started-Reached I c d' tcp now sends (
          subst (λ x. Reached connected x false c d') (sym r.tcp_is)
            (ticked connected t false c d now r)))

  -- The update that gets the answer.
  update-Joined :
      (c d : Client T) (t tcp : T) (payload : List ℕ) (fuel started now : ℕ)
      → Reached handshaking t true c d
      → d.handshake_start_time_ms ≡ started
      → 22 ≤ length payload
      → elapsed now started < c.handshake_timeout_ms
      → I.receive_packet t recv_buffer_size c.config.recv_timeout_ms ≡ (
        record {
          result = ClientResult.success;
          id = code initialize;
          payload = payload;
          payload_size = length payload;
        },
        tcp,
      )
      → Returns (Joined payload tcp) (update I rand fuel d now)
  unfolding update update_in with_address
  update-Joined c d t tcp payload fuel started now r begun long soon got =
      let d' = record d { last_update_time_ms = now } in
      let e : update I rand fuel d now ≡ some (handle_handshaking_state I rand d' now) =
        ap (λ s. update_in I rand s fuel d' now) r.state_is in
      let timeout = ap (λ (g : ClientConfig). g.recv_timeout_ms) r.same_config in
      subst (Returns (Joined payload tcp)) (sym e) (
        answer-Joined d' tcp payload now r.state_is long
          (subst (λ s. elapsed now s < d.handshake_timeout_ms) (sym begun)
            (subst (λ n. elapsed now started < n) (sym r.same_timeout) soon))
          (ap₂ (λ x n. I.receive_packet x recv_buffer_size n) r.tcp_is timeout ∙ got))

  -- A client gets ready: disconnected, it is told to connect and then updated twice. It does when the sockets
  -- are or can be initialized, the TCP client connects and sends the passphrase and the `Initialize`
  -- packet with the client's session id and MAC address, and within the handshake's timeout hands over
  -- an `Initialize` packet of 22 bytes at least. The client is then ready, with the session id and
  -- the MAC address of that packet. The multiplier of the delay is above 0.
  pub call_all-ready :
      (c : Client T) (t t' t'' tcp : T) (payload : List ℕ) (fuel now fuel' now' : ℕ)
      → c.machine.state ≡ disconnected
      → 0 < c.reconnect_manager.config.multiplier_percent
      → (c.initialized || (I.initialize c.tcp).0) ≡ true
      → I.connect (started I c) (endpoint (dialing c)) ≡ (ClientResult.success, t)
      → I.send t (Message.passphrase c.config.passphrase) ≡ (ClientResult.success, t')
      → I.send t' (Message.initialize c.session_id c.mac_address) ≡ (ClientResult.success, t'')
      → I.receive_packet t'' recv_buffer_size c.config.recv_timeout_ms ≡ (
        record {
          result = ClientResult.success;
          id = code initialize;
          payload = payload;
          payload_size = length payload;
        },
        tcp,
      )
      → 22 ≤ length payload
      → elapsed now' now < c.handshake_timeout_ms
      → Returns
          (Joined payload tcp)
          (call_all I rand c (Call.connect ∷ Call.update fuel now ∷ Call.update fuel' now' ∷ []))
  unfolding call_all call
  call_all-ready c t t' t'' tcp payload fuel now fuel' now' s h ok up first second got long soon =
      Returns-bind (Reached connected t false c) (Joined payload tcp) (call I rand c Call.connect) _
        (Returns-bind _ (Reached connected t false c) (connect I c) _
          (connect-Reached I c t s h ok up) (λ r a. a))
        (λ d r.
          Returns-bind _ (Joined payload tcp) (update I rand fuel d now) _
            (update-handshaking c d t t' t'' fuel now r first second)
            (λ d' (r', begun).
              Returns-bind (Joined payload tcp) (Joined payload tcp) (update I rand fuel' d' now') _
                (update-Joined c d' t'' tcp payload fuel' now now' r' begun long soon got)
                (λ d'' j. j)))
