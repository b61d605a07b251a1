-- ===== src/Network/Client/Moves/Handshake.antt =====
-- Where the answer to a handshake leads.
use ryu_ldn_nx.Prelude.{
  ℕ, ◌≡◌, refl, true, false, Bool, ◌==◌, ◌⊎◌, inl, inr, List, [], ◌∷◌, arith, if◌then◌else◌, ◌∙◌,
  ap, subst, sym, ltb, length,
}
use ryu_ldn_nx.Prelude.Bytes.{read_u32}
use ryu_ldn_nx.Protocol.Header as Header
use ryu_ldn_nx.Protocol.Header.{code}
use ryu_ldn_nx.Network.ConnectionState.{
  ConnectionState, handshaking, ready, backoff, error, ConnectionEvent,
}
use ryu_ldn_nx.Network.TcpInterface.{Received, ITcpClient}
use ryu_ldn_nx.Network.Client.{
  Client, process_event, notify, notify_change, fail, fail_change, is_sent, is_lost,
  recv_buffer_size, is_handshake_timeout, generate_session_id, handshake_timeout,
  connection_rejected, version_mismatch, invalid_session_id, internal_error_code, error_none,
}
use ryu_ldn_nx.Network.Client.Receiving.{
  deliver, adopt, succeed, refuse, process_handshake_response, handshake_received,
  handle_handshaking_state,
}
use ryu_ldn_nx.Network.Client.States.{
  next, state-process_event, state-notify, state-notify_change, state-fail, state-fail_change,
  if-holds, if-cases,
}
use ryu_ldn_nx.Network.Client.Moves.Diagram.{is_in}
use ryu_ldn_nx.Network.Client.Moves.Receiving.{state-deliver}

-- The packets that end a handshake well.
abbrev pub Accepts : ℕ → Type 0
Accepts id = (id ≡ code Header.PacketId.initialize) ⊎ (id ≡ code Header.PacketId.sync_network)

abbrev pub unready : List ConnectionState
unready = handshaking ∷ backoff ∷ error ∷ []

-- The client is ready after a packet that accepts it, or not ready.
abbrev Answers : ℕ → ConnectionState → Type 0
Answers id t = ((t ≡ ready) × Accepts id) ⊎ (is_in t unready ≡ true)

abbrev pub Outcome : Received → ConnectionState → Type 0
Outcome received t =
    ((t ≡ ready) × (is_sent received.result ≡ true) × Accepts received.id)
    ⊎ (is_in t unready ≡ true)

answered :
    (received : Received) {t : ConnectionState}
    → is_sent received.result ≡ true
    → Answers received.id t
    → Outcome received t
answered received ok (inl (r, a)) = inl (r, ok, a)
answered received ok (inr h) = inr h

module _ {T : Type 0} where
  state-succeed : (c : Client T) → c.machine.state ≡ handshaking → (succeed c).machine.state ≡ ready
  unfolding succeed next
  state-succeed c s =
      let c' = record c { last_error_code = error_none } in
      state-notify (process_event c' ConnectionEvent.handshake_success) c.machine.state
      ∙ state-process_event c' ConnectionEvent.handshake_success
      ∙ ap (λ t. next t ConnectionEvent.handshake_success) s

  fail-unready :
      (c : Client T)
      → c.machine.state ≡ handshaking
      → is_in (fail c ConnectionEvent.handshake_failed).machine.state unready ≡ true
  unfolding next
  fail-unready c s = ground (arith, state-fail c ConnectionEvent.handshake_failed, s)

  refuse-unready :
      (rand : ℕ → ℕ) (c : Client T) (error_code : ℕ)
      → c.machine.state ≡ handshaking
      → is_in (refuse rand c error_code).machine.state unready ≡ true
  unfolding refuse generate_session_id next
  refuse-unready rand c error_code s =
      let P = λ (c' : Client T). is_in c'.machine.state unready ≡ true in
      let c' = record c { last_error_code = error_code } in
      if-holds P (error_code == version_mismatch)
        (notify (process_event c' ConnectionEvent.fatal_error) c.machine.state) _
        (ground (
          arith,
          state-notify (process_event c' ConnectionEvent.fatal_error) c.machine.state,
          state-process_event c' ConnectionEvent.fatal_error,
          s,
        ))
        (fail-unready (if error_code == invalid_session_id then generate_session_id rand c' else c')
          (if-holds (λ (d : Client T). d.machine.state ≡ handshaking)
            (error_code == invalid_session_id) (generate_session_id rand c') c' s s))

  adopt-handshaking :
      (c : Client T) (payload : List ℕ)
      → c.machine.state ≡ handshaking
      → (adopt c payload).machine.state ≡ handshaking
  unfolding adopt
  adopt-handshaking c payload s =
      if-holds (λ (d : Client T). d.machine.state ≡ handshaking) (ltb (length payload) 22) c _ s s

  process_handshake_response-Answers :
      (rand : ℕ → ℕ) (c : Client T) (id : ℕ) (payload : List ℕ)
      → c.machine.state ≡ handshaking
      → Answers id (process_handshake_response rand c id payload).1.machine.state
  unfolding process_handshake_response
  process_handshake_response-Answers rand c id payload s =
      let P = λ (r : Bool × Client T). Answers id r.1.machine.state in
      let error_code : ℕ =
        if ltb (length payload) 4 then internal_error_code else read_u32 payload 0 in
      let refused = record c { last_error_code = connection_rejected } in
      let left : Bool × Client T =
        if id == code Header.PacketId.disconnect
        then (true, fail refused ConnectionEvent.handshake_failed)
        else (false, deliver c id payload) in
      let synced : Bool × Client T =
        if id == code Header.PacketId.sync_network then (true, succeed c) else left in
      let errors : Bool × Client T =
        if id == code Header.PacketId.network_error
        then (true, refuse rand c error_code)
        else synced in
      if-cases P (id == code Header.PacketId.initialize) (true, succeed (adopt c payload)) errors
        (λ e.
          inl (state-succeed (adopt c payload) (adopt-handshaking c payload s), inl (ground arith)))
        (λ _.
          if-holds P (id == code Header.PacketId.network_error) (true, refuse rand c error_code)
            synced (inr (refuse-unready rand c error_code s))
            (if-cases P (id == code Header.PacketId.sync_network) (true, succeed c) left
              (λ e. inl (state-succeed c s, inr (ground arith)))
              (λ _.
                if-holds P (id == code Header.PacketId.disconnect)
                  (true, fail refused ConnectionEvent.handshake_failed)
                  (false, deliver c id payload) (inr (fail-unready refused s))
                  (inr (
                    subst (λ t. is_in t unready ≡ true) (sym (state-deliver c id payload ∙ s))
                      refl)))))

  -- What `handle_handshaking_state` does with the TCP client's answer.
  handshake_received-Outcome :
      (rand : ℕ → ℕ) (c : Client T) (received : Received)
      → c.machine.state ≡ handshaking
      → Outcome received (handshake_received rand c received).machine.state
  unfolding handshake_received next
  handshake_received-Outcome rand c received s =
      let P = λ (d : Client T). Outcome received d.machine.state in
      let (over, c') = process_handshake_response rand c received.id received.payload in
      let done : Client T = if over then notify_change c' c.machine.state else c' in
      let lost : Client T =
        if is_lost received.result then fail c ConnectionEvent.connection_lost else c in
      if-cases P (is_sent received.result) done lost
        (λ ok.
          if-holds P over (notify_change c' c.machine.state) c'
            (answered received ok (
              subst (Answers received.id) (sym (state-notify_change c' c.machine.state))
                (process_handshake_response-Answers rand c received.id received.payload s)))
            (answered received ok
              (process_handshake_response-Answers rand c received.id received.payload s)))
        (λ _. inr (ground (arith, state-fail c ConnectionEvent.connection_lost, s)))

module _ {T : Type 0} (I : ITcpClient T) where
  -- Not ready after a timeout; else by what was received.
  pub handle_handshaking_state-Outcome :
      (rand : ℕ → ℕ) (c : Client T) (now : ℕ)
      → c.machine.state ≡ handshaking
      → let received = (I.receive_packet c.tcp recv_buffer_size c.config.recv_timeout_ms).0 in
        Outcome received (handle_handshaking_state I rand c now).machine.state
  unfolding handle_handshaking_state next
  handle_handshaking_state-Outcome rand c now s =
      let (received, tcp) = I.receive_packet c.tcp recv_buffer_size c.config.recv_timeout_ms in
      let late = record c { last_error_code = handshake_timeout } in
      if-holds (λ (d : Client T). Outcome received d.machine.state) (is_handshake_timeout c now)
        (fail_change late ConnectionEvent.handshake_failed)
        (handshake_received rand (record c { tcp = tcp }) received)
        (inr (ground (arith, state-fail_change late ConnectionEvent.handshake_failed, s)))
        (handshake_received-Outcome rand (record c { tcp = tcp }) received s)
