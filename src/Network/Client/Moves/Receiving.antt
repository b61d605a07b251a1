-- ===== src/Network/Client/Moves/Receiving.antt =====
-- Where receiving packets and keeping the connection alive lead.
use ryu_ldn_nx.Prelude.{ℕ, zero, suc, ◌≡◌, true, some, Option, List, [], ◌∷◌, arith, subst, sym}
use ryu_ldn_nx.Network.ConnectionState.{
  ConnectionState, disconnected, ready, backoff, disconnecting, ConnectionEvent,
}
use ryu_ldn_nx.Network.TcpInterface.{ITcpClient}
use ryu_ldn_nx.Network.Client.{
  Client, elapsed, fail, fail_change, is_sent, is_lost_or_down, recv_buffer_size,
}
use ryu_ldn_nx.Network.Client.Receiving.{
  is_timeout, deliver, handle_packet, receive_packets, process_packets,
}
use ryu_ldn_nx.Network.Client.Updating.{is_overdue, is_due, ping, keep_alive, handle_ready_state}
use ryu_ldn_nx.Network.Client.States.{
  next, Each, Each-bind, if-holds, state-process_event, state-fail, state-fail_change,
}
use ryu_ldn_nx.Network.Client.Moves.Diagram.{is_in, sends, send_ping-sends}

-- While packets are received, `connection_lost` and `disconnect` keep to these states.
abbrev pub receiving : List ConnectionState
receiving = ready ∷ backoff ∷ disconnecting ∷ disconnected ∷ []

pub next-receiving :
    (s : ConnectionState)
    → is_in s receiving ≡ true
    → (is_in (next s ConnectionEvent.disconnect) receiving ≡ true)
      × (is_in (next s ConnectionEvent.connection_lost) receiving ≡ true)
unfolding next
next-receiving s h = ground arith

pub sends-receiving :
    (s t : ConnectionState)
    → is_in s receiving ≡ true
    → is_in t (sends s) ≡ true
    → is_in t receiving ≡ true
sends-receiving s t h k = ground arith

pub state-deliver :
    {T : Type 0} (c : Client T) (id : ℕ) (payload : List ℕ)
    → (deliver c id payload).machine.state ≡ c.machine.state
unfolding deliver
state-deliver c id payload = ground arith

module _ {T : Type 0} (I : ITcpClient T) where
  pub handle_packet-receiving :
      (c : Client T) (id : ℕ) (payload : List ℕ)
      → is_in c.machine.state receiving ≡ true
      → is_in (handle_packet I c id payload).machine.state receiving ≡ true
  unfolding handle_packet
  handle_packet-receiving c id payload h =
      let (left, lost) = next-receiving c.machine.state h in
      ground
        (arith, left, state-process_event c ConnectionEvent.disconnect, state-deliver c id payload)

  pub receive_packets-receiving :
      (fuel : ℕ) (c : Client T)
      → is_in c.machine.state receiving ≡ true
      → Each (λ c'. is_in c'.machine.state receiving ≡ true) (receive_packets I fuel c)
  unfolding receive_packets
  receive_packets-receiving zero c h = tt
  receive_packets-receiving (suc fuel) c h =
      let (received, tcp) = I.receive_packet c.tcp recv_buffer_size c.config.recv_timeout_ms in
      let c' = record c { tcp = tcp } in
      let (left, lost) = next-receiving c.machine.state h in
      let P = λ (r : Option (Client T)). Each (λ c'. is_in c'.machine.state receiving ≡ true) r in
      if-holds P (is_timeout received.result) (some c') _ h (
        if-holds P (is_lost_or_down received.result)
          (some (fail_change c' ConnectionEvent.connection_lost)) _
          (subst (λ s. is_in s receiving ≡ true)
            (sym (state-fail_change c' ConnectionEvent.connection_lost)) lost)
          (if-holds P (is_sent received.result)
            (receive_packets I fuel (handle_packet I c' received.id received.payload)) (some c')
            (receive_packets-receiving fuel (handle_packet I c' received.id received.payload)
              (handle_packet-receiving c' received.id received.payload h))
            h))

  pub ping-sends :
      (c : Client T) (now : ℕ) → is_in (ping I c now).machine.state (sends c.machine.state) ≡ true
  unfolding ping
  ping-sends c now = ground (arith, send_ping-sends I c)

  pub keep_alive-receiving :
      (c : Client T) (now : ℕ)
      → is_in c.machine.state receiving ≡ true
      → is_in (keep_alive I c now).machine.state receiving ≡ true
  unfolding keep_alive
  keep_alive-receiving c now h =
      let P = λ (c' : Client T). is_in c'.machine.state receiving ≡ true in
      let waited = elapsed now c.last_ping_time_ms in
      if-holds P (is_overdue c waited) (fail c ConnectionEvent.connection_lost) _
        (subst (λ s. is_in s receiving ≡ true) (sym (state-fail c ConnectionEvent.connection_lost))
          (next-receiving c.machine.state h).1)
        (if-holds P (is_due c waited) (ping I c now) c
          (sends-receiving c.machine.state _ h (ping-sends c now)) h)

  pub handle_ready_state-receiving :
      (fuel : ℕ) (c : Client T) (now : ℕ)
      → is_in c.machine.state receiving ≡ true
      → Each (λ c'. is_in c'.machine.state receiving ≡ true) (handle_ready_state I fuel c now)
  unfolding handle_ready_state process_packets
  handle_ready_state-receiving fuel c now h =
      let P = λ (c' : Client T). is_in c'.machine.state receiving ≡ true in
      Each-bind P P (process_packets I fuel c) _
        (if-holds (λ o. Each P o) (I.is_connected c.tcp) (receive_packets I fuel c) (some c)
          (receive_packets-receiving fuel c h) h)
        (λ c' h'. keep_alive-receiving c' now h')
