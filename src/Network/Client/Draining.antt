-- ===== src/Network/Client/Draining.antt =====
-- The loop that receives packets ends when the TCP client has only so many packets.
use ryu_ldn_nx.Prelude.{
  ℕ, zero, suc, ◌≡◌, ◌<◌, ◌≤◌, refl, true, Option, none, some, List, arith, if◌then◌else◌, get_or,
}
use ryu_ldn_nx.Network.TcpInterface.{Message, ITcpClient}
use ryu_ldn_nx.Network.Client.{
  Client, is_sent, is_lost_or_down, recv_buffer_size, fail_change, is_backoff_expired,
}
use ryu_ldn_nx.Network.Client.Receiving.{
  is_timeout, handle_packet, receive_packets, process_packets,
}
use ryu_ldn_nx.Network.Client.Updating.{handle_ready_state, retry, wait_backoff, update_in, update}
use ryu_ldn_nx.Network.Client.States.{if-holds, if-cases}
use ryu_ldn_nx.Network.Client.Retrying.{Returns, Returns-bind, Returns-map, retry-Answered}
use ryu_ldn_nx.Network.ConnectionState.{
  ConnectionState, disconnected, connecting, connected, handshaking, ready, backoff, retrying,
  disconnecting, error, ConnectionEvent,
}

-- How many packets a TCP client still has: receiving one takes it away, sending adds none.
pub record Finite {T : Type 0} (I : ITcpClient T) (pending : T → ℕ) : Type 0 where
  pub received_one :
      (t : T) (size timeout : ℕ)
      → let (received, t') = I.receive_packet t size timeout in
        is_sent received.result ≡ true → pending t' < pending t
  pub sent_one : (t : T) (message : Message) → pending (I.send t message).1 ≤ pending t

Returns-some : {A : Type 0} (P : A → Type 0) (o : Option A) → Returns P o → (a : A) × (o ≡ some a)
Returns-some P none h = absurd h
Returns-some P (some a) h = (a, refl)

module _ {T : Type 0} (I : ITcpClient T) (pending : T → ℕ) (finite : Finite I pending) where
  pending-handle_packet :
      (c : Client T) (id : ℕ) (payload : List ℕ)
      → pending (handle_packet I c id payload).tcp ≤ pending c.tcp
  unfolding handle_packet
  pending-handle_packet c id payload =
      ground (arith, finite.sent_one c.tcp (Message.ping 0 (get_or payload 1 0)))

  receive_packets-total :
      (fuel : ℕ) (c : Client T)
      → pending c.tcp < fuel
      → Returns (λ _. Unit {0}) (receive_packets I fuel c)
  unfolding receive_packets
  receive_packets-total zero c h = absurd (omega arith)
  receive_packets-total (suc fuel) c h =
      let (received, tcp) = I.receive_packet c.tcp recv_buffer_size c.config.recv_timeout_ms in
      let c' = record c { tcp = tcp } in
      let handled = handle_packet I c' received.id received.payload in
      let P = λ (o : Option (Client T)). Returns (λ _. Unit {0}) o in
      let more : Option (Client T) =
        if is_sent received.result then receive_packets I fuel handled else some c' in
      let lost = fail_change c' ConnectionEvent.connection_lost in
      if-holds P (is_timeout received.result) (some c')
        (if is_lost_or_down received.result then some lost else more) tt
        (if-holds P (is_lost_or_down received.result) (some lost) more tt (
          if-cases P (is_sent received.result) (receive_packets I fuel handled) (some c')
            (λ ok. receive_packets-total fuel handled (
              omega (
                arith,
                finite.received_one c.tcp recv_buffer_size c.config.recv_timeout_ms ok,
                pending-handle_packet c' received.id received.payload,
              )))
            (λ _. tt)))

  update_in-total :
      (rand : ℕ → ℕ) (s : ConnectionState) (fuel : ℕ) (c : Client T) (now : ℕ)
      → c.machine.state ≡ s
      → 0 < c.reconnect_manager.config.multiplier_percent
      → pending c.tcp < fuel
      → Returns (λ _. Unit {0}) (update_in I rand s fuel c now)
  unfolding update_in handle_ready_state process_packets wait_backoff
  update_in-total rand disconnected fuel c now e m h = tt
  update_in-total rand connecting fuel c now e m h = tt
  update_in-total rand connected fuel c now e m h = tt
  update_in-total rand handshaking fuel c now e m h = tt
  update_in-total rand ready fuel c now e m h =
      Returns-bind (λ _. Unit {0}) (λ _. Unit {0}) (process_packets I fuel c) _
        (if-holds (λ (o : Option (Client T)). Returns (λ _. Unit {0}) o) (I.is_connected c.tcp)
          (receive_packets I fuel c) (some c) (receive_packets-total fuel c h) tt)
        (λ c' _. tt)
  update_in-total rand backoff fuel c now e m h =
      let (expired, c') = is_backoff_expired c now in
      if-holds (λ (o : Option (Client T)). Returns (λ _. Unit {0}) o) expired (retry I c') (some c')
        (Returns-map (retry I c')
          (retry-Answered I c' (unfold is_backoff_expired in ground (arith, e))
            (unfold is_backoff_expired in ground arith))
          (λ _ _. tt))
        tt
  update_in-total rand retrying fuel c now e m h = tt
  update_in-total rand disconnecting fuel c now e m h = tt
  update_in-total rand error fuel c now e m h = tt

  -- `update` ends: with a TCP client that has fewer packets than the fuel, of which receiving takes one
  -- away and sending adds none, and with a multiplier of the delay above 0, it has a result in every state.
  pub update-total :
      (rand : ℕ → ℕ) (c : Client T) (fuel now : ℕ)
      → pending c.tcp < fuel
      → 0 < c.reconnect_manager.config.multiplier_percent
      → (c' : Client T) × (update I rand fuel c now ≡ some c')
  unfolding update
  update-total rand c fuel now h m =
      Returns-some (λ _. Unit {0}) (update I rand fuel c now)
        (update_in-total rand c.machine.state fuel (record c { last_update_time_ms = now }) now refl
          m h)
