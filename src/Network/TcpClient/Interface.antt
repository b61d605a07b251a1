-- ===== src/Network/TcpClient/Interface.antt =====
-- `TcpClient` as an implementation of `ITcpClient`, and the laws that the network client relies on.
use native.Mathlib.Nat.{le_refl}
use ryu_ldn_nx.Network.SendQueue.{enqueue}
use ryu_ldn_nx.Prelude.{
  ℕ, not, ◌+◌, ◌≤◌, ◌<◌, Bool, List, [], ◌∷◌, ◌≡◌, arith, true, length, if◌then◌else◌,
}
use ryu_ldn_nx.Protocol.PacketBuffer.{
  PacketBuffer, append, peek_packet_info, consume, has_complete_packet,
}
use ryu_ldn_nx.Network.Socket.{SocketResult, Socket, wait_ready}
use ryu_ldn_nx.Network.Socket.Connecting.{
  Dial, Arrived, bytes, errored, tls_wants, tls_errored, recv, read,
}
use ryu_ldn_nx.Network.TcpInterface.{
  is_sent, ClientResult, success, not_connected, Endpoint, ITcpClient, Message, Received,
}
use ryu_ldn_nx.Network.Client.Draining.{Finite}
use ryu_ldn_nx.Network.TcpClient.{
  encoded, is_queued, client_result, Arrival, TcpClient, disconnect, connect_with, send,
}
use ryu_ldn_nx.Network.TcpClient.Receiving.{
  nothing, receive_into_buffer, received_into, fill, take_packet, receive_packet,
}
use ryu_ldn_nx.Protocol.Codec.{check_complete_packet}
use ryu_ldn_nx.Network.Client.States.{if-holds, if-cases}
use ryu_ldn_nx.Network.Client.Stuck.{RefusesConnected}

-- `subsystem` is the result of `socket_init`.
module _ (subsystem : Bool) (dial : Endpoint → Dial) (thread_started : Bool)
    (send_all : Socket → List ℕ → SocketResult × Socket) (now_ms : ℕ) where
  abbrev pub tcp_client : ITcpClient TcpClient
  tcp_client = record {
    initialize = λ t. (subsystem, record t { initialized = subsystem });
    connect = λ t e. connect_with (dial e) thread_started t e;
    disconnect = disconnect;
    is_connected = λ t. t.socket.connected;
    send = send send_all now_ms;
    receive_packet = receive_packet;
  }

  pub tcp_client-RefusesConnected : RefusesConnected tcp_client
  unfolding connect_with
  tcp_client-RefusesConnected = record { refuses = λ t e up. ground (arith, up) }

-- The bytes that the answers to come bring at most.
abbrev size_of : Arrived → ℕ
size_of (bytes chunk) = length chunk
size_of _ = 0

abbrev total : List Arrival → ℕ
total [] = 0
total (a ∷ as_) = size_of a.arrived + total as_

-- The bytes in the buffer and those to come.
abbrev pub pending : TcpClient → ℕ
pending t = t.recv_buffer.write_pos + total t.arrivals

read-size : (s : Socket) (a : Arrived) → length (read s a).2 ≤ size_of a
unfolding read
read-size s (bytes chunk) = ground arith
read-size s (errored e) = ground arith
read-size s tls_wants = ground arith
read-size s tls_errored = ground arith

recv-size :
    (s : Socket) (timeout_ms : ℕ) (a : Arrival)
    → length (recv s timeout_ms a.polled a.arrived).2 ≤ size_of a.arrived
unfolding recv
recv-size s timeout_ms a =
    ground (arith, read-size s a.arrived, read-size (wait_ready s a.polled).1 a.arrived)

received_into-size :
    (b : PacketBuffer) (r : SocketResult) (chunk : List ℕ)
    → (received_into b r chunk).1.write_pos ≤ b.write_pos + length chunk
unfolding received_into append
received_into-size b r chunk = ground arith

receive_into_buffer-size :
    (t : TcpClient) (a : Arrival) (timeout_ms : ℕ)
    → (receive_into_buffer t a timeout_ms).1.recv_buffer.write_pos
      ≤ t.recv_buffer.write_pos + size_of a.arrived
unfolding receive_into_buffer
receive_into_buffer-size t a timeout_ms =
    let (r, socket, chunk) = recv t.socket timeout_ms a.polled a.arrived in
    omega (arith, recv-size t.socket timeout_ms a, received_into-size t.recv_buffer r chunk)

fill-pending :
    (as_ : List Arrival) (t : TcpClient) (timeout_ms : ℕ)
    → pending (fill as_ t timeout_ms).1 ≤ t.recv_buffer.write_pos + total as_
unfolding fill
fill-pending [] t timeout_ms = omega arith
fill-pending (a ∷ as_) t timeout_ms =
    let (result, t') = receive_into_buffer t a timeout_ms in
    let P =
      λ (r : ClientResult × TcpClient). pending r.1 ≤ t.recv_buffer.write_pos + total (a ∷ as_) in
    let rest : ClientResult × TcpClient =
      if is_sent result then fill as_ t' timeout_ms else (result, record t' { arrivals = as_ }) in
    let less = receive_into_buffer-size t a timeout_ms in
    if-holds P (has_complete_packet t.recv_buffer) (success, record t { arrivals = a ∷ as_ }) rest
      (omega arith)
      (if-holds P (is_sent result) (fill as_ t' timeout_ms) (result, record t' { arrivals = as_ })
        (omega (arith, less, fill-pending as_ t' timeout_ms)) (omega (arith, less)))

-- A packet has twelve bytes at least, and they are in the buffer.
take_packet-pending :
    (t : TcpClient) (size : ℕ)
    → (is_sent (take_packet t size).0.result ≡ true → pending (take_packet t size).1 < pending t)
unfolding take_packet peek_packet_info check_complete_packet consume
take_packet-pending t size ok = ground arith

receive_packet-pending :
    (t : TcpClient) (size timeout_ms : ℕ)
    → is_sent (receive_packet t size timeout_ms).0.result ≡ true
    → pending (receive_packet t size timeout_ms).1 < pending t
unfolding receive_packet
receive_packet-pending t size timeout_ms =
    let (result, t') = fill t.arrivals t timeout_ms in
    let P = λ (r : Received × TcpClient). is_sent r.0.result ≡ true → pending r.1 < pending t in
    let found : Received × TcpClient =
      if is_sent result then take_packet t' size else (nothing result, t') in
    if-holds P (not t.socket.connected) (nothing not_connected, t) found (λ e. cc)
      (if-cases P (is_sent result) (take_packet t' size) (nothing result, t')
        (λ _ ok.
          omega (arith, fill-pending t.arrivals t timeout_ms, take_packet-pending t' size ok))
        (λ no ok. absurd (ground (arith, no, ok))))

send-pending :
    (send_all : Socket → List ℕ → SocketResult × Socket) (now_ms : ℕ) (t : TcpClient) (m : Message)
    → pending (send send_all now_ms t m).1 ≤ pending t
unfolding send
send-pending send_all now_ms t m =
    let P = λ (r : ClientResult × TcpClient). pending r.1 ≤ pending t in
    let (result, buffer, out) = encoded t.send_buffer m in
    let t' = record t { send_buffer = buffer } in
    let (sent, socket) = send_all t.socket out in
    let queued : ClientResult × TcpClient =
      if is_queued m
      then (success, record t' { send_queue = enqueue t.send_queue now_ms out })
      else (client_result sent, record t' { socket = socket }) in
    if-holds P (not t.socket.connected) (not_connected, t)
      (if not (is_sent result) then (result, t') else queued) (le_refl _)
      (if-holds P (not (is_sent result)) (result, t') queued (le_refl _)
        (if-holds P (is_queued m)
          (success, record t' { send_queue = enqueue t.send_queue now_ms out })
          (client_result sent, record t' { socket = socket }) (le_refl _) (le_refl _)))

-- The network client's loop over the packets ends on `TcpClient`.
pub tcp_client-Finite :
    (subsystem : Bool) (dial : Endpoint → Dial) (thread_started : Bool)
    (send_all : Socket → List ℕ → SocketResult × Socket) (now_ms : ℕ)
    → Finite (tcp_client subsystem dial thread_started send_all now_ms) pending
tcp_client-Finite subsystem dial thread_started send_all now_ms = record {
  received_one = λ t size timeout e. receive_packet-pending t size timeout e;
  sent_one = λ t m. send-pending send_all now_ms t m;
}
