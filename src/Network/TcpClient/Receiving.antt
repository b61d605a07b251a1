-- ===== src/Network/TcpClient/Receiving.antt =====
-- sysmodule/source/network/tcp_client.cpp: `receive_into_buffer` and `receive_packet`.
use ryu_ldn_nx.Prelude.{ℕ, not, List, [], ◌∷◌, ltb, ◌==◌, if◌then◌else◌, length, take, drop}
use ryu_ldn_nx.Protocol.Header.{header_size}
use ryu_ldn_nx.Protocol.Codec.{DecodeResult, decode_header, undefined_header}
use ryu_ldn_nx.Protocol.PacketBuffer.{
  BufferResult, PacketBuffer, append, peek_packet_info, has_complete_packet, consume,
}
use ryu_ldn_nx.Network.Socket.{SocketResult}
use ryu_ldn_nx.Network.Socket.Connecting.{recv}
use ryu_ldn_nx.Network.TcpInterface.{
  is_sent, ClientResult, success, not_connected, connection_lost, timeout, invalid_packet,
  buffer_too_small, Received,
}
use ryu_ldn_nx.Network.TcpClient.{recv_buffer_size, Arrival, TcpClient, client_result}

-- `receive_into_buffer` once `recv` has answered.
unfoldable pub received_into : PacketBuffer → SocketResult → List ℕ → ClientResult × PacketBuffer
received_into b SocketResult.would_block chunk = (timeout, b)
received_into b SocketResult.timeout chunk = (timeout, b)
received_into b SocketResult.closed chunk = (connection_lost, b)
received_into b SocketResult.success chunk =
    if length chunk == 0
    then (connection_lost, b)
    else let (r, b') = append recv_buffer_size b chunk in
      elim r [ BufferResult.success ↦ (success, b') | _ ↦ (invalid_packet, b') ]
received_into b r chunk = (client_result r, b)

unfoldable pub receive_into_buffer : TcpClient → Arrival → ℕ → ClientResult × TcpClient
unfolding received_into recv
receive_into_buffer t a timeout_ms =
    let (r, socket, chunk) = recv t.socket timeout_ms a.polled a.arrived in
    let (result, b) = received_into t.recv_buffer r chunk in
    (result, record t { socket = socket; recv_buffer = b })

-- The loop of `receive_packet`, over the answers to come. Without another answer nothing arrives before
-- the timeout.
unfoldable pub fill : List Arrival → TcpClient → ℕ → ClientResult × TcpClient
unfolding receive_into_buffer
fill [] t timeout_ms =
    (if has_complete_packet t.recv_buffer then success else timeout, record t { arrivals = [] })
fill (a ∷ as_) t timeout_ms =
    let (result, t') = receive_into_buffer t a timeout_ms in
    let rest = fill as_ t' timeout_ms in
    if has_complete_packet t.recv_buffer
    then (success, record t { arrivals = a ∷ as_ })
    else if is_sent result
    then rest
    else (result, record t' { arrivals = as_ })

abbrev pub nothing : ClientResult → Received
nothing r = record { result = r; id = 0; payload = []; payload_size = 0 }

-- A payload of `n` bytes that the caller's block has no room for.
abbrev pub too_small : ℕ → Received
too_small n = record { result = buffer_too_small; id = 0; payload = []; payload_size = n }

-- `receive_packet` from a complete packet on, at the size of the caller's block.
unfoldable pub take_packet : TcpClient → ℕ → Received × TcpClient
take_packet t payload_buffer_size =
    let b = t.recv_buffer in
    let (peeked, packet_size) = peek_packet_info b in
    let (decoded, h) = decode_header b.buffer b.write_pos undefined_header in
    elim peeked [
      | BufferResult.success ↦ elim decoded [
        | DecodeResult.success ↦
            (if ltb payload_buffer_size h.data_size then (too_small h.data_size, t) else (
              record {
                result = success;
                id = h.type;
                payload = take h.data_size (drop header_size b.buffer);
                payload_size = h.data_size;
              },
              record t { recv_buffer = consume b packet_size },
            ))
        | _ ↦ (nothing invalid_packet, t)
      ]
      | _ ↦ (nothing invalid_packet, t)
    ]

unfoldable pub receive_packet : TcpClient → ℕ → ℕ → Received × TcpClient
unfolding fill take_packet
receive_packet t payload_buffer_size timeout_ms =
    let (result, t') = fill t.arrivals t timeout_ms in
    if not t.socket.connected
    then (nothing not_connected, t)
    else if is_sent result
    then take_packet t' payload_buffer_size
    else (nothing result, t')
