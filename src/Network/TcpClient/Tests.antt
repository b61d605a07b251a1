-- ===== src/Network/TcpClient/Tests.antt =====
-- Examples of the theorems on the TCP client.
use ryu_ldn_nx.Prelude.{
  ◌∙◌, subst, inl, inr, sym, append-nil, ℕ, ◌≡◌, ◌≤◌, refl, ap, true, false, List, [], ◌∷◌, ◌++◌,
  arith, length, concat,
}
use ryu_ldn_nx.Prelude.Bytes.{write_at}
use ryu_ldn_nx.Protocol.Header.{ping, code, header_bytes}
use ryu_ldn_nx.Protocol.Codec.{packet_header, encode, encode_header}
use ryu_ldn_nx.Protocol.Codec.RoundTrip.{packet}
use ryu_ldn_nx.Protocol.PacketBuffer.{PacketBuffer}
use ryu_ldn_nx.Protocol.PacketBuffer as Buffer
use ryu_ldn_nx.Protocol.PacketBuffer.Contents.{
  contents, new-IsValid, contents-append, append-IsValid,
}
use ryu_ldn_nx.Protocol.PacketBuffer.Extraction.{length-packet}
use ryu_ldn_nx.P2p.ReceiveLoop.Passes.{new-start}
use ryu_ldn_nx.Network.TcpInterface.{is_sent, success, not_connected, Message}
use ryu_ldn_nx.Network.TcpClient.{
  recv_buffer_size, Arrival, TcpClient, client_result, encoded, is_queued, send,
}
use ryu_ldn_nx.Network.TcpClient.Wire.{on_wire, fits, send_lem, receive_packet-encoded}
use ryu_ldn_nx.Network.SendQueue.{enqueue}
use ryu_ldn_nx.Network.Socket.{SocketResult, Socket}
use ryu_ldn_nx.Network.TcpClient.Receiving.{too_small, receive_packet}
use ryu_ldn_nx.Network.TcpClient.Filling.{chunks, Streams}
use ryu_ldn_nx.Network.TcpClient.Stream.{Ahead, receive_packet-first, receive_packet-too_small}

abbrev connected_with : PacketBuffer → List Arrival → TcpClient
connected_with b as_ = record {
  initialized = true;
  socket = record { connected = true; use_tls = false };
  recv_buffer = b;
  send_buffer = [];
  send_queue = record { packets = []; size = 0 };
  send_thread_running = true;
  send_thread_was_started = true;
  arrivals = as_;
}

-- A ping that is cut in two, and the first byte of the next packet.
abbrev two_chunks : List (List ℕ)
two_chunks = (82 ∷ 76 ∷ 68 ∷ 78 ∷ 254 ∷ []) ∷ (1 ∷ 0 ∷ 0 ∷ 2 ∷ 0 ∷ 0 ∷ 0 ∷ 0 ∷ 5 ∷ 82 ∷ []) ∷ []

abbrev client : TcpClient
client = connected_with (Buffer.new recv_buffer_size) (chunks two_chunks)

two_chunks-packet : concat two_chunks ≡ packet ping (0 ∷ 5 ∷ []) ++ (82 ∷ [])
unfolding header_bytes packet_header code
two_chunks-packet = refl

client-Streams : Streams client two_chunks (packet ping (0 ∷ 5 ∷ []) ++ (82 ∷ []))
client-Streams = record {
  up = refl;
  valid = new-IsValid recv_buffer_size;
  are_chunks = omega arith;
  whole = ap (λ l. l ++ concat two_chunks) (new-start recv_buffer_size []).0 ∙ two_chunks-packet;
}

receive_packet-first_example :
    let (r, t') = receive_packet client 2048 20 in
    (r ≡ record { result = success; id = code ping; payload = 0 ∷ 5 ∷ []; payload_size = 2 })
    × Ahead t' (82 ∷ [])
receive_packet-first_example =
    receive_packet-first ping (0 ∷ 5 ∷ []) (82 ∷ []) (omega arith) two_chunks client 2048 20
      (omega arith) (omega arith) refl client-Streams

-- A buffer of the right size with the ping at its front.
abbrev loaded : PacketBuffer
loaded = (Buffer.append recv_buffer_size (Buffer.new recv_buffer_size) (packet ping (0 ∷ 5 ∷ []))).1

loaded-contents : contents loaded ≡ packet ping (0 ∷ 5 ∷ []) ++ []
loaded-contents =
    let empty = (new-start recv_buffer_size []).0 in
    elim (contents-append recv_buffer_size (Buffer.new recv_buffer_size) (packet ping (0 ∷ 5 ∷ []))
      (new-IsValid recv_buffer_size)) [
        | inl (over, _, _) ↦
            absurd (omega (arith, ap length empty, length-packet ping (0 ∷ 5 ∷ [])))
        | inr (_, _, e) ↦ e ∙ ap (λ l. l ++ packet ping (0 ∷ 5 ∷ [])) empty ∙ sym (append-nil _)
      ]

receive_packet-too_small_example :
    (receive_packet (connected_with loaded []) 1 20 ≡ (too_small 2, connected_with loaded []))
    × ((size timeout_ms : ℕ)
        → 2 ≤ size
        → receive_packet (connected_with loaded []) size timeout_ms ≡ (
          record { result = success; id = code ping; payload = 0 ∷ 5 ∷ []; payload_size = 2 },
          record (connected_with loaded []) {
            recv_buffer = Buffer.consume loaded (length (packet ping (0 ∷ 5 ∷ [])));
          },
        ))
receive_packet-too_small_example =
    receive_packet-too_small ping (0 ∷ 5 ∷ []) [] (omega arith) (connected_with loaded []) 1 20 refl
      (append-IsValid recv_buffer_size (Buffer.new recv_buffer_size) (packet ping (0 ∷ 5 ∷ []))
        (new-IsValid recv_buffer_size))
      loaded-contents (omega arith)

abbrev greeting : Message
greeting = Message.ping 0 5

greeting-chunks : (encoded [] greeting).2 ++ (82 ∷ []) ≡ packet ping (0 ∷ 5 ∷ []) ++ (82 ∷ [])
unfolding encoded encode encode_header header_bytes packet_header code write_at
greeting-chunks = refl

receive_packet-encoded_example :
    let (r, t') = receive_packet client 2048 20 in
    (r ≡ record { result = success; id = code ping; payload = 0 ∷ 5 ∷ []; payload_size = 2 })
    × Ahead t' (82 ∷ [])
receive_packet-encoded_example =
    receive_packet-encoded [] greeting ping (0 ∷ 5 ∷ []) (82 ∷ []) two_chunks client 2048 20 refl
      refl (omega arith) refl
      (subst (Streams client two_chunks) (sym greeting-chunks) client-Streams)

abbrev all_sent : Socket → List ℕ → SocketResult × Socket
all_sent s bytes = (SocketResult.success, s)

send_lem_example :
    let (result, t') = send all_sent 7 client greeting in
    let (sent, socket) = all_sent client.socket (on_wire greeting) in
    (client.socket.connected ≡ false → (result ≡ not_connected) × (t' ≡ client))
    × (client.socket.connected ≡ true
        → fits greeting ≡ false
        → (is_sent result ≡ false) × (t' ≡ client))
    × (client.socket.connected ≡ true
        → fits greeting ≡ true
        → is_queued greeting ≡ true
        → (result ≡ success)
          × (t' ≡ record client {
            send_buffer = t'.send_buffer;
            send_queue = enqueue client.send_queue 7 (on_wire greeting);
          }))
    × (client.socket.connected ≡ true
        → fits greeting ≡ true
        → is_queued greeting ≡ false
        → (result ≡ client_result sent)
          × (t' ≡ record client { send_buffer = t'.send_buffer; socket = socket }))
send_lem_example = send_lem all_sent 7 client greeting
