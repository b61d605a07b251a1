-- ===== src/Network/TcpClient/Wire.antt =====
-- What the functions of `TcpClient` that send put on the wire.
use ryu_ldn_nx.Prelude.{
  ℕ, ◌+◌, ◌≤◌, ◌<◌, ◌≡◌, refl, sym, ap, ◌∙◌, subst, Bool, true, false, Bool-cases, inl, inr, Option,
  none, some, List, [], ◌∷◌, ◌++◌, arith, ltb, leb, length, take, drop, replicate, append_assoc,
  length-append, take-append_length,
}
use ryu_ldn_nx.Prelude.Bytes.{u32_bytes, write_at-front}
use ryu_ldn_nx.Protocol.Header.{PacketId, code, header_bytes, header_size}
use ryu_ldn_nx.Protocol.Codec.{EncodeResult, packet_header, encode, encode_with_data}
use ryu_ldn_nx.Protocol.Codec.RoundTrip.{packet, encode-packet}
use ryu_ldn_nx.Protocol.Codec.ExtraData.{encode_with_data-framed}
use ryu_ldn_nx.Protocol.PacketBuffer.Extraction.{length-packet}
use ryu_ldn_nx.Network.SendQueue.{send_buffer_size, enqueue}
use ryu_ldn_nx.Network.Socket.{SocketResult, Socket}
use ryu_ldn_nx.Network.TcpInterface.{is_sent, ClientResult, success, not_connected, Message}
use ryu_ldn_nx.Network.TcpClient.{
  TcpClient, client_result, encoding, room_or_not, outgoing, encoded, is_queued, send,
}
use ryu_ldn_nx.Network.TcpClient.Filling.{chunks, Streams}
use ryu_ldn_nx.Network.TcpClient.Receiving.{receive_packet}
use ryu_ldn_nx.Network.TcpClient.Stream.{Ahead, receive_packet-first}

-- The packet that a message is, but for raw bytes. Of the header of proxy data only the addresses go out,
-- its first 16 bytes, and then the length of the data.
abbrev pub packet_of : Message → Option (PacketId × List ℕ)
packet_of (Message.passphrase text) =
    some (PacketId.passphrase, take 127 text ++ drop (length (take 127 text)) (replicate 128 0))
packet_of (Message.initialize id mac) = some (PacketId.initialize, id ++ mac)
packet_of (Message.ping requester id) = some (PacketId.ping, requester ∷ id ∷ [])
packet_of (Message.disconnect ip) = some (PacketId.disconnect, u32_bytes ip)
packet_of (Message.scan filter) = some (PacketId.scan, filter)
packet_of (Message.connect request) = some (PacketId.connect, request)
packet_of (Message.connect_private request) = some (PacketId.connect_private, request)
packet_of (Message.create_access_point request advertise_data) =
    some (PacketId.create_access_point, request ++ advertise_data)
packet_of (Message.create_access_point_private request none) =
    some (PacketId.create_access_point_private, request)
packet_of (Message.create_access_point_private request (some advertise_data)) =
    some (PacketId.create_access_point_private, request ++ advertise_data)
packet_of (Message.set_accept_policy policy) = some (PacketId.set_accept_policy, policy ∷ [])
packet_of (Message.set_advertise_data bytes) = some (PacketId.set_advertise_data, take 384 bytes)
packet_of (Message.reject node_id reason) =
    some (PacketId.reject, u32_bytes node_id ++ u32_bytes reason)
packet_of (Message.proxy_data header bytes) =
    some (PacketId.proxy_data, (take 16 header ++ u32_bytes (length bytes)) ++ bytes)
packet_of (Message.raw bytes) = none

abbrev pub raw_bytes : Message → List ℕ
raw_bytes (Message.raw bytes) = bytes
raw_bytes _ = []

-- The bytes that a message is, and whether it can be sent: raw bytes when there are some, a packet when
-- the send buffer has room for it.
abbrev wire : Option (PacketId × List ℕ) → List ℕ → List ℕ
wire none bytes = bytes
wire (some (type, payload)) bytes = packet type payload

abbrev pub on_wire : Message → List ℕ
on_wire m = wire (packet_of m) (raw_bytes m)

abbrev has_room : Option (PacketId × List ℕ) → List ℕ → Bool
has_room none bytes = ltb 0 (length bytes)
has_room (some (type, payload)) bytes = leb (header_size + length payload) send_buffer_size

abbrev pub fits : Message → Bool
fits m = has_room (packet_of m) (raw_bytes m)

-- An encoded message: what goes out, or a failure that leaves the buffer as it was.
abbrev Coded : List ℕ → List ℕ → Bool → ClientResult × List ℕ × List ℕ → Type 0
Coded b bytes true (r, b', out) = (r ≡ success) × (out ≡ bytes)
Coded b bytes false (r, b', out) = (is_sent r ≡ false) × (b' ≡ b)

module _ (b : List ℕ) (type : PacketId) where
  packet-whole :
      (payload rest : List ℕ)
      → take (header_size + length payload) (packet type payload ++ rest) ≡ packet type payload
  packet-whole payload rest =
      take-append_length (header_size + length payload) (packet type payload) rest
        (sym (length-packet type payload))

  encode-over :
      (payload : List ℕ)
      → send_buffer_size < header_size + length payload
      → encode b send_buffer_size type payload ≡ (EncodeResult.buffer_too_small, b, 0)
  unfolding encode
  encode-over payload h = ground arith

  encode-Coded :
      (payload : List ℕ)
      → Coded b
          (packet type payload)
          (leb (header_size + length payload) send_buffer_size)
          (outgoing (encoding (encode b send_buffer_size type payload)))
  encode-Coded payload = elim (Bool-cases (leb (header_size + length payload) send_buffer_size)) [
    | inl fit ↦
        rw (fit, encode-packet b send_buffer_size type payload (ground (arith, fit)))
          (refl, packet-whole payload (drop (header_size + length payload) b))
    | inr over ↦ rw (over, encode-over payload (ground (arith, over))) (refl, refl)
  ]

  -- Data behind the payload, for both ways to answer.
  encode_with_data-packet :
      (payload extra : List ℕ)
      → header_size + length (payload ++ extra) ≤ send_buffer_size
      → (rest : List ℕ) × (encode_with_data b send_buffer_size type payload
            (some extra)
            (length extra)
          ≡ (
            EncodeResult.success,
            packet type (payload ++ extra) ++ rest,
            header_size + length (payload ++ extra),
          ))
  encode_with_data-packet payload extra h =
      let both = length-append payload extra in
      let front = header_bytes (packet_header type (length payload + length extra)) in
      let rest = drop (length extra) (drop (header_size + length payload) b) in
      (
        rest,
        encode_with_data-framed type payload extra b send_buffer_size (omega (arith, both, h))
              (omega (arith, both, h))
            ∙ rw (both, append_assoc front payload extra)
                (ap (λ n. (EncodeResult.success, (front ++ (payload ++ extra)) ++ rest, n))
                  (omega arith)),
      )

  encode_with_data-over :
      (payload extra : List ℕ)
      → send_buffer_size < header_size + length (payload ++ extra)
      → encode_with_data b send_buffer_size type payload (some extra) (length extra)
        ≡ (EncodeResult.buffer_too_small, b, 0)
  unfolding encode_with_data
  encode_with_data-over payload extra h = ground (arith, length-append payload extra)

  encode_with_data-alone :
      (payload : List ℕ)
      → encode_with_data b send_buffer_size type payload none 0
        ≡ encode b send_buffer_size type payload
  unfolding encode_with_data encode
  encode_with_data-alone payload = ground arith

  encode_with_data-Coded :
      (payload extra : List ℕ)
      → Coded b
          (packet type (payload ++ extra))
          (leb (header_size + length (payload ++ extra)) send_buffer_size)
          (outgoing (
            encoding
              (encode_with_data b send_buffer_size type payload (some extra) (length extra))))
        × Coded b
            (packet type (payload ++ extra))
            (leb (header_size + length (payload ++ extra)) send_buffer_size)
            (outgoing (
              room_or_not
                (encode_with_data b send_buffer_size type payload (some extra) (length extra))))
  encode_with_data-Coded payload extra =
      elim (Bool-cases (leb (header_size + length (payload ++ extra)) send_buffer_size)) [
        | inl fit ↦
            (let (rest, e) = encode_with_data-packet payload extra (ground (arith, fit)) in
              let whole = packet-whole (payload ++ extra) rest in
              rw (fit, e) ((refl, whole), (refl, whole)))
        | inr over ↦
            rw (over, encode_with_data-over payload extra (ground (arith, over)))
              ((refl, refl), (refl, refl))
      ]

  encode_with_data_alone-Coded :
      (payload : List ℕ)
      → Coded b
          (packet type payload)
          (leb (header_size + length payload) send_buffer_size)
          (outgoing (room_or_not (encode_with_data b send_buffer_size type payload none 0)))
  encode_with_data_alone-Coded payload =
      elim (Bool-cases (leb (header_size + length payload) send_buffer_size)) [
        | inl fit ↦
            rw
              (
                fit,
                encode_with_data-alone payload,
                encode-packet b send_buffer_size type payload (ground (arith, fit)),
              )
              (refl, packet-whole payload (drop (header_size + length payload) b))
        | inr over ↦
            rw (over, encode_with_data-alone payload, encode-over payload (ground (arith, over)))
              (refl, refl)
      ]

-- Every message is encoded as the bytes of `on_wire`, if they fit.
encoded-Coded : (b : List ℕ) (m : Message) → Coded b (on_wire m) (fits m) (encoded b m)
unfolding encoded
encoded-Coded b (Message.passphrase text) =
    let padded = write_at-front (replicate 128 0) (take 127 text) in
    subst
      (λ p.
        Coded b (on_wire (Message.passphrase text)) (fits (Message.passphrase text))
          (outgoing (encoding (encode b send_buffer_size PacketId.passphrase p))))
      (sym padded) (encode-Coded b PacketId.passphrase _)
encoded-Coded b (Message.initialize id mac) = encode-Coded b PacketId.initialize (id ++ mac)
encoded-Coded b (Message.ping requester id) = encode-Coded b PacketId.ping (requester ∷ id ∷ [])
encoded-Coded b (Message.disconnect ip) = encode-Coded b PacketId.disconnect (u32_bytes ip)
encoded-Coded b (Message.scan filter) = encode-Coded b PacketId.scan filter
encoded-Coded b (Message.connect request) = encode-Coded b PacketId.connect request
encoded-Coded b (Message.connect_private request) = encode-Coded b PacketId.connect_private request
encoded-Coded b (Message.create_access_point request advertise_data) =
    (encode_with_data-Coded b PacketId.create_access_point request advertise_data).1
encoded-Coded b (Message.create_access_point_private request none) =
    encode_with_data_alone-Coded b PacketId.create_access_point_private request
encoded-Coded b (Message.create_access_point_private request (some advertise_data)) =
    (encode_with_data-Coded b PacketId.create_access_point_private request advertise_data).1
encoded-Coded b (Message.set_accept_policy policy) =
    encode-Coded b PacketId.set_accept_policy (policy ∷ [])
encoded-Coded b (Message.set_advertise_data bytes) =
    encode-Coded b PacketId.set_advertise_data (take 384 bytes)
encoded-Coded b (Message.reject node_id reason) =
    encode-Coded b PacketId.reject (u32_bytes node_id ++ u32_bytes reason)
encoded-Coded b (Message.proxy_data header bytes) =
    (encode_with_data-Coded b PacketId.proxy_data (take 16 header ++ u32_bytes (length bytes))
      bytes).0
encoded-Coded b (Message.raw []) = (refl, refl)
encoded-Coded b (Message.raw (x ∷ xs)) = ground arith

encoded-fitting :
    (b : List ℕ) (m : Message)
    → fits m ≡ true
    → ((encoded b m).0 ≡ success) × ((encoded b m).2 ≡ on_wire m)
encoded-fitting b m e = subst (λ f. Coded b (on_wire m) f (encoded b m)) e (encoded-Coded b m)

encoded-misfit :
    (b : List ℕ) (m : Message)
    → fits m ≡ false
    → (is_sent (encoded b m).0 ≡ false) × ((encoded b m).1 ≡ b)
encoded-misfit b m e = subst (λ f. Coded b (on_wire m) f (encoded b m)) e (encoded-Coded b m)

-- The functions that send, on all their branches. Without a connection nothing happens, and a message that
-- does not fit fails and changes nothing. Proxy data that fits goes into the queue as the bytes of
-- `on_wire`; any other message that fits is given to `send_all` as these bytes, whose answer is the
-- result. Beside the send buffer nothing else changes.
pub send_lem :
    (send_all : Socket → List ℕ → SocketResult × Socket) (now_ms : ℕ) (t : TcpClient) (m : Message)
    → let (result, t') = send send_all now_ms t m in
      let (sent, socket) = send_all t.socket (on_wire m) in
      (t.socket.connected ≡ false → (result ≡ not_connected) × (t' ≡ t))
      × (t.socket.connected ≡ true → fits m ≡ false → (is_sent result ≡ false) × (t' ≡ t))
      × (t.socket.connected ≡ true
          → fits m ≡ true
          → is_queued m ≡ true
          → (result ≡ success)
            × (t' ≡ record t {
              send_buffer = t'.send_buffer;
              send_queue = enqueue t.send_queue now_ms (on_wire m);
            }))
      × (t.socket.connected ≡ true
          → fits m ≡ true
          → is_queued m ≡ false
          → (result ≡ client_result sent)
            × (t' ≡ record t { send_buffer = t'.send_buffer; socket = socket }))
unfolding send
send_lem send_all now_ms t m = (
  λ down. ground (arith, down),
  λ up e.
      let (r, b) = encoded-misfit t.send_buffer m e in
      rw (up, r)
        (
          r,
          ap
              (λ c. record t {
                socket = record { connected = true; use_tls = t.socket.use_tls };
                send_buffer = c;
              })
              b,
        ),
  λ up e q. let (r, out) = encoded-fitting t.send_buffer m e in rw (up, r, q, out) (refl, refl),
  λ up e q. let (r, out) = encoded-fitting t.send_buffer m e in rw (up, r, q, out) (refl, refl),
)

short : (n : ℕ) → leb (header_size + n) send_buffer_size ≡ true → n ≤ 2036
short n h = ground (arith, h)

-- What one client sends another one receives: a message that fits and is not raw bytes, cut into chunks and
-- with anything behind it on the stream, comes out of `receive_packet` of a connected client with a valid
-- buffer as its type and its payload, when the caller's block has 2036 bytes at least; the rest of the
-- stream is still to come. No chunk is empty or longer than `temp_buffer`.
pub receive_packet-encoded :
    (b : List ℕ) (m : Message) (type : PacketId) (payload rest : List ℕ) (cs : List (List ℕ))
    (t : TcpClient) (payload_buffer_size timeout_ms : ℕ)
    → packet_of m ≡ some (type, payload)
    → fits m ≡ true
    → 2036 ≤ payload_buffer_size
    → t.arrivals ≡ chunks cs
    → Streams t cs ((encoded b m).2 ++ rest)
    → let (r, t') = receive_packet t payload_buffer_size timeout_ms in
      (r ≡ record {
        result = success;
        id = code type;
        payload = payload;
        payload_size = length payload;
      })
      × Ahead t' rest
receive_packet-encoded b m type payload rest cs t payload_buffer_size timeout_ms p e room come st =
    let small = short (length payload) (sym (ap (λ q. has_room q (raw_bytes m)) p) ∙ e) in
    let is_packet = (encoded-fitting b m e).1 ∙ ap (λ q. wire q (raw_bytes m)) p in
    receive_packet-first type payload rest (omega (arith, small)) cs t payload_buffer_size
      timeout_ms (omega (arith, small)) (omega (arith, small, room)) come
      (subst (λ l. Streams t cs (l ++ rest)) is_packet st)
