-- ===== src/Network/TcpClient/Stream.antt =====
-- `receive_packet` finds the packets of a stream.
use ryu_ldn_nx.Prelude.{
  ℕ, ◌+◌, ◌≤◌, ◌<◌, ◌≡◌, refl, sym, ap, ◌∙◌, true, false, List, [], ◌++◌, arith, append_assoc,
  append-nil, concat, length, length-append, ltb, ge→ltb, lt→ltb, subst, take, drop, take-drop,
  drop-append_length, append-split, if◌then◌else◌,
}
use ryu_ldn_nx.Protocol.Header.{
  PacketId, code, header_size, header_bytes, length-header_bytes, max_packet_size,
}
use ryu_ldn_nx.Protocol.Codec.{DecodeResult, undefined_header, decode_header, packet_header}
use ryu_ldn_nx.Protocol.Codec.RoundTrip.{packet, decode_header-packet}
use ryu_ldn_nx.Protocol.PacketBuffer.{PacketBuffer, consume}
use ryu_ldn_nx.Protocol.PacketBuffer.Contents.{contents, IsValid, length-contents}
use ryu_ldn_nx.Protocol.PacketBuffer.Extraction.{
  length-packet, Front, packet-Front, decode_header-contents,
}
use ryu_ldn_nx.Network.TcpInterface.{success}
use ryu_ldn_nx.Network.TcpClient.{recv_buffer_size, TcpClient}
use ryu_ldn_nx.Network.TcpClient.Receiving.{too_small, fill, take_packet, receive_packet}
use ryu_ldn_nx.Network.TcpClient.Filling.{
  chunks, Streams, Filled, fill-whole, has_complete_packet-length, fill-Filled,
}

-- A client with a stream ahead, in the chunks that it has still to receive.
pub record Ahead (t : TcpClient) (stream : List ℕ) : Type 0 where
  pub ahead : List (List ℕ)
  pub come : t.arrivals ≡ chunks ahead
  pub streams : Streams t ahead stream

module _ (type : PacketId) (payload rest : List ℕ) (small : length payload ≤ max_packet_size) where
  long_enough :
      (b : PacketBuffer) (left : List ℕ)
      → IsValid recv_buffer_size b
      → contents b ≡ packet type payload ++ left
      → header_size ≤ b.write_pos
  long_enough b left v e = omega (
    arith,
    ap length e,
    length-contents recv_buffer_size b v,
    length-append (packet type payload) left,
    length-packet type payload,
  )

  decode_header-front :
      (b : PacketBuffer) (left : List ℕ)
      → IsValid recv_buffer_size b
      → contents b ≡ packet type payload ++ left
      → decode_header b.buffer b.write_pos undefined_header
        ≡ (DecodeResult.success, packet_header type (length payload))
  decode_header-front b left v e =
      let long = long_enough b left v e in
      decode_header-contents recv_buffer_size b [] undefined_header v long
      ∙ ap (λ l. decode_header l b.write_pos undefined_header)
          (append-nil (contents b)
            ∙ e
            ∙ append_assoc (header_bytes (packet_header type (length payload))) payload left)
      ∙ decode_header-packet type (length payload) (payload ++ left) b.write_pos undefined_header
          small long

  payload_in_buffer :
      (b : PacketBuffer) (left : List ℕ)
      → Front recv_buffer_size b (packet type payload) left
      → take (length payload) (drop header_size b.buffer) ≡ payload
  payload_in_buffer b left f =
      take-drop (length payload) header_size b.buffer
      ∙ ap (λ n. drop header_size (take n b.buffer)) (sym (length-packet type payload))
      ∙ ap (drop header_size) f.bytes
      ∙ drop-append_length header_size (header_bytes (packet_header type (length payload))) payload
          (sym (length-header_bytes (packet_header type (length payload))))

  -- The packet at the front, taken out of the buffer if the caller's block has room for it.
  take_packet-front :
      (t : TcpClient) (left : List ℕ) (payload_buffer_size : ℕ)
      → IsValid recv_buffer_size t.recv_buffer
      → contents t.recv_buffer ≡ packet type payload ++ left
      → take_packet t payload_buffer_size ≡ (
          if ltb payload_buffer_size (length payload) then (too_small (length payload), t) else (
            record {
              result = success;
              id = code type;
              payload = payload;
              payload_size = length payload;
            },
            record t { recv_buffer = consume t.recv_buffer (length (packet type payload)) },
          ))
  unfolding take_packet packet_header
  take_packet-front t left payload_buffer_size v e =
      let f = packet-Front recv_buffer_size t.recv_buffer type payload left v small e in
      ground (
        arith,
        f.peeked,
        decode_header-front t.recv_buffer left v e,
        payload_in_buffer t.recv_buffer left f,
      )

  taken-Ahead :
      (t : TcpClient) (cs : List (List ℕ)) (payload_buffer_size : ℕ)
      → length payload ≤ payload_buffer_size
      → t.arrivals ≡ chunks cs
      → Streams t cs (packet type payload ++ rest)
      → header_size + length payload ≤ length (contents t.recv_buffer)
      → let (r, t') = take_packet t payload_buffer_size in
        (r ≡ record {
          result = success;
          id = code type;
          payload = payload;
          payload_size = length payload;
        })
        × Ahead t' rest
  taken-Ahead t cs payload_buffer_size room come st enough =
      let n = length (packet type payload) in
      let left = drop n (contents t.recv_buffer) in
      let (here, later) =
        append-split (contents t.recv_buffer) (concat cs) (packet type payload) rest st.whole
          (omega (arith, length-packet type payload)) in
      let f = packet-Front recv_buffer_size t.recv_buffer type payload left st.valid small here in
      rw
        (
          take_packet-front t left payload_buffer_size st.valid here,
          ge→ltb payload_buffer_size (length payload) room,
        )
        (
          refl,
          record {
            ahead = cs;
            come = come;
            streams = record {
              up = st.up;
              valid = f.valid;
              are_chunks = st.are_chunks;
              whole = ap (λ l. l ++ concat cs) f.left ∙ later;
            };
          },
        )

  -- `receive_packet` and the first packet of a stream, however the stream is cut into chunks, whole or in
  -- part in the buffer already. A connected client with a valid buffer gets the packet's type and
  -- payload when the caller's block has room for it; what it has still to receive is the rest of the
  -- stream, and it stays connected with a valid buffer. The payload is at most 4084 bytes long, and no chunk
  -- is empty or longer than `temp_buffer`.
  pub receive_packet-first :
      (cs : List (List ℕ)) (t : TcpClient) (payload_buffer_size timeout_ms : ℕ)
      → length payload ≤ 4084
      → length payload ≤ payload_buffer_size
      → t.arrivals ≡ chunks cs
      → Streams t cs (packet type payload ++ rest)
      → let (r, t') = receive_packet t payload_buffer_size timeout_ms in
        (r ≡ record {
          result = success;
          id = code type;
          payload = payload;
          payload_size = length payload;
        })
        × Ahead t' rest
  unfolding receive_packet
  receive_packet-first cs t payload_buffer_size timeout_ms fits room come st =
      let filling = fill t.arrivals t timeout_ms in
      let stream = packet type payload ++ rest in
      let f : Filled filling (header_size + length payload) stream =
        subst (λ l. Filled (fill l t timeout_ms) (header_size + length payload) stream) (sym come)
          (fill-Filled type payload rest small cs t timeout_ms fits st) in
      let taken =
        taken-Ahead filling.1 f.rest payload_buffer_size room f.to_come f.streams f.enough in
      let e : receive_packet t payload_buffer_size timeout_ms
          ≡ take_packet filling.1 payload_buffer_size =
        ground (arith, st.up, f.filled) in
      subst
        (λ p.
          (p.0 ≡ record {
            result = success;
            id = code type;
            payload = payload;
            payload_size = length payload;
          })
          × Ahead p.1 rest)
        (sym e) taken

  receive_packet-whole :
      (t : TcpClient) (payload_buffer_size timeout_ms : ℕ)
      → t.socket.connected ≡ true
      → IsValid recv_buffer_size t.recv_buffer
      → contents t.recv_buffer ≡ packet type payload ++ rest
      → receive_packet t payload_buffer_size timeout_ms ≡ take_packet t payload_buffer_size
  unfolding receive_packet
  receive_packet-whole t payload_buffer_size timeout_ms up v e =
      let whole =
        has_complete_packet-length type payload rest small t.recv_buffer [] v
          (append-nil (contents t.recv_buffer) ∙ e)
        ∙ ap (λ b. if b then false else true)
            (ge→ltb (length (contents t.recv_buffer)) (header_size + length payload) (
              omega (
                arith,
                ap length e,
                length-append (packet type payload) rest,
                length-packet type payload,
              ))) in
      ground (arith, up, fill-whole t.arrivals t timeout_ms whole)

  -- A packet that is whole in the buffer of a connected client with a valid buffer, but whose payload is
  -- longer than the caller's block, stays there: `receive_packet` answers `buffer_too_small` with the
  -- payload's length, and the client is as it was, so that a call with the same block never gets any
  -- further. A call with a block of that length or more gets the packet, and takes exactly it out.
  pub receive_packet-too_small :
      (t : TcpClient) (payload_buffer_size timeout_ms : ℕ)
      → t.socket.connected ≡ true
      → IsValid recv_buffer_size t.recv_buffer
      → contents t.recv_buffer ≡ packet type payload ++ rest
      → payload_buffer_size < length payload
      → (receive_packet t payload_buffer_size timeout_ms ≡ (too_small (length payload), t))
        × ((size timeout_ms' : ℕ)
            → length payload ≤ size
            → receive_packet t size timeout_ms' ≡ (
              record {
                result = success;
                id = code type;
                payload = payload;
                payload_size = length payload;
              },
              record t { recv_buffer = consume t.recv_buffer (length (packet type payload)) },
            ))
  receive_packet-too_small t payload_buffer_size timeout_ms up v e over = (
    receive_packet-whole t payload_buffer_size timeout_ms up v e
        ∙ take_packet-front t rest payload_buffer_size v e
        ∙ rw (lt→ltb payload_buffer_size (length payload) over) refl,
    λ size timeout_ms' room.
        receive_packet-whole t size timeout_ms' up v e
        ∙ take_packet-front t rest size v e
        ∙ rw (ge→ltb size (length payload) room) refl,
  )
