-- ===== src/Protocol/Codec/RoundTrip.antt =====
-- What an encoder writes, the decoder reads back.
use ryu_ldn_nx.Prelude.{
  ℕ, ◌+◌, ◌≤◌, ◌≡◌, refl, sym, ap, ◌∙◌, List, ◌++◌, arith, append_assoc, length, take, drop,
  length-append, drop-append_length, drop-drop, take-append_length,
}
use ryu_ldn_nx.Prelude.Bytes.{write_at, write_at-front, write_at-append}
use ryu_ldn_nx.Protocol.Header.{
  LdnHeader, PacketId, code-lt, header_bytes, header_size, max_packet_size, length-header_bytes,
  read_header-header_bytes, IsFit,
}
use ryu_ldn_nx.Protocol.Codec.{
  EncodeResult, DecodeResult, packet_header, encode_header, encode, decode_header, decode,
}

-- A packet on the wire: a header with the payload's length, and the payload.
abbrev pub packet : PacketId → List ℕ → List ℕ
packet type payload = header_bytes (packet_header type (length payload)) ++ payload

packet_header-IsFit : (type : PacketId) (n : ℕ) → n ≤ max_packet_size → IsFit (packet_header type n)
unfolding packet_header
packet_header-IsFit type n h = ground (arith, code-lt type)

-- The header of a packet is accepted wherever the packet lies at the front of a buffer.
pub decode_header-packet :
    (type : PacketId) (n : ℕ) (rest : List ℕ) (buffer_size : ℕ) (header : LdnHeader)
    → n ≤ max_packet_size
    → header_size ≤ buffer_size
    → decode_header (header_bytes (packet_header type n) ++ rest) buffer_size header
      ≡ (DecodeResult.success, packet_header type n)
unfolding decode_header packet_header
decode_header-packet type n rest buffer_size header h s =
    ground
      (arith, read_header-header_bytes (packet_header type n) rest (packet_header-IsFit type n h))

-- `encode_header` overwrites the first twelve bytes.
encode_header-front :
    (buffer : List ℕ) (type : PacketId) (n : ℕ)
    → encode_header buffer type n ≡ header_bytes (packet_header type n) ++ drop header_size buffer
unfolding encode_header
encode_header-front buffer type n =
    write_at-front buffer (header_bytes (packet_header type n))
    ∙ ap (λ k. header_bytes (packet_header type n) ++ drop k buffer)
        (length-header_bytes (packet_header type n))

pub header-payload :
    (buffer : List ℕ) (type : PacketId) (n : ℕ) (payload : List ℕ)
    → write_at (encode_header buffer type n) header_size payload
      ≡ (header_bytes (packet_header type n) ++ payload)
        ++ drop (header_size + length payload) buffer
header-payload buffer type n payload =
    ap (λ b. write_at b header_size payload) (encode_header-front buffer type n)
    ∙ write_at-append (header_bytes (packet_header type n)) (drop header_size buffer) header_size
        payload (sym (length-header_bytes (packet_header type n)))
    ∙ ap (λ r. (header_bytes (packet_header type n) ++ payload) ++ r)
        (drop-drop (length payload) header_size buffer)

-- Where the buffer's stated size holds the header and the payload, `encode` succeeds: it writes the
-- packet at the front of the buffer, leaves what lies behind it, and reports the packet's length.
pub encode-packet :
    (buffer : List ℕ) (buffer_size : ℕ) (type : PacketId) (payload : List ℕ)
    → header_size + length payload ≤ buffer_size
    → encode buffer buffer_size type payload ≡ (
      EncodeResult.success,
      packet type payload ++ drop (header_size + length payload) buffer,
      header_size + length payload,
    )
unfolding encode
encode-packet buffer buffer_size type payload h =
    ground (arith, header-payload buffer type (length payload) payload)

pub payload-packet :
    (type : PacketId) (n : ℕ) (payload rest : List ℕ)
    → take
        (length payload)
        (drop header_size ((header_bytes (packet_header type n) ++ payload) ++ rest))
      ≡ payload
payload-packet type n payload rest =
    ap (λ l. take (length payload) (drop header_size l))
      (append_assoc (header_bytes (packet_header type n)) payload rest)
    ∙ ap (take (length payload)) (
        drop-append_length header_size (header_bytes (packet_header type n)) (payload ++ rest)
          (sym (length-header_bytes (packet_header type n))))
    ∙ take-append_length (length payload) payload rest refl

-- Where the buffer's stated size holds the header and a payload within the protocol's limit, a
-- typed packet comes back as it was sent: decoding, at the payload's own size, what `encode` wrote
-- gives its header and its payload, whatever the buffer, the old header and the old payload held.
pub decode-encode :
    (buffer : List ℕ) (buffer_size : ℕ) (type : PacketId) (payload : List ℕ) (header : LdnHeader)
    (old : List ℕ)
    → header_size + length payload ≤ buffer_size
    → length payload ≤ max_packet_size
    → let (result, written, out_size) = encode buffer buffer_size type payload in
      decode (length payload) written out_size header old
      ≡ (DecodeResult.success, packet_header type (length payload), payload)
unfolding decode
decode-encode buffer buffer_size type payload header old h small =
    let rest = drop (header_size + length payload) buffer in
    rw (encode-packet buffer buffer_size type payload h) (
      ground (
        arith,
        append_assoc (header_bytes (packet_header type (length payload))) payload rest,
        decode_header-packet type (length payload) (payload ++ rest) (header_size + length payload)
            header,
        payload-packet type (length payload) payload rest,
      ))

-- `decode` reads the payload by its type's size alone: the length that the header declares has no
-- say, be it shorter or longer, as long as it is at most the limit.
decode-declared_size :
    (type : PacketId) (declared : ℕ) (payload rest : List ℕ) (header : LdnHeader) (old : List ℕ)
    → declared ≤ max_packet_size
    → let buffer = (header_bytes (packet_header type declared) ++ payload) ++ rest in
      decode (length payload) buffer (length buffer) header old
      ≡ (DecodeResult.success, packet_header type declared, payload)
unfolding decode
decode-declared_size type declared payload rest header old small =
    let first = header_bytes (packet_header type declared) in
    ground (
      arith,
      length-append (first ++ payload) rest,
      length-append first payload,
      length-header_bytes (packet_header type declared),
      append_assoc first payload rest,
      decode_header-packet type declared (payload ++ rest) (length ((first ++ payload) ++ rest))
          header,
      payload-packet type declared payload rest,
    )
