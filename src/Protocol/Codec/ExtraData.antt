-- ===== src/Protocol/Codec/ExtraData.antt =====
-- Packets with data behind the structured payload, such as `ProxyData` and `CreateAccessPoint`.
use ryu_ldn_nx.Prelude.{
  ℕ, ◌+◌, ◌-◌, ◌%◌, ◌^◌, ◌≤◌, ◌≡◌, refl, ap, ◌∙◌, none, some, List, ◌++◌, arith, append_assoc,
  length, take, drop, length-append, take-all, drop-append_length, take-append_length,
  if◌then◌else◌, ltb,
}
use native.Mathlib.Nat.{le_refl}
use ryu_ldn_nx.Prelude.Bytes.{write_at, write_at-append}
use ryu_ldn_nx.Protocol.Header.{
  LdnHeader, PacketId, header_bytes, header_size, max_packet_size, length-header_bytes,
}
use ryu_ldn_nx.Protocol.Codec.{
  EncodeResult, DecodeResult, packet_header, encode_header, encode_with_data, decode_with_data,
}
use ryu_ldn_nx.Protocol.Codec.RoundTrip.{header-payload, decode_header-packet, payload-packet}

module _ (type : PacketId) (payload extra : List ℕ) where
  abbrev framed : List ℕ
  framed = (header_bytes (packet_header type (length payload + length extra)) ++ payload) ++ extra

  -- What `encode_with_data` leaves in the buffer.
  written-framed :
      (buffer : List ℕ)
      → write_at
          (write_at (encode_header buffer type (length payload + length extra)) header_size payload)
          (header_size + length payload)
          extra
        ≡ framed ++ drop (length extra) (drop (header_size + length payload) buffer)
  written-framed buffer =
      ap (λ b. write_at b (header_size + length payload) extra)
        (header-payload buffer type (length payload + length extra) payload)
      ∙ write_at-append
          (header_bytes (packet_header type (length payload + length extra)) ++ payload)
          (drop (header_size + length payload) buffer) (header_size + length payload) extra
          (omega (
            arith,
            length-append (header_bytes (packet_header type (length payload + length extra)))
                payload,
            length-header_bytes (packet_header type (length payload + length extra)),
          ))

  pub encode_with_data-framed :
      (buffer : List ℕ) (buffer_size : ℕ)
      → header_size + length payload + length extra ≤ buffer_size
      → length payload + length extra ≤ max_packet_size
      → encode_with_data buffer buffer_size type payload (some extra) (length extra) ≡ (
        EncodeResult.success,
        framed ++ drop (length extra) (drop (header_size + length payload) buffer),
        header_size + length payload + length extra,
      )
  unfolding encode_with_data
  encode_with_data-framed buffer buffer_size h small =
      ground
        (arith, wrap, take-all (length extra) extra (le_refl (length extra)), written-framed buffer)
    where
      wrap : (length payload + length extra) % 2 ^ 32 ≡ length payload + length extra
      wrap = omega arith

  extra-framed :
      (rest : List ℕ)
      → take (length extra) (drop (header_size + length payload) (framed ++ rest)) ≡ extra
  extra-framed rest =
      let first = header_bytes (packet_header type (length payload + length extra)) ++ payload in
      ap (λ l. take (length extra) (drop (header_size + length payload) l))
        (append_assoc first extra rest)
      ∙ ap (take (length extra)) (
          drop-append_length (header_size + length payload) first (extra ++ rest) (
            omega (
              arith,
              length-append (header_bytes (packet_header type (length payload + length extra)))
                  payload,
              length-header_bytes (packet_header type (length payload + length extra)),
            )))
      ∙ take-append_length (length extra) extra rest refl

  decode_with_data-framed :
      (rest : List ℕ) (header : LdnHeader) (old : List ℕ)
      → length payload + length extra ≤ max_packet_size
      → decode_with_data
          (length payload)
          (framed ++ rest)
          (header_size + length payload + length extra)
          header
          old
        ≡ (
          DecodeResult.success,
          packet_header type (length payload + length extra),
          payload,
          (if ltb 0 (length extra) then some extra else none),
          length extra,
        )
  unfolding decode_with_data packet_header
  decode_with_data-framed rest header old small =
      let first = header_bytes (packet_header type (length payload + length extra)) in
      let e : (length payload + length extra) - length payload ≡ length extra = omega arith in
      ground (
        arith,
        e,
        append_assoc (first ++ payload) extra rest,
        append_assoc first payload (extra ++ rest),
        decode_header-packet type (length payload + length extra) (payload ++ (extra ++ rest))
            (header_size + length payload + length extra) header,
        payload-packet type (length payload + length extra) payload (extra ++ rest),
        extra-framed rest,
      )

  -- Where the buffer's stated size holds header, payload and data, and both together are within
  -- the protocol's limit, a packet with data behind its payload comes back whole:
  -- `decode_with_data`, at the payload's own size, gives the header, the payload and the data that
  -- `encode_with_data` was given, and a null pointer where there was no data.
  pub decode_with_data-encode_with_data :
      (buffer : List ℕ) (buffer_size : ℕ) (header : LdnHeader) (old : List ℕ)
      → header_size + length payload + length extra ≤ buffer_size
      → length payload + length extra ≤ max_packet_size
      → let (result, written, out_size) =
          encode_with_data buffer buffer_size type payload (some extra) (length extra) in
        decode_with_data (length payload) written out_size header old ≡ (
          DecodeResult.success,
          packet_header type (length payload + length extra),
          payload,
          (if ltb 0 (length extra) then some extra else none),
          length extra,
        )
  decode_with_data-encode_with_data buffer buffer_size header old h small =
      rw (encode_with_data-framed buffer buffer_size h small) (
        decode_with_data-framed (drop (length extra) (drop (header_size + length payload) buffer))
          header old small)
