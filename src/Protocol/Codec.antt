-- ===== src/Protocol/Codec.antt =====
-- The encoders and decoders of sysmodule/source/protocol/ryu_protocol.hpp. A buffer is a block of
-- bytes and a size that the caller states beside it. An output parameter is passed in with its old
-- value and returned. A payload of type T is its bytes in memory, and `sizeof(T)` is their number.
pub mod RoundTrip
pub mod ExtraData
pub mod Bounds
use ryu_ldn_nx.Prelude.{
  ℕ, ◌+◌, ◌-◌, ◌%◌, ◌^◌, ◌≤◌, Bool, true, false, ◌||◌, Option, none, some, List, [], ◌∷◌, length,
  take, drop, replicate, ltb, leb, ◌==◌, not, if◌then◌else◌, ◌++◌, min,
}
use ryu_ldn_nx.Prelude.Bytes.{write_at, u16_bytes, u32_bytes}
use ryu_ldn_nx.Protocol.Header.{
  LdnHeader, PacketId, code, header_bytes, read_header, header_size, protocol_magic,
  protocol_version, max_packet_size, initialize, passphrase, ping, disconnect, proxy_data,
  set_advertise_data, create_access_point, set_accept_policy,
}

pub data EncodeResult : Type 0 where
  success buffer_too_small invalid_packet_id : EncodeResult

pub data DecodeResult : Type 0 where
  success buffer_too_small invalid_magic invalid_version packet_too_large : DecodeResult
  incomplete_packet : DecodeResult

unfoldable pub packet_header : PacketId → ℕ → LdnHeader
packet_header type data_size = record {
  magic = protocol_magic;
  type = code type;
  version = protocol_version;
  reserved = 0;
  data_size = data_size;
}

unfoldable pub encode_header : List ℕ → PacketId → ℕ → List ℕ
unfolding packet_header
encode_header buffer type data_size =
    write_at buffer 0 (header_bytes (packet_header type data_size))

-- What an encoder hands back: its result, the buffer, and `out_size`.
abbrev pub Encoded : Type 0
Encoded = EncodeResult × List ℕ × ℕ

unfoldable pub encode_empty : List ℕ → ℕ → PacketId → Encoded
encode_empty buffer buffer_size type =
    if ltb buffer_size header_size
    then (buffer_too_small, buffer, 0)
    else (success, encode_header buffer type 0, header_size)

unfoldable pub encode : List ℕ → ℕ → PacketId → List ℕ → Encoded
encode buffer buffer_size type payload =
    let required = header_size + length payload in
    if ltb buffer_size required then (buffer_too_small, buffer, 0) else (
      success,
      write_at (encode_header buffer type (length payload)) header_size payload,
      required,
    )

-- `extra_data` may be null, and then nothing is copied for it.
abbrev write_optional : List ℕ → ℕ → Option (List ℕ) → ℕ → List ℕ
write_optional buffer offset none size = buffer
write_optional buffer offset (some extra_data) size = write_at buffer offset (take size extra_data)

unfoldable pub encode_with_data : List ℕ → ℕ → PacketId → List ℕ → Option (List ℕ) → ℕ → Encoded
encode_with_data buffer buffer_size type payload extra_data extra_size =
    let required = header_size + length payload + extra_size in
    if ltb buffer_size required
    then (buffer_too_small, buffer, 0)
    else let data_size = (length payload + extra_size) % 2 ^ 32 in
      let b = write_at (encode_header buffer type data_size) header_size payload in
      (success, write_optional b (header_size + length payload) extra_data extra_size, required)

unfoldable pub encode_raw : List ℕ → ℕ → PacketId → Option (List ℕ) → ℕ → Encoded
encode_raw buffer buffer_size type extra_data data_size =
    let required = header_size + data_size in
    if ltb buffer_size required
    then (buffer_too_small, buffer, 0)
    else let b = encode_header buffer type (data_size % 2 ^ 32) in
      (success, write_optional b header_size extra_data data_size, required)

-- The bytes of `InitializeMessage`, `PingMessage`, `DisconnectMessage` and `PassphraseMessage`.
unfoldable pub encode_initialize : List ℕ → ℕ → List ℕ → List ℕ → Encoded
encode_initialize buffer buffer_size id mac = encode buffer buffer_size initialize (id ++ mac)

unfoldable pub encode_passphrase : List ℕ → ℕ → Option (List ℕ) → ℕ → Encoded
encode_passphrase buffer buffer_size text passphrase_len =
    let copy_len = if ltb passphrase_len 128 then passphrase_len else 128 in
    encode buffer buffer_size passphrase (write_optional (replicate 128 0) 0 text copy_len)

unfoldable pub encode_ping : List ℕ → ℕ → ℕ → ℕ → Encoded
encode_ping buffer buffer_size requester id = encode buffer buffer_size ping (requester ∷ id ∷ [])

unfoldable pub encode_disconnect : List ℕ → ℕ → ℕ → Encoded
encode_disconnect buffer buffer_size disconnect_ip =
    encode buffer buffer_size disconnect (u32_bytes disconnect_ip)

-- What a decoder of the header hands back: its result and the header.
unfoldable pub decode_header : List ℕ → ℕ → LdnHeader → DecodeResult × LdnHeader
decode_header buffer buffer_size header =
    if ltb buffer_size header_size
    then (buffer_too_small, header)
    else let h = read_header buffer in
      if not (h.magic == protocol_magic)
      then (invalid_magic, h)
      else if not (h.version == protocol_version)
      then (invalid_version, h)
      else if leb (2 ^ 31) h.data_size || ltb max_packet_size h.data_size
      then (packet_too_large, h)
      else (success, h)

-- The header that a decoder declares and does not initialise. Its fields are never read.
abbrev pub undefined_header : LdnHeader
undefined_header = record { magic = 0; type = 0; version = 0; reserved = 0; data_size = 0 }

-- The result and `packet_size`.
unfoldable pub check_complete_packet : List ℕ → ℕ → DecodeResult × ℕ
check_complete_packet buffer buffer_size =
    let (result, header) = decode_header buffer buffer_size undefined_header in
    elim result [
      | success ↦
          (let packet_size = header_size + header.data_size in
            if ltb buffer_size packet_size
            then (incomplete_packet, packet_size)
            else (success, packet_size))
      | other ↦ (other, 0)
    ]

-- `decode<T>` at `size` = `sizeof(T)`: the result, the header and the payload.
unfoldable pub decode : ℕ → List ℕ → ℕ → LdnHeader → List ℕ → DecodeResult × LdnHeader × List ℕ
decode size buffer buffer_size header payload =
    let (result, h) = decode_header buffer buffer_size header in
    elim result [
      | success ↦
          (if ltb buffer_size (header_size + size)
            then (buffer_too_small, h, payload)
            else (success, h, take size (drop header_size buffer)))
      | other ↦ (other, h, payload)
    ]

-- `decode_with_data<T>`: the result, the header, the payload, `extra_data` (its bytes, or none for
-- a null pointer) and `extra_size`.
unfoldable pub decode_with_data :
    ℕ → List ℕ → ℕ → LdnHeader → List ℕ → DecodeResult × LdnHeader × List ℕ × Option (List ℕ) × ℕ
decode_with_data size buffer buffer_size header payload =
    let (result, h) = decode_header buffer buffer_size header in
    elim result [
      | success ↦
          (if ltb buffer_size (header_size + size)
            then (buffer_too_small, h, payload, none, 0)
            else let p = take size (drop header_size buffer) in
              if ltb size h.data_size
              then (if ltb buffer_size (header_size + h.data_size)
                  then (incomplete_packet, h, p, none, 0)
                  else let extra_size = h.data_size - size in
                    (
                      success,
                      h,
                      p,
                      some (take extra_size (drop (header_size + size) buffer)),
                      extra_size,
                    ))
              else (success, h, p, none, 0))
      | other ↦ (other, h, payload, none, 0)
    ]

-- `decode_raw`: the result, the header, `data` and `data_size`.
unfoldable pub decode_raw : List ℕ → ℕ → LdnHeader → DecodeResult × LdnHeader × Option (List ℕ) × ℕ
decode_raw buffer buffer_size header =
    let (result, h) = decode_header buffer buffer_size header in
    elim result [
      | success ↦
          (if ltb buffer_size (header_size + h.data_size)
            then (incomplete_packet, h, none, 0)
            else (
              success,
              h,
              if ltb 0 h.data_size then some (take h.data_size (drop header_size buffer)) else none,
              h.data_size,
            ))
      | other ↦ (other, h, none, 0)
    ]
