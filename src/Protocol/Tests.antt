-- ===== src/Protocol/Tests.antt =====
-- Runs of the packet codec and of the packet buffer at concrete packets.
use ryu_ldn_nx.Prelude.{
  ℕ, ◌+◌, ◌≤◌, ◌<◌, ◌≡◌, ◌≢◌, refl, ◌⊎◌, List, [], ◌∷◌, ◌++◌, arith, length, replicate, some,
}
use ryu_ldn_nx.Prelude.Bytes.{write_at}
use ryu_ldn_nx.Protocol.Header.{ping, proxy_data, header_bytes, header_size, read_header}
use ryu_ldn_nx.Protocol.Codec.{
  DecodeResult, packet_header, undefined_header, encode, encode_with_data, decode, decode_with_data,
  check_complete_packet,
}
use ryu_ldn_nx.Protocol.Codec.RoundTrip.{packet, decode-encode}
use ryu_ldn_nx.Protocol.Codec.ExtraData.{decode_with_data-encode_with_data}
use ryu_ldn_nx.Protocol.Codec.Bounds.{IsAccepted, check_complete_packet_bounds}
use ryu_ldn_nx.Protocol.PacketBuffer.{
  BufferResult, PacketBuffer, append, extract_packet, discard_until_valid,
}
use ryu_ldn_nx.Protocol.PacketBuffer.Contents.{contents, IsValid, contents-append}
use ryu_ldn_nx.Protocol.PacketBuffer.Extraction.{extract_packet-packet}
use ryu_ldn_nx.Protocol.PacketBuffer.Resync.{Resynced, discard_until_valid-Resynced}

abbrev pings : List ℕ
pings = 1 ∷ 7 ∷ []

abbrev block : List ℕ
block = replicate 32 170

-- A buffer of 32 bytes that holds a whole ping and the first byte of what follows.
abbrev held : PacketBuffer
held = record { buffer = packet ping pings ++ (82 ∷ replicate 17 0); write_pos = 15 }

-- The same after a byte that belongs to no packet.
abbrev shifted : PacketBuffer
shifted = record { buffer = 0 ∷ (packet ping pings ++ replicate 17 0); write_pos = 15 }

held-IsValid : IsValid 32 held
unfolding header_bytes packet_header
held-IsValid = record { block = refl; in_block = omega arith }

shifted-IsValid : IsValid 32 shifted
unfolding header_bytes packet_header
shifted-IsValid = record { block = refl; in_block = omega arith }

decode-encode_example :
    let (result, written, out_size) = encode block 32 ping pings in
    decode 2 written out_size undefined_header []
    ≡ (DecodeResult.success, packet_header ping 2, pings)
decode-encode_example =
    decode-encode block 32 ping pings undefined_header [] (omega arith) (omega arith)

decode_with_data-encode_with_data_example :
    let (result, written, out_size) =
      encode_with_data block 32 proxy_data pings (some (5 ∷ [])) 1 in
    decode_with_data 2 written out_size undefined_header []
    ≡ (DecodeResult.success, packet_header proxy_data 3, pings, some (5 ∷ []), 1)
decode_with_data-encode_with_data_example =
    decode_with_data-encode_with_data proxy_data pings (5 ∷ []) block 32 undefined_header []
      (omega arith) (omega arith)

check_complete_packet_bounds_example :
    let (result, packet_size) = check_complete_packet held.buffer 13 in
    let whole = header_size + (read_header held.buffer).data_size in
    (IsAccepted held.buffer 13
      × (packet_size ≡ whole)
      × (((result ≡ DecodeResult.success) × (whole ≤ 13))
          ⊎ ((result ≡ DecodeResult.incomplete_packet) × (13 < whole))))
    ⊎ (¬ (IsAccepted held.buffer 13)
        × (result ≢ DecodeResult.success)
        × (result ≢ DecodeResult.incomplete_packet)
        × (packet_size ≡ 0))
check_complete_packet_bounds_example = check_complete_packet_bounds held.buffer 13

contents-append_example :
    let (result, b') = append 32 held (76 ∷ 68 ∷ []) in
    ((32 < length (contents held) + 2) × (result ≡ BufferResult.buffer_full) × (b' ≡ held))
    ⊎ ((length (contents held) + 2 ≤ 32)
        × (result ≡ BufferResult.success)
        × (contents b' ≡ contents held ++ (76 ∷ 68 ∷ [])))
contents-append_example = contents-append 32 held (76 ∷ 68 ∷ []) held-IsValid

contents-held : contents held ≡ packet ping pings ++ (82 ∷ [])
unfolding header_bytes packet_header
contents-held = refl

extract_packet-packet_example :
    let (result, out, packet_size, b') = extract_packet held block 32 in
    (result ≡ BufferResult.success)
    × (out ≡ write_at block 0 (packet ping pings))
    × (packet_size ≡ 14)
    × (contents b' ≡ 82 ∷ [])
    × IsValid 32 b'
extract_packet-packet_example =
    extract_packet-packet 32 held ping pings (82 ∷ []) block 32 held-IsValid (omega arith)
      contents-held (omega arith)

discard_until_valid-Resynced_example :
    let (b', discarded) = discard_until_valid shifted in
    Resynced (contents shifted) (contents b') discarded × IsValid 32 b'
discard_until_valid-Resynced_example = discard_until_valid-Resynced 32 shifted shifted-IsValid
