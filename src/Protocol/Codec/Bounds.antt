-- ===== src/Protocol/Codec/Bounds.antt =====
-- What a checked packet guarantees to the code that goes on to read it.
use ryu_ldn_nx.Prelude.{ℕ, ◌+◌, ◌≤◌, ◌≡◌, ◌≢◌, ◌<◌, ◌⊎◌, List, arith}
use ryu_ldn_nx.Protocol.Header.{
  header_size, max_packet_size, read_header, protocol_magic, protocol_version,
}
use ryu_ldn_nx.Protocol.Codec.{DecodeResult, decode_header, check_complete_packet}

-- A header at the front of the bytes that says it is of this protocol and within the limit.
abbrev pub IsAccepted : List ℕ → ℕ → Type 0
IsAccepted buffer buffer_size =
    let h = read_header buffer in
    (header_size ≤ buffer_size)
    × (h.magic ≡ protocol_magic)
    × (h.version ≡ protocol_version)
    × (h.data_size ≤ max_packet_size)

-- `check_complete_packet` by the bytes. When the header is accepted the size is the header's and that of
-- the payload it declares, and the check succeeds if the bytes given hold that much, and reports
-- `incomplete_packet` if they do not. When the header is not accepted, it refuses with size 0.
pub check_complete_packet_bounds :
    (buffer : List ℕ) (buffer_size : ℕ)
    → let (result, packet_size) = check_complete_packet buffer buffer_size in
      let whole = header_size + (read_header buffer).data_size in
      (IsAccepted buffer buffer_size
        × (packet_size ≡ whole)
        × (((result ≡ DecodeResult.success) × (whole ≤ buffer_size))
            ⊎ ((result ≡ DecodeResult.incomplete_packet) × (buffer_size < whole))))
      ⊎ (¬ (IsAccepted buffer buffer_size)
          × (result ≢ DecodeResult.success)
          × (result ≢ DecodeResult.incomplete_packet)
          × (packet_size ≡ 0))
unfolding check_complete_packet decode_header
check_complete_packet_bounds buffer buffer_size = ground arith
