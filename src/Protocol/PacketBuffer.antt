-- ===== src/Protocol/PacketBuffer.antt =====
-- sysmodule/source/protocol/packet_buffer.hpp: the reassembly of packets from a byte stream. The
-- template's `BufferSize` is an argument of the operations that use it. `m_buffer` is the whole
-- block, its unused bytes included.
pub mod Contents
pub mod Extraction
pub mod Resync
use ryu_ldn_nx.Prelude.{
  ℕ, zero, suc, ◌+◌, ◌-◌, ◌≤◌, ◌≡◌, Bool, true, false, List, take, drop, length, replicate, ltb,
  leb, ◌==◌, if◌then◌else◌,
}
use ryu_ldn_nx.Prelude.Bytes.{write_at}
use ryu_ldn_nx.Protocol.Header.{header_size, read_header}
use ryu_ldn_nx.Protocol.Codec.{DecodeResult, decode_header, check_complete_packet, undefined_header}

pub data BufferResult : Type 0 where
  success buffer_full no_complete_packet packet_too_large invalid_packet : BufferResult

pub record PacketBuffer : Type 0 where
  pub buffer : List ℕ
  pub write_pos : ℕ

unfoldable pub new : ℕ → PacketBuffer
new buffer_size = record { buffer = replicate buffer_size 0; write_pos = 0 }

unfoldable pub reset : PacketBuffer → PacketBuffer
reset b = record b { write_pos = 0 }

unfoldable pub available : ℕ → PacketBuffer → ℕ
available buffer_size b = buffer_size - b.write_pos

unfoldable pub append : ℕ → PacketBuffer → List ℕ → BufferResult × PacketBuffer
unfolding available
append buffer_size b bytes =
    if length bytes == 0
    then (success, b)
    else if ltb (available buffer_size b) (length bytes)
    then (buffer_full, b)
    else (
      success,
      record b {
        buffer = write_at b.buffer b.write_pos bytes;
        write_pos = b.write_pos + length bytes;
      },
    )

-- The `switch` of `peek_packet_info`.
abbrev peek_result : DecodeResult → BufferResult
peek_result DecodeResult.success = success
peek_result DecodeResult.incomplete_packet = no_complete_packet
peek_result DecodeResult.buffer_too_small = no_complete_packet
peek_result DecodeResult.packet_too_large = packet_too_large
peek_result DecodeResult.invalid_magic = invalid_packet
peek_result DecodeResult.invalid_version = invalid_packet

-- The result and `packet_size`.
unfoldable pub peek_packet_info : PacketBuffer → BufferResult × ℕ
peek_packet_info b =
    if ltb b.write_pos header_size
    then (no_complete_packet, 0)
    else let (result, packet_size) = check_complete_packet b.buffer b.write_pos in
      (peek_result result, packet_size)

unfoldable pub has_complete_packet : PacketBuffer → Bool
has_complete_packet b =
    if ltb b.write_pos header_size
    then false
    else elim (check_complete_packet b.buffer b.write_pos).0 [
      | DecodeResult.success ↦ true
      | _ ↦ false
    ]

-- `memmove(m_buffer, m_buffer + size, remaining)` writes what lies behind the packet to the front.
unfoldable pub consume : PacketBuffer → ℕ → PacketBuffer
consume b size =
    if size == 0
    then b
    else if leb b.write_pos size
    then record b { write_pos = 0 }
    else let remaining = b.write_pos - size in
      record {
        buffer = write_at b.buffer 0 (take remaining (drop size b.buffer));
        write_pos = remaining;
      }

-- The result, the caller's block, `packet_size` and the buffer.
unfoldable pub extract_packet : PacketBuffer → List ℕ → ℕ → BufferResult × List ℕ × ℕ × PacketBuffer
extract_packet b out_buffer out_buffer_size =
    let (result, packet_size) = peek_packet_info b in
    elim result [
      | success ↦
          (if ltb out_buffer_size packet_size then (buffer_full, out_buffer, packet_size, b) else (
            success,
            write_at out_buffer 0 (take packet_size b.buffer),
            packet_size,
            consume b packet_size,
          ))
      | other ↦ (other, out_buffer, packet_size, b)
    ]

-- The loop of `discard_until_valid`, on fuel: the buffer and how many bytes were discarded.
unfoldable pub discard_from : ℕ → PacketBuffer → ℕ → PacketBuffer × ℕ
discard_from zero b discarded = (b, discarded)
discard_from (suc fuel) b discarded =
    let rest = discard_from fuel (consume b 1) (discarded + 1) in
    if ltb b.write_pos header_size
    then (b, discarded)
    else elim (decode_header b.buffer b.write_pos undefined_header).0 [
      | DecodeResult.success ↦ (b, discarded)
      | DecodeResult.incomplete_packet ↦ (b, discarded)
      | _ ↦ rest
    ]

-- Each round takes one byte away, so that `write_pos` rounds are enough.
unfoldable pub discard_until_valid : PacketBuffer → PacketBuffer × ℕ
unfolding discard_from
discard_until_valid b = discard_from b.write_pos b 0

unfoldable pub advance_write : ℕ → PacketBuffer → ℕ → PacketBuffer
advance_write buffer_size b size =
    if leb (b.write_pos + size) buffer_size then record b { write_pos = b.write_pos + size } else b
