-- ===== src/Ldn/ProxyBuffer.antt =====
-- sysmodule/source/ldn/ldn_proxy_buffer.hpp and ldn_proxy_buffer.cpp: the queue of proxy packets
-- between the network thread and the game's thread. Packets' descriptions lie in sixteen slots, their
-- bytes in one block. Every operation holds the buffer's mutex, so a call is one step. A null pointer
-- for the bytes, `data` in the source, is `none`.
pub mod Layout
pub mod Writes
pub mod Reads
pub mod Wrap
mod Tests
use ryu_ldn_nx.Prelude.{
  ℕ, ◌+◌, ◌-◌, ◌%◌, Bool, true, false, Option, none, some, List, replicate, ltb, leb, ◌==◌,
  if◌then◌else◌, get_or, set, take,
}
use ryu_ldn_nx.Prelude.Bytes.{write_at}
use ryu_ldn_nx.Prelude.Slices.{slice}

abbrev pub max_packet_data_size : ℕ
max_packet_data_size = 0x800

abbrev pub buffer_size : ℕ
buffer_size = 8448

abbrev pub max_queued_packets : ℕ
max_queued_packets = 16

-- `ProxyDataHeader` of types.hpp, the fields of its `ProxyInfo` in place.
pub record ProxyDataHeader : Type 0 where
  pub source_ipv4 : ℕ  -- uint32_t
  pub source_port : ℕ  -- uint16_t
  pub dest_ipv4 : ℕ  -- uint32_t
  pub dest_port : ℕ  -- uint16_t
  pub protocol : ℕ  -- ProtocolType
  pub data_length : ℕ  -- uint32_t

pub record PacketEntry : Type 0 where
  pub header : ProxyDataHeader
  pub data_size : ℕ
  pub data_offset : ℕ

pub record LdnProxyBuffer : Type 0 where
  pub packets : List PacketEntry
  pub packet_read_idx : ℕ
  pub packet_write_idx : ℕ
  pub packet_count : ℕ
  pub data_buffer : List ℕ
  pub data_read_pos : ℕ
  pub data_write_pos : ℕ

abbrev pub zero_header : ProxyDataHeader
zero_header = record {
  source_ipv4 = 0;
  source_port = 0;
  dest_ipv4 = 0;
  dest_port = 0;
  protocol = 0;
  data_length = 0;
}

abbrev pub zero_entry : PacketEntry
zero_entry = record { header = zero_header; data_size = 0; data_offset = 0 }

unfoldable pub new : LdnProxyBuffer
new = record {
  packets = replicate max_queued_packets zero_entry;
  packet_read_idx = 0;
  packet_write_idx = 0;
  packet_count = 0;
  data_buffer = replicate buffer_size 0;
  data_read_pos = 0;
  data_write_pos = 0;
}

-- Where the bytes of a packet go: behind the last ones, or to the start of the block.
unfoldable pub write_position : LdnProxyBuffer → ℕ → Option ℕ
write_position b size =
    if ltb (buffer_size - b.data_write_pos) size
    then (if ltb size b.data_read_pos then some 0 else none)
    else some b.data_write_pos

-- `if (size > 0 && p != nullptr) memcpy(p + offset, bytes, size)`, once with the block as `p` and once
-- with it as the source.
unfoldable pub copy_in : List ℕ → ℕ → Option (List ℕ) → ℕ → List ℕ
copy_in block offset none size = block
copy_in block offset (some bytes) size =
    if ltb 0 size then write_at block offset (take size bytes) else block

unfoldable pub copy_out : Option (List ℕ) → List ℕ → ℕ → ℕ → Option (List ℕ)
copy_out none block offset size = none
copy_out (some out) block offset size =
    if ltb 0 size then some (write_at out 0 (slice block offset size)) else some out

-- The part of `Write` behind its checks.
unfoldable pub store : LdnProxyBuffer → ProxyDataHeader → Option (List ℕ) → ℕ → ℕ → LdnProxyBuffer
unfolding copy_in
store b header bytes size pos = record b {
  packets =
      set b.packets b.packet_write_idx
        (record { header = header; data_size = size; data_offset = pos });
  data_buffer = copy_in b.data_buffer pos bytes size;
  data_write_pos = pos + size;
  packet_write_idx = (b.packet_write_idx + 1) % max_queued_packets;
  packet_count = b.packet_count + 1;
}

unfoldable pub write :
    LdnProxyBuffer → ProxyDataHeader → Option (List ℕ) → ℕ → LdnProxyBuffer × Bool
unfolding write_position store
write b header bytes size =
    if ltb max_packet_data_size size
    then (b, false)
    else if leb max_queued_packets b.packet_count
    then (b, false)
    else elim (write_position b size) [
      | none ↦ (b, false)
      | some pos ↦ (store b header bytes size pos, true)
    ]

-- `m_packets[m_packet_read_idx]`.
abbrev pub oldest : LdnProxyBuffer → PacketEntry
oldest b = get_or b.packets b.packet_read_idx zero_entry

-- The updates at the end of `Read`.
unfoldable pub release : LdnProxyBuffer → LdnProxyBuffer
release b =
    let count = b.packet_count - 1 in
    record b {
      data_read_pos = if count == 0 then 0 else (oldest b).data_offset + (oldest b).data_size;
      data_write_pos = if count == 0 then 0 else b.data_write_pos;
      packet_read_idx = (b.packet_read_idx + 1) % max_queued_packets;
      packet_count = count;
    }

-- The buffer, the result, and the output parameters `header`, `data` and `size`.
unfoldable pub read :
    LdnProxyBuffer
    → ProxyDataHeader
    → Option (List ℕ)
    → ℕ
    → ℕ
    → LdnProxyBuffer × Bool × ProxyDataHeader × Option (List ℕ) × ℕ
unfolding release copy_out
read b header bytes size max_size =
    if b.packet_count == 0
    then (b, false, header, bytes, size)
    else let e = oldest b in
      let copied = if leb e.data_size max_size then e.data_size else max_size in
      (release b, true, e.header, copy_out bytes b.data_buffer e.data_offset copied, copied)

unfoldable pub peek : LdnProxyBuffer → ProxyDataHeader → ℕ → Bool × ProxyDataHeader × ℕ
peek b header size =
    if b.packet_count == 0
    then (false, header, size)
    else (true, (oldest b).header, (oldest b).data_size)

unfoldable pub get_pending_count : LdnProxyBuffer → ℕ
get_pending_count b = b.packet_count

unfoldable pub is_empty : LdnProxyBuffer → Bool
is_empty b = b.packet_count == 0

unfoldable pub reset : LdnProxyBuffer → LdnProxyBuffer
reset b = record b {
  packet_read_idx = 0;
  packet_write_idx = 0;
  packet_count = 0;
  data_read_pos = 0;
  data_write_pos = 0;
}

unfoldable pub get_used_bytes : LdnProxyBuffer → ℕ
get_used_bytes b =
    if leb b.data_read_pos b.data_write_pos
    then b.data_write_pos - b.data_read_pos
    else buffer_size - b.data_read_pos + b.data_write_pos
