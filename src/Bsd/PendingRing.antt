-- ===== src/Bsd/PendingRing.antt =====
-- sysmodule/source/bsd/proxy_socket_manager.hpp and proxy_socket_manager.cpp: the ring in which the manager
-- keeps packets that no socket takes yet, and the loop that compacts it in place.
pub mod Sweeps
pub mod Stores
use ryu_ldn_nx.Prelude.{
  ℕ, zero, suc, ◌+◌, ◌-◌, ◌%◌, ◌^◌, min, Bool, true, false, Option, none, some, List, leb, ◌==◌,
  if◌then◌else◌, get_or, set, take, replicate,
}
use ryu_ldn_nx.Prelude.Bytes.{write_at}
use ryu_ldn_nx.Bsd.EphemeralPortPool.{ProtocolType, unspecified}

-- `MaxPendingPackets` and `PendingPayloadMax`.
abbrev pub max_pending_packets : ℕ
max_pending_packets = 32

abbrev pub pending_payload_max : ℕ
pending_payload_max = 1400

pub record PendingPacket : Type 0 where
  pub source_ip : ℕ  -- uint32_t
  pub source_port : ℕ  -- uint16_t
  pub dest_ip : ℕ  -- uint32_t
  pub dest_port : ℕ  -- uint16_t
  pub len : ℕ  -- uint16_t
  pub protocol : ProtocolType
  pub enqueue_time_ms : ℕ  -- uint64_t
  pub payload : List ℕ  -- pending_payload_max bytes

-- The members m_pending_ring, m_pending_head, m_pending_tail and m_pending_count of the manager.
pub record PendingRing : Type 0 where
  pub slots : List PendingPacket
  pub head : ℕ
  pub tail : ℕ
  pub count : ℕ

abbrev pub blank : PendingPacket
blank = record {
  source_ip = 0;
  source_port = 0;
  dest_ip = 0;
  dest_port = 0;
  len = 0;
  protocol = unspecified;
  enqueue_time_ms = 0;
  payload = replicate pending_payload_max 0;
}

unfoldable pub new : PendingRing
new = record { slots = replicate max_pending_packets blank; head = 0; tail = 0; count = 0 }

abbrev pub next_pending : ℕ → ℕ
next_pending i = (i + 1) % max_pending_packets

unfoldable pub clear : PendingRing → PendingRing
clear r = record r { head = 0; tail = 0; count = 0 }

unfoldable pub drop_oldest : PendingRing → PendingRing
drop_oldest r =
    if leb max_pending_packets r.count
    then record r { head = next_pending r.head; count = r.count - 1 }
    else r

-- The addresses of a packet that is stored, with the time.
pub record Route : Type 0 where
  pub source_ip : ℕ
  pub source_port : ℕ
  pub dest_ip : ℕ
  pub dest_port : ℕ
  pub protocol : ProtocolType

-- The slot as `RouteIncomingData` fills it: the bytes are absent when the pointer is null.
unfoldable pub fill : PendingPacket → Route → ℕ → Option (List ℕ) → ℕ → PendingPacket
fill slot a now_ms bytes copy_len = record {
  source_ip = a.source_ip;
  source_port = a.source_port;
  dest_ip = a.dest_ip;
  dest_port = a.dest_port;
  len = copy_len % 2 ^ 16;
  protocol = a.protocol;
  enqueue_time_ms = now_ms;
  payload = elim bytes [
    | none ↦ slot.payload
    | some bs ↦ write_at slot.payload 0 (take copy_len bs)
  ];
}

unfoldable pub write_tail : PendingRing → Route → ℕ → Option (List ℕ) → ℕ → PendingRing
write_tail r a now_ms bytes data_len =
    let slot = get_or r.slots r.tail blank in
    record r {
      slots = set r.slots r.tail (fill slot a now_ms bytes (min data_len pending_payload_max));
      tail = next_pending r.tail;
      count = r.count + 1;
    }

unfoldable pub store : PendingRing → Route → ℕ → Option (List ℕ) → ℕ → PendingRing
store r a now_ms bytes data_len = write_tail (drop_oldest r) a now_ms bytes data_len

-- The copy forward of a packet that stays.
unfoldable pub keep_slot : List PendingPacket → ℕ → ℕ → List PendingPacket
keep_slot slots read_idx write_idx =
    if write_idx == read_idx then slots else set slots write_idx (get_or slots read_idx blank)

-- The loop of `CloseProxySocket` and of `DeliverPendingPackets`: `step` deals with a packet, which may
-- change a state, and says whether the packet stays.
module _ {ℓ} {S : Type ℓ} (step : S → PendingPacket → S × Bool) where
  unfoldable pub sweep_from :
      S → List PendingPacket → ℕ → ℕ → ℕ → ℕ → S × (List PendingPacket × (ℕ × ℕ))
  sweep_from s slots read_idx write_idx zero kept = (s, (slots, (write_idx, kept)))
  sweep_from s slots read_idx write_idx (suc remaining) kept =
      let (s', stays) = step s (get_or slots read_idx blank) in
      sweep_from s' (if stays then keep_slot slots read_idx write_idx else slots)
        (next_pending read_idx) (if stays then next_pending write_idx else write_idx) remaining
        (if stays then kept + 1 else kept)

  unfoldable pub sweep : S → PendingRing → S × PendingRing
  unfolding sweep_from
  sweep s r =
      let (s', (slots, (write_idx, kept))) = sweep_from s r.slots r.head r.head r.count 0 in
      (s', record r { slots = slots; tail = write_idx; count = kept })
