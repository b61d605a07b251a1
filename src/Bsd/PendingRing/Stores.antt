-- ===== src/Bsd/PendingRing/Stores.antt =====
-- Storing a packet is a push at the end of a queue that loses its oldest entry when 32 wait.
use ryu_ldn_nx.Prelude.{
  ℕ, suc, ◌+◌, ◌-◌, ◌%◌, ◌^◌, ◌≤◌, ◌<◌, min, ◌≡◌, sym, ap, ◌∙◌, inl, inr, Option, some, List, [],
  ◌∷◌, ◌++◌, map, arith, leb, Bool-cases, length, push_bounded, map-push_bounded, get_or, set, take,
  drop, length-set, length-take, take-append_length, drop-append_left,
}
use ryu_ldn_nx.Prelude.Bytes.{write_at-front}
use ryu_ldn_nx.Prelude.Ring.{window, window-push, window-next, length-window}
use ryu_ldn_nx.Bsd.PendingRing.{
  PendingPacket, PendingRing, Route, blank, max_pending_packets, pending_payload_max, drop_oldest,
  fill, write_tail, store,
}
use ryu_ldn_nx.Bsd.PendingRing.Sweeps.{IsValid, packets}

-- What a stored packet says: its addresses, its time and its bytes.
abbrev pub shown : PendingPacket → Route × (ℕ × List ℕ)
shown p = (
  record {
    source_ip = p.source_ip;
    source_port = p.source_port;
    dest_ip = p.dest_ip;
    dest_port = p.dest_port;
    protocol = p.protocol;
  },
  (p.enqueue_time_ms, take p.len p.payload),
)

shown-fill :
    (slot : PendingPacket) (a : Route) (now_ms len : ℕ) (bytes : List ℕ)
    → len ≤ length bytes
    → shown (fill slot a now_ms (some bytes) (min len pending_payload_max))
      ≡ (a, (now_ms, take (min len pending_payload_max) bytes))
unfolding fill
shown-fill slot a now_ms len bytes h =
    let part = take (min len pending_payload_max) bytes in
    ap (λ (p : List ℕ). (a, (now_ms, p)))
      (ap (take (min len pending_payload_max % 2 ^ 16)) (write_at-front slot.payload part)
        ∙ take-append_length (min len pending_payload_max % 2 ^ 16) part
            (drop (length part) slot.payload)
            (omega (arith, length-take (min len pending_payload_max) bytes)))

drop_oldest-IsValid :
    (r : PendingRing)
    → IsValid r
    → IsValid (drop_oldest r) × ((drop_oldest r).count < max_pending_packets)
unfolding drop_oldest
drop_oldest-IsValid r v = elim (Bool-cases (leb max_pending_packets r.count)) [
  | inl full ↦ rw full (
    record {
      slots_length = v.slots_length;
      head_lt = omega arith;
      count_le = omega (arith, v.count_le);
      tail_eq = ground (arith, v.tail_eq, v.head_lt, v.count_le);
    },
    ground (arith, v.count_le),
  )
  | inr room ↦ rw room (v, ground arith)
]

packets-drop_oldest :
    (r : PendingRing)
    → IsValid r
    → packets (drop_oldest r) ≡ drop (length (packets r) + 1 - max_pending_packets) (packets r)
unfolding drop_oldest
packets-drop_oldest r v = elim (Bool-cases (leb max_pending_packets r.count)) [
  | inl full ↦
      let one : length (packets r) + 1 - max_pending_packets ≡ 1 =
        ground
          (arith, length-window blank max_pending_packets r.slots r.head r.count, v.count_le) in
      rw full (
        window-next blank max_pending_packets r.slots r.head r.count
        ∙ ap (λ n. drop n (packets r)) (sym one))
  | inr room ↦
      let none_lost : length (packets r) + 1 - max_pending_packets ≡ 0 =
        ground (arith, length-window blank max_pending_packets r.slots r.head r.count) in
      rw room (ap (λ n. drop n (packets r)) (sym none_lost))
]

packets-write_tail :
    (r : PendingRing) (a : Route) (now_ms data_len : ℕ) (bytes : Option (List ℕ))
    → IsValid r
    → r.count < max_pending_packets
    → packets (write_tail r a now_ms bytes data_len)
      ≡ packets r
        ++ (fill (get_or r.slots r.tail blank) a now_ms bytes (min data_len pending_payload_max)
            ∷ [])
unfolding write_tail
packets-write_tail r a now_ms data_len bytes v room =
    let p = fill (get_or r.slots r.tail blank) a now_ms bytes (min data_len pending_payload_max) in
    let more : r.count + 1 ≡ suc r.count = omega arith in
    ap (window blank max_pending_packets (set r.slots r.tail p) r.head) more
    ∙ ap (λ j. window blank max_pending_packets (set r.slots j p) r.head (suc r.count)) v.tail_eq
    ∙ window-push blank max_pending_packets r.slots r.head r.count p v.slots_length v.head_lt room

packets-store :
    (r : PendingRing) (a : Route) (now_ms data_len : ℕ) (bytes : Option (List ℕ))
    → IsValid r
    → let d = drop_oldest r in
      packets (store r a now_ms bytes data_len)
      ≡ push_bounded max_pending_packets
          (packets r)
          (fill (get_or d.slots d.tail blank) a now_ms bytes (min data_len pending_payload_max))
unfolding store
packets-store r a now_ms data_len bytes v =
    let (w, room) = drop_oldest-IsValid r v in
    let d = drop_oldest r in
    let p = fill (get_or d.slots d.tail blank) a now_ms bytes (min data_len pending_payload_max) in
    let lost = length (packets r) + 1 - max_pending_packets in
    packets-write_tail d a now_ms data_len bytes w room
    ∙ ap (λ q. q ++ (p ∷ [])) (packets-drop_oldest r v)
    ∙ sym (
        drop-append_left lost (packets r) (p ∷ [])
          (omega (arith, length-window blank max_pending_packets r.slots r.head r.count)))

-- Storing a packet pushes it at the end of the queue, with its payload cut to 1400 bytes, the oldest packet
-- making room when 32 wait, and the ring stays valid.
pub store_lem :
    (r : PendingRing) (a : Route) (now_ms data_len : ℕ) (bytes : List ℕ)
    → IsValid r
    → data_len ≤ length bytes
    → let r' = store r a now_ms (some bytes) data_len in
      IsValid r'
      × (map shown (packets r')
          ≡ push_bounded max_pending_packets
              (map shown (packets r))
              (a, (now_ms, take (min data_len pending_payload_max) bytes)))
unfolding store write_tail
store_lem r a now_ms data_len bytes v h =
    let (w, room) = drop_oldest-IsValid r v in
    let d = drop_oldest r in
    let p =
      fill (get_or d.slots d.tail blank) a now_ms (some bytes) (min data_len pending_payload_max) in
    (
      record {
        slots_length = length-set d.slots d.tail p ∙ w.slots_length;
        head_lt = w.head_lt;
        count_le = omega arith;
        tail_eq = omega (arith, w.tail_eq, w.head_lt);
      },
      ap (map shown) (packets-store r a now_ms data_len (some bytes) v)
          ∙ map-push_bounded shown max_pending_packets (packets r) p
          ∙ ap (push_bounded max_pending_packets (map shown (packets r)))
              (shown-fill (get_or d.slots d.tail blank) a now_ms data_len bytes h),
    )
