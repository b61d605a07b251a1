-- ===== src/Bsd/ProxySocket/Queue.antt =====
-- The ring of received packets as a queue of datagrams, oldest first.
use ryu_ldn_nx.Prelude.{
  ℕ, zero, suc, ◌+◌, ◌-◌, ◌%◌, ◌^◌, ◌≤◌, ◌<◌, min, ◌≡◌, refl, sym, ap, ap₂, ◌∙◌, inl, inr, Bool,
  true, false, Option, none, some, List, [], ◌∷◌, ◌++◌, map, map-append, arith, leb, ◌==◌,
  if◌then◌else◌, Bool-cases, length, length-map, push_bounded, get_or, set, take, drop, length-set,
  length-take, take-append_length, take-nil, drop-append_left,
}
use ryu_ldn_nx.Prelude.Bytes.{length-write_at, write_at-front}
use ryu_ldn_nx.Prelude.Ring.{window, window-push, window-next, length-window}
use ryu_ldn_nx.Bsd.Types.{SockAddrIn, again}
use ryu_ldn_nx.Bsd.ProxySocket.{
  ProxySocket, ReceivedPacket, max_queue_size, max_payload, empty_packet,
}
use ryu_ldn_nx.Bsd.ProxySocket.Transfer.{
  Datagram, Received, got, error, advance, clear_event, next_slot, consume_front, fill_slot,
  drop_oldest, write_tail, incoming_data, sum_lengths, get_pending_data_size,
}

abbrev pub shown : ReceivedPacket → Datagram
shown p = (p.from, take p.len p.payload)

abbrev pub window_of : ProxySocket → List ReceivedPacket
window_of s = window empty_packet max_queue_size s.rx_ring s.rx_head s.rx_count

abbrev pub pending : ProxySocket → List Datagram
pending s = map shown (window_of s)

abbrev pub SlotIsValid : ReceivedPacket → Type 0
SlotIsValid p = (length p.payload ≡ max_payload) × (p.len ≤ max_payload)

-- The indices of the ring fit together, every slot has its length, and the event is signalled as long
-- as a packet waits.
pub record IsValid (s : ProxySocket) : Type 0 where
  pub ring_length : length s.rx_ring ≡ max_queue_size
  pub head_lt : s.rx_head < max_queue_size
  pub count_le : s.rx_count ≤ max_queue_size
  pub tail_eq : s.rx_tail ≡ (s.rx_head + s.rx_count) % max_queue_size
  pub slots : (i : ℕ) → SlotIsValid (get_or s.rx_ring i empty_packet)
  pub signalled : 0 < s.rx_count → s.receive_event ≡ true

pub length-pending : (s : ProxySocket) → length (pending s) ≡ s.rx_count
length-pending s =
    length-map shown (window_of s)
    ∙ length-window empty_packet max_queue_size s.rx_ring s.rx_head s.rx_count

-- The packet that `incoming_data` writes.
fill_slot-IsValid :
    (slot : ReceivedPacket) (bytes : List ℕ) (len : ℕ) (from : SockAddrIn)
    → SlotIsValid slot
    → len ≤ length bytes
    → SlotIsValid (fill_slot slot (some bytes) (min len max_payload) from)
unfolding fill_slot
fill_slot-IsValid slot bytes len from (l, m) h = (
  length-write_at slot.payload 0 (take (min len max_payload) bytes)
        (omega (arith, length-take (min len max_payload) bytes))
      ∙ l,
  omega arith,
)

shown-fill_slot :
    (slot : ReceivedPacket) (bytes : List ℕ) (len : ℕ) (from : SockAddrIn)
    → len ≤ length bytes
    → shown (fill_slot slot (some bytes) (min len max_payload) from)
      ≡ (from, take (min len max_payload) bytes)
unfolding fill_slot
shown-fill_slot slot bytes len from h =
    let part = take (min len max_payload) bytes in
    ap (λ (p : List ℕ). (from, p))
      (ap (take (min len max_payload % 2 ^ 16)) (write_at-front slot.payload part)
        ∙ take-append_length (min len max_payload % 2 ^ 16) part (drop (length part) slot.payload)
            (omega (arith, length-take (min len max_payload) bytes)))

advance-IsValid : (s : ProxySocket) → IsValid s → 0 < s.rx_count → IsValid (advance s)
unfolding advance
advance-IsValid s v h = record {
  ring_length = v.ring_length;
  head_lt = omega arith;
  count_le = omega (arith, v.count_le);
  tail_eq = ground (arith, v.tail_eq, v.head_lt, v.count_le);
  slots = v.slots;
  signalled = λ g. v.signalled h;
}

clear_event-IsValid : (s : ProxySocket) → IsValid s → IsValid (clear_event s)
unfolding clear_event
clear_event-IsValid s v = elim (Bool-cases (s.rx_count == 0)) [
  | inl e ↦ rw e (record {
    ring_length = v.ring_length;
    head_lt = v.head_lt;
    count_le = v.count_le;
    tail_eq = v.tail_eq;
    slots = v.slots;
    signalled = λ g. ground arith;
  })
  | inr e ↦ rw e v
]

drop_oldest-IsValid :
    (s : ProxySocket)
    → IsValid s
    → IsValid (drop_oldest s) × ((drop_oldest s).rx_count < max_queue_size)
unfolding drop_oldest
drop_oldest-IsValid s v = elim (Bool-cases (leb max_queue_size s.rx_count)) [
  | inl full ↦
      rw full (advance-IsValid s v (ground arith), unfold advance in ground (arith, v.count_le))
  | inr room ↦ rw room (v, ground arith)
]

pending-advance : (s : ProxySocket) → pending (advance s) ≡ drop 1 (pending s)
unfolding advance
pending-advance s =
    ap (map shown) (window-next empty_packet max_queue_size s.rx_ring s.rx_head s.rx_count)
    ∙ map-drop_one (window_of s)
  where
    map-drop_one : (ps : List ReceivedPacket) → map shown (drop 1 ps) ≡ drop 1 (map shown ps)
    map-drop_one [] = refl
    map-drop_one (p ∷ ps) = refl

pending-clear_event : (s : ProxySocket) → pending (clear_event s) ≡ pending s
unfolding clear_event
pending-clear_event s = elim (Bool-cases (s.rx_count == 0)) [
  | inl e ↦ rw e refl
  | inr e ↦ rw e refl
]

pending-drop_oldest :
    (s : ProxySocket)
    → IsValid s
    → pending (drop_oldest s) ≡ drop (length (pending s) + 1 - max_queue_size) (pending s)
unfolding drop_oldest
pending-drop_oldest s v = elim (Bool-cases (leb max_queue_size s.rx_count)) [
  | inl full ↦
      let one : length (pending s) + 1 - max_queue_size ≡ 1 =
        ground (arith, length-pending s, v.count_le) in
      rw full (pending-advance s ∙ ap (λ n. drop n (pending s)) (sym one))
  | inr room ↦
      let none_lost : length (pending s) + 1 - max_queue_size ≡ 0 =
        ground (arith, length-pending s) in
      rw room (ap (λ n. drop n (pending s)) (sym none_lost))
]

slots-set :
    (ring : List ReceivedPacket) (i : ℕ) (p : ReceivedPacket)
    → ((j : ℕ) → SlotIsValid (get_or ring j empty_packet))
    → SlotIsValid p
    → (j : ℕ) → SlotIsValid (get_or (set ring i p) j empty_packet)
slots-set [] i p all ok j = all j
slots-set (q ∷ ring) zero p all ok zero = ok
slots-set (q ∷ ring) zero p all ok (suc j) = all (suc j)
slots-set (q ∷ ring) (suc i) p all ok zero = all zero
slots-set (q ∷ ring) (suc i) p all ok (suc j) = slots-set ring i p (λ k. all (suc k)) ok j

module _ (s : ProxySocket) (bytes : List ℕ) (len : ℕ) (from : SockAddrIn) (v : IsValid s)
    (h : len ≤ length bytes) where
  pending-write_tail :
      s.rx_count < max_queue_size
      → pending (write_tail s (some bytes) len from)
        ≡ pending s ++ ((from, take (min len max_payload) bytes) ∷ [])
  unfolding write_tail
  pending-write_tail room =
      let slot = get_or s.rx_ring s.rx_tail empty_packet in
      let filled = fill_slot slot (some bytes) (min len max_payload) from in
      let more : s.rx_count + 1 ≡ suc s.rx_count = omega arith in
      ap
        (λ n.
          map shown
            (window empty_packet max_queue_size (set s.rx_ring s.rx_tail filled) s.rx_head n))
        more
      ∙ ap
          (λ j. map shown (
            window empty_packet max_queue_size (set s.rx_ring j filled) s.rx_head (suc s.rx_count)))
          v.tail_eq
      ∙ ap (map shown) (
          window-push empty_packet max_queue_size s.rx_ring s.rx_head s.rx_count filled
            v.ring_length v.head_lt room)
      ∙ map-append shown (window_of s) (filled ∷ [])
      ∙ ap (λ p. pending s ++ (p ∷ [])) (shown-fill_slot slot bytes len from h)

  write_tail-IsValid : s.rx_count < max_queue_size → IsValid (write_tail s (some bytes) len from)
  unfolding write_tail
  write_tail-IsValid room =
      let slot = get_or s.rx_ring s.rx_tail empty_packet in
      let filled = fill_slot slot (some bytes) (min len max_payload) from in
      record {
        ring_length = length-set s.rx_ring s.rx_tail filled ∙ v.ring_length;
        head_lt = v.head_lt;
        count_le = omega arith;
        tail_eq = omega (arith, v.tail_eq, v.head_lt);
        slots =
            slots-set s.rx_ring s.rx_tail filled v.slots
              (fill_slot-IsValid slot bytes len from (v.slots s.rx_tail) h);
        signalled = λ g. refl;
      }

-- A datagram that arrives is pushed at the end of the queue, the oldest making room when 64 wait.
pub pending-incoming_data :
    (s : ProxySocket) (bytes : List ℕ) (len : ℕ) (from : SockAddrIn)
    → IsValid s
    → len ≤ length bytes
    → pending (incoming_data s (some bytes) len from)
      ≡ push_bounded max_queue_size (pending s) (from, take (min len max_payload) bytes)
unfolding incoming_data
pending-incoming_data s bytes len from v h =
    let (w, room) = drop_oldest-IsValid s v in
    let x : Datagram = (from, take (min len max_payload) bytes) in
    let lost = length (pending s) + 1 - max_queue_size in
    pending-write_tail (drop_oldest s) bytes len from w h room
    ∙ ap (λ q. q ++ (x ∷ [])) (pending-drop_oldest s v)
    ∙ sym (drop-append_left lost (pending s) (x ∷ []) (omega arith))

pub incoming_data-IsValid :
    (s : ProxySocket) (bytes : List ℕ) (len : ℕ) (from : SockAddrIn)
    → IsValid s
    → len ≤ length bytes
    → IsValid (incoming_data s (some bytes) len from)
unfolding incoming_data
incoming_data-IsValid s bytes len from v h =
    let (w, room) = drop_oldest-IsValid s v in
    write_tail-IsValid (drop_oldest s) bytes len from w h room

-- What taking the front of a queue gives: the datagram, cut to the buffer.
abbrev pub take_front : List Datagram → ℕ → Bool → Bool → List Datagram × Received
take_front [] len peek want_from = ([], error again)
take_front ((from, bytes) ∷ q) len peek want_from = (
  if peek then (from, bytes) ∷ q else q,
  got (min len (length bytes)) (take len bytes) (if want_from then some from else none),
)

take-take-min : (m n : ℕ) (xs : List ℕ) → take (min m n) xs ≡ take m (take n xs)
take-take-min zero n xs = let e : min zero n ≡ 0 = omega arith in ap (λ k. take k xs) e
take-take-min (suc m) zero xs =
    let e : min (suc m) zero ≡ 0 = omega arith in ap (λ k. take k xs) e ∙ sym (take-nil (suc m))
take-take-min (suc m) (suc n) [] = take-nil (min (suc m) (suc n))
take-take-min (suc m) (suc n) (x ∷ xs) =
    let e : min (suc m) (suc n) ≡ suc (min m n) = omega arith in
    ap (λ k. take k (x ∷ xs)) e ∙ ap (◌∷◌ x) (take-take-min m n xs)

pending-front :
    (s : ProxySocket)
    → 0 < s.rx_count
    → pending s ≡ shown (get_or s.rx_ring s.rx_head empty_packet) ∷ pending (advance s)
unfolding advance
pending-front s h =
    let e : s.rx_count ≡ suc (s.rx_count - 1) = omega arith in
    ap (λ n. map shown (window empty_packet max_queue_size s.rx_ring s.rx_head n)) e

-- What `consume_front` returns of a slot is what `take_front` returns of its datagram.
got-shown :
    (slot : ReceivedPacket) (len : ℕ) (a : Option SockAddrIn)
    → SlotIsValid slot
    → got (min len slot.len) (take (min len slot.len) slot.payload) a
      ≡ got
          (min len (length (take slot.len slot.payload)))
          (take len (take slot.len slot.payload))
          a
got-shown slot len a (l, m) =
    let e : length (take slot.len slot.payload) ≡ slot.len =
      omega (arith, length-take slot.len slot.payload) in
    rw e (ap (λ bytes. got (min len slot.len) bytes a) (take-take-min len slot.len slot.payload))

-- `consume_front` on a queue that is not empty takes its front, unless it peeks, and keeps the ring
-- valid.
pub consume_front_lem :
    (s : ProxySocket) (len : ℕ) (peek want_from : Bool)
    → IsValid s
    → 0 < s.rx_count
    → let (s', r) = consume_front s len peek want_from in
      IsValid s' × ((pending s', r) ≡ take_front (pending s) len peek want_from)
unfolding consume_front
consume_front_lem s len true want_from v h =
    let slot = get_or s.rx_ring s.rx_head empty_packet in
    (
      clear_event-IsValid s v,
      ap₂ (λ q r. (q, r)) (pending-clear_event s ∙ pending-front s h)
            (got-shown slot len (if want_from then some slot.from else none) (v.slots s.rx_head))
          ∙ ap (λ q. take_front q len true want_from) (sym (pending-front s h)),
    )
consume_front_lem s len false want_from v h =
    let slot = get_or s.rx_ring s.rx_head empty_packet in
    (
      clear_event-IsValid (advance s) (advance-IsValid s v h),
      ap₂ (λ q r. (q, r)) (pending-clear_event (advance s))
            (got-shown slot len (if want_from then some slot.from else none) (v.slots s.rx_head))
          ∙ ap (λ q. take_front q len false want_from) (sym (pending-front s h)),
    )

-- `GetPendingDataSize` is the number of bytes that wait.
abbrev pub total : List Datagram → ℕ
total [] = 0
total ((from, bytes) ∷ q) = length bytes + total q

sum_lengths-total :
    (ring : List ReceivedPacket) (idx count : ℕ)
    → ((i : ℕ) → SlotIsValid (get_or ring i empty_packet))
    → sum_lengths ring idx count
      ≡ total (map shown (window empty_packet max_queue_size ring idx count))
unfolding sum_lengths
sum_lengths-total ring idx zero all = refl
sum_lengths-total ring idx (suc count) all =
    let slot = get_or ring idx empty_packet in
    let (l, m) = all idx in
    omega
      (arith, sum_lengths-total ring (next_slot idx) count all, length-take slot.len slot.payload)

-- `GetPendingDataSize` is the number of bytes in the queue.
pub get_pending_data_size_lem :
    (s : ProxySocket) → IsValid s → get_pending_data_size s ≡ total (pending s)
unfolding get_pending_data_size
get_pending_data_size_lem s v = sum_lengths-total s.rx_ring s.rx_head s.rx_count v.slots
