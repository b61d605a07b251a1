-- ===== src/Network/SendQueue/Bounds.antt =====
-- The size that the queue counts, its bound, and what makes room for a packet.
use ryu_ldn_nx.Prelude.{
  ℕ, ◌+◌, ◌-◌, ◌^◌, ◌≤◌, ◌<◌, ◌≡◌, ◌⊎◌, refl, ap, inl, inr, List, [], ◌∷◌, ◌++◌, arith, ltb,
  Bool-cases, length,
}
use ryu_ldn_nx.Network.SendQueue.{
  QueuedPacket, SendQueue, max_send_queue_size, send_buffer_size, less, make_room, enqueue,
  pop_from, pop_front,
}

abbrev pub total : List QueuedPacket → ℕ
total [] = 0
total (p ∷ ps) = length p.bytes + total ps

-- The size is the sum of the packets' sizes, and within the bound.
abbrev pub IsCounted : SendQueue → Type 0
IsCounted q = (q.size ≡ total q.packets) × (q.size ≤ max_send_queue_size)

pub less_lem : (a b : ℕ) → b ≤ a → a < 2 ^ 64 → less a b ≡ a - b
unfolding less
less_lem a b h l = omega arith

total-append : (ps qs : List QueuedPacket) → total (ps ++ qs) ≡ total ps + total qs
total-append [] qs = omega arith
total-append (p ∷ ps) qs = omega (arith, total-append ps qs)

-- What was dropped is no more than needed: with its last packet the rest would not have fitted.
abbrev pub IsNeeded : List QueuedPacket → List QueuedPacket → ℕ → Type 0
IsNeeded dropped kept incoming =
    (dropped ≡ [])
    ⊎ ((front : List QueuedPacket) × (p : QueuedPacket) × (dropped ≡ front ++ (p ∷ []))
        × (max_send_queue_size < total (p ∷ kept) + incoming))

-- The split of a list that `make_room` makes.
abbrev Split : List QueuedPacket → SendQueue → ℕ → Type 0
Split ps r incoming =
    (dropped : List QueuedPacket) × (ps ≡ dropped ++ r.packets)
    × (r.size ≡ total r.packets)
    × ((r.packets ≡ []) ⊎ (r.size + incoming ≤ max_send_queue_size))
    × IsNeeded dropped r.packets incoming

drop_one :
    (p : QueuedPacket) (ps : List QueuedPacket) (r : SendQueue) (incoming : ℕ)
    → max_send_queue_size < total (p ∷ ps) + incoming
    → Split ps r incoming
    → Split (p ∷ ps) r incoming
drop_one p ps r incoming over (dropped, whole, counted, fits, inl none_dropped) = (
  p ∷ dropped,
  ap (◌∷◌ p) whole,
  counted,
  fits,
  inr (
    [],
    p,
    ap (◌∷◌ p) none_dropped,
    omega (arith, ap total whole, ap (λ d. total (d ++ r.packets)) none_dropped),
  ),
)
drop_one p ps r incoming over (dropped, whole, counted, fits, inr (front, d, e, more)) =
    (p ∷ dropped, ap (◌∷◌ p) whole, counted, fits, inr (p ∷ front, d, ap (◌∷◌ p) e, more))

make_room_lem :
    (ps : List QueuedPacket) (size incoming : ℕ)
    → size ≡ total ps
    → size < 2 ^ 64
    → Split ps (make_room ps size incoming) incoming
unfolding make_room
make_room_lem [] size incoming e l = ([], refl, e, inl refl, inl refl)
make_room_lem (p ∷ ps) size incoming e l =
    elim (Bool-cases (ltb max_send_queue_size (size + incoming))) [
      | inl over ↦
          let e' = less_lem size (length p.bytes) (omega arith) l in
          rw over (
            drop_one p ps (make_room ps (less size (length p.bytes)) incoming) incoming
              (ground arith)
              (make_room_lem ps (less size (length p.bytes)) incoming (omega arith) (omega arith)))
      | inr fits ↦ rw fits ([], refl, e, inr (ground arith), inl refl)
    ]

-- A push drops packets from the head, no more than needed, and adds the new one at the end; for a packet
-- that the send buffer holds, the counted size stays the sum of the sizes and within its bound.
pub enqueue_lem :
    (q : SendQueue) (now_ms : ℕ) (packet : List ℕ)
    → IsCounted q
    → length packet ≤ send_buffer_size
    → let q' = enqueue q now_ms packet in
      IsCounted q'
      × (dropped : List QueuedPacket) × (kept : List QueuedPacket) × (q.packets ≡ dropped ++ kept)
      × (q'.packets ≡ kept ++ (record { timestamp_ms = now_ms; bytes = packet } ∷ []))
      × IsNeeded dropped kept (length packet)
unfolding enqueue
enqueue_lem q now_ms packet (counted, small) h =
    let r = make_room q.packets q.size (length packet) in
    let (dropped, whole, counted', fits, needed) =
      make_room_lem q.packets q.size (length packet) counted (omega arith) in
    (
      (
        omega
            (arith, total-append r.packets (record { timestamp_ms = now_ms; bytes = packet } ∷ [])),
        elim fits [ inl e ↦ omega (arith, ap total e) | inr f ↦ f ],
      ),
      dropped,
      r.packets,
      whole,
      refl,
      needed,
    )

pop_from-IsCounted :
    (ps : List QueuedPacket) (size : ℕ)
    → size ≡ total ps
    → size ≤ max_send_queue_size
    → IsCounted (pop_from ps size)
unfolding pop_from
pop_from-IsCounted [] size e l = (e, l)
pop_from-IsCounted (p ∷ ps) size e l =
    let taken = less_lem size (length p.bytes) (omega arith) (omega arith) in
    (omega arith, omega arith)

-- Taking the front off keeps the count.
pub pop_front-IsCounted : (q : SendQueue) → IsCounted q → IsCounted (pop_front q)
unfolding pop_front
pop_front-IsCounted q (e, l) = pop_from-IsCounted q.packets q.size e l
