-- ===== src/Network/SendQueue/HeadDrop.antt =====
-- What happens when a push drops the packet that is partly sent.
use ryu_ldn_nx.Prelude.{
  ℕ, ◌+◌, ◌-◌, ◌≤◌, ◌<◌, ◌≡◌, refl, ◌⊎◌, sym, ap, ◌∙◌, subst, inl, inr, true, false, List, [], ◌∷◌,
  ◌++◌, arith, ltb, ◌==◌, Bool-cases, length, take, drop,
}
use ryu_ldn_nx.Network.SendQueue.{
  QueuedPacket, SendQueue, Phase, idle, holding, overrun, Sender, SendResult, took, pushed, steps,
  max_send_queue_size, make_room, enqueue, pick, pick_from, transmit, transmitted, advance,
  advance_in, after, after_all,
}
use ryu_ldn_nx.Network.SendQueue.Bounds.{IsCounted, total, less_lem}

dropped_front :
    (p q : QueuedPacket) (ps : List QueuedPacket) (size incoming : ℕ)
    → length p.bytes ≤ size
    → size ≤ max_send_queue_size
    → max_send_queue_size < size + incoming
    → size - length p.bytes + incoming ≤ max_send_queue_size
    → (make_room (p ∷ q ∷ ps) size incoming).packets ≡ q ∷ ps
unfolding make_room
dropped_front p q ps size incoming h l over fits =
    let e = less_lem size (length p.bytes) h (omega arith) in
    let full : ltb max_send_queue_size (size + incoming) ≡ true = ground arith in
    let room : ltb max_send_queue_size (size - length p.bytes + incoming) ≡ false = ground arith in
    rw (full, e, room) refl

enqueue-dropped_front :
    (queue : SendQueue) (p q : QueuedPacket) (ps : List QueuedPacket) (packet : List ℕ) (now_ms : ℕ)
    → queue.packets ≡ p ∷ q ∷ ps
    → IsCounted queue
    → max_send_queue_size < queue.size + length packet
    → queue.size - length p.bytes + length packet ≤ max_send_queue_size
    → (enqueue queue now_ms packet).packets
      ≡ q ∷ (ps ++ (record { timestamp_ms = now_ms; bytes = packet } ∷ []))
unfolding enqueue
enqueue-dropped_front queue p q ps packet now_ms e (counted, small) over fits =
    let new : QueuedPacket = record { timestamp_ms = now_ms; bytes = packet } in
    ap (λ l. (make_room l queue.size (length packet)).packets ++ (new ∷ [])) e
    ∙ ap (λ l. l ++ (new ∷ []))
        (dropped_front p q ps queue.size (length packet) (omega (arith, ap total e)) small over
          fits)

-- A thread with a packet partly sent copies whatever is at the front, whatever its age.
pub pick_from-held :
    (t : Sender) (l : List QueuedPacket) (q : QueuedPacket) (rest : List QueuedPacket) (later : ℕ)
    → l ≡ q ∷ rest
    → 0 < t.send_offset
    → pick_from t l later ≡ record t { phase = holding q.bytes }
unfolding pick_from
pick_from-held t l q rest later e h =
    let partly : (t.send_offset == 0) ≡ false = ground arith in rw (e, partly) refl

-- What the socket gets from a copy at an offset.
abbrev pub Resumed : ℕ → List ℕ → List ℕ → ℕ → Phase → List ℕ → Type 0
Resumed offset copy wire n phase wire' =
    ((length copy < offset) × (phase ≡ overrun))
    ⊎ ((offset ≤ length copy) × (wire' ≡ wire ++ take n (drop offset copy)))

transmit-Resumed :
    (t : Sender) (copy : List ℕ) (n : ℕ)
    → let t' = transmit t copy (took n) in Resumed t.send_offset copy t.wire n t'.phase t'.wire
unfolding transmit transmitted
transmit-Resumed t copy n = elim (Bool-cases (ltb (length copy) t.send_offset)) [
  | inl over ↦ inl (ground arith, rw (over, transmit, transmitted) refl)
  | inr inside ↦ inr (ground arith, rw (inside, transmit, transmitted) refl)
]

pub advance-pick :
    (t : Sender) (later : ℕ) (r : SendResult) → t.phase ≡ idle → advance t later r ≡ pick t later
unfolding advance advance_in
advance-pick t later r i = ap (λ x. advance_in x t later r) i

-- A packet is partly sent and the thread is about to go on with it, in a queue whose counted size is right
-- and within its bound; a push then needs the room of that packet and of no other. The thread goes on
-- with the packet behind it at the old offset: the socket gets that packet without its first bytes, or,
-- when it is shorter than the offset, the thread reads past its end.
pub after_all-head_drop :
    (s : Sender) (p q : QueuedPacket) (ps : List QueuedPacket) (packet : List ℕ)
    (now_ms later n : ℕ) (r : SendResult)
    → s.phase ≡ idle
    → 0 < s.send_offset
    → s.queue.packets ≡ p ∷ q ∷ ps
    → IsCounted s.queue
    → max_send_queue_size < s.queue.size + length packet
    → s.queue.size - length p.bytes + length packet ≤ max_send_queue_size
    → let t = after_all s (pushed now_ms packet ∷ steps later r ∷ steps later (took n) ∷ []) in
      Resumed s.send_offset q.bytes s.wire n t.phase t.wire
unfolding after_all after advance advance_in pick
after_all-head_drop s p q ps packet now_ms later n r i h e counted over fits =
    let t : Sender = record s { queue = enqueue s.queue now_ms packet } in
    let e' = enqueue-dropped_front s.queue p q ps packet now_ms e counted over fits in
    let new : QueuedPacket = record { timestamp_ms = now_ms; bytes = packet } in
    let held : after t (steps later r) ≡ record t { phase = holding q.bytes } =
      advance-pick t later r i ∙ pick_from-held t t.queue.packets q (ps ++ (new ∷ [])) later e' h in
    subst
      (λ u.
        Resumed s.send_offset q.bytes s.wire n (after u (steps later (took n))).phase
          (after u (steps later (took n))).wire)
      (sym held) (transmit-Resumed (record t { phase = holding q.bytes }) q.bytes n)
