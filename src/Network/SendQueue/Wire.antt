-- ===== src/Network/SendQueue/Wire.antt =====
-- What the socket gets while no push has to drop a packet.
use ryu_ldn_nx.Prelude.{
  ℕ, ◌+◌, ◌≤◌, ◌≡◌, refl, sym, ap, ◌∙◌, subst, inl, inr, false, ◌&&◌, List, [], ◌∷◌, ◌++◌,
  append_assoc, append-nil, arith, ltb, leb, ◌==◌, Bool-cases, length, take, drop, take-all, concat,
  ◌⊎◌, ◌<◌,
}
use ryu_ldn_nx.Network.SendQueue.{
  QueuedPacket, SendQueue, Phase, idle, holding, finished, stopped, overrun, Sender, SendResult,
  took, would_block, broken, Event, pushed, steps, direct, max_send_queue_size,
  max_queued_packet_age_ms, is_stale, make_room, enqueue, pop_from, pop_front, pick, pick_from,
  transmitted, transmit, finish, advance, advance_in, after, after_all, idle_sender, new,
}
use ryu_ldn_nx.Network.SendQueue.Rounds.{Round, Sent-Round}
use ryu_ldn_nx.Network.SendQueue.Sent.{
  contents, nil, Sent, Sent-push, Sent-drop, Sent-finish, take-more,
}

-- Whether a packet is older than the limit at one of some times.
abbrev pub Among : ℕ → List ℕ → Type 0
Among n [] = ⊥
Among n (m ∷ ms) = (n ≡ m) ⊎ Among n ms

abbrev pub StaleAt : List ℕ → QueuedPacket → Type 0
StaleAt clocks p = (now : ℕ) × Among now clocks × (p.timestamp_ms + max_queued_packet_age_ms < now)

pop_from-packets :
    (ps : List QueuedPacket) (p : QueuedPacket) (qs : List QueuedPacket) (size : ℕ)
    → ps ≡ p ∷ qs
    → (pop_from ps size).packets ≡ qs
unfolding pop_from
pop_from-packets ps p qs size e = ap (λ l. (pop_from l size).packets) e

-- A step of the thread, on the parts of its state.
module _ (Stale : QueuedPacket → Type 0) where
  abbrev Holds : List QueuedPacket → Sender → Type 0
  Holds all s = Sent Stale all s.phase s.send_offset s.queue.packets s.wire

  Sent-transmitted :
      (all : List QueuedPacket) (offset : ℕ) (wire copy : List ℕ) (q : List QueuedPacket)
      (r : SendResult)
      → Sent Stale all (holding copy) offset q wire
      → let (phase', (offset', wire')) = transmitted offset wire copy r in
        Sent Stale all phase' offset' q wire'
  unfolding transmitted
  Sent-transmitted all offset wire copy [] r (gone, done, split, sub, got, fits) = absurd fits
  Sent-transmitted all offset wire copy (p ∷ q) (took n) (gone, done, split, sub, got, (same, h)) =
      let f = p.bytes in
      let sent = concat (contents done) in
      let given = take n (drop offset f) in
      let inside : ltb (length f) offset ≡ false = ground arith in
      let more =
        ap (λ w. w ++ given) got
        ∙ append_assoc sent (take offset f) given
        ∙ ap (◌++◌ sent) (take-more n offset f h) in
      rw (same, inside)
        (elim (Bool-cases (leb (length f) (offset + length given))) [
          | inl e ↦ rw e (
            gone,
            done,
            split,
            sub,
            more ∙ ap (◌++◌ sent) (take-all (offset + length given) f (ground arith)),
            tt,
          )
          | inr e ↦ rw e (gone, done, split, sub, more, ground arith)
        ])
  Sent-transmitted all offset wire copy (p ∷ q) would_block
        (gone, done, split, sub, got, (same, h)) =
      let inside : ltb (length p.bytes) offset ≡ false = ground arith in
      rw (same, inside) (gone, done, split, sub, got, h)
  Sent-transmitted all offset wire copy (p ∷ q) broken (gone, done, split, sub, got, (same, h)) =
      let inside : ltb (length p.bytes) offset ≡ false = ground arith in
      rw (same, inside) (gone, done, split, sub, got, h)

  Sent-eq :
      (all : List QueuedPacket) (phase phase' : Phase) (offset offset' : ℕ)
      (q q' : List QueuedPacket) (wire : List ℕ)
      → phase' ≡ phase
      → offset' ≡ offset
      → q' ≡ q
      → Sent Stale all phase offset q wire
      → Sent Stale all phase' offset' q' wire
  Sent-eq all phase phase' offset offset' q q' wire p o e h =
      subst (λ x. Sent Stale all x offset' q' wire) (sym p)
        (subst (λ x. Sent Stale all phase x q' wire) (sym o)
          (subst (λ x. Sent Stale all phase offset x wire) (sym e) h))

  Sent-pick :
      (all : List QueuedPacket) (s : Sender) (ps : List QueuedPacket) (now_ms : ℕ)
      → ((p : QueuedPacket) → p.timestamp_ms + max_queued_packet_age_ms < now_ms → Stale p)
      → s.queue.packets ≡ ps
      → s.phase ≡ idle
      → Sent Stale all idle s.send_offset ps s.wire
      → Holds all (pick_from s ps now_ms)
  unfolding pick_from pop_front
  Sent-pick all s [] now_ms stale e i (gone, done, split, sub, got, fits) =
      Sent-eq all idle s.phase 0 0 [] s.queue.packets s.wire i refl e
        (gone, done, split, sub, got, refl)
  Sent-pick all s (p ∷ ps) now_ms stale e i h =
      elim (Bool-cases ((s.send_offset == 0) && is_stale now_ms p)) [
        | inl old ↦
            let none : s.send_offset ≡ 0 = ground arith in
            let late : p.timestamp_ms + max_queued_packet_age_ms < now_ms = ground arith in
            rw old (
              Sent-eq all idle s.phase 0 s.send_offset ps (pop_front s.queue).packets s.wire i none
                (pop_from-packets s.queue.packets p ps s.queue.size e)
                (Sent-drop Stale all p ps s.wire (stale p late) (
                  Sent-eq all idle idle s.send_offset 0 (p ∷ ps) (p ∷ ps) s.wire refl (sym none)
                    refl h)))
        | inr fresh ↦
            let (gone, done, split, sub, got, fits) = h in
            rw fresh (
              Sent-eq all (holding p.bytes) (holding p.bytes) s.send_offset s.send_offset (p ∷ ps)
                s.queue.packets s.wire refl refl e (gone, done, split, sub, got, (refl, fits)))
      ]

  Sent-take_off :
      (all : List QueuedPacket) (s : Sender) (ps : List QueuedPacket)
      → s.queue.packets ≡ ps
      → Sent Stale all finished s.send_offset ps s.wire
      → Holds all (finish s)
  unfolding finish pop_front
  Sent-take_off all s [] e (gone, done, split, sub, got, fits) = absurd fits
  Sent-take_off all s (p ∷ ps) e h =
      Sent-eq all idle idle 0 0 ps (pop_front s.queue).packets s.wire refl refl
        (pop_from-packets s.queue.packets p ps s.queue.size e)
        (Sent-finish Stale all s.send_offset p ps s.wire h)

  Sent-advance :
      (all : List QueuedPacket) (s : Sender) (phase : Phase) (now_ms : ℕ) (r : SendResult)
      → ((p : QueuedPacket) → p.timestamp_ms + max_queued_packet_age_ms < now_ms → Stale p)
      → s.phase ≡ phase
      → Sent Stale all phase s.send_offset s.queue.packets s.wire
      → Holds all (advance_in phase s now_ms r)
  unfolding advance_in pick transmit
  Sent-advance all s idle now_ms r stale i h = Sent-pick all s s.queue.packets now_ms stale refl i h
  Sent-advance all s (holding copy) now_ms r stale i h =
      Sent-transmitted all s.send_offset s.wire copy s.queue.packets r h
  Sent-advance all s finished now_ms r stale i h = Sent-take_off all s s.queue.packets refl h
  Sent-advance all s stopped now_ms r stale i h =
      Sent-eq all stopped s.phase s.send_offset s.send_offset s.queue.packets s.queue.packets s.wire
        i refl refl h
  Sent-advance all s overrun now_ms r stale i (gone, done, split, sub, got, fits) = absurd fits

-- The packets that a run pushes, with the time of each, the times of the thread's steps, and whether each
-- packet finds room and nothing else is sent.
abbrev pub pushes : List Event → List QueuedPacket
pushes [] = []
pushes (pushed now_ms packet ∷ es) = record { timestamp_ms = now_ms; bytes = packet } ∷ pushes es
pushes (steps now_ms r ∷ es) = pushes es
pushes (direct bytes ∷ es) = pushes es

abbrev pub clocks : List Event → List ℕ
clocks [] = []
clocks (pushed now_ms packet ∷ es) = clocks es
clocks (steps now_ms r ∷ es) = now_ms ∷ clocks es
clocks (direct bytes ∷ es) = clocks es

abbrev pub HasRoom : Sender → List Event → Type 0
HasRoom s [] = Unit {0}
HasRoom s (pushed now_ms packet ∷ es) =
    (s.queue.size + length packet ≤ max_send_queue_size)
    × HasRoom (after s (pushed now_ms packet)) es
HasRoom s (steps now_ms r ∷ es) = HasRoom (after s (steps now_ms r)) es
HasRoom s (direct bytes ∷ es) = ⊥

make_room-none :
    (ps : List QueuedPacket) (size incoming : ℕ)
    → size + incoming ≤ max_send_queue_size
    → (make_room ps size incoming).packets ≡ ps
unfolding make_room
make_room-none [] size incoming h = refl
make_room-none (p ∷ ps) size incoming h =
    let fits : ltb max_send_queue_size (size + incoming) ≡ false = ground arith in rw fits refl

packets-enqueue :
    (q : SendQueue) (now_ms : ℕ) (packet : List ℕ)
    → q.size + length packet ≤ max_send_queue_size
    → let p : QueuedPacket = record { timestamp_ms = now_ms; bytes = packet } in
      (enqueue q now_ms packet).packets ≡ q.packets ++ (p ∷ [])
unfolding enqueue
packets-enqueue q now_ms packet h =
    let p : QueuedPacket = record { timestamp_ms = now_ms; bytes = packet } in
    ap (λ ps. ps ++ (p ∷ [])) (make_room-none q.packets q.size (length packet) h)

Sent-after_all :
    (Stale : QueuedPacket → Type 0) (all : List QueuedPacket) (s : Sender) (es : List Event)
    → ((p : QueuedPacket) → StaleAt (clocks es) p → Stale p)
    → HasRoom s es
    → Holds Stale all s
    → Holds Stale (all ++ pushes es) (after_all s es)
unfolding after_all after advance
Sent-after_all Stale all s [] stale room h =
    subst (λ a. Sent Stale a s.phase s.send_offset s.queue.packets s.wire) (sym (append-nil all)) h
Sent-after_all Stale all s (pushed now_ms packet ∷ es) stale (fits, room) h =
    let p : QueuedPacket = record { timestamp_ms = now_ms; bytes = packet } in
    let s' : Sender = record s { queue = enqueue s.queue now_ms packet } in
    let grown = Sent-push Stale all s.phase s.send_offset s.queue.packets s.wire p h in
    let h' =
      Sent-eq Stale (all ++ (p ∷ [])) s.phase s.phase s.send_offset s.send_offset
        (s.queue.packets ++ (p ∷ [])) (enqueue s.queue now_ms packet).packets s.wire refl refl
        (packets-enqueue s.queue now_ms packet fits) grown in
    subst (λ a. Holds Stale a (after_all s' es)) (append_assoc all (p ∷ []) (pushes es))
      (Sent-after_all Stale (all ++ (p ∷ [])) s' es stale room h')
Sent-after_all Stale all s (steps now_ms r ∷ es) stale room h =
    Sent-after_all Stale all (advance s now_ms r) es
      (λ p (now, among, late). stale p (now, inr among, late)) room
      (Sent-advance Stale all s s.phase now_ms r (λ p late. stale p (now_ms, inl refl, late)) refl
        h)
Sent-after_all Stale all s (direct bytes ∷ es) stale room h = absurd room

-- Over any run that begins with an empty queue, in which every push finds room and no other function
-- sends: the packets pushed are those that have left the queue and those in it, in order; the socket has
-- got those that left, whole and in their order, and then the first part of the front packet. Any that
-- left and that the socket has not got was more than 2000 ms old at one of the thread's steps. The thread
-- never reads past the end of its copy. And when it is about to look at a queue whose front packet is at
-- most 2000 ms old, three more steps, in which the socket takes what it is given, send the rest of that
-- packet and take it off the queue.
pub after_all-Sent :
    (es : List Event) (now : ℕ)
    → HasRoom idle_sender es
    → let s = after_all idle_sender es in
      Sent (StaleAt (clocks es)) (pushes es) s.phase s.send_offset s.queue.packets s.wire
      × Round s.phase s.queue.packets now s
after_all-Sent es now room =
    let s = after_all idle_sender es in
    let sent =
      Sent-after_all (StaleAt (clocks es)) [] idle_sender es (λ p old. old) room
        (unfold idle_sender new in ([], [], refl, nil, refl, refl)) in
    (
      sent,
      Sent-Round (StaleAt (clocks es)) (pushes es) s.phase s.queue.packets now s.queue.size
          s.send_offset s.wire sent,
    )
