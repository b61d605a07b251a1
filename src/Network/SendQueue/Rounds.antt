-- ===== src/Network/SendQueue/Rounds.antt =====
-- What three steps of the send thread do with the front packet.
use ryu_ldn_nx.Prelude.{
  ℕ, ◌+◌, ◌≤◌, ◌≡◌, refl, inl, inr, true, false, if◌then◌else◌, length-drop, ◌&&◌, List, [], ◌∷◌,
  ◌++◌, arith, ltb, leb, ◌==◌, Bool-cases, length, take, drop, take-all,
}
use ryu_ldn_nx.Network.SendQueue.{
  QueuedPacket, Phase, idle, holding, finished, stopped, overrun, Sender, took, would_block, steps,
  max_queued_packet_age_ms, is_stale, pop_from, pop_front, pick, pick_from, transmitted, transmit,
  finish, advance, advance_in, after, after_all,
}
use ryu_ldn_nx.Network.SendQueue.Sent.{Sent}

-- A round of the thread that is about to look at the front packet, when that is at most 2000 ms old and
-- the socket takes what it is given: it gets the rest of the packet, and the packet leaves the queue.
abbrev pub Round : Phase → List QueuedPacket → ℕ → Sender → Type 0
Round idle (p ∷ ps) now s =
    let t =
      after_all s
        (steps now would_block ∷ steps now (took (length p.bytes)) ∷ steps now would_block ∷ []) in
    if leb now (p.timestamp_ms + max_queued_packet_age_ms)
    then (t.phase ≡ idle) × (t.queue.packets ≡ ps) × (t.wire ≡ s.wire ++ drop s.send_offset p.bytes)
    else Unit {0}
Round _ _ now s = Unit {0}

take-drop_all : (n : ℕ) (xs : List ℕ) → take (length xs) (drop n xs) ≡ drop n xs
take-drop_all n xs = take-all (length xs) (drop n xs) (omega (arith, length-drop n xs))

round :
    (p : QueuedPacket) (ps : List QueuedPacket) (now size offset : ℕ) (wire : List ℕ)
    → offset ≤ length p.bytes
    → Round idle (p ∷ ps) now (record {
      queue = record { packets = p ∷ ps; size = size };
      send_offset = offset;
      phase = idle;
      wire = wire;
    })
unfolding after_all after advance advance_in pick pick_from transmit transmitted finish pop_front
    pop_from
round p ps now size offset wire fits =
    elim (Bool-cases (leb now (p.timestamp_ms + max_queued_packet_age_ms))) [
      | inl fresh ↦
          let kept : ((offset == 0) && is_stale now p) ≡ false = ground arith in
          let inside : ltb (length p.bytes) offset ≡ false = ground arith in
          let whole : leb (length p.bytes) (offset + length (drop offset p.bytes)) ≡ true =
            ground (arith, length-drop offset p.bytes) in
          rw (fresh, kept) (rw (inside, take-drop_all offset p.bytes, whole) (refl, refl, refl))
      | inr old ↦ rw old tt
    ]

pub Sent-Round :
    (Stale : QueuedPacket → Type 0) (all : List QueuedPacket) (phase : Phase)
    (ps : List QueuedPacket) (now size offset : ℕ) (wire : List ℕ)
    → Sent Stale all phase offset ps wire
    → Round phase ps now (record {
      queue = record { packets = ps; size = size };
      send_offset = offset;
      phase = phase;
      wire = wire;
    })
Sent-Round Stale all idle (p ∷ ps) now size offset wire (_, _, _, _, _, fits) =
    round p ps now size offset wire fits
Sent-Round Stale all idle [] now size offset wire h = tt
Sent-Round Stale all (holding copy) ps now size offset wire h = tt
Sent-Round Stale all finished ps now size offset wire h = tt
Sent-Round Stale all stopped ps now size offset wire h = tt
Sent-Round Stale all overrun ps now size offset wire h = tt
