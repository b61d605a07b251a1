-- ===== src/Network/SendQueue/Interleaving.antt =====
-- Another send function runs while the thread has a packet partly sent.
use ryu_ldn_nx.Prelude.{
  ℕ, ◌+◌, ◌-◌, ◌≤◌, ◌<◌, ◌≡◌, refl, sym, ap, ◌∙◌, subst, true, false, List, [], ◌∷◌, ◌++◌, arith,
  ltb, leb, append_assoc, length, length-drop, take, drop, take-all,
}
use ryu_ldn_nx.Network.SendQueue.{
  QueuedPacket, idle, holding, finished, Sender, SendResult, took, steps, direct, pick, transmit,
  transmitted, advance, advance_in, after, after_all,
}
use ryu_ldn_nx.Network.SendQueue.HeadDrop.{pick_from-held, advance-pick}

-- The rest of a packet goes out in one piece.
transmit-rest :
    (t : Sender) (copy : List ℕ) (n : ℕ)
    → t.send_offset ≤ length copy
    → length copy - t.send_offset ≤ n
    → ((transmit t copy (took n)).wire ≡ t.wire ++ drop t.send_offset copy)
      × ((transmit t copy (took n)).phase ≡ finished)
unfolding transmit transmitted
transmit-rest t copy n h enough =
    let inside : ltb (length copy) t.send_offset ≡ false = ground arith in
    let all : take n (drop t.send_offset copy) ≡ drop t.send_offset copy =
      take-all n (drop t.send_offset copy) (omega (arith, length-drop t.send_offset copy)) in
    let done : leb (length copy) (t.send_offset + length (drop t.send_offset copy)) ≡ true =
      ground (arith, length-drop t.send_offset copy) in
    rw (inside, all, done, transmit, transmitted) (refl, refl)

-- The socket has the first part of the front packet, behind other bytes, and the thread is about to go on
-- with that packet. Another function then sends `other`, and the thread sends the rest in one piece
-- and takes the packet for sent: `other` stands inside the packet.
after_all-interleaved :
    (s : Sender) (p : QueuedPacket) (ps : List QueuedPacket) (before other : List ℕ) (now_ms n : ℕ)
    (r : SendResult)
    → s.phase ≡ idle
    → 0 < s.send_offset
    → s.send_offset ≤ length p.bytes
    → s.queue.packets ≡ p ∷ ps
    → s.wire ≡ before ++ take s.send_offset p.bytes
    → length p.bytes - s.send_offset ≤ n
    → let t = after_all s (direct other ∷ steps now_ms r ∷ steps now_ms (took n) ∷ []) in
      (t.wire ≡ before ++ (take s.send_offset p.bytes ++ (other ++ drop s.send_offset p.bytes)))
      × (t.phase ≡ finished)
unfolding after_all after advance advance_in pick
after_all-interleaved s p ps before other now_ms n r i partly h e w enough =
    let u : Sender = record s { wire = s.wire ++ other } in
    let first = take s.send_offset p.bytes in
    let held : after u (steps now_ms r) ≡ record u { phase = holding p.bytes } =
      advance-pick u now_ms r i ∙ pick_from-held u u.queue.packets p ps now_ms e partly in
    let (sent, over) = transmit-rest (record u { phase = holding p.bytes }) p.bytes n h enough in
    subst
      (λ v.
        ((after v (steps now_ms (took n))).wire
          ≡ before ++ (first ++ (other ++ drop s.send_offset p.bytes)))
        × ((after v (steps now_ms (took n))).phase ≡ finished))
      (sym held)
      (
        sent
            ∙ ap (λ l. (l ++ other) ++ drop s.send_offset p.bytes) w
            ∙ append_assoc (before ++ first) other (drop s.send_offset p.bytes)
            ∙ append_assoc before first (other ++ drop s.send_offset p.bytes),
        over,
      )
