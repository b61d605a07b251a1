-- ===== src/P2p/ReceiveLoop/Passes.antt =====
-- One pass over the packet buffer, against the stream that is still to come.
use ryu_ldn_nx.Prelude.{
  ℕ, zero, suc, ◌+◌, ◌≤◌, ◌<◌, ◌≡◌, refl, ap, ◌∙◌, inl, inr, Bool, true, List, [], ◌∷◌, ◌++◌, map,
  arith, length, concat, drop, length-append, append-split, length-drop, Bool-cases, ltb, ltb→lt,
}
use ryu_ldn_nx.Protocol.Header.{PacketId, header_size, max_packet_size}
use ryu_ldn_nx.Protocol.Codec.RoundTrip.{packet}
use ryu_ldn_nx.Protocol.PacketBuffer.{
  no_complete_packet, PacketBuffer, peek_packet_info, consume, new,
}
use ryu_ldn_nx.Protocol.PacketBuffer.Contents.{contents, IsValid, length-contents}
use ryu_ldn_nx.Protocol.PacketBuffer.Extraction.{
  length-packet, peek_packet_info-packet, Front, packet-Front,
}
use ryu_ldn_nx.P2p.ReceiveLoop.{Progress, process_packets}

-- A packet that was sent: its type and its payload.
abbrev pub Message : Type 0
Message = PacketId × List ℕ

abbrev pub wire : Message → List ℕ
wire m = packet m.0 m.1

-- Every message is within the protocol's limit, and its packet has at most `bound` bytes.
abbrev pub Small : ℕ → List Message → Type 0
Small bound [] = Unit
Small bound (m ∷ ms) =
    (length m.1 ≤ max_packet_size) × (header_size + length m.1 ≤ bound) × Small bound ms

-- Every chunk fits into a buffer of `size` bytes beside `bound` others.
abbrev pub Short : ℕ → ℕ → List (List ℕ) → Type 0
Short size bound [] = Unit
Short size bound (c ∷ cs) = (length c + bound ≤ size) × Short size bound cs

-- What is in the buffer is less than the first packet to come, and nothing if none is to come.
abbrev pub IsPartial : List ℕ → List Message → Type 0
IsPartial xs [] = length xs ≡ 0
IsPartial xs (m ∷ ms) = length xs < header_size + length m.1

-- After a pass over the buffer: the messages split into those handled and those to come, and what is
-- left in the buffer is a first part of what is to come.
pub record Caught (size bound : ℕ) (p : Progress) (tail : List ℕ) (ms : List Message) : Type 0 where
  pub later : List Message
  pub count : p.handled ++ map wire later ≡ map wire ms
  pub stream : contents p.buffer ++ tail ≡ concat (map wire later)
  pub small : Small bound later
  pub partial : IsPartial (contents p.buffer) later
  pub valid : IsValid size p.buffer
  pub running : p.running ≡ true

append-empty : (xs ys : List ℕ) → xs ++ ys ≡ [] → length xs ≡ 0
append-empty [] ys e = refl
append-empty (x ∷ xs) ys e = cc

peek_packet_info-empty :
    (b : PacketBuffer) → b.write_pos ≡ 0 → (peek_packet_info b).0 ≡ no_complete_packet
unfolding peek_packet_info
peek_packet_info-empty b e = ground arith

process_packets-partial :
    (k : List ℕ → Bool) (fuel : ℕ) (b : PacketBuffer)
    → (peek_packet_info b).0 ≡ no_complete_packet
    → process_packets k (suc fuel) b ≡ record { handled = []; buffer = b; running = true }
unfolding process_packets
process_packets-partial k fuel b e = ground arith

process_packets-whole :
    (k : List ℕ → Bool) (size fuel : ℕ) (b : PacketBuffer) (whole rest : List ℕ)
    → Front size b whole rest
    → k whole ≡ true
    → let p = process_packets k fuel (consume b (length whole)) in
      process_packets k (suc fuel) b ≡ record p { handled = whole ∷ p.handled }
unfolding process_packets
process_packets-whole k size fuel b whole rest f e = ground (arith, f.peeked, f.bytes)

pub new-start :
    (size : ℕ) (ms : List Message) → (contents (new size) ≡ []) × IsPartial (contents (new size)) ms
unfolding new
new-start size [] = (refl, refl)
new-start size (m ∷ ms) = (refl, omega arith)

module _ (keeps_running : List ℕ → Bool) (keeps : (p : List ℕ) → keeps_running p ≡ true) where
  pub process_packets-Caught :
      (size bound fuel : ℕ) (b : PacketBuffer) (tail : List ℕ) (ms : List Message)
      → IsValid size b
      → Small bound ms
      → contents b ++ tail ≡ concat (map wire ms)
      → length (contents b) < fuel
      → Caught size bound (process_packets keeps_running fuel b) tail ms
  process_packets-Caught size bound zero b tail ms v s e enough = elim enough [ ]
  process_packets-Caught size bound (suc fuel) b tail [] v s e enough =
      let empty = append-empty (contents b) tail e in
      let none_left = peek_packet_info-empty b (omega (arith, empty, length-contents size b v)) in
      rw (process_packets-partial keeps_running fuel b none_left) (record {
        later = [];
        count = refl;
        stream = e;
        small = tt;
        partial = empty;
        valid = v;
        running = refl;
      })
  process_packets-Caught size bound (suc fuel) b tail (m ∷ ms) v s e enough =
      elim (Bool-cases (ltb (length (contents b)) (header_size + length m.1))) [
        | inl short ↦
            rw
              (process_packets-partial keeps_running fuel b (
                ground (
                  arith,
                  peek_packet_info-packet size b tail m.0 m.1 (concat (map wire ms)) v s.0 e,
                )))
              (record {
                later = m ∷ ms;
                count = refl;
                stream = e;
                small = s;
                partial = ltb→lt _ _ short;
                valid = v;
                running = refl;
              })
        | inr whole ↦
            let (c, t) =
              append-split (contents b) tail (wire m) (concat (map wire ms)) e
                (ground (arith, length-packet m.0 m.1)) in
            let f = packet-Front size b m.0 m.1 (drop (length (wire m)) (contents b)) v s.0 c in
            let ih =
              process_packets-Caught size bound fuel (consume b (length (wire m))) tail ms f.valid
                s.2 (ap (λ l. l ++ tail) f.left ∙ t)
                (omega (
                  arith,
                  ap length f.left,
                  length-drop (length (wire m)) (contents b),
                  length-packet m.0 m.1,
                  ap length c,
                  length-append (wire m) (drop (length (wire m)) (contents b)),
                )) in
            rw
              (process_packets-whole keeps_running size fuel b (wire m)
                (drop (length (wire m)) (contents b)) f (keeps (wire m)))
              (record {
                later = ih.later;
                count = ap (◌∷◌ (wire m)) ih.count;
                stream = ih.stream;
                small = ih.small;
                partial = ih.partial;
                valid = ih.valid;
                running = ih.running;
              })
      ]
