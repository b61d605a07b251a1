-- ===== src/P2p/Tests.antt =====
-- Runs of the receive loop at concrete chunks.
use ryu_ldn_nx.Prelude.{
  concat, ℕ, ◌≡◌, ◌≢◌, refl, Bool, true, false, List, [], ◌∷◌, map, arith, take, drop, replicate,
}
use ryu_ldn_nx.Protocol.Header.{ping, proxy_data, header_bytes, read_header, protocol_magic}
use ryu_ldn_nx.Protocol.Codec.{packet_header}
use ryu_ldn_nx.Protocol.PacketBuffer.{PacketBuffer, new}
use ryu_ldn_nx.Protocol.PacketBuffer.Contents.{contents, IsValid}
use ryu_ldn_nx.P2p.ReceiveLoop.{receive, receive_loop}
use ryu_ldn_nx.P2p.ReceiveLoop.Passes.{Message, wire}
use ryu_ldn_nx.P2p.ReceiveLoop.Stream.{receive_loop-stream}
use ryu_ldn_nx.P2p.ReceiveLoop.Overflow.{receive-after_overflow}

abbrev always : List ℕ → Bool
always packet = true

abbrev sent : List Message
sent = (ping, 1 ∷ 2 ∷ []) ∷ (proxy_data, 3 ∷ []) ∷ []

-- Two packets of 14 and 13 bytes, cut in the first payload and in the second header.
abbrev chunks : List (List ℕ)
chunks =
    let stream = concat (map wire sent) in
    take 13 stream ∷ take 7 (drop 13 stream) ∷ drop 20 stream ∷ []

concat-chunks : concat chunks ≡ concat (map wire sent)
unfolding header_bytes packet_header
concat-chunks = refl

receive_loop-stream_example :
    let p = receive_loop always 64 (new 64) chunks in
    (p.handled ≡ map wire sent) × (contents p.buffer ≡ []) × (p.running ≡ true)
receive_loop-stream_example =
    receive_loop-stream always (λ p. refl) 64 14 chunks sent
      (omega arith, omega arith, (omega arith, omega arith, tt))
      (unfold header_bytes packet_header in (omega arith, (omega arith, (omega arith, tt))))
      concat-chunks

abbrev nearly_full : PacketBuffer
nearly_full = record { buffer = replicate 16 1; write_pos = 10 }

nearly_full-IsValid : IsValid 16 nearly_full
nearly_full-IsValid = record { block = refl; in_block = omega arith }

other_magic : (read_header (replicate 12 2)).magic ≢ protocol_magic
unfolding read_header
other_magic = omega arith

receive-after_overflow_example :
    let lost = receive always 16 nearly_full (replicate 8 1) in
    let p = receive always 16 lost.buffer (replicate 12 2) in (p.handled ≡ []) × (p.running ≡ false)
receive-after_overflow_example =
    receive-after_overflow always 16 nearly_full nearly_full-IsValid (replicate 8 1)
      (replicate 12 2) (omega arith) (omega arith) (omega arith) other_magic
