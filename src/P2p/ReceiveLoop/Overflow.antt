-- ===== src/P2p/ReceiveLoop/Overflow.antt =====
-- What the loop does with a chunk that does not fit. Its comment says that "the next complete packet
-- will re-sync us".
use ryu_ldn_nx.Prelude.{
  ℕ, suc, ◌+◌, ◌≤◌, ◌<◌, ◌≡◌, ◌≢◌, refl, sym, ap, ◌∙◌, inl, inr, Bool, true, false, List, [], ◌++◌,
  arith, length, append-nil,
}
use ryu_ldn_nx.Protocol.Header.{header_size, protocol_magic, read_header}
use ryu_ldn_nx.Protocol.Codec.{DecodeResult, decode_header, check_complete_packet, undefined_header}
use ryu_ldn_nx.Protocol.PacketBuffer.{PacketBuffer, invalid_packet, append, reset, peek_packet_info}
use ryu_ldn_nx.Protocol.PacketBuffer.Contents.{
  contents, IsValid, length-contents, contents-append, append-IsValid,
}
use ryu_ldn_nx.Protocol.PacketBuffer.Extraction.{decode_header-contents}
use ryu_ldn_nx.P2p.ReceiveLoop.{process_packets, receive}

bad_magic :
    (xs : List ℕ) (n : ℕ)
    → header_size ≤ n
    → (read_header xs).magic ≢ protocol_magic
    → (decode_header xs n undefined_header).0 ≡ DecodeResult.invalid_magic
unfolding decode_header
bad_magic xs n long bad = ground arith

peek_packet_info-invalid :
    (b : PacketBuffer)
    → header_size ≤ b.write_pos
    → (decode_header b.buffer b.write_pos undefined_header).0 ≡ DecodeResult.invalid_magic
    → (peek_packet_info b).0 ≡ invalid_packet
unfolding peek_packet_info check_complete_packet
peek_packet_info-invalid b long bad = ground arith

module _ (keeps_running : List ℕ → Bool) (size : ℕ) (b : PacketBuffer) (v : IsValid size b) where
  process_packets-invalid :
      (fuel : ℕ) (b' : PacketBuffer)
      → (peek_packet_info b').0 ≡ invalid_packet
      → process_packets keeps_running (suc fuel) b'
        ≡ record { handled = []; buffer = b'; running = false }
  unfolding process_packets
  process_packets-invalid fuel b' e = ground arith

  -- A chunk that does not fit is thrown away together with what the buffer held, and nothing is
  -- handled; the thread runs on.
  pub receive-overflow :
      (chunk : List ℕ)
      → size < length (contents b) + length chunk
      → receive keeps_running size b chunk
        ≡ record { handled = []; buffer = reset b; running = true }
  unfolding receive
  receive-overflow chunk over = ground (arith, contents-append size b chunk v)

  reset-IsValid : IsValid size (reset b) × (contents (reset b) ≡ [])
  unfolding reset
  reset-IsValid = (record { block = v.block; in_block = omega arith }, refl)

  -- A chunk that begins with no packet stops the thread.
  receive-unframed :
      (next : List ℕ)
      → contents b ≡ []
      → header_size ≤ length next
      → length next ≤ size
      → (read_header next).magic ≢ protocol_magic
      → let p = receive keeps_running size b next in (p.handled ≡ []) × (p.running ≡ false)
  unfolding receive
  receive-unframed next empty long fits bad = elim (contents-append size b next v) [
    | inl (over, _, _) ↦ absurd (omega (arith, ap length empty))
    | inr (_, ok, c) ↦
        let b' = (append size b next).1 in
        let v' = append-IsValid size b next v in
        let held : contents b' ++ [] ≡ next =
          append-nil (contents b') ∙ c ∙ ap (λ l. l ++ next) empty in
        let long' : header_size ≤ b'.write_pos = omega (
          arith,
          length-contents size b' v',
          ap length held,
          ap length (append-nil (contents b')),
        ) in
        let wrong = decode_header-contents size b' [] undefined_header v' long' in
        let refused =
          bad_magic (contents b' ++ []) b'.write_pos long'
            (λ m. bad (ap (λ l. (read_header l).magic) (sym held) ∙ m)) in
        let peeked = peek_packet_info-invalid b' long' (ap (λ d. d.0) wrong ∙ refused) in
        rw (ok, receive) (rw (process_packets-invalid b'.write_pos b' peeked) (refl, refl))
  ]

module _ (keeps_running : List ℕ → Bool) (size : ℕ) (b : PacketBuffer) (v : IsValid size b) where
  -- When a chunk does not fit behind the contents of a valid buffer, and the next chunk, which has
  -- twelve bytes at least and fits into the buffer, does not begin with the magic number, say
  -- because the cut went through a packet, then the next round handles nothing and stops the
  -- thread, whatever complete packets the chunk holds further on.
  pub receive-after_overflow :
      (chunk next : List ℕ)
      → size < length (contents b) + length chunk
      → header_size ≤ length next
      → length next ≤ size
      → (read_header next).magic ≢ protocol_magic
      → let lost = receive keeps_running size b chunk in
        let p = receive keeps_running size lost.buffer next in
        (p.handled ≡ []) × (p.running ≡ false)
  receive-after_overflow chunk next over long fits bad =
      let (w, empty) = reset-IsValid keeps_running size b v in
      rw (receive-overflow keeps_running size b v chunk over)
        (receive-unframed keeps_running size (reset b) w next empty long fits bad)
