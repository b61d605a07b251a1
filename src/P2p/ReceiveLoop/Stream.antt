-- ===== src/P2p/ReceiveLoop/Stream.antt =====
-- Reassembly does not depend on how the stream was cut.
use ryu_ldn_nx.Prelude.{
  concat, ℕ, suc, ◌+◌, ◌≤◌, ◌≡◌, refl, sym, ap, ◌∙◌, inl, inr, Bool, true, List, [], ◌∷◌, ◌++◌, map,
  arith, append_assoc, append-nil, length, length-zero, length-append,
}
use ryu_ldn_nx.Protocol.PacketBuffer.{PacketBuffer, append, new}
use ryu_ldn_nx.Protocol.PacketBuffer.Contents.{
  contents, IsValid, length-contents, contents-append, append-IsValid, new-IsValid,
}
use ryu_ldn_nx.Protocol.PacketBuffer.Extraction.{length-packet}
use ryu_ldn_nx.P2p.ReceiveLoop.{receive, receive_loop}
use ryu_ldn_nx.P2p.ReceiveLoop.Passes.{
  Message, wire, Small, Short, IsPartial, Caught, new-start, process_packets-Caught,
}

module _ (keeps_running : List ℕ → Bool) (keeps : (p : List ℕ) → keeps_running p ≡ true) where
  IsPartial-le :
      (bound : ℕ) (xs : List ℕ) (ms : List Message)
      → IsPartial xs ms
      → Small bound ms
      → length xs ≤ bound
  IsPartial-le bound xs [] p s = omega arith
  IsPartial-le bound xs (m ∷ ms) p s = omega arith

  receive-Caught :
      (size bound : ℕ) (b : PacketBuffer) (chunk tail : List ℕ) (ms : List Message)
      → IsValid size b
      → Small bound ms
      → IsPartial (contents b) ms
      → length chunk + bound ≤ size
      → contents b ++ (chunk ++ tail) ≡ concat (map wire ms)
      → Caught size bound (receive keeps_running size b chunk) tail ms
  unfolding receive
  receive-Caught size bound b chunk tail ms v s part fits e =
      elim (contents-append size b chunk v) [
        | inl (over, _, _) ↦ absurd (omega (arith, IsPartial-le bound (contents b) ms part s))
        | inr (_, ok, c) ↦
            let b' = (append size b chunk).1 in
            let v' = append-IsValid size b chunk v in
            rw (ok, receive)
              (process_packets-Caught keeps_running keeps size bound (suc b'.write_pos) b' tail ms
                v' s (ap (λ l. l ++ tail) c ∙ append_assoc (contents b) chunk tail ∙ e)
                (omega (arith, length-contents size b' v')))
      ]

  receive_loop-round :
      (size : ℕ) (b : PacketBuffer) (chunk : List ℕ) (chunks : List (List ℕ))
      → let p = receive keeps_running size b chunk in
        p.running ≡ true
        → let rest = receive_loop keeps_running size p.buffer chunks in
          receive_loop keeps_running size b (chunk ∷ chunks)
          ≡ record rest { handled = p.handled ++ rest.handled }
  unfolding receive_loop
  receive_loop-round size b chunk chunks e = ground (arith, e)

  receive_loop-Caught :
      (size bound : ℕ) (b : PacketBuffer) (chunks : List (List ℕ)) (ms : List Message)
      → IsValid size b
      → Small bound ms
      → IsPartial (contents b) ms
      → Short size bound chunks
      → contents b ++ concat chunks ≡ concat (map wire ms)
      → Caught size bound (receive_loop keeps_running size b chunks) [] ms
  unfolding receive_loop
  receive_loop-Caught size bound b [] ms v s part fits e = record {
    later = ms;
    count = refl;
    stream = e;
    small = s;
    partial = part;
    valid = v;
    running = refl;
  }
  receive_loop-Caught size bound b (c ∷ cs) ms v s part fits e =
      let p = receive keeps_running size b c in
      let now = receive-Caught size bound b c (concat cs) ms v s part fits.0 e in
      let next =
        receive_loop-Caught size bound p.buffer cs now.later now.valid now.small now.partial fits.1
          now.stream in
      let rest = receive_loop keeps_running size p.buffer cs in
      rw (receive_loop-round size b c cs now.running) (record {
        later = next.later;
        count =
            append_assoc p.handled rest.handled (map wire next.later)
            ∙ ap (◌++◌ p.handled) next.count
            ∙ now.count;
        stream = next.stream;
        small = next.small;
        partial = next.partial;
        valid = next.valid;
        running = next.running;
      })

  nothing_later :
      (xs : List ℕ) (later : List Message)
      → xs ++ [] ≡ concat (map wire later)
      → IsPartial xs later
      → (later ≡ []) × (xs ≡ [])
  nothing_later xs [] e p = (refl, length-zero xs p)
  nothing_later xs (m ∷ ms) e p = absurd (
      omega (
        arith,
        ap length (sym (append-nil xs) ∙ e),
        length-append (wire m) (concat (map wire ms)),
        length-packet m.0 m.1,
      ))

  -- However a stream of packets, each within the protocol's limit, is cut into chunks, the loop
  -- hands `ProcessData` exactly those packets, whole and in order, and ends with an empty buffer,
  -- still running. This holds for every buffer size that has room for each chunk beside the
  -- longest packet, and while nobody else stops the thread.
  pub receive_loop-stream :
      (size bound : ℕ) (chunks : List (List ℕ)) (ms : List Message)
      → Small bound ms
      → Short size bound chunks
      → concat chunks ≡ concat (map wire ms)
      → let p = receive_loop keeps_running size (new size) chunks in
        (p.handled ≡ map wire ms) × (contents p.buffer ≡ []) × (p.running ≡ true)
  receive_loop-stream size bound chunks ms s fits e =
      let start = new-start size ms in
      let c =
        receive_loop-Caught size bound (new size) chunks ms (new-IsValid size) s start.1 fits
          (ap (λ l. l ++ concat chunks) start.0 ∙ e) in
      let (done, empty) =
        nothing_later (contents (receive_loop keeps_running size (new size) chunks).buffer) c.later
          c.stream c.partial in
      (
        sym (append-nil _)
            ∙ ap (λ l. (receive_loop keeps_running size (new size) chunks).handled ++ map wire l)
                (sym done)
            ∙ c.count,
        empty,
        c.running,
      )
