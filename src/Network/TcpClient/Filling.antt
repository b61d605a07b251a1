-- ===== src/Network/TcpClient/Filling.antt =====
-- `receive_packet` reads until the first packet of a stream is in the buffer.
use ryu_ldn_nx.Prelude.{
  ℕ, ◌+◌, ◌≤◌, ◌<◌, ◌≡◌, refl, sym, ap, ◌∙◌, inl, inr, true, false, Bool-cases, List, [], ◌∷◌, ◌++◌,
  arith, append_assoc, append-nil, concat, length, length-append, ltb, ltb→lt, ge→ltb,
  if◌then◌else◌,
}
use ryu_ldn_nx.Protocol.Header.{PacketId, header_size, max_packet_size}
use ryu_ldn_nx.Protocol.Codec.RoundTrip.{packet}
use ryu_ldn_nx.Protocol.PacketBuffer.{
  BufferResult, PacketBuffer, append, peek_packet_info, has_complete_packet,
}
use ryu_ldn_nx.Protocol.PacketBuffer.Contents.{contents, IsValid, contents-append, append-IsValid}
use ryu_ldn_nx.Protocol.PacketBuffer.Extraction.{length-packet, peek_packet_info-packet}
use ryu_ldn_nx.Network.Socket.{ready, Socket, SocketResult}
use ryu_ldn_nx.Network.Socket.Connecting.{bytes, recv}
use ryu_ldn_nx.Network.TcpInterface.{ClientResult, success}
use ryu_ldn_nx.Network.TcpClient.{recv_buffer_size, Arrival, TcpClient}
use ryu_ldn_nx.Network.TcpClient.Receiving.{receive_into_buffer, received_into, fill}

-- Chunks that arrive in time, none empty and none longer than `temp_buffer`.
abbrev pub chunks : List (List ℕ) → List Arrival
chunks [] = []
chunks (c ∷ cs) = record { polled = ready; arrived = bytes c } ∷ chunks cs

abbrev pub AreChunks : List (List ℕ) → Type 0
AreChunks [] = Unit
AreChunks (c ∷ cs) = (0 < length c) × (length c ≤ 4096) × AreChunks cs

-- A connected client, whose buffer and the chunks to come make up the stream.
pub record Streams (t : TcpClient) (cs : List (List ℕ)) (stream : List ℕ) : Type 0 where
  pub up : t.socket.connected ≡ true
  pub valid : IsValid recv_buffer_size t.recv_buffer
  pub are_chunks : AreChunks cs
  pub whole : contents t.recv_buffer ++ concat cs ≡ stream

-- What `fill` leaves: the first `need` bytes of the stream are in the buffer.
pub record Filled (result : ClientResult × TcpClient) (need : ℕ) (stream : List ℕ) : Type 0 where
  pub rest : List (List ℕ)
  pub filled : result.0 ≡ success
  pub to_come : result.1.arrivals ≡ chunks rest
  pub streams : Streams result.1 rest stream
  pub enough : need ≤ length (contents result.1.recv_buffer)

recv-chunk :
    (s : Socket) (timeout_ms : ℕ) (c : List ℕ)
    → s.connected ≡ true
    → 0 < length c
    → recv s timeout_ms ready (bytes c) ≡ (SocketResult.success, s, c)
unfolding recv
recv-chunk s timeout_ms c up some = ground arith

received_into-chunk :
    (b : PacketBuffer) (c : List ℕ)
    → IsValid recv_buffer_size b
    → 0 < length c
    → length (contents b) + length c ≤ recv_buffer_size
    → (received_into b SocketResult.success c ≡ (success, (append recv_buffer_size b c).1))
      × (contents (append recv_buffer_size b c).1 ≡ contents b ++ c)
unfolding received_into
received_into-chunk b c v some room = elim (contents-append recv_buffer_size b c v) [
  | inl (over, _, _) ↦ absurd (omega arith)
  | inr (_, ok, at_end) ↦ (ground (arith, ok), at_end)
]

-- A chunk for which there is room goes to the end of the buffer.
receive_into_buffer-chunk :
    (t : TcpClient) (c : List ℕ) (cs : List (List ℕ)) (stream : List ℕ) (timeout_ms : ℕ)
    → Streams t (c ∷ cs) stream
    → length (contents t.recv_buffer) + length c ≤ recv_buffer_size
    → let (result, t') =
        receive_into_buffer t (record { polled = ready; arrived = bytes c }) timeout_ms in
      (result ≡ success) × Streams t' cs stream
unfolding receive_into_buffer
receive_into_buffer-chunk t c cs stream timeout_ms st room =
    let (into, at_end) = received_into-chunk t.recv_buffer c st.valid st.are_chunks.0 room in
    rw (recv-chunk t.socket timeout_ms c st.up st.are_chunks.0, into)
      (
        refl,
        record {
          up = st.up;
          valid = append-IsValid recv_buffer_size t.recv_buffer c st.valid;
          are_chunks = st.are_chunks.2;
          whole =
              ap (λ l. l ++ concat cs) at_end
              ∙ append_assoc (contents t.recv_buffer) c (concat cs)
              ∙ st.whole;
        },
      )

-- Whether a packet is complete is a matter of how much of it is there.
has_complete_packet-peek :
    (b : PacketBuffer) (n : ℕ)
    → (peek_packet_info b ≡ (BufferResult.success, n) → has_complete_packet b ≡ true)
      × ((peek_packet_info b).0 ≡ BufferResult.no_complete_packet → has_complete_packet b ≡ false)
unfolding peek_packet_info has_complete_packet
has_complete_packet-peek b n = (λ e. ground arith, λ e. ground arith)

pub fill-whole :
    (as_ : List Arrival) (t : TcpClient) (timeout_ms : ℕ)
    → has_complete_packet t.recv_buffer ≡ true
    → fill as_ t timeout_ms ≡ (success, record t { arrivals = as_ })
unfolding fill
fill-whole [] t timeout_ms e = rw e refl
fill-whole (a ∷ as_) t timeout_ms e = rw e refl

module _ (type : PacketId) (payload rest : List ℕ) (small : length payload ≤ max_packet_size) where
  pub has_complete_packet-length :
      (b : PacketBuffer) (tail : List ℕ)
      → IsValid recv_buffer_size b
      → contents b ++ tail ≡ packet type payload ++ rest
      → has_complete_packet b
        ≡ (if ltb (length (contents b)) (header_size + length payload) then false else true)
  has_complete_packet-length b tail v e =
      let peeked = peek_packet_info-packet recv_buffer_size b tail type payload rest v small e in
      let (whole, part) = has_complete_packet-peek b (header_size + length payload) in
      ground (arith, peeked, whole, part)

  -- The loop ends with the first packet of the stream in the buffer.
  pub fill-Filled :
      (cs : List (List ℕ)) (t : TcpClient) (timeout_ms : ℕ)
      → length payload ≤ 4084
      → Streams t cs (packet type payload ++ rest)
      → Filled
          (fill (chunks cs) t timeout_ms)
          (header_size + length payload)
          (packet type payload ++ rest)
  unfolding fill
  fill-Filled [] t timeout_ms fits st =
      let whole = has_complete_packet-length t.recv_buffer [] st.valid st.whole in
      let enough : header_size + length payload ≤ length (contents t.recv_buffer) = omega (
        arith,
        ap length (sym (append-nil (contents t.recv_buffer)) ∙ st.whole),
        length-append (packet type payload) rest,
        length-packet type payload,
      ) in
      rw (whole, ge→ltb (length (contents t.recv_buffer)) (header_size + length payload) enough)
        (record {
          rest = [];
          filled = refl;
          to_come = refl;
          streams = record {
            up = st.up;
            valid = st.valid;
            are_chunks = st.are_chunks;
            whole = st.whole;
          };
          enough = enough;
        })
  fill-Filled (c ∷ cs) t timeout_ms fits st =
      let whole = has_complete_packet-length t.recv_buffer (concat (c ∷ cs)) st.valid st.whole in
      elim (Bool-cases (ltb (length (contents t.recv_buffer)) (header_size + length payload))) [
        | inl part ↦
            let (ok, st') =
              receive_into_buffer-chunk t c cs (packet type payload ++ rest) timeout_ms st
                (omega (arith, ltb→lt _ _ part)) in
            let t' =
              (receive_into_buffer t (record { polled = ready; arrived = bytes c }) timeout_ms).1 in
            rw (whole, part, ok) (fill-Filled cs t' timeout_ms fits st')
        | inr done ↦
            rw (whole, done)
              (record {
                rest = c ∷ cs;
                filled = refl;
                to_come = refl;
                streams = record {
                  up = st.up;
                  valid = st.valid;
                  are_chunks = st.are_chunks;
                  whole = st.whole;
                };
                enough = ground (arith, done);
              })
      ]
