-- ===== src/Network/SendQueue/Sending.antt =====
-- `send_proxy_data` on all its branches.
use ryu_ldn_nx.Prelude.{
  ℕ, ◌+◌, ◌%◌, ◌^◌, ◌≤◌, ◌<◌, ◌≡◌, ◌⊎◌, refl, sym, inl, inr, Bool, true, false, none, some, Option,
  List, [], ◌∷◌, ◌++◌, arith, ltb, Bool-cases, length, length-append, drop, take-append_length,
}
use ryu_ldn_nx.Protocol.Header.{proxy_data, header_bytes, length-header_bytes}
use ryu_ldn_nx.Protocol.Codec.{EncodeResult, packet_header, encode_with_data}
use ryu_ldn_nx.Protocol.Codec.ExtraData.{encode_with_data-framed}
use ryu_ldn_nx.Ldn.ProxyHandler.{ProxyInfo}
use ryu_ldn_nx.Network.SendQueue.{
  QueuedPacket, SendQueue, send_buffer_size, proxy_header_bytes, encode_proxy_data, send_proxy_data,
}
use ryu_ldn_nx.Network.SendQueue.Bounds.{IsCounted, IsNeeded, enqueue_lem}

-- A ProxyData packet: the packet's header, the proxy header of 20 bytes and the data.
abbrev pub proxy_packet : ProxyInfo → List ℕ → List ℕ
proxy_packet info bytes =
    (header_bytes (packet_header proxy_data (20 + length bytes))
      ++ proxy_header_bytes info (length bytes))
    ++ bytes

-- A packet is the last one of the queue, behind those that did not have to be dropped.
abbrev pub Pushed : SendQueue → ℕ → List ℕ → SendQueue → Type 0
Pushed q now_ms packet q' =
    IsCounted q'
    × (dropped : List QueuedPacket) × (kept : List QueuedPacket) × (q.packets ≡ dropped ++ kept)
    × (q'.packets ≡ kept ++ (record { timestamp_ms = now_ms; bytes = packet } ∷ []))
    × IsNeeded dropped kept (length packet)

abbrev pub Outcome :
    Bool → SendQueue → ℕ → ProxyInfo → List ℕ → SendQueue → Option EncodeResult → Type 0
Outcome connected q now_ms info bytes q' result =
    ((connected ≡ false) × (q' ≡ q) × (result ≡ none))
    ⊎ (((connected ≡ true)
          × (send_buffer_size < 32 + length bytes)
          × (q' ≡ q)
          × (result ≡ some EncodeResult.buffer_too_small))
        ⊎ ((connected ≡ true)
            × (32 + length bytes ≤ send_buffer_size)
            × (result ≡ some EncodeResult.success)
            × Pushed q now_ms (proxy_packet info bytes) q'))

length-proxy_packet :
    (info : ProxyInfo) (bytes : List ℕ) → length (proxy_packet info bytes) ≡ 32 + length bytes
length-proxy_packet info bytes =
    let h = packet_header proxy_data (20 + length bytes) in
    omega (
      arith,
      length-append (header_bytes h ++ proxy_header_bytes info (length bytes)) bytes,
      length-append (header_bytes h) (proxy_header_bytes info (length bytes)),
      length-header_bytes h,
    )

-- What the encoder leaves in the send buffer.
encode_proxy_data-packet :
    (buffer : List ℕ) (info : ProxyInfo) (bytes : List ℕ)
    → 32 + length bytes ≤ send_buffer_size
    → (rest : List ℕ) × (encode_proxy_data buffer send_buffer_size info bytes
        ≡ (EncodeResult.success, proxy_packet info bytes ++ rest, 32 + length bytes))
unfolding encode_proxy_data
encode_proxy_data-packet buffer info bytes h =
    let small : length bytes % 2 ^ 32 ≡ length bytes = omega arith in
    (
      drop (length bytes) (drop 32 buffer),
      rw small (
          encode_with_data-framed proxy_data (proxy_header_bytes info (length bytes)) bytes buffer
            send_buffer_size (omega arith) (omega arith)),
    )

encode_proxy_data-too_small :
    (buffer : List ℕ) (info : ProxyInfo) (bytes : List ℕ)
    → send_buffer_size < 32 + length bytes
    → encode_proxy_data buffer send_buffer_size info bytes
      ≡ (EncodeResult.buffer_too_small, buffer, 0)
unfolding encode_proxy_data encode_with_data
encode_proxy_data-too_small buffer info bytes h = ground arith

-- From a queue whose counted size is right and within its bound: without a connection, or when the packet
-- does not fit the send buffer, nothing is queued. Otherwise a whole ProxyData packet with the game's
-- data is queued; the size stays right and within its bound, and no more packets are dropped from the
-- head than have to be.
pub send_proxy_data_lem :
    (connected : Bool) (buffer : List ℕ) (q : SendQueue) (now_ms : ℕ) (info : ProxyInfo)
    (bytes : List ℕ)
    → IsCounted q
    → let (q', (buffer', result)) = send_proxy_data connected buffer q now_ms info bytes in
      Outcome connected q now_ms info bytes q' result
unfolding send_proxy_data
send_proxy_data_lem false buffer q now_ms info bytes c = inl (refl, refl, refl)
send_proxy_data_lem true buffer q now_ms info bytes c =
    elim (Bool-cases (ltb send_buffer_size (32 + length bytes))) [
      | inl over ↦
          rw (encode_proxy_data-too_small buffer info bytes (ground arith))
            (inr (inl (refl, ground arith, refl, refl)))
      | inr fits ↦
          let (rest, e) = encode_proxy_data-packet buffer info bytes (ground arith) in
          let size = length-proxy_packet info bytes in
          let whole =
            take-append_length (32 + length bytes) (proxy_packet info bytes) rest (sym size) in
          rw (e, whole)
            (inr (
              inr (
                refl,
                ground arith,
                refl,
                enqueue_lem q now_ms (proxy_packet info bytes) c (ground arith),
              )))
    ]
