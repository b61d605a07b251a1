-- ===== src/P2p/ReceiveLoop.antt =====
-- `P2pProxyClient::ReceiveLoop` of sysmodule/source/p2p/p2p_proxy_client.cpp. The chunks that
-- `recv` returns until it fails or the host closes are a list, none of them empty. What `ProcessData`
-- does is seen through the packets that it is called with, in order; `keeps_running packet` says
-- whether `m_recv_thread_running && !m_disposed` still holds after the call, which other threads
-- decide. Logging and the wake-up at the end are left out.
pub mod Passes
pub mod Stream
pub mod Overflow
use ryu_ldn_nx.Prelude.{ℕ, zero, suc, Bool, true, false, List, [], ◌∷◌, ◌++◌, take, if◌then◌else◌}
use ryu_ldn_nx.Protocol.PacketBuffer.{
  BufferResult, success, invalid_packet, buffer_full, PacketBuffer, peek_packet_info, consume,
  append, reset,
}

-- What a part of the loop leaves: the packets handed to `ProcessData`, the buffer, and whether the
-- thread still runs.
pub record Progress : Type 0 where
  pub handled : List (List ℕ)
  pub buffer : PacketBuffer
  pub running : Bool

module _ (keeps_running : List ℕ → Bool) where
  -- "Process all complete packets in the buffer", on fuel.
  unfoldable pub process_packets : ℕ → PacketBuffer → Progress
  process_packets zero b = record { handled = []; buffer = b; running = true }
  process_packets (suc fuel) b =
      let (result, packet_size) = peek_packet_info b in
      let packet = take packet_size b.buffer in
      let b' = consume b packet_size in
      let rest = process_packets fuel b' in
      elim result [
        | success ↦
            (if keeps_running packet
              then record rest { handled = packet ∷ rest.handled }
              else record { handled = packet ∷ []; buffer = b'; running = false })
        | invalid_packet ↦ record { handled = []; buffer = b; running = false }
        | _ ↦ record { handled = []; buffer = b; running = true }
      ]

  -- One round of the outer loop: a chunk is appended, or the buffer is reset when it does not fit.
  -- A packet has twelve bytes at least, so the bytes in the buffer are fuel enough.
  unfoldable pub receive : ℕ → PacketBuffer → List ℕ → Progress
  unfolding process_packets
  receive buffer_size b chunk =
      let (result, b') = append buffer_size b chunk in
      elim result [
        | success ↦ process_packets (suc b'.write_pos) b'
        | _ ↦ record { handled = []; buffer = reset b; running = true }
      ]

  -- The outer loop over the chunks.
  unfoldable pub receive_loop : ℕ → PacketBuffer → List (List ℕ) → Progress
  unfolding receive
  receive_loop buffer_size b [] = record { handled = []; buffer = b; running = true }
  receive_loop buffer_size b (chunk ∷ chunks) =
      let p = receive buffer_size b chunk in
      let rest = receive_loop buffer_size p.buffer chunks in
      if p.running then record rest { handled = p.handled ++ rest.handled } else p
