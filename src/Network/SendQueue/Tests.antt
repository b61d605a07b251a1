-- ===== src/Network/SendQueue/Tests.antt =====
-- Examples of the theorems on the send queue.
use ryu_ldn_nx.Prelude.{
  ℕ, ◌+◌, ◌-◌, ◌≤◌, ◌<◌, ◌≡◌, refl, List, [], ◌∷◌, true, arith, length, replicate, length-replicate,
}
use ryu_ldn_nx.Network.SendQueue.{
  QueuedPacket, SendQueue, idle, Sender, took, would_block, pushed, steps, Event,
  max_send_queue_size, new, enqueue, make_room, after, after_all, advance, advance_in, pick,
  pick_from, transmit, transmitted, finish, send_proxy_data, pop_front, pop_from, idle_sender,
}
use ryu_ldn_nx.Ldn.ProxyHandler.{ProxyInfo}
use ryu_ldn_nx.Network.SendQueue.Bounds.{total}
use ryu_ldn_nx.Network.SendQueue.Sending.{Outcome, send_proxy_data_lem}
use ryu_ldn_nx.Network.SendQueue.Sent.{Sent}
use ryu_ldn_nx.Network.SendQueue.Rounds.{Round}
use ryu_ldn_nx.Network.SendQueue.Wire.{StaleAt, pushes, clocks, HasRoom, after_all-Sent}
use ryu_ldn_nx.Network.SendQueue.HeadDrop.{Resumed, after_all-head_drop}

abbrev late_packet : List ℕ
late_packet = 9 ∷ []

abbrev packet_of : ℕ → List ℕ → QueuedPacket
packet_of now_ms bytes = record { timestamp_ms = now_ms; bytes = bytes }

-- A packet of `n` bytes and a short one behind it.
abbrev filled : ℕ → SendQueue
filled n = record {
  packets = packet_of 100 (replicate n 0) ∷ packet_of 120 (7 ∷ 8 ∷ []) ∷ [];
  size = n + 2;
}

abbrev partly_sent : ℕ → Sender
partly_sent n = record { queue = filled n; send_offset = 1; phase = idle; wire = 0 ∷ [] }

filled-size : (n : ℕ) → n + 2 ≡ total (filled n).packets
filled-size n = omega (arith, length-replicate {A = ℕ} n 0)

filled-over :
    (n : ℕ) → max_send_queue_size ≤ n + 2 → max_send_queue_size < n + 2 + length late_packet
filled-over n h = omega arith

filled-fits :
    (n : ℕ) → n + 2 - length {A = ℕ} (replicate n 0) + length late_packet ≤ max_send_queue_size
filled-fits n = omega (arith, length-replicate {A = ℕ} n 0)

abbrev ping_info : ProxyInfo
ping_info = record {
  source_ipv4 = 0x0A720001;
  source_port = 49152;
  dest_ipv4 = 0x0A720002;
  dest_port = 12345;
  protocol = 17;
}

-- The queue is full, so that the first packet has to go.
send_proxy_data_lem_example :
    let (q', (buffer', result)) =
      send_proxy_data true (replicate 2048 0) (filled 262142) 200 ping_info late_packet in
    Outcome true (filled 262142) 200 ping_info late_packet q' result
send_proxy_data_lem_example =
    send_proxy_data_lem true (replicate 2048 0) (filled 262142) 200 ping_info late_packet
      (filled-size 262142, omega arith)

abbrev short_run : List Event
short_run =
    pushed 100 (1 ∷ 2 ∷ 3 ∷ [])
    ∷ steps 101 would_block
    ∷ steps 102 (took 2)
    ∷ steps 103 would_block
    ∷ steps 104 would_block
    ∷ steps 105 would_block
    ∷ steps 106 (took 9)
    ∷ []

-- What the socket has got at the end of the run.
short_run_lem : (after_all idle_sender short_run).wire ≡ 1 ∷ 2 ∷ 3 ∷ []
unfolding after_all after advance advance_in idle_sender new enqueue make_room pick pick_from
    transmit transmitted finish pop_front pop_from
short_run_lem = refl

-- A run that stops within the first of two packets.
abbrev partial_run : List Event
partial_run =
    pushed 100 (1 ∷ 2 ∷ 3 ∷ [])
    ∷ pushed 101 (4 ∷ [])
    ∷ steps 102 would_block
    ∷ steps 103 (took 2)
    ∷ []

partial_run-HasRoom : HasRoom idle_sender partial_run
unfolding idle_sender new after enqueue make_room
partial_run-HasRoom = (omega arith, (omega arith, tt))

partial_run_lem : (after_all idle_sender partial_run).wire ≡ 1 ∷ 2 ∷ []
unfolding after_all after advance advance_in idle_sender new enqueue make_room pick pick_from
    transmit transmitted finish pop_front pop_from
partial_run_lem = refl

after_all-Sent_example :
    let s = after_all idle_sender partial_run in
    Sent
      (StaleAt (clocks partial_run))
      (pushes partial_run)
      s.phase
      s.send_offset
      s.queue.packets
      s.wire
    × Round s.phase s.queue.packets 150 s
after_all-Sent_example = after_all-Sent partial_run 150 partial_run-HasRoom

after_all-head_drop_example :
    let t =
      after_all
        (partly_sent 262142)
        (pushed 200 late_packet ∷ steps 201 would_block ∷ steps 201 (took 5) ∷ []) in
    Resumed 1 (7 ∷ 8 ∷ []) (0 ∷ []) 5 t.phase t.wire
after_all-head_drop_example =
    after_all-head_drop (partly_sent 262142) (packet_of 100 (replicate 262142 0))
      (packet_of 120 (7 ∷ 8 ∷ [])) [] late_packet 200 201 5 would_block refl (omega arith) refl
      (filled-size 262142, omega arith) (filled-over 262142 (omega arith)) (filled-fits 262142)
