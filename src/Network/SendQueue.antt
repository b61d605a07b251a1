-- ===== src/Network/SendQueue.antt =====
-- sysmodule/source/network/tcp_client.hpp and tcp_client.cpp: the queue of encoded ProxyData packets of
-- `TcpClient`, which `send_proxy_data` fills and the thread of `SendThreadLoop` empties. What the two
-- do under the queue's mutex, and the call of the socket between, are the steps. The socket's answer
-- and the time are arguments of a step.
pub mod Bounds
pub mod Sent
pub mod Rounds
pub mod Wire
pub mod HeadDrop
pub mod Sending
pub mod Interleaving
mod Tests
use ryu_ldn_nx.Prelude.{
  ℕ, zero, suc, ◌+◌, ◌-◌, ◌%◌, ◌^◌, Bool, true, false, not, ◌&&◌, Option, none, some, List, [], ◌∷◌,
  ◌++◌, ltb, leb, ◌==◌, if◌then◌else◌, length, take, drop, replicate,
}
use ryu_ldn_nx.Prelude.Bytes.{u16_bytes, u32_bytes}
use ryu_ldn_nx.Ldn.ProxyHandler.{ProxyInfo}
use ryu_ldn_nx.Protocol.Header.{proxy_data}
use ryu_ldn_nx.Protocol.Codec.{EncodeResult, Encoded, encode_with_data}

-- `kMaxSendQueueSize`, `kMaxQueuedPacketAgeMs` and the size of `m_send_buffer`.
abbrev pub max_send_queue_size : ℕ
max_send_queue_size = 262144

abbrev pub max_queued_packet_age_ms : ℕ
max_queued_packet_age_ms = 2000

abbrev pub send_buffer_size : ℕ
send_buffer_size = 2048

pub record QueuedPacket : Type 0 where
  pub timestamp_ms : ℕ  -- uint64_t
  pub bytes : List ℕ

-- m_send_queue and m_send_queue_size.
pub record SendQueue : Type 0 where
  pub packets : List QueuedPacket
  pub size : ℕ  -- size_t

unfoldable pub new : SendQueue
new = record { packets = []; size = 0 }

-- `-=` on a `size_t`.
unfoldable pub less : ℕ → ℕ → ℕ
less a b = (a + 2 ^ 64 - b) % 2 ^ 64

-- The loop that drops packets from the head until `incoming` bytes fit.
unfoldable pub make_room : List QueuedPacket → ℕ → ℕ → SendQueue
make_room [] size incoming = record { packets = []; size = size }
make_room (p ∷ ps) size incoming =
    let rest = make_room ps (less size (length p.bytes)) incoming in
    if ltb max_send_queue_size (size + incoming)
    then rest
    else record { packets = p ∷ ps; size = size }

unfoldable pub enqueue : SendQueue → ℕ → List ℕ → SendQueue
enqueue q now_ms packet =
    let r = make_room q.packets q.size (length packet) in
    let p : QueuedPacket = record { timestamp_ms = now_ms; bytes = packet } in
    record { packets = r.packets ++ (p ∷ []); size = r.size + length packet }

-- `m_send_queue.front()` is taken off.
unfoldable pub pop_from : List QueuedPacket → ℕ → SendQueue
pop_from [] size = record { packets = []; size = size }
pop_from (p ∷ ps) size = record { packets = ps; size = less size (length p.bytes) }

unfoldable pub pop_front : SendQueue → SendQueue
unfolding pop_from
pop_front q = pop_from q.packets q.size

-- `ProxyDataHeader` in memory, as `encode_proxy_data` fills it.
abbrev pub proxy_header_bytes : ProxyInfo → ℕ → List ℕ
proxy_header_bytes info data_length =
    u32_bytes info.source_ipv4
    ++ (u16_bytes info.source_port
        ++ (u32_bytes info.dest_ipv4
            ++ (u16_bytes info.dest_port ++ (u32_bytes info.protocol ++ u32_bytes data_length))))

unfoldable pub encode_proxy_data : List ℕ → ℕ → ProxyInfo → List ℕ → Encoded
encode_proxy_data buffer buffer_size info bytes =
    encode_with_data buffer buffer_size proxy_data (proxy_header_bytes info (length bytes % 2 ^ 32))
      (some bytes) (length bytes)

abbrev is_success : EncodeResult → Bool
is_success EncodeResult.success = true
is_success _ = false

-- `send_proxy_data`: whether the client is connected, its send buffer, the queue, the time and the
-- packet. The result is the queue, the send buffer and how the encoding went.
unfoldable pub send_proxy_data :
    Bool → List ℕ → SendQueue → ℕ → ProxyInfo → List ℕ → SendQueue × (List ℕ × Option EncodeResult)
unfolding encode_proxy_data
send_proxy_data connected buffer q now_ms info bytes =
    let (result, buffer', encoded_size) = encode_proxy_data buffer send_buffer_size info bytes in
    if not connected
    then (q, (buffer, none))
    else if is_success result
    then (enqueue q now_ms (take encoded_size buffer'), (buffer', some result))
    else (q, (buffer', some result))

-- Where the thread stands: before it looks at the queue, with a copy of the front packet, with a packet
-- sent that it has still to take off the queue, ended by an error of the socket, or past the end of its
-- copy, where `to_send` has wrapped around.
pub data Phase : Type 0 where
  idle : Phase
  holding : List ℕ → Phase
  finished : Phase
  stopped : Phase
  overrun : Phase

pub record Sender : Type 0 where
  pub queue : SendQueue
  pub send_offset : ℕ
  pub phase : Phase
  pub wire : List ℕ  -- what the socket has taken

pub data SendResult : Type 0 where
  took : ℕ → SendResult
  would_block : SendResult
  broken : SendResult

abbrev pub is_stale : ℕ → QueuedPacket → Bool
is_stale now_ms p =
    ltb p.timestamp_ms now_ms && ltb max_queued_packet_age_ms (now_ms - p.timestamp_ms)

-- Steps 1 and 2 of a round, which both drop a stale packet only when none is partly sent.
unfoldable pub pick_from : Sender → List QueuedPacket → ℕ → Sender
pick_from s [] now_ms = record s { send_offset = 0 }
pick_from s (p ∷ ps) now_ms =
    if (s.send_offset == 0) && is_stale now_ms p
    then record s { queue = pop_front s.queue }
    else record s { phase = holding p.bytes }

unfoldable pub pick : Sender → ℕ → Sender
unfolding pick_from
pick s now_ms = pick_from s s.queue.packets now_ms

-- Step 3, up to the socket's answer: a socket takes no more than it is given. The result is the phase,
-- the offset and what the socket has taken.
unfoldable pub transmitted : ℕ → List ℕ → List ℕ → SendResult → Phase × (ℕ × List ℕ)
transmitted offset wire copy (took n) =
    let given = take n (drop offset copy) in
    let offset' = offset + length given in
    if ltb (length copy) offset
    then (overrun, (offset, wire))
    else (if leb (length copy) offset' then finished else idle, (offset', wire ++ given))
transmitted offset wire copy would_block =
    (if ltb (length copy) offset then overrun else idle, (offset, wire))
transmitted offset wire copy broken =
    (if ltb (length copy) offset then overrun else stopped, (offset, wire))

unfoldable pub transmit : Sender → List ℕ → SendResult → Sender
unfolding transmitted
transmit s copy r =
    let (phase, (offset, wire)) = transmitted s.send_offset s.wire copy r in
    record s { phase = phase; send_offset = offset; wire = wire }

-- The end of step 3, once a packet is sent.
unfoldable pub finish : Sender → Sender
finish s = record s { queue = pop_front s.queue; send_offset = 0; phase = idle }

-- A step of the thread.
unfoldable pub advance_in : Phase → Sender → ℕ → SendResult → Sender
unfolding pick transmit finish
advance_in idle s now_ms result = pick s now_ms
advance_in (holding copy) s now_ms result = transmit s copy result
advance_in finished s now_ms result = finish s
advance_in stopped s now_ms result = s
advance_in overrun s now_ms result = s

unfoldable pub advance : Sender → ℕ → SendResult → Sender
unfolding advance_in
advance s now_ms result = advance_in s.phase s now_ms result

-- A packet is pushed, the thread makes a step, or another send function puts bytes on the socket with
-- `send_all`, which takes no part in the queue.
pub data Event : Type 0 where
  pushed : ℕ → List ℕ → Event
  steps : ℕ → SendResult → Event
  direct : List ℕ → Event

unfoldable pub after : Sender → Event → Sender
unfolding advance
after s (pushed now_ms packet) = record s { queue = enqueue s.queue now_ms packet }
after s (steps now_ms result) = advance s now_ms result
after s (direct bytes) = record s { wire = s.wire ++ bytes }

unfoldable pub after_all : Sender → List Event → Sender
unfolding after
after_all s [] = s
after_all s (e ∷ es) = after_all (after s e) es

unfoldable pub idle_sender : Sender
unfolding new
idle_sender = record { queue = new; send_offset = 0; phase = idle; wire = [] }
