-- ===== src/Bsd/ProxySocket/Transfer.antt =====
-- sysmodule/source/bsd/proxy_socket.cpp, the data transfer: `Send`, `SendTo`, `Recv`, `RecvFrom`,
-- `IncomingData`, `PopFrontPacket` and the queries on the queue. A pointer that may be null is an
-- option or a flag; the bytes copied out are part of the result.
use ryu_ldn_nx.Prelude.{
  ℕ, zero, suc, ◌+◌, ◌-◌, ◌/◌, ◌%◌, ◌^◌, min, Bool, true, false, not, ◌&&◌, ◌||◌, Option, none,
  some, List, [], ◌∷◌, ltb, leb, ◌==◌, if◌then◌else◌, get_or, set, length, take,
}
use ryu_ldn_nx.Prelude.Bytes.{write_at}
use ryu_ldn_nx.Bsd.Types.{
  SockAddrIn, get_port, get_addr, ProxyMessage, proxy_data, BsdErrno, bad_f, again, fault, inval,
  dest_addr_req, msg_size, net_unreach, not_conn, Returned, sent, failed,
}
use ryu_ldn_nx.Bsd.ProxySocket.{
  ProxySocket, ReceivedPacket, created, connected, closed, is_state, max_queue_size, max_payload,
  empty_packet,
}

-- `SendTo`. `send` says whether the manager sends the message.
unfoldable pub send_to :
    (ProxyMessage → Bool)
    → ProxySocket
    → Option (List ℕ)
    → ℕ
    → SockAddrIn
    → List ProxyMessage × Returned
send_to send s payload len dest =
    let message = λ (bytes : List ℕ).
      proxy_data (get_addr s.local_addr) (get_port s.local_addr) (get_addr dest) (get_port dest)
        s.protocol bytes in
    let deliver : List ℕ → List ProxyMessage × Returned = λ bytes.
      (message bytes ∷ [], if send (message bytes) then sent len else failed net_unreach) in
    if s.shutdown_write
    then ([], failed inval)
    else if is_state s.state closed
    then ([], failed bad_f)
    else if is_state s.state created
    then ([], failed dest_addr_req)
    else elim payload [
      | none ↦ if ltb 0 len then ([], failed fault) else deliver []
      | some bytes ↦ if ltb max_payload len then ([], failed msg_size) else deliver (take len bytes)
    ]

unfoldable pub send :
    (ProxyMessage → Bool) → ProxySocket → Option (List ℕ) → ℕ → List ProxyMessage × Returned
unfolding send_to
send callback s payload len =
    if not (is_state s.state connected)
    then ([], failed not_conn)
    else send_to callback s payload len s.remote_addr

-- What `RecvFrom` returns, with the bytes written into the buffer and the address written to `from`.
pub data Received : Type 0 where
  eof : Received
  error : BsdErrno → Received
  got : ℕ → List ℕ → Option SockAddrIn → Received

abbrev pub next_slot : ℕ → ℕ
next_slot i = (i + 1) % max_queue_size

-- The step of the read index that `consume_front`, `IncomingData` and `PopFrontPacket` make.
unfoldable pub advance : ProxySocket → ProxySocket
advance s = record s { rx_head = next_slot s.rx_head; rx_count = s.rx_count - 1 }

-- The event is cleared once nothing waits.
unfoldable pub clear_event : ProxySocket → ProxySocket
clear_event s = if s.rx_count == 0 then record s { receive_event = false } else s

-- The lambda `consume_front`.
unfoldable pub consume_front : ProxySocket → ℕ → Bool → Bool → ProxySocket × Received
consume_front s len peek want_from =
    let slot = get_or s.rx_ring s.rx_head empty_packet in
    let copy_len = min len slot.len in
    (
      clear_event (if peek then s else advance s),
      got copy_len (take copy_len slot.payload) (if want_from then some slot.from else none),
    )

-- The packet as `IncomingData` leaves it in its slot: without data the old bytes stay.
unfoldable pub fill_slot : ReceivedPacket → Option (List ℕ) → ℕ → SockAddrIn → ReceivedPacket
fill_slot slot none copy_len from = record slot { from = from; len = copy_len % 2 ^ 16 }
fill_slot slot (some bytes) copy_len from = record slot {
  from = from;
  len = copy_len % 2 ^ 16;
  payload = write_at slot.payload 0 (take copy_len bytes);
}

unfoldable pub drop_oldest : ProxySocket → ProxySocket
drop_oldest s = if leb max_queue_size s.rx_count then advance s else s

-- The write into the tail slot.
unfoldable pub write_tail : ProxySocket → Option (List ℕ) → ℕ → SockAddrIn → ProxySocket
write_tail s bytes len from =
    let slot = get_or s.rx_ring s.rx_tail empty_packet in
    record s {
      rx_ring = set s.rx_ring s.rx_tail (fill_slot slot bytes (min len max_payload) from);
      rx_tail = next_slot s.rx_tail;
      rx_count = s.rx_count + 1;
      receive_event = true;
    }

unfoldable pub incoming_data : ProxySocket → Option (List ℕ) → ℕ → SockAddrIn → ProxySocket
incoming_data s bytes len from = write_tail (drop_oldest s) bytes len from

-- A packet as the manager delivers it: its bytes and its source.
abbrev pub Datagram : Type 0
Datagram = SockAddrIn × List ℕ

unfoldable pub incoming_all : ProxySocket → List Datagram → ProxySocket
unfolding incoming_data
incoming_all s [] = s
incoming_all s ((from, bytes) ∷ ds) =
    incoming_all (incoming_data s (some bytes) (length bytes) from) ds

-- `flags & 0x2` and `flags & 0x80`.
abbrev pub has_peek : ℕ → Bool
has_peek flags = flags / 2 % 2 == 1

abbrev pub has_dontwait : ℕ → Bool
has_dontwait flags = flags / 128 % 2 == 1

-- `RecvFrom` into a buffer of `len` bytes, null or not. `arrivals` come in while it waits.
unfoldable pub recv_from :
    ProxySocket → Bool → ℕ → ℕ → Bool → List Datagram → ProxySocket × Received
recv_from s null len flags want_from arrivals =
    if s.shutdown_read
    then (s, eof)
    else if is_state s.state closed
    then (s, error bad_f)
    else if null && ltb 0 len
    then (s, error fault)
    else if not (s.rx_count == 0)
    then consume_front s len (has_peek flags) want_from
    else if has_dontwait flags || s.non_blocking
    then (s, error again)
    else let s' = incoming_all s arrivals in
      if ltb 0 s'.rx_count
      then consume_front s' len (has_peek flags) want_from
      else (s', error again)

unfoldable pub recv : ProxySocket → Bool → ℕ → ℕ → List Datagram → ProxySocket × Received
unfolding recv_from
recv s null len flags arrivals =
    if is_state s.state connected
    then recv_from s null len flags false arrivals
    else (s, error not_conn)

unfoldable pub pop_front_packet : ProxySocket → Bool → ProxySocket × ReceivedPacket
pop_front_packet s peek =
    if s.rx_count == 0
    then (s, empty_packet)
    else (if peek then s else advance s, get_or s.rx_ring s.rx_head empty_packet)

unfoldable pub has_pending_data : ProxySocket → Bool
has_pending_data s = ltb 0 s.rx_count

-- The loop of `GetPendingDataSize`, over the `count` slots from `idx` on.
unfoldable pub sum_lengths : List ReceivedPacket → ℕ → ℕ → ℕ
sum_lengths ring idx zero = 0
sum_lengths ring idx (suc count) =
    let slot = get_or ring idx empty_packet in slot.len + sum_lengths ring (next_slot idx) count

unfoldable pub get_pending_data_size : ProxySocket → ℕ
unfolding sum_lengths
get_pending_data_size s = sum_lengths s.rx_ring s.rx_head s.rx_count
