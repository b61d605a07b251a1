-- ===== src/Bsd/ProxySocketManager/Tests.antt =====
-- Runs of the socket manager and of its ring of waiting packets.
use ryu_ldn_nx.Prelude.{
  ℕ, ◌≤◌, min, ◌≡◌, ◌≢◌, ◌⊎◌, refl, ap, suc, true, false, ◌&&◌, none, some, [], ◌∷◌, ◌++◌, arith,
  ◌==◌, if◌then◌else◌, length, replicate, take, push_bounded, length-replicate,
}
use ryu_ldn_nx.Bsd.EphemeralPortPool.{EphemeralPortPool, tcp, udp, icmp}
use ryu_ldn_nx.Bsd.Types.{
  SockAddrIn, stream, dgram, inet, sock_addr_in_size, get_port, get_addr, bswap16, bswap32,
  is_protocol,
}
use ryu_ldn_nx.Bsd.ProxySocket.{ProxySocket, bound, listening, max_queue_size, max_payload, new}
use ryu_ldn_nx.Bsd.ProxySocket.Transfer.{incoming_data}
use ryu_ldn_nx.Bsd.ProxySocket.Mailbox.{new-IsValid}
use ryu_ldn_nx.Bsd.ProxySocket.Queue
use ryu_ldn_nx.Bsd.PendingRing.Sweeps
use ryu_ldn_nx.Bsd.PendingRing.{
  PendingRing, PendingPacket, Route, blank, max_pending_packets, store,
}
use ryu_ldn_nx.Bsd.PendingRing.Sweeps.{packets}
use ryu_ldn_nx.Bsd.ProxySocketManager.{
  ProxySocketManager, max_proxy_sockets, find, create_proxy_socket,
}
use ryu_ldn_nx.Bsd.ProxySocketManager.Routing.{
  has_endpoint, is_broadcast, takes_broadcast, find_unicast, best_match,
  find_all_sockets_by_destination, source_addr, route_incoming_data, deliver_pending_packets,
}
use ryu_ldn_nx.Bsd.ProxySocketManager.Targets.{
  fds_where, is_exact, is_wildcard, find_all_sockets_by_destination_lem,
}
use ryu_ldn_nx.Bsd.ProxySocketManager.Registry.{elem, mapped, IsRegistry, create_proxy_socket_lem}
use ryu_ldn_nx.Bsd.ProxySocketManager.Delivery.{
  targets_of, is_loopback, route_incoming_data_lem, pending-route_incoming_data,
}
use ryu_ldn_nx.Bsd.ProxySocketManager.Purging.{
  select, receive_all, is_due, stays_pending, deliver_pending_packets_lem,
}

-- 10.114.0.1, port 40000, and no address with that port.
abbrev own : SockAddrIn
own = record {
  sin_len = sock_addr_in_size;
  sin_family = inet;
  sin_port = 16540;
  sin_addr = 16806410;
}

abbrev any : SockAddrIn
any = record own { sin_addr = 0 }

abbrev exact_socket : ProxySocket
exact_socket = record (new dgram udp) { protocol = udp; state = bound; local_addr = own }

abbrev any_socket : ProxySocket
any_socket = record exact_socket { local_addr = any }

abbrev listener : ProxySocket
listener = record exact_socket { type = stream; protocol = tcp; state = listening }

abbrev empty_ring : PendingRing
empty_ring = record { slots = replicate max_pending_packets blank; head = 0; tail = 0; count = 0 }

abbrev pool : EphemeralPortPool
pool = record { udp_ports = λ i. false; tcp_ports = λ i. false; udp_hint = 0; tcp_hint = 0 }

abbrev m : ProxySocketManager
m = record {
  sockets = (3, any_socket) ∷ (5, exact_socket) ∷ (8, listener) ∷ [];
  port_pool = pool;
  local_ip = 175243265;
  send_callback = true;
  proxy_connect_callback = true;
  proxy_connect_reply_callback = true;
  proxy_disconnect_callback = true;
  pending = empty_ring;
}

m-IsRegistry : IsRegistry m
m-IsRegistry = ((refl, (refl, (refl, tt))), omega arith)

empty_ring-IsValid : Sweeps.IsValid empty_ring
empty_ring-IsValid = record {
  slots_length = length-replicate max_pending_packets blank;
  head_lt = omega arith;
  count_le = omega arith;
  tail_eq = refl;
}

find_all_sockets_by_destination_lem_example :
    find_all_sockets_by_destination m.sockets 175308799 40000 udp 8 ≡ (
      if is_broadcast 175308799
      then take 8
          (fds_where (λ s. has_endpoint s udp 40000 && takes_broadcast s 175308799) m.sockets)
      else take 1 (
          fds_where (is_exact 175308799 40000 udp) m.sockets
          ++ fds_where (is_wildcard 175308799 40000 udp) m.sockets))
find_all_sockets_by_destination_lem_example =
    find_all_sockets_by_destination_lem m.sockets 175308799 40000 udp 8 (omega arith)

abbrev route : Route
route = record {
  source_ip = 175243266;
  source_port = 30000;
  dest_ip = 175243265;
  dest_port = 40000;
  protocol = udp;
}

route_incoming_data_lem_example :
    let (m', taken) = route_incoming_data m route (some (1 ∷ [])) 1 7 in
    ((is_loopback m route ≡ true) × (m' ≡ m) × (taken ≡ true))
    ⊎ ((is_loopback m route ≡ false)
        × (targets_of m route ≡ [])
        × (m' ≡ (
            if is_protocol udp udp
            then m
            else record m { pending = store m.pending route 7 (some (1 ∷ [])) 1 }))
        × (taken ≡ false))
    ⊎ ((is_loopback m route ≡ false)
        × (targets_of m route ≢ [])
        × (m'.pending ≡ m.pending)
        × (taken ≡ true)
        × ((q : ℕ)
            → find m'.sockets q ≡ (
                if elem q (targets_of m route)
                then mapped
                    (find m.sockets q)
                    (λ s. incoming_data s (some (1 ∷ [])) 1 (source_addr 175243266 30000))
                else find m.sockets q)))
route_incoming_data_lem_example =
    route_incoming_data_lem m route (some (1 ∷ [])) 1 7 (refl, (refl, (refl, tt)))

-- The one target of the packet, and its socket.
target_found : elem 5 (targets_of m route) ≡ true
unfolding find_all_sockets_by_destination find_unicast best_match get_port get_addr bswap16 bswap32
target_found = refl

socket_found : find m.sockets 5 ≡ some exact_socket
unfolding find
socket_found = refl

exact_socket-IsValid : Queue.IsValid exact_socket
exact_socket-IsValid =
    let v = new-IsValid dgram udp in
    record {
      ring_length = v.ring_length;
      head_lt = v.head_lt;
      count_le = v.count_le;
      tail_eq = v.tail_eq;
      slots = v.slots;
      signalled = v.signalled;
    }

pending-route_incoming_data_example :
    (s' : ProxySocket) × (find (route_incoming_data m route (some (1 ∷ [])) 1 7).0.sockets 5
      ≡ some s')
    × Queue.IsValid s'
    × (Queue.pending s'
        ≡ push_bounded max_queue_size
            (Queue.pending exact_socket)
            (source_addr 175243266 30000, take (min 1 max_payload) (1 ∷ [])))
pending-route_incoming_data_example =
    pending-route_incoming_data m route (1 ∷ []) 1 7 5 exact_socket (refl, (refl, (refl, tt)))
      (omega arith) refl target_found socket_found exact_socket-IsValid

create_proxy_socket_lem_example :
    let (m', ok) = create_proxy_socket m 4 any_socket in
    IsRegistry m'
    × (((find m.sockets 4 ≢ none) × (m' ≡ m) × (ok ≡ true))
        ⊎ ((find m.sockets 4 ≡ none)
            × (max_proxy_sockets ≤ length m.sockets)
            × (m' ≡ m)
            × (ok ≡ false))
        ⊎ ((find m.sockets 4 ≡ none)
            × (ok ≡ true)
            × ((q : ℕ)
                → find m'.sockets q ≡ (if 4 == q then some any_socket else find m.sockets q))))
create_proxy_socket_lem_example = create_proxy_socket_lem m 4 any_socket m-IsRegistry

abbrev waiting : PendingPacket
waiting = record blank { dest_ip = 175243265; dest_port = 40000; protocol = icmp; len = 1 }

abbrev ring : PendingRing
ring = record empty_ring { slots = waiting ∷ replicate 31 blank; count = 1; tail = 1 }

ring-IsValid : Sweeps.IsValid ring
ring-IsValid = record {
  slots_length = ap suc (length-replicate 31 blank);
  head_lt = omega arith;
  count_le = omega arith;
  tail_eq = refl;
}

abbrev raw_socket : ProxySocket
raw_socket = record exact_socket { protocol = icmp }

deliver_pending_packets_lem_example :
    let (s', r') = deliver_pending_packets ring (some raw_socket) 40000 icmp 200 in
    Sweeps.IsValid r'
    × (s'
        ≡ some (receive_all raw_socket (select (is_due 200 raw_socket 40000 icmp) (packets ring))))
    × (packets r' ≡ select (stays_pending 200 raw_socket 40000 icmp) (packets ring))
deliver_pending_packets_lem_example =
    deliver_pending_packets_lem ring raw_socket 40000 icmp 200 ring-IsValid
