-- ===== src/Bsd/ProxySocketManager/Routing.antt =====
-- sysmodule/source/bsd/proxy_socket_manager.cpp, what comes in: `RouteConnectResponse`,
-- `RouteConnectRequest`, `RouteIncomingData`, `FindAllSocketsByDestination` and
-- `DeliverPendingPackets`. A pointer to a socket is its file descriptor. A test of masked bits is a
-- test on quotient and remainder.
use ryu_ldn_nx.Prelude.{
  ℕ, ◌+◌, ◌-◌, ◌/◌, ◌%◌, Bool, true, false, not, ◌&&◌, ◌||◌, Option, none, some, List, [], ◌∷◌, ltb,
  leb, ◌==◌, if◌then◌else◌, length,
}
use ryu_ldn_nx.Bsd.EphemeralPortPool.{ProtocolType, tcp, udp}
use ryu_ldn_nx.Bsd.Types.{
  SockAddrIn, inet, sock_addr_in_size, bswap16, bswap32, get_port, get_addr, is_protocol,
}
use ryu_ldn_nx.Bsd.ProxySocket.{
  ProxySocket, connecting, listening, is_state, handle_connect_response, incoming_connection,
}
use ryu_ldn_nx.Bsd.ProxySocket.Transfer.{incoming_data}
use ryu_ldn_nx.Bsd.PendingRing.{PendingRing, PendingPacket, Route, store, sweep}
use ryu_ldn_nx.Bsd.ProxySocketManager.{ProxySocketManager, Sockets, update, is_silent}
use ryu_ldn_nx.Ldn.ProxyHandler.{ProxyInfo}

-- `IsBroadcastDestinationIp`: masks 0xFF and 0xFFFF.
unfoldable pub is_broadcast_destination_ip : ℕ → Bool
is_broadcast_destination_ip ip = (ip % 256 == 255) || (ip % 65536 == 65535)

unfoldable pub packet_matches_socket_destination : ProxySocket → ℕ → Bool
packet_matches_socket_destination s dest_ip =
    let local_ip = get_addr s.local_addr in
    if (local_ip == 0) || (local_ip == dest_ip)
    then true
    else is_broadcast_destination_ip dest_ip && (local_ip / 65536 == dest_ip / 65536)

-- The protocol and the port, which every search compares first.
abbrev pub has_endpoint : ProxySocket → ProtocolType → ℕ → Bool
has_endpoint s protocol port = is_protocol s.protocol protocol && (get_port s.local_addr == port)

-- The multicast addresses, mask 0xF0000000.
abbrev pub is_multicast : ℕ → Bool
is_multicast ip = ip / 268435456 == 14

abbrev pub is_broadcast : ℕ → Bool
is_broadcast ip =
    (ip == 4294967295) || (ip % 256 == 255) || (ip % 65536 == 65535) || is_multicast ip

abbrev pub or_else : Option ℕ → ℕ → Option ℕ
or_else none fd = some fd
or_else (some other) fd = some other

-- The search for one socket: the first exact match, and the first wildcard before it.
unfoldable pub find_unicast : Sockets → ℕ → ℕ → ProtocolType → Option ℕ → Option ℕ × Option ℕ
find_unicast [] dest_ip dest_port protocol wildcard = (none, wildcard)
find_unicast ((fd, s) ∷ rest) dest_ip dest_port protocol wildcard =
    let local_ip = get_addr s.local_addr in
    let mine = has_endpoint s protocol dest_port in
    let wildcard' =
      (if mine && not (local_ip == dest_ip) && (local_ip == 0)
        then or_else wildcard fd
        else wildcard) in
    let later = find_unicast rest dest_ip dest_port protocol wildcard' in
    if mine && (local_ip == dest_ip) then (some fd, wildcard) else later

unfoldable pub best_match : Option ℕ × Option ℕ → List ℕ
best_match (some exact, wildcard) = exact ∷ []
best_match (none, some wildcard) = wildcard ∷ []
best_match (none, none) = []

-- Whether the search for a broadcast's sockets takes this one.
unfoldable pub takes_broadcast : ProxySocket → ℕ → Bool
takes_broadcast s dest_ip =
    let local_ip = get_addr s.local_addr in
    if local_ip == 0
    then true
    else if (dest_ip == 4294967295) || is_multicast dest_ip
    then true
    else if local_ip == dest_ip
    then true
    else local_ip / 65536 == dest_ip / 65536

unfoldable pub find_broadcast : Sockets → ℕ → ℕ → ProtocolType → ℕ → ℕ → List ℕ
unfolding takes_broadcast
find_broadcast [] dest_ip dest_port protocol max_sockets count = []
find_broadcast ((fd, s) ∷ rest) dest_ip dest_port protocol max_sockets count =
    let taken = has_endpoint s protocol dest_port && takes_broadcast s dest_ip in
    let later =
      find_broadcast rest dest_ip dest_port protocol max_sockets
        (if taken then count + 1 else count) in
    if leb max_sockets count then [] else if taken then fd ∷ later else later

unfoldable pub find_all_sockets_by_destination : Sockets → ℕ → ℕ → ProtocolType → ℕ → List ℕ
find_all_sockets_by_destination sockets dest_ip dest_port protocol max_sockets =
    if max_sockets == 0
    then []
    else if not (is_broadcast dest_ip)
    then best_match (find_unicast sockets dest_ip dest_port protocol none)
    else find_broadcast sockets dest_ip dest_port protocol max_sockets 0

-- `kMaxSockets`.
abbrev pub max_targets : ℕ
max_targets = 8

abbrev pub source_addr : ℕ → ℕ → SockAddrIn
source_addr ip port = record {
  sin_len = sock_addr_in_size;
  sin_family = inet;
  sin_port = bswap16 port;
  sin_addr = bswap32 ip;
}

-- The delivery to the targets, one after the other.
unfoldable pub deliver_to : Sockets → List ℕ → Option (List ℕ) → ℕ → SockAddrIn → Sockets
deliver_to sockets [] bytes len from = sockets
deliver_to sockets (fd ∷ fds) bytes len from =
    deliver_to (update sockets fd (λ s. incoming_data s bytes len from)) fds bytes len from

-- `RouteIncomingData`, at the time `now_ms`.
unfoldable pub route_incoming_data :
    ProxySocketManager → Route → Option (List ℕ) → ℕ → ℕ → ProxySocketManager × Bool
route_incoming_data m a bytes data_len now_ms =
    let targets =
      find_all_sockets_by_destination m.sockets a.dest_ip a.dest_port a.protocol max_targets in
    if not (m.local_ip == 0) && (a.source_ip == m.local_ip)
    then (m, true)
    else if length targets == 0
    then (if is_protocol a.protocol udp
        then (m, false)
        else (record m { pending = store m.pending a now_ms bytes data_len }, false))
    else (
      record m {
        sockets =
            deliver_to m.sockets targets bytes data_len (source_addr a.source_ip a.source_port);
      },
      true,
    )

-- The searches of `RouteConnectResponse` and `RouteConnectRequest`: the first socket that matches.
unfoldable pub find_connecting : Sockets → ℕ → ℕ → Option ℕ
find_connecting [] ip port = none
find_connecting ((fd, s) ∷ rest) ip port =
    let later = find_connecting rest ip port in
    if is_state s.state connecting
      && (get_addr s.local_addr == ip)
      && (get_port s.local_addr == port)
    then some fd
    else later

unfoldable pub find_listening : Sockets → ℕ → ℕ → Option (ℕ × ProxySocket)
find_listening [] ip port = none
find_listening ((fd, s) ∷ rest) ip port =
    let later = find_listening rest ip port in
    if is_state s.state listening
      && is_protocol s.protocol tcp
      && (get_port s.local_addr == port)
      && ((get_addr s.local_addr == 0) || (get_addr s.local_addr == ip))
    then some (fd, s)
    else later

unfoldable pub route_connect_response : ProxySocketManager → ProxyInfo → ProxySocketManager × Bool
route_connect_response m response =
    elim (find_connecting m.sockets response.source_ipv4 response.source_port) [
      | none ↦ (m, false)
      | some fd ↦ (
        record m { sockets = update m.sockets fd (λ s. handle_connect_response s response) },
        true,
      )
    ]

-- `RouteConnectRequest`: the listener sends its reply while the mutex is held.
unfoldable pub route_connect_request :
    ProxySocketManager → ProxyInfo → Option (ProxySocketManager × Bool)
route_connect_request m request =
    elim (find_listening m.sockets request.dest_ipv4 request.dest_port) [
      | none ↦ some (m, false)
      | some (fd, s) ↦
          let (s', messages) = incoming_connection s request in
          if is_silent messages
          then some (record m { sockets = update m.sockets fd (λ t. s') }, true)
          else none
    ]

-- `MaxPendingPacketAgeMs`.
abbrev pub max_pending_packet_age_ms : ℕ
max_pending_packet_age_ms = 500

abbrev pub is_stale : ℕ → PendingPacket → Bool
is_stale now_ms pkt =
    ltb pkt.enqueue_time_ms now_ms && ltb max_pending_packet_age_ms (now_ms - pkt.enqueue_time_ms)

abbrev pub is_for : ProxySocket → ℕ → ProtocolType → PendingPacket → Bool
is_for s port protocol pkt =
    is_protocol pkt.protocol protocol
    && (pkt.dest_port == port)
    && packet_matches_socket_destination s pkt.dest_ip

-- One round of the loop of `DeliverPendingPackets`.
unfoldable pub deliver_step :
    ℕ → ProtocolType → ℕ → ProxySocket → PendingPacket → ProxySocket × Bool
deliver_step port protocol now_ms s pkt =
    if not (is_stale now_ms pkt) && is_for s port protocol pkt
    then (
      incoming_data s (some pkt.payload) pkt.len (source_addr pkt.source_ip pkt.source_port),
      false,
    )
    else (s, not (is_stale now_ms pkt))

-- `DeliverPendingPackets`, on the ring and the socket; a null pointer is no socket.
unfoldable pub deliver_pending_packets :
    PendingRing → Option ProxySocket → ℕ → ProtocolType → ℕ → Option ProxySocket × PendingRing
unfolding deliver_step
deliver_pending_packets r none port protocol now_ms = (none, r)
deliver_pending_packets r (some s) port protocol now_ms =
    if r.count == 0
    then (some s, r)
    else let (s', r') = sweep (deliver_step port protocol now_ms) s r in (some s', r')
