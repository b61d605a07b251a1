-- ===== src/Bsd/ProxySocketManager.antt =====
-- sysmodule/source/bsd/proxy_socket_manager.hpp and proxy_socket_manager.cpp: the proxy sockets of a
-- game by file descriptor, with their ports and the callbacks that send for them. Routing has what
-- comes in. The map of sockets is a list in the order in which the container iterates; where a new
-- entry stands is left open by the container, here it comes first. The manager's mutex is not
-- recursive (`m_mutex{false}`): an operation whose code locks it while holding it gives `none`. A
-- callback is a flag, whether one is registered, and what it answers is an argument.
pub mod Routing
pub mod Registry
pub mod Targets
pub mod Delivery
pub mod Purging
pub mod Locking
mod Tests
use ryu_ldn_nx.Prelude.{
  ℕ, Bool, true, false, not, ◌&&◌, Option, none, some, List, [], ◌∷◌, ltb, leb, ◌==◌, if◌then◌else◌,
  length,
}
use ryu_ldn_nx.Bsd.EphemeralPortPool.{
  EphemeralPortPool, ProtocolType, allocate_port, allocate_specific_port, release_port, release_all,
  get_available_count,
}
use ryu_ldn_nx.Bsd.Types.{SocketType, ProxyMessage, get_port, protocol_number, is_protocol}
use ryu_ldn_nx.Bsd.ProxySocket.{ProxySocket, close}
use ryu_ldn_nx.Bsd.PendingRing.{PendingRing, PendingPacket, sweep, clear}

-- `MAX_PROXY_SOCKETS`.
abbrev pub max_proxy_sockets : ℕ
max_proxy_sockets = 64

abbrev pub Sockets : Type 0
Sockets = List (ℕ × ProxySocket)

pub record ProxySocketManager : Type 0 where
  pub sockets : Sockets
  pub port_pool : EphemeralPortPool
  pub local_ip : ℕ  -- uint32_t
  pub send_callback : Bool
  pub proxy_connect_callback : Bool
  pub proxy_connect_reply_callback : Bool
  pub proxy_disconnect_callback : Bool
  pub pending : PendingRing

-- `m_sockets.find(fd)`.
unfoldable pub find : Sockets → ℕ → Option ProxySocket
find [] fd = none
find ((other_fd, s) ∷ rest) fd =
    let later = find rest fd in if other_fd == fd then some s else later

-- `m_sockets.erase(it)`.
unfoldable pub erase : Sockets → ℕ → Sockets
erase [] fd = []
erase ((other_fd, s) ∷ rest) fd =
    let later = erase rest fd in if other_fd == fd then rest else (other_fd, s) ∷ later

-- A change of the socket behind the pointer that `find` gives.
unfoldable pub update : Sockets → ℕ → (ProxySocket → ProxySocket) → Sockets
update [] fd f = []
update ((other_fd, s) ∷ rest) fd f =
    let later = update rest fd f in
    if other_fd == fd then (other_fd, f s) ∷ rest else (other_fd, s) ∷ later

abbrev pub is_some {ℓ} : {A : Type ℓ} → Option A → Bool
is_some none = false
is_some (some a) = true

-- `CreateProxySocket`, with whether it returns a socket. The socket that it makes is an argument, for
-- its type and protocol.
unfoldable pub create_proxy_socket :
    ProxySocketManager → ℕ → ProxySocket → ProxySocketManager × Bool
create_proxy_socket m fd made =
    if is_some (find m.sockets fd)
    then (m, true)
    else if leb max_proxy_sockets (length m.sockets)
    then (m, false)
    else (record m { sockets = (fd, made) ∷ m.sockets }, true)

unfoldable pub get_proxy_socket : ProxySocketManager → ℕ → Option ProxySocket
get_proxy_socket m fd = find m.sockets fd

unfoldable pub is_proxy_socket : ProxySocketManager → ℕ → Bool
is_proxy_socket m fd = is_some (find m.sockets fd)

-- The loop of `CloseProxySocket` over the other sockets.
unfoldable pub has_same_endpoint_socket : Sockets → ℕ → ProtocolType → ℕ → Bool
has_same_endpoint_socket [] fd protocol port = false
has_same_endpoint_socket ((other_fd, s) ∷ rest) fd protocol port =
    let later = has_same_endpoint_socket rest fd protocol port in
    if other_fd == fd
    then later
    else if not (is_protocol s.protocol protocol)
    then later
    else if get_port s.local_addr == port
    then true
    else later

abbrev pub should_purge : ProtocolType → ℕ → PendingPacket → Bool
should_purge protocol port pkt = is_protocol pkt.protocol protocol && (pkt.dest_port == port)

-- The purge of `CloseProxySocket`: no state, and a packet stays unless it is to be purged.
unfoldable pub purge : PendingRing → ProtocolType → ℕ → PendingRing
purge r protocol port =
    let (n, r') = sweep {S = ℕ} (λ n pkt. (n, not (should_purge protocol port pkt))) 0 r in r'

abbrev pub is_silent {ℓ} : {A : Type ℓ} → List A → Bool
is_silent [] = true
is_silent (x ∷ xs) = false

-- What `CloseProxySocket` leaves of the manager, once the socket `s` of `fd` is closed.
unfoldable pub without : ProxySocketManager → ℕ → ProxySocket → ProxySocketManager
unfolding purge
without m fd s =
    let port = get_port s.local_addr in
    let purges =
      not (port == 0)
      && ltb 0 m.pending.count
      && not (has_same_endpoint_socket m.sockets fd s.protocol port) in
    record m {
      port_pool = if port == 0 then m.port_pool else release_port m.port_pool port s.protocol;
      pending = if purges then purge m.pending s.protocol port else m.pending;
      sockets = erase m.sockets fd;
    }

-- `CloseProxySocket`. A socket that sends a message when it is closed locks the mutex again.
unfoldable pub close_proxy_socket : ProxySocketManager → ℕ → Option (ProxySocketManager × Bool)
unfolding without
close_proxy_socket m fd = elim (find m.sockets fd) [
  | none ↦ some (m, false)
  | some s ↦
      let (s', messages) = close s in
      if is_silent messages then some (without m fd s, true) else none
]

-- The loop that closes every socket: whether it ends.
unfoldable pub closes_all : Sockets → Bool
closes_all [] = true
closes_all ((fd, s) ∷ rest) =
    let later = closes_all rest in let (s', messages) = close s in is_silent messages && later

unfoldable pub close_all_proxy_sockets : ProxySocketManager → Option ProxySocketManager
close_all_proxy_sockets m =
    if closes_all m.sockets
    then some (record m { sockets = []; port_pool = release_all m.port_pool })
    else none

unfoldable pub reset : ProxySocketManager → Option ProxySocketManager
reset m =
    if closes_all m.sockets
    then some (record m {
      sockets = [];
      port_pool = release_all m.port_pool;
      pending = clear m.pending;
      local_ip = 0;
      send_callback = false;
      proxy_connect_callback = false;
      proxy_connect_reply_callback = false;
      proxy_disconnect_callback = false;
    })
    else none

-- `AllocatePort`, `ReservePort` and `ReleasePort` of the manager.
unfoldable pub manager_allocate_port : ProxySocketManager → ProtocolType → ProxySocketManager × ℕ
manager_allocate_port m protocol =
    let (pool, port) = allocate_port m.port_pool protocol in (record m { port_pool = pool }, port)

unfoldable pub reserve_port : ProxySocketManager → ℕ → ProtocolType → ProxySocketManager × Bool
reserve_port m port protocol =
    let (pool, granted) = allocate_specific_port m.port_pool port protocol in
    (record m { port_pool = pool }, granted)

unfoldable pub manager_release_port : ProxySocketManager → ℕ → ProtocolType → ProxySocketManager
manager_release_port m port protocol = record m {
  port_pool = release_port m.port_pool port protocol;
}

-- `SendProxyData` and the three like it: the message is handed to the callback if there is one, which
-- decides the result.
unfoldable pub send_through : Bool → (ProxyMessage → Bool) → ProxyMessage → List ProxyMessage × Bool
send_through registered answer message =
    if registered then (message ∷ [], answer message) else ([], false)

unfoldable pub set_local_ip : ProxySocketManager → ℕ → ProxySocketManager
set_local_ip m ip =
    let changed = not (m.local_ip == 0) && not (m.local_ip == ip) && ltb 0 m.pending.count in
    record m { pending = if changed then clear m.pending else m.pending; local_ip = ip }

unfoldable pub get_active_socket_count : ProxySocketManager → ℕ
get_active_socket_count m = length m.sockets

unfoldable pub get_available_port_count : ProxySocketManager → ProtocolType → ℕ
get_available_port_count m protocol = get_available_count m.port_pool protocol
