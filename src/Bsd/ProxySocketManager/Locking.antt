-- ===== src/Bsd/ProxySocketManager/Locking.antt =====
-- The operations that lock the manager's mutex while they hold it.
use ryu_ldn_nx.Prelude.{
  ℕ, ◌≡◌, ◌⊎◌, refl, inl, inr, Bool, true, false, ◌&&◌, ◌||◌, none, some, [], ◌∷◌, arith, ◌==◌,
  if◌then◌else◌, Bool-cases,
}
use ryu_ldn_nx.Bsd.EphemeralPortPool.{tcp}
use ryu_ldn_nx.Bsd.Types.{get_port, get_addr, is_protocol}
use ryu_ldn_nx.Bsd.ProxySocket.{ProxySocket, listening, is_state, incoming_connection}
use ryu_ldn_nx.Bsd.ProxySocketManager.{ProxySocketManager, Sockets, is_silent}
use ryu_ldn_nx.Bsd.ProxySocketManager.Routing.{find_listening, route_connect_request}
use ryu_ldn_nx.Ldn.ProxyHandler.{ProxyInfo}

-- The sockets that a request for the address and the port is meant for.
abbrev pub is_listener : ℕ → ℕ → ProxySocket → Bool
is_listener ip port s =
    is_state s.state listening
    && is_protocol s.protocol tcp
    && (get_port s.local_addr == port)
    && ((get_addr s.local_addr == 0) || (get_addr s.local_addr == ip))

abbrev pub has_listener : Sockets → ℕ → ℕ → Bool
has_listener [] ip port = false
has_listener ((fd, s) ∷ rest) ip port = is_listener ip port s || has_listener rest ip port

find_listening_cases :
    (t : Sockets) (ip port : ℕ)
    → ((find_listening t ip port ≡ none) × (has_listener t ip port ≡ false))
      ⊎ ((fd : ℕ) × (s : ProxySocket) × (find_listening t ip port ≡ some (fd, s))
          × (is_listener ip port s ≡ true)
          × (has_listener t ip port ≡ true))
unfolding find_listening
find_listening_cases [] ip port = inl (refl, refl)
find_listening_cases ((fd, s) ∷ t) ip port = elim (Bool-cases (is_listener ip port s)) [
  | inl e ↦ rw e (inr (fd, s, refl, e, refl))
  | inr e ↦ rw e (find_listening_cases t ip port)
]

replies :
    (s : ProxySocket) (r : ProxyInfo) (ip port : ℕ)
    → is_listener ip port s ≡ true
    → is_silent (incoming_connection s r).1 ≡ false
unfolding incoming_connection
replies s r ip port h = ground arith

-- `RouteConnectRequest` never hands a connection to a socket: without a listener for the request it
-- reports that nobody took it and changes nothing, and with one it locks the mutex that it holds.
route_connect_request_lem :
    (m : ProxySocketManager) (r : ProxyInfo)
    → route_connect_request m r
      ≡ (if has_listener m.sockets r.dest_ipv4 r.dest_port then none else some (m, false))
unfolding route_connect_request
route_connect_request_lem m r = elim (find_listening_cases m.sockets r.dest_ipv4 r.dest_port) [
  | inl (e, h) ↦ rw (e, h, route_connect_request) refl
  | inr (fd, s, e, l, h) ↦
      rw (e, h, route_connect_request) (rw (replies s r r.dest_ipv4 r.dest_port l) refl)
]
