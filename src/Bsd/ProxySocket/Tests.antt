-- ===== src/Bsd/ProxySocket/Tests.antt =====
-- Runs of a proxy socket.
use ryu_ldn_nx.Prelude.{◌≡◌, ◌⊎◌, refl, Bool, true, false, some, List, [], ◌∷◌, map, arith}
use ryu_ldn_nx.Bsd.EphemeralPortPool.{tcp, udp}
use ryu_ldn_nx.Bsd.Types.{
  SockAddrIn, stream, dgram, inet, sock_addr_in_size, ProxyMessage, inval, failed,
}
use ryu_ldn_nx.Bsd.ProxySocket.{
  ProxySocket, bound, connected, listening, closed, new, incoming_connections, close,
}
use ryu_ldn_nx.Bsd.ProxySocket.Transfer.{send_to, recv_from, eof}
use ryu_ldn_nx.Bsd.ProxySocket.Queue.{IsValid, pending}
use ryu_ldn_nx.Bsd.ProxySocket.Mailbox.{
  Request, Event, arrives, receives, IsOpen, run, replay, run-replay, new-IsValid,
}
use ryu_ldn_nx.Bsd.ProxySocket.Lifecycle.{
  Call, listens, is_sent, binds, after_all, has_listen, after_all-close,
}
use ryu_ldn_nx.Bsd.ProxySocket.Accepting.{endpoint, accept_times, accept_times-incoming_connections}
use ryu_ldn_nx.Ldn.ProxyHandler.{ProxyInfo}

-- 10.114.0.2, port 30000.
abbrev peer : SockAddrIn
peer = record {
  sin_len = sock_addr_in_size;
  sin_family = inet;
  sin_port = 12405;
  sin_addr = 33583626;
}

abbrev ask : Request
ask = record { null = false; len = 2; flags = 2; want_from = true }

abbrev events : List Event
events =
    arrives (peer, 1 ∷ 2 ∷ 3 ∷ [])
    ∷ receives ask []
    ∷ receives (record ask { flags = 0 }) []
    ∷ receives ask ((peer, 9 ∷ []) ∷ [])
    ∷ []

new-IsOpen : IsOpen false (new dgram udp)
unfolding new
new-IsOpen = (refl, refl, refl)

run-replay_example :
    let (s', results) = run (new dgram udp) events in
    IsValid s' × ((pending s', results) ≡ replay false (pending (new dgram udp)) events)
run-replay_example = run-replay false (new dgram udp) events (new-IsValid dgram udp) new-IsOpen

abbrev yes : ProxyMessage → Bool
yes message = true

abbrev calls : List Call
calls = binds peer ∷ is_sent (some (1 ∷ [])) 1 peer ∷ listens ∷ []

after_all-close_example :
    let t = after_all (close (new stream tcp)).0 calls in
    (recv_from t false 1 0 true [] ≡ (t, eof))
    × (send_to yes t (some (7 ∷ [])) 1 peer ≡ ([], failed inval))
    × ((has_listen calls ≡ true) ⊎ (t.state ≡ closed))
after_all-close_example =
    after_all-close (new stream tcp) calls false true 1 0 [] yes (some (7 ∷ [])) peer

abbrev answer : ProxyInfo
answer = record {
  source_ipv4 = 175243266;
  source_port = 30000;
  dest_ipv4 = 175243265;
  dest_port = 40000;
  protocol = 0;
}

abbrev caller : ProxySocket
caller = record (new stream tcp) { type = stream; state = bound; non_blocking = false }

abbrev listener : ProxySocket
listener = record (new stream tcp) { state = listening; local_addr = peer; accept_queue = [] }

accept_times-incoming_connections_example :
    map endpoint (accept_times 2 (incoming_connections listener (answer ∷ answer ∷ [])).0)
    ≡ map (λ r. some (connected, (peer, (r.source_ipv4, r.source_port)))) (answer ∷ answer ∷ [])
accept_times-incoming_connections_example =
    accept_times-incoming_connections listener (answer ∷ answer ∷ []) refl refl
      (omega arith, omega arith, (omega arith, omega arith, tt))
