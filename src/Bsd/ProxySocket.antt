-- ===== src/Bsd/ProxySocket.antt =====
-- sysmodule/source/bsd/proxy_socket.hpp and proxy_socket.cpp: a socket of a game whose traffic goes
-- over the LDN network. This file has its state and its connections; Transfer has what carries data.
-- The messages that a call hands to the manager are part of its result, and what the manager answers
-- is an argument. The map `m_socket_options`, which no code uses, is left out.
pub mod Transfer
pub mod Queue
pub mod Mailbox
pub mod Lifecycle
pub mod Connecting
pub mod Accepting
mod Tests
use ryu_ldn_nx.Prelude.{
  ℕ, Bool, true, false, not, ◌&&◌, ◌||◌, Option, none, some, List, [], ◌∷◌, ◌++◌, ◌==◌,
  if◌then◌else◌, replicate,
}
use ryu_ldn_nx.Bsd.EphemeralPortPool.{ProtocolType, tcp}
use ryu_ldn_nx.Bsd.Types.{
  SocketType, stream, dgram, raw, seqpacket, ShutdownHow, read, write, both, other, SockAddrIn,
  inet, sock_addr_in_size, bswap16, bswap32, get_port, get_addr, is_protocol, is_stream,
  ProxyMessage, proxy_connect, proxy_connect_reply, proxy_disconnect, BsdErrno, success, bad_f,
  fault, inval, no_proto_opt, op_not_supp, af_no_support, net_unreach, not_conn, timed_out,
  conn_refused, in_progress,
}
use ryu_ldn_nx.Ldn.ProxyHandler.{ProxyInfo}

-- `PROXY_SOCKET_MAX_QUEUE_SIZE` and `PROXY_SOCKET_MAX_PAYLOAD`.
abbrev pub max_queue_size : ℕ
max_queue_size = 64

abbrev pub max_payload : ℕ
max_payload = 2000

pub data ProxySocketState : Type 0 where
  created bound connecting connected listening closed : ProxySocketState

abbrev pub state_number : ProxySocketState → ℕ
state_number created = 0
state_number bound = 1
state_number connecting = 2
state_number connected = 3
state_number listening = 4
state_number closed = 5

abbrev pub is_state : ProxySocketState → ProxySocketState → Bool
is_state a b = state_number a == state_number b

pub record ReceivedPacket : Type 0 where
  pub from : SockAddrIn
  pub len : ℕ  -- uint16_t
  pub payload : List ℕ  -- max_payload bytes

-- A socket that waits to be accepted: `make_unique<ProxySocket>` of the listener's type and protocol
-- with these addresses, in the state Connected.
pub record Accepted : Type 0 where
  pub local_addr : SockAddrIn
  pub remote_addr : SockAddrIn

pub record ProxySocket : Type 0 where
  pub type : SocketType
  pub protocol : ProtocolType
  pub state : ProxySocketState
  pub non_blocking : Bool
  pub shutdown_read : Bool
  pub shutdown_write : Bool
  pub local_addr : SockAddrIn
  pub remote_addr : SockAddrIn
  pub rx_ring : List ReceivedPacket
  pub rx_head : ℕ
  pub rx_tail : ℕ
  pub rx_count : ℕ
  pub receive_event : Bool  -- whether the event is signalled, as for the two below
  pub accept_queue : List Accepted
  pub accept_event : Bool
  pub connect_response_received : Bool
  pub connect_response : ProxyInfo
  pub connect_event : Bool
  pub broadcast : Bool

abbrev pub zero_addr : SockAddrIn
zero_addr = record { sin_len = 0; sin_family = 0; sin_port = 0; sin_addr = 0 }

abbrev pub any_addr : SockAddrIn
any_addr = record zero_addr { sin_family = inet; sin_len = sock_addr_in_size }

abbrev pub zero_info : ProxyInfo
zero_info = record { source_ipv4 = 0; source_port = 0; dest_ipv4 = 0; dest_port = 0; protocol = 0 }

abbrev pub empty_packet : ReceivedPacket
empty_packet = record { from = zero_addr; len = 0; payload = replicate max_payload 0 }

unfoldable pub new : SocketType → ProtocolType → ProxySocket
new type protocol = record {
  type = type;
  protocol = protocol;
  state = created;
  non_blocking = false;
  shutdown_read = false;
  shutdown_write = false;
  local_addr = any_addr;
  remote_addr = any_addr;
  rx_ring = replicate max_queue_size empty_packet;
  rx_head = 0;
  rx_tail = 0;
  rx_count = 0;
  receive_event = false;
  accept_queue = [];
  accept_event = false;
  connect_response_received = false;
  connect_response = zero_info;
  connect_event = false;
  broadcast = false;
}

unfoldable pub bind : ProxySocket → SockAddrIn → ProxySocket × BsdErrno
bind s addr =
    if not (is_state s.state created)
    then (s, inval)
    else if not (addr.sin_family == inet)
    then (s, af_no_support)
    else (record s { local_addr = addr; state = bound }, success)

unfoldable pub handle_connect_response : ProxySocket → ProxyInfo → ProxySocket
handle_connect_response s response = record s {
  connect_response = response;
  connect_response_received = true;
  connect_event = true;
}

-- The responses that arrive while `Connect` waits.
unfoldable pub handle_connect_responses : ProxySocket → List ProxyInfo → ProxySocket
unfolding handle_connect_response
handle_connect_responses s [] = s
handle_connect_responses s (r ∷ rs) = handle_connect_responses (handle_connect_response s r) rs

-- The end of a blocking `Connect` on a stream, after its wait.
unfoldable pub finish_connect : ProxySocket → ProxySocket × BsdErrno
finish_connect s =
    if not s.connect_event || not s.connect_response_received
    then (record s { state = bound }, timed_out)
    else if not (s.connect_response.protocol == 0)
    then (record s { state = bound }, conn_refused)
    else (record s { state = connected }, success)

abbrev pub connect_message : ProxySocket → SockAddrIn → ProxyMessage
connect_message s addr =
    proxy_connect (get_addr s.local_addr) (get_port s.local_addr) (get_addr addr) (get_port addr)
      s.protocol

unfoldable pub start_connecting : ProxySocket → ProxySocket
start_connecting s = record s {
  state = connecting;
  connect_response_received = false;
  connect_event = false;
}

-- `Connect` on a stream, from its second half on. `send` says whether the manager sends the message,
-- `responses` arrive during the wait of four seconds.
unfoldable pub connect_stream :
    (ProxyMessage → Bool) → List ProxyInfo → ProxySocket → SockAddrIn → ProxySocket × BsdErrno
unfolding finish_connect
connect_stream send responses s addr =
    let s' = start_connecting s in
    if not (send (connect_message s addr))
    then (record s' { state = bound }, net_unreach)
    else if s.non_blocking
    then (s', in_progress)
    else finish_connect (handle_connect_responses s' responses)

unfoldable pub connect :
    (ProxyMessage → Bool) → List ProxyInfo → ProxySocket → SockAddrIn → ProxySocket × BsdErrno
unfolding connect_stream
connect send responses s addr =
    if is_state s.state closed
    then (s, bad_f)
    else if not (addr.sin_family == inet)
    then (s, af_no_support)
    else let s' : ProxySocket = record s { remote_addr = addr } in
      if is_stream s.type
      then connect_stream send responses s' addr
      else (record s' { state = connected }, success)

-- `GetSockName` and `GetPeerName`: the flag says whether the output is a null pointer.
unfoldable pub get_sock_name : ProxySocket → Bool → Option SockAddrIn × BsdErrno
get_sock_name s null =
    if null
    then (none, fault)
    else if is_state s.state created
    then (some any_addr, success)
    else (some s.local_addr, success)

unfoldable pub get_peer_name : ProxySocket → Bool → Option SockAddrIn × BsdErrno
get_peer_name s null =
    if null
    then (none, fault)
    else if not (is_state s.state connected)
    then (none, not_conn)
    else (some s.remote_addr, success)

unfoldable pub listen : ProxySocket → ProxySocket × BsdErrno
listen s =
    if not (is_stream s.type)
    then (s, op_not_supp)
    else if is_state s.state created
    then (s, inval)
    else (record s { state = listening }, success)

-- The socket that `Accept` hands out.
unfoldable pub accepted_socket : ProxySocket → Accepted → ProxySocket
unfolding new
accepted_socket s a = record (new s.type s.protocol) {
  local_addr = a.local_addr;
  remote_addr = a.remote_addr;
  state = connected;
}

abbrev pub is_empty {ℓ} : {A : Type ℓ} → List A → Bool
is_empty [] = true
is_empty (x ∷ xs) = false

-- `accept_queue.pop_front()` in `Accept`, and what it returns.
unfoldable pub pop_from : ProxySocket → List Accepted → ProxySocket × Option ProxySocket
pop_from s [] = (s, none)
pop_from s (a ∷ rest) = (
  record s { accept_queue = rest; accept_event = if is_empty rest then false else s.accept_event },
  some (accepted_socket s a),
)

unfoldable pub pop_accepted : ProxySocket → ProxySocket × Option ProxySocket
unfolding pop_from
pop_accepted s = pop_from s s.accept_queue

unfoldable pub incoming_connection : ProxySocket → ProxyInfo → ProxySocket × List ProxyMessage
incoming_connection s request =
    let remote : SockAddrIn = record any_addr {
      sin_addr = bswap32 request.source_ipv4;
      sin_port = bswap16 request.source_port;
    } in
    let a : Accepted = record { local_addr = s.local_addr; remote_addr = remote } in
    if not (is_state s.state listening) then (s, []) else (
      record s { accept_queue = s.accept_queue ++ (a ∷ []); accept_event = true },
      proxy_connect_reply (get_addr s.local_addr) (get_port s.local_addr) request.source_ipv4
            request.source_port tcp
          ∷ [],
    )

-- `requests` arrive while a blocking `Accept` waits.
unfoldable pub incoming_connections : ProxySocket → List ProxyInfo → ProxySocket × List ProxyMessage
unfolding incoming_connection
incoming_connections s [] = (s, [])
incoming_connections s (r ∷ rs) =
    let (s', replies) = incoming_connection s r in
    let (s'', later) = incoming_connections s' rs in (s'', replies ++ later)

unfoldable pub accept :
    ProxySocket → List ProxyInfo → ProxySocket × (Option ProxySocket × List ProxyMessage)
unfolding pop_accepted
accept s requests =
    if not (is_state s.state listening)
    then (s, (none, []))
    else if is_empty s.accept_queue
    then (if s.non_blocking
        then (s, (none, []))
        else let (s', replies) = incoming_connections s requests in
          let (s'', a) = pop_accepted s' in (s'', (a, replies)))
    else (let (s', a) = pop_accepted s in (s', (a, [])))

unfoldable pub has_pending_connections : ProxySocket → Bool
has_pending_connections s = not (is_empty s.accept_queue)

unfoldable pub shutdown : ProxySocket → ShutdownHow → ProxySocket × BsdErrno
shutdown s read = (record s { shutdown_read = true; receive_event = true }, success)
shutdown s write = (record s { shutdown_write = true; receive_event = true }, success)
shutdown s both =
    (record s { shutdown_read = true; shutdown_write = true; receive_event = true }, success)
shutdown s (other n) = (s, inval)

unfoldable pub close : ProxySocket → ProxySocket × List ProxyMessage
close s = (
  record s {
    state = closed;
    shutdown_read = true;
    shutdown_write = true;
    receive_event = true;
    rx_head = 0;
    rx_tail = 0;
    rx_count = 0;
  },
  if is_protocol s.protocol tcp && not (get_port s.remote_addr == 0)
      then proxy_disconnect (get_addr s.local_addr) (get_port s.local_addr) (get_addr s.remote_addr)
          (get_port s.remote_addr) tcp
        ∷ []
      else [],
)

unfoldable pub set_non_blocking : ProxySocket → Bool → ProxySocket
set_non_blocking s on = record s { non_blocking = on }

-- `SetSockOpt`: level, option and value, the value being absent when it is null or too short. SO_BROADCAST
-- alone has an effect.
unfoldable pub set_sock_opt : ProxySocket → ℕ → ℕ → Option ℕ → ProxySocket × BsdErrno
set_sock_opt s level optname value =
    if (level == 65535) && (optname == 32)
    then elim value [
      | some v ↦ (record s { broadcast = not (v == 0) }, success)
      | none ↦ (s, inval)
    ]
    else (s, success)

-- `GetSockOpt`: whether the outputs are null, and whether four bytes fit. SO_TYPE, SO_ERROR and
-- SO_BROADCAST have a value.
abbrev pub type_number : SocketType → ℕ
type_number stream = 1
type_number dgram = 2
type_number raw = 3
type_number seqpacket = 5

unfoldable pub get_sock_opt : ProxySocket → ℕ → ℕ → Bool → Bool → Option ℕ × BsdErrno
get_sock_opt s level optname null fits =
    let answer : ℕ → Option ℕ × BsdErrno =
      λ v. if fits then (some v, success) else (none, no_proto_opt) in
    if null
    then (none, fault)
    else if not (level == 65535)
    then (none, no_proto_opt)
    else if optname == 4104
    then answer (type_number s.type)
    else if optname == 4103
    then answer 0
    else if optname == 32
    then answer (if s.broadcast then 1 else 0)
    else (none, no_proto_opt)
