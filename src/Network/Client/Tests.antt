-- ===== src/Network/Client/Tests.antt =====
-- Examples of the theorems on the network client, over `TcpClient` with an empty receive buffer.
use ryu_ldn_nx.Prelude.{ℕ, ◌≤◌, ◌≡◌, ◌≢◌, ◌<◌, refl, true, false, Bool, some, List, [], ◌∷◌, arith}
use ryu_ldn_nx.Protocol.Header.{sync_network, code}
use ryu_ldn_nx.Prelude.{concat, take, ◌++◌}
use ryu_ldn_nx.Protocol.Header.{initialize, header_bytes}
use ryu_ldn_nx.Protocol.Codec.{packet_header}
use ryu_ldn_nx.Protocol.Codec.RoundTrip.{packet}
use ryu_ldn_nx.Protocol.PacketBuffer as Buffer
use ryu_ldn_nx.Protocol.PacketBuffer.Contents.{new-IsValid}
use ryu_ldn_nx.Network.TcpClient.Filling.{chunks}
use ryu_ldn_nx.Network.TcpClient.Joining.{Greeted, tcp_client-ready}
use ryu_ldn_nx.Network.ConnectionState.{
  ConnectionState, disconnected, connected, handshaking, ready, backoff,
}
use ryu_ldn_nx.Network.Reconnect.{ReconnectConfig}
use ryu_ldn_nx.Network.Socket.{SocketResult, Socket}
use ryu_ldn_nx.Network.Socket.Connecting.{Dial}
use ryu_ldn_nx.Network.TcpInterface.{ClientResult, ITcpClient}
use ryu_ldn_nx.Network.TcpClient.{TcpClient}
use ryu_ldn_nx.Network.TcpClient as Tcp
use ryu_ldn_nx.Network.Socket.Connecting as Sock
use ryu_ldn_nx.Network.Client as Net
use ryu_ldn_nx.Network.Client.Receiving as Recv
use ryu_ldn_nx.Network.Client.Updating as Upd
use ryu_ldn_nx.Network.TcpClient.Interface.{
  tcp_client, tcp_client-RefusesConnected, tcp_client-Finite, pending,
}
use ryu_ldn_nx.Network.Client.{
  ClientOpResult, Client, elapsed, is_sent, is_lost, is_handshake_timeout,
}
use ryu_ldn_nx.Network.Client.Connecting.{endpoint}
use ryu_ldn_nx.Network.Client.Calls.{Call, call, call_all}
use ryu_ldn_nx.Network.Client.Updating.{update}
use ryu_ldn_nx.Network.Client.Retrying.{Returns, Answered, updates, update-backoff}
use ryu_ldn_nx.Network.Client.Stuck.{
  IsStuck, IsCaught, reconnect-IsStuck, handshake_timeout-IsCaught,
}
use ryu_ldn_nx.Network.Client.Draining.{update-total}
use ryu_ldn_nx.Network.ConnectionState as Machine
use ryu_ldn_nx.Network.Client.Readiness.{IsUpdate, Accepted, call-ready}

abbrev tcp : Bool → TcpClient
tcp up = record {
  initialized = true;
  socket = record { connected = up; use_tls = false };
  recv_buffer = record { buffer = []; write_pos = 0 };
  send_buffer = [];
  send_queue = record { packets = []; size = 0 };
  send_thread_running = up;
  send_thread_was_started = up;
  arrivals = [];
}

abbrev defaults : ReconnectConfig
defaults = record {
  initial_delay_ms = 1000;
  max_delay_ms = 30000;
  multiplier_percent = 200;
  jitter_percent = 10;
  max_retries = 3;
  fast_retries = 1;
  fast_delay_ms = 200;
}

abbrev client : {T : Type 0} → ConnectionState → T → Client T
client state t = record {
  config = record {
    host = 104 ∷ [];
    port = 30456;
    connect_timeout_ms = 5000;
    recv_timeout_ms = 20;
    ping_interval_ms = 0;
    reconnect = defaults;
    auto_reconnect = false;
    passphrase = [];
    use_tls = false;
  };
  tcp = t;
  machine = record { state = state; callback = false; retry_count = 0 };
  reconnect_manager = record { config = defaults; retry_count = 7; current_delay_ms = 200 };
  state_callback = true;
  packet_callback = true;
  last_ping_time_ms = 0;
  backoff_start_time_ms = 1000;
  current_backoff_delay_ms = 200;
  last_update_time_ms = 1000;
  session_id = [];
  mac_address = [];
  handshake_sent = true;
  initialized = true;
  handshake_start_time_ms = 1000;
  handshake_timeout_ms = 5000;
  last_error_code = 0;
  last_pong_time_ms = 0;
  ping_timeout_ms = 10000;
  pending_ping_count = 0;
  ping_id = 0;
  backoff_counter = 0;
  rand_calls = 0;
  changes = [];
  packets = [];
}

abbrev sends_all : Socket → List ℕ → SocketResult × Socket
sends_all s bytes = (SocketResult.success, s)

abbrev constant : ℕ → ℕ
constant n = 7

-- Every try to connect succeeds.
abbrev interface : ITcpClient TcpClient
interface = tcp_client true (λ e. Dial.up) true sends_all 0

-- A TCP client that hands over a `SyncNetwork` packet whenever it is asked.
abbrev syncing : ITcpClient (Unit {0})
syncing = record {
  initialize = λ t. (true, t);
  connect = λ t e. (ClientResult.success, t);
  disconnect = λ t. t;
  is_connected = λ t. true;
  send = λ t m. (ClientResult.success, t);
  receive_packet = λ t size timeout. (
    record {
      result = ClientResult.success;
      id = code sync_network;
      payload = [];
      payload_size = 0;
    },
    t,
  );
}

abbrev waiting : Client TcpClient
waiting = client backoff (tcp false)

update-backoff_example :
    (waiting.backoff_start_time_ms ≡ 0
      → update interface constant 1 waiting 1200
        ≡ some (record waiting { last_update_time_ms = 1200; backoff_start_time_ms = 1200 }))
    × (waiting.backoff_start_time_ms ≢ 0
        → elapsed 1200 waiting.backoff_start_time_ms < waiting.current_backoff_delay_ms
        → update interface constant 1 waiting 1200
          ≡ some (record waiting { last_update_time_ms = 1200 }))
    × (waiting.backoff_start_time_ms ≢ 0
        → waiting.current_backoff_delay_ms ≤ elapsed 1200 waiting.backoff_start_time_ms
        → let (result, t) = interface.connect waiting.tcp (endpoint waiting) in
          Returns
            (Answered (record waiting { last_update_time_ms = 1200 }) result t)
            (update interface constant 1 waiting 1200))
update-backoff_example = update-backoff interface constant waiting 1 1200 refl (omega arith)

-- The connection of `interface` succeeds.
waiting-connects : (interface.connect waiting.tcp (endpoint waiting)).0 ≡ ClientResult.success
unfolding endpoint Tcp.connect_with Tcp.connect_answered Sock.connect Sock.dialed
waiting-connects = refl

reconnect-IsStuck_example :
    Returns
      (IsStuck (interface.connect waiting.tcp (endpoint waiting)).1)
      (call_all interface constant waiting (updates ((1, 1200) ∷ (1, 1300) ∷ [])))
reconnect-IsStuck_example =
    reconnect-IsStuck interface constant waiting 1 1200 ((1, 1300) ∷ []) refl refl (omega arith)
      (omega arith) (omega arith) waiting-connects

abbrev shaking : Client TcpClient
shaking = client handshaking (tcp true)

shaking-timeout : is_handshake_timeout shaking 6000 ≡ true
unfolding is_handshake_timeout
shaking-timeout = refl

handshake_timeout-IsCaught_example :
    Returns
      (IsCaught interface (tcp true))
      (call_all interface constant shaking (updates ((1, 6000) ∷ (1, 9000) ∷ [])))
handshake_timeout-IsCaught_example =
    handshake_timeout-IsCaught interface constant
      (tcp_client-RefusesConnected true (λ e. Dial.up) true sends_all 0) (tcp true) refl shaking 1
      6000 ((1, 9000) ∷ []) refl refl (omega arith) shaking-timeout

update-total_example :
    (c' : Client TcpClient) × (update interface constant 1 (client ready (tcp true)) 5 ≡ some c')
update-total_example =
    update-total interface pending (tcp_client-Finite true (λ e. Dial.up) true sends_all 0) constant
      (client ready (tcp true)) 1 5 (omega arith) (omega arith)

abbrev pinging : Client TcpClient
pinging = client ready (tcp true)

abbrev greeting : Client (Unit {0})
greeting = client handshaking tt

greeted : Client (Unit {0})
greeted = record greeting {
  machine = record { state = ready; callback = false; retry_count = 0 };
  last_update_time_ms = 2000;
  changes = (handshaking, ready) ∷ (handshaking, ready) ∷ [];
}

greeting-greeted : call syncing constant greeting (Call.update 1 2000) ≡ some greeted
unfolding call update greeted Machine.process_event Upd.update_in Recv.handle_handshaking_state
    Recv.handshake_received Recv.process_handshake_response Recv.succeed is_handshake_timeout code
    Net.process_event Net.notify Net.notify_change
greeting-greeted = refl

call-ready_example :
    IsUpdate (Call.update 1 2000)
    × (greeting.machine.state ≡ handshaking)
    × Accepted syncing constant greeting
call-ready_example =
    call-ready syncing constant greeting greeted (Call.update 1 2000) greeting-greeted (λ e. cc)
      (unfold greeted in refl)

-- An `Initialize` packet in two chunks, with the first byte of the next packet.
abbrev ids : List ℕ
ids =
    1 ∷ 2 ∷ 3 ∷ 4 ∷ 5 ∷ 6 ∷ 7 ∷ 8 ∷ 9 ∷ 10 ∷ 11 ∷ 12 ∷ 13 ∷ 14 ∷ 15 ∷ 16 ∷ 2 ∷ 0 ∷ 94 ∷ 0 ∷ 83 ∷ 1
    ∷ []

abbrev hello : List (List ℕ)
hello = (82 ∷ 76 ∷ 68 ∷ 78 ∷ 0 ∷ []) ∷ (1 ∷ 0 ∷ 0 ∷ 22 ∷ 0 ∷ 0 ∷ 0 ∷ (ids ++ (82 ∷ []))) ∷ []

hello-packet : concat hello ≡ packet initialize ids ++ (82 ∷ [])
unfolding header_bytes packet_header code
hello-packet = refl

abbrev unused : Client TcpClient
unused =
    record (client disconnected
      (record (tcp false) { recv_buffer = Buffer.new 8192; arrivals = chunks hello })) {
        initialized = false;
        session_id = take 16 ids;
        mac_address = take 6 ids;
      }

tcp_client-ready_example :
    Returns (Greeted ids (82 ∷ [])) (
      call_all interface constant unused
        (Call.connect ∷ Call.update 1 100 ∷ Call.update 1 200 ∷ []))
tcp_client-ready_example =
    tcp_client-ready (λ e. Dial.up) sends_all 0 (λ s bytes. refl) constant unused hello ids
      (82 ∷ []) 1 100 1 200 refl refl (omega arith) refl refl (omega arith) refl (new-IsValid 8192)
      refl (omega arith) hello-packet (omega arith) (omega arith) (omega arith)
