-- ===== src/Network/Client/Connecting.antt =====
-- sysmodule/source/network/client.cpp: `connect`, `disconnect`, `try_connect` and `send_initialize`.
use ryu_ldn_nx.Prelude.{
  ℕ, Bool, true, false, ◌&&◌, ◌||◌, not, Option, none, some, List, if◌then◌else◌, take,
}
use ryu_ldn_nx.Network.ConnectionState.{
  ConnectionState, disconnected, backoff, disconnecting, TransitionResult, is_connected,
  is_transitioning,
}
use ryu_ldn_nx.Network.ConnectionState as Machine
use ryu_ldn_nx.Network.Reconnect as Reconnect
use ryu_ldn_nx.Network.TcpInterface.{ClientResult, Message, Endpoint, ITcpClient}
use ryu_ldn_nx.Network.Client.{
  ClientOpResult, success, already_connected, invalid_state, internal_error, send_failed, Client,
  ◌>>=◌, same_state, is_sent, is_lost, process_event, notify, auto_backoff, fail_change, is_ready,
}

abbrev pub is_transition_success : TransitionResult → Bool
is_transition_success TransitionResult.success = true
is_transition_success _ = false

-- Connected, or on the way to it or from it, but not waiting to reconnect.
unfoldable pub is_busy : ConnectionState → Bool
is_busy state = (is_connected state || is_transitioning state) && not (same_state state backoff)

module _ {T : Type 0} where
  -- "Update config with new host/port", with the host cut to its block.
  unfoldable pub with_address : Client T → Option (List ℕ) → ℕ → Client T
  with_address c host port =
      let host' : List ℕ = elim host [ none ↦ c.config.host | some h ↦ take 128 h ] in
      record c { config = record c.config { host = host'; port = port } }

  unfoldable pub endpoint : Client T → Endpoint
  endpoint c = record {
    host = c.config.host;
    port = c.config.port;
    timeout_ms = c.config.connect_timeout_ms;
    use_tls = c.config.use_tls;
  }

  -- `try_connect` once the TCP client has answered.
  unfoldable pub connect_answered : Client T → ClientResult → Option (Client T)
  unfolding process_event notify auto_backoff
  connect_answered c result =
      if is_sent result
      then (do
        m ← Reconnect.reset c.reconnect_manager
        let c' = process_event c Machine.ConnectionEvent.connect_success
        some (notify (record c' { reconnect_manager = m }) c.machine.state))
      else do
        m ← Reconnect.record_failure c.reconnect_manager
        let c' = process_event c Machine.ConnectionEvent.connect_failed
        some (notify (auto_backoff (record c' { reconnect_manager = m })) c.machine.state)

  -- The end of `send_initialize` and of its first part, by what the TCP client has answered.
  unfoldable pub sent_or_failed : Client T → ClientResult → ClientOpResult × Client T
  unfolding fail_change
  sent_or_failed c result =
      if is_lost result
      then (send_failed, fail_change c Machine.ConnectionEvent.connection_lost)
      else if is_sent result
      then (success, c)
      else (send_failed, c)

module _ {T : Type 0} (I : ITcpClient T) where
  unfoldable pub try_connect : Client T → Option (Client T)
  unfolding endpoint connect_answered
  try_connect c =
      let (result, tcp) = I.connect c.tcp (endpoint c) in
      connect_answered (record c { tcp = tcp }) result

  -- `connect(host, port)` from the transition on.
  unfoldable pub begin_connect : Client T → Option (ClientOpResult × Client T)
  unfolding process_event try_connect notify
  begin_connect c =
      let (machine, result, notices) =
        Machine.process_event c.machine Machine.ConnectionEvent.connect in
      let c' = record c { machine = machine } in
      if is_transition_success result
      then (do c'' ← try_connect c'; some (success, notify c'' disconnected))
      else some (invalid_state, c')

  -- "Initialize socket system if needed", and the rest.
  unfoldable pub initialize_and_connect : Client T → Option (ClientOpResult × Client T)
  unfolding begin_connect
  initialize_and_connect c =
      let (ok, tcp) = I.initialize c.tcp in
      if c.initialized
      then begin_connect (record c { handshake_sent = false })
      else if ok
      then begin_connect (record c { tcp = tcp; initialized = true; handshake_sent = false })
      else some (internal_error, record c { tcp = tcp })

  -- `connect(host, port)`; no host stands for a null pointer.
  unfoldable pub connect_to : Client T → Option (List ℕ) → ℕ → Option (ClientOpResult × Client T)
  unfolding is_busy with_address initialize_and_connect
  connect_to c host port =
      if is_busy c.machine.state
      then some (already_connected, c)
      else initialize_and_connect (with_address c host port)

  -- `connect()`, with the host and the port of the configuration.
  unfoldable pub connect : Client T → Option (ClientOpResult × Client T)
  unfolding connect_to
  connect c = connect_to c (some c.config.host) c.config.port

  unfoldable pub disconnect : Client T → Option (Client T)
  unfolding process_event notify is_ready
  disconnect c =
      let (sent, tcp) = I.send c.tcp (Message.disconnect 0) in
      let c1 = record c { tcp = I.disconnect (if is_ready c then tcp else c.tcp) } in
      let c2 = process_event c1 Machine.ConnectionEvent.disconnect in
      let c3 =
        if same_state c2.machine.state disconnecting
        then process_event c2 Machine.ConnectionEvent.connection_lost
        else c2 in
      do
        m ← Reconnect.reset c3.reconnect_manager
        some (notify (record c3 { reconnect_manager = m; handshake_sent = false }) c.machine.state)

  unfoldable pub send_initialize : Client T → ClientOpResult × Client T
  unfolding sent_or_failed
  send_initialize c =
      let (first, tcp) = I.send c.tcp (Message.passphrase c.config.passphrase) in
      let c' = record c { tcp = tcp } in
      let (second, tcp') = I.send tcp (Message.initialize c.session_id c.mac_address) in
      if is_sent first
      then sent_or_failed (record c { tcp = tcp' }) second
      else sent_or_failed c' first
