-- ===== src/Network/Client/Branches.antt =====
-- What `connect` does to a client that waits to reconnect, and what the functions that send do.
use ryu_ldn_nx.Prelude.{
  ℕ, ◌≡◌, ◌≢◌, true, false, Bool, Option, some, List, [], ◌∷◌, ◌++◌, arith, if◌then◌else◌,
}
use ryu_ldn_nx.Network.ConnectionState.{ConnectionState, ready, backoff}
use ryu_ldn_nx.Network.ConnectionState as Machine
use ryu_ldn_nx.Network.TcpInterface.{ClientResult, Message, ITcpClient}
use ryu_ldn_nx.Network.Client.{
  success, not_ready, send_failed, invalid_state, internal_error, Client, is_sent,
}
use ryu_ldn_nx.Network.Client.Connecting.{
  connect_to, with_address, initialize_and_connect, begin_connect,
}
use ryu_ldn_nx.Network.Client.Sending.{send_with}

module _ {T : Type 0} (I : ITcpClient T) where
  begin_connect-backoff :
      (c : Client T) → c.machine.state ≡ backoff → begin_connect I c ≡ some (invalid_state, c)
  unfolding begin_connect Machine.process_event
  begin_connect-backoff c s = ground (arith, s)

  -- `connect` while the client waits to reconnect never tries to connect: it answers `invalid_state`, or
  -- `internal_error` if the sockets are not initialized and cannot be. The client keeps the new address,
  -- and, after `invalid_state`, counts its handshake as not sent; its state, its count of retries and its
  -- delay stay as they are.
  connect_to-backoff :
      (c : Client T) (host : Option (List ℕ)) (port : ℕ)
      → c.machine.state ≡ backoff
      → let (ok, tcp) = I.initialize c.tcp in
        let d = with_address c host port in
        connect_to I c host port
        ≡ some (
            if c.initialized
            then (invalid_state, record d { handshake_sent = false })
            else if ok
            then (invalid_state, record d { tcp = tcp; initialized = true; handshake_sent = false })
            else (internal_error, record d { tcp = tcp }))
  unfolding connect_to initialize_and_connect with_address
  connect_to-backoff c host port s =
      let (ok, tcp) = I.initialize c.tcp in
      let d = with_address c host port in
      ground (
        arith,
        s,
        begin_connect-backoff (record d { handshake_sent = false }) s,
        begin_connect-backoff (record d { tcp = tcp; initialized = true; handshake_sent = false })
            s,
      )

  -- A function that sends, on all its branches. A client that is not ready refuses and stays as it is. When
  -- the TCP client succeeds nothing else changes. When it fails the answer is `send_failed`, and if the
  -- failure counts as a lost connection the client waits to reconnect from then on, with the delay and the
  -- start of the wait that were there before.
  send_with_lem :
      (lost : ClientResult → Bool) (c : Client T) (message : Message)
      → let (result, tcp) = I.send c.tcp message in
        let (answer, c') = send_with I lost c message in
        (c.machine.state ≢ ready → (answer ≡ not_ready) × (c' ≡ c))
        × (c.machine.state ≡ ready
            → is_sent result ≡ true
            → (answer ≡ success) × (c' ≡ record c { tcp = tcp }))
        × (c.machine.state ≡ ready
            → is_sent result ≡ false
            → lost result ≡ false
            → (answer ≡ send_failed) × (c' ≡ record c { tcp = tcp }))
        × (c.machine.state ≡ ready
            → is_sent result ≡ false
            → lost result ≡ true
            → (answer ≡ send_failed)
              × (c'.machine.state ≡ backoff)
              × (c'.tcp ≡ tcp)
              × (c'.backoff_start_time_ms ≡ c.backoff_start_time_ms)
              × (c'.current_backoff_delay_ms ≡ c.current_backoff_delay_ms)
              × (c'.changes
                  ≡ (if c.state_callback then c.changes ++ ((ready, backoff) ∷ []) else c.changes)))
  unfolding send_with Machine.process_event
  send_with_lem lost c message =
      (λ n. ground arith, λ r ok. ground arith, λ r ok k. ground arith, λ r ok k. ground arith)
