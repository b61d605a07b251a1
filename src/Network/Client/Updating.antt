-- ===== src/Network/Client/Updating.antt =====
-- sysmodule/source/network/client.cpp: `update` and `handle_ready_state`.
use ryu_ldn_nx.Prelude.{
  ℕ, ◌+◌, ◌%◌, ◌^◌, Bool, true, ◌&&◌, Option, some, [], ◌∷◌, ◌++◌, ltb, leb, if◌then◌else◌,
}
use ryu_ldn_nx.Network.ConnectionState.{
  ConnectionState, disconnected, connecting, connected, handshaking, ready, backoff, retrying,
  disconnecting, error, ConnectionEvent,
}
use ryu_ldn_nx.Network.TcpInterface.{ITcpClient}
use ryu_ldn_nx.Network.Client.{
  Client, ◌>>=◌, elapsed, is_op_success, process_event, notify, notify_change, fail, fail_change,
  is_backoff_expired,
}
use ryu_ldn_nx.Network.Client.Connecting.{try_connect, send_initialize}
use ryu_ldn_nx.Network.Client.Receiving.{process_packets, handle_handshaking_state}
use ryu_ldn_nx.Network.Client.Sending.{send_ping}

module _ {T : Type 0} where
  -- Whether a ping has waited too long for its answer, and whether the next one is due.
  unfoldable pub is_overdue : Client T → ℕ → Bool
  is_overdue c waited =
      ltb 0 c.pending_ping_count && (ltb 0 c.ping_timeout_ms && leb c.ping_timeout_ms waited)

  unfoldable pub is_due : Client T → ℕ → Bool
  is_due c waited = ltb 0 c.config.ping_interval_ms && leb c.config.ping_interval_ms waited

module _ {T : Type 0} (I : ITcpClient T) where
  -- `case Connected`.
  unfoldable pub start_handshake : Client T → ℕ → Client T
  unfolding send_initialize process_event fail_change
  start_handshake c now =
      let (result, c') = send_initialize I c in
      if is_op_success result
      then (let started =
            process_event (record c' { handshake_sent = true; handshake_start_time_ms = now })
              ConnectionEvent.handshake_started in
          if started.state_callback
          then record started { changes = started.changes ++ ((connected, handshaking) ∷ []) }
          else started)
      else fail_change c' ConnectionEvent.handshake_failed

  -- The ping that is due: its time and the count of pings that wait change when it has gone out.
  unfoldable pub ping : Client T → ℕ → Client T
  unfolding send_ping
  ping c now =
      let (result, c') = send_ping I c in
      if is_op_success result
      then record c' {
        last_ping_time_ms = now;
        pending_ping_count = (c'.pending_ping_count + 1) % 2 ^ 32;
      }
      else c'

  -- `handle_ready_state` once the packets are processed: the ping's timeout, and the next ping.
  unfoldable pub keep_alive : Client T → ℕ → Client T
  unfolding is_overdue is_due fail ping
  keep_alive c now =
      if is_overdue c (elapsed now c.last_ping_time_ms)
      then fail c ConnectionEvent.connection_lost
      else if is_due c (elapsed now c.last_ping_time_ms)
      then ping c now
      else c

  unfoldable pub handle_ready_state : ℕ → Client T → ℕ → Option (Client T)
  unfolding process_packets keep_alive
  handle_ready_state fuel c now = do c' ← process_packets I fuel c; some (keep_alive c' now)

  -- `case Backoff` once the delay is over.
  unfoldable pub retry : Client T → Option (Client T)
  unfolding process_event try_connect notify_change
  retry c =
      let c' = process_event c ConnectionEvent.backoff_expired in
      do c'' ← try_connect I c'; some (notify_change c'' c'.machine.state)

  unfoldable pub wait_backoff : Client T → ℕ → Option (Client T)
  unfolding is_backoff_expired retry
  wait_backoff c now =
      let (expired, c') = is_backoff_expired c now in if expired then retry c' else some c'

module _ {T : Type 0} (I : ITcpClient T) (rand : ℕ → ℕ) where
  -- The `switch` of `update`.
  unfoldable pub update_in : ConnectionState → ℕ → Client T → ℕ → Option (Client T)
  unfolding start_handshake handle_handshaking_state handle_ready_state wait_backoff process_event
      notify
  update_in disconnected fuel c now = some c
  update_in connecting fuel c now = some c
  update_in retrying fuel c now = some c
  update_in connected fuel c now = some (if c.handshake_sent then c else start_handshake I c now)
  update_in handshaking fuel c now = some (handle_handshaking_state I rand c now)
  update_in ready fuel c now = handle_ready_state I fuel c now
  update_in backoff fuel c now = wait_backoff I c now
  update_in disconnecting fuel c now =
      some (notify (process_event c ConnectionEvent.connection_lost) disconnecting)
  update_in error fuel c now = some c

  -- `fuel` is for the loop that receives packets.
  unfoldable pub update : ℕ → Client T → ℕ → Option (Client T)
  unfolding update_in
  update fuel c now = update_in c.machine.state fuel (record c { last_update_time_ms = now }) now
