-- ===== src/Network/Client/Moves/Connecting.antt =====
-- Where connecting, disconnecting and the start of a handshake lead.
use ryu_ldn_nx.Prelude.{
  ℕ, ◌≡◌, refl, true, false, some, Option, List, [], ◌∷◌, arith, Bool-cases, inl, inr, ap,
  if◌then◌else◌, ◌∙◌, subst, sym,
}
use ryu_ldn_nx.Network.ConnectionState.{
  ConnectionState, disconnected, connecting, connected, handshaking, ready, backoff, retrying,
  disconnecting, error, ConnectionEvent, ConnectionStateMachine, is_connected, is_transitioning,
}
use ryu_ldn_nx.Network.ConnectionState as Machine
use ryu_ldn_nx.Network.Reconnect as Reconnect
use ryu_ldn_nx.Network.TcpInterface.{ClientResult, Message, ITcpClient}
use ryu_ldn_nx.Network.Client.{ClientOpResult, already_connected, Client, process_event, same_state}
use ryu_ldn_nx.Network.Client.Connecting.{
  is_transition_success, is_busy, with_address, endpoint, connect_answered, try_connect,
  begin_connect, initialize_and_connect, connect_to, disconnect, sent_or_failed, send_initialize,
}
use ryu_ldn_nx.Network.Client.Updating.{start_handshake, retry}
use ryu_ldn_nx.Network.Client.States.{
  next, Each, Each-bind, Each-map, Each-of, if-holds, state-process_event, state-notify,
  state-notify_change, state-fail_change, state-connect_answered,
}
use ryu_ldn_nx.Network.Client.Moves.Diagram.{is_in, connects, updates}

pub process_event-connect :
    (m : ConnectionStateMachine)
    → let (m', result, notices) = Machine.process_event m ConnectionEvent.connect in
      (is_transition_success result ≡ true → (m.state ≡ disconnected) × (m'.state ≡ connecting))
      × (is_transition_success result ≡ false → m' ≡ m)
unfolding Machine.process_event
process_event-connect m = (λ e. ground arith, λ e. ground arith)

pub connects_self : (s t : ConnectionState) → t ≡ s → is_in t (connects s) ≡ true
connects_self s t e = ground arith

pub from_disconnected :
    (s t : ConnectionState)
    → s ≡ disconnected
    → is_in t (connected ∷ backoff ∷ []) ≡ true
    → is_in t (connects s) ≡ true
from_disconnected s t e h = ground arith

pub left-disconnected :
    {T : Type 0} (c : Client T)
    → (if same_state (process_event c ConnectionEvent.disconnect).machine.state disconnecting
        then process_event
            (process_event c ConnectionEvent.disconnect)
            ConnectionEvent.connection_lost
        else process_event c ConnectionEvent.disconnect).machine.state
      ≡ disconnected
unfolding next
left-disconnected c = ground (
  arith,
  state-process_event c ConnectionEvent.disconnect,
  state-process_event (process_event c ConnectionEvent.disconnect) ConnectionEvent.connection_lost,
)

pub sent_or_failed-connected :
    {T : Type 0} (c : Client T) (result : ClientResult)
    → c.machine.state ≡ connected
    → is_in (sent_or_failed c result).1.machine.state (connected ∷ backoff ∷ []) ≡ true
unfolding sent_or_failed next
sent_or_failed-connected c result s =
    ground (arith, state-fail_change c ConnectionEvent.connection_lost, s)

pub after_start :
    (s : ConnectionState)
    → is_in s (connected ∷ backoff ∷ []) ≡ true
    → (is_in (next s ConnectionEvent.handshake_started) (updates connected) ≡ true)
      × (is_in (next s ConnectionEvent.handshake_failed) (updates connected) ≡ true)
unfolding next
after_start s h = ground arith

module _ {T : Type 0} (I : ITcpClient T) where
  pub try_connect-connecting :
      (c : Client T)
      → c.machine.state ≡ connecting
      → Each (λ c'. is_in c'.machine.state (connected ∷ backoff ∷ []) ≡ true) (try_connect I c)
  unfolding try_connect next
  try_connect-connecting c s =
      let (result, tcp) = I.connect c.tcp (endpoint c) in
      Each-map (connect_answered (record c { tcp = tcp }) result)
        (state-connect_answered (record c { tcp = tcp }) result) (λ c' e. ground (arith, s, e))

  pub try_connect-retrying :
      (c : Client T)
      → c.machine.state ≡ retrying
      → Each (λ c'. is_in c'.machine.state (backoff ∷ connected ∷ []) ≡ true) (try_connect I c)
  unfolding try_connect next
  try_connect-retrying c s =
      let (result, tcp) = I.connect c.tcp (endpoint c) in
      Each-map (connect_answered (record c { tcp = tcp }) result)
        (state-connect_answered (record c { tcp = tcp }) result) (λ c' e. ground (arith, s, e))

  pub begin_connect-connects :
      (c : Client T)
      → Each (λ r. is_in r.1.machine.state (connects c.machine.state) ≡ true) (begin_connect I c)
  unfolding begin_connect
  begin_connect-connects c =
      let (entered, refused) = process_event-connect c.machine in
      elim (Bool-cases
        (is_transition_success (Machine.process_event c.machine ConnectionEvent.connect).1)) [
          | inl ok ↦ rw ok (
              Each-bind (λ c''. is_in c''.machine.state (connected ∷ backoff ∷ []) ≡ true) _
                (try_connect I _) _ (try_connect-connecting _ (entered ok).1)
                (λ c'' h. from_disconnected c.machine.state _ (entered ok).0 (
                  subst (λ t. is_in t (connected ∷ backoff ∷ []) ≡ true)
                    (sym (state-notify c'' disconnected)) h)))
          | inr bad ↦ rw bad (connects_self c.machine.state _ (ap (λ m. m.state) (refused bad)))
        ]

  pub initialize_and_connect-connects :
      (c : Client T)
      → Each
          (λ r. is_in r.1.machine.state (connects c.machine.state) ≡ true)
          (initialize_and_connect I c)
  unfolding initialize_and_connect
  initialize_and_connect-connects c =
      let P = λ (r : Option (ClientOpResult × Client T)).
        Each (λ r'. is_in r'.1.machine.state (connects c.machine.state) ≡ true) r in
      if-holds P c.initialized _ _ (begin_connect-connects _) (
        if-holds P (I.initialize c.tcp).0 _ _ (begin_connect-connects _)
          (connects_self c.machine.state _ refl))

  pub connect_to-connects :
      (c : Client T) (host : Option (List ℕ)) (port : ℕ)
      → Each
          (λ r. is_in r.1.machine.state (connects c.machine.state) ≡ true)
          (connect_to I c host port)
  unfolding connect_to with_address
  connect_to-connects c host port =
      if-holds
        (λ (r : Option (ClientOpResult × Client T)).
          Each (λ r'. is_in r'.1.machine.state (connects c.machine.state) ≡ true) r)
        (is_busy c.machine.state) (some (already_connected, c))
        (initialize_and_connect I (with_address c host port))
        (connects_self c.machine.state c.machine.state refl)
        (initialize_and_connect-connects (with_address c host port))

  pub disconnect-disconnected :
      (c : Client T) → Each (λ c'. c'.machine.state ≡ disconnected) (disconnect I c)
  unfolding disconnect
  disconnect-disconnected c =
      Each-of (λ c'. c'.machine.state ≡ disconnected) (Reconnect.reset _) _
        (λ m. state-notify _ c.machine.state ∙ left-disconnected _)

  pub send_initialize-connected :
      (c : Client T)
      → c.machine.state ≡ connected
      → is_in (send_initialize I c).1.machine.state (connected ∷ backoff ∷ []) ≡ true
  unfolding send_initialize
  send_initialize-connected c s =
      let (first, tcp) = I.send c.tcp (Message.passphrase c.config.passphrase) in
      let (second, tcp') = I.send tcp (Message.initialize c.session_id c.mac_address) in
      ground (
        arith,
        sent_or_failed-connected (record c { tcp = tcp' }) second s,
        sent_or_failed-connected (record c { tcp = tcp }) first s,
      )

  pub start_handshake-updates :
      (c : Client T) (now : ℕ)
      → c.machine.state ≡ connected
      → is_in (start_handshake I c now).machine.state (updates connected) ≡ true
  unfolding start_handshake
  start_handshake-updates c now s =
      let c' = (send_initialize I c).1 in
      let (started, failed) = after_start c'.machine.state (send_initialize-connected c s) in
      let begun = record c' { handshake_sent = true; handshake_start_time_ms = now } in
      ground (
        arith,
        started,
        failed,
        state-process_event begun ConnectionEvent.handshake_started,
        state-fail_change c' ConnectionEvent.handshake_failed,
      )

  pub retry-updates :
      (c : Client T)
      → c.machine.state ≡ backoff
      → Each (λ c'. is_in c'.machine.state (updates backoff) ≡ true) (retry I c)
  unfolding retry next
  retry-updates c s =
      let c' = process_event c ConnectionEvent.backoff_expired in
      let P = λ (d : Client T). is_in d.machine.state (backoff ∷ connected ∷ []) ≡ true in
      Each-bind P P (try_connect I c') _
        (try_connect-retrying c' (
          state-process_event c ConnectionEvent.backoff_expired
          ∙ ap (λ t. next t ConnectionEvent.backoff_expired) s))
        (λ c'' h.
          subst (λ t. is_in t (backoff ∷ connected ∷ []) ≡ true)
            (sym (state-notify_change c'' c'.machine.state)) h)
