-- ===== src/Network/Client/Joining/Dialing.antt =====
-- `connect` up to the TCP connection.
use ryu_ldn_nx.Prelude.{
  ◌<◌, ◌≡◌, refl, sym, ap, ap₂, ◌∙◌, Bool, true, false, ◌||◌, arith, Bool-cases, inl, inr,
}
use ryu_ldn_nx.Network.ConnectionState.{
  ConnectionState, disconnected, connecting, connected, handshaking, ready,
}
use ryu_ldn_nx.Network.ConnectionState as Machine
use ryu_ldn_nx.Network.TcpInterface.{ClientResult, ITcpClient}
use ryu_ldn_nx.Network.Client.{Client, notify}
use ryu_ldn_nx.Network.Client.Connecting.{
  endpoint, with_address, connect, connect_to, initialize_and_connect, begin_connect, try_connect,
  connect_answered, is_busy,
}
use ryu_ldn_nx.Network.Client.Retrying.{Returns, Returns-bind, reset-some}
use ryu_ldn_nx.Network.Client.States.{if-true, if-false}
use ryu_ldn_nx.Network.Client.Joining.{dialing, Reached, started}

module _ {T : Type 0} where
  answered-Reached :
      (c d : Client T)
      → d.machine.state ≡ connecting
      → 0 < d.reconnect_manager.config.multiplier_percent
      → Reached connecting d.tcp false c d
      → Returns (Reached connected d.tcp false c) (connect_answered d ClientResult.success)
  unfolding connect_answered Machine.process_event
  answered-Reached c d s h r =
      let (delay, e) = reset-some d.reconnect_manager h in rw e (ground (arith, s))

  notified-Reached :
      (c d : Client T) (tcp : T) (before : ConnectionState)
      → Reached connected tcp false c d
      → Reached connected tcp false c (notify d before)
  unfolding notify
  notified-Reached c d tcp before r = ground arith

not_busy : is_busy disconnected ≡ false
unfolding is_busy Machine.is_connected Machine.is_transitioning
not_busy = refl

connect-event :
    (m : Machine.ConnectionStateMachine)
    → m.state ≡ disconnected
    → ((Machine.process_event m Machine.ConnectionEvent.connect).0
        ≡ record m { state = connecting })
      × ((Machine.process_event m Machine.ConnectionEvent.connect).1
          ≡ Machine.TransitionResult.success)
unfolding Machine.process_event
connect-event m s = ground (arith, s)

module _ {T : Type 0} (I : ITcpClient T) where
  try_connect-success :
      (d : Client T) (tcp : T)
      → I.connect d.tcp (endpoint d) ≡ (ClientResult.success, tcp)
      → try_connect I d ≡ connect_answered (record d { tcp = tcp }) ClientResult.success
  unfolding try_connect
  try_connect-success d tcp up =
      ap (λ (a : ClientResult × T). connect_answered (record d { tcp = a.1 }) a.0) up

  begin_connect-Reached :
      (c d : Client T) (tcp : T)
      → d.machine.state ≡ disconnected
      → 0 < d.reconnect_manager.config.multiplier_percent
      → Reached disconnected d.tcp false c d
      → I.connect d.tcp (endpoint d) ≡ (ClientResult.success, tcp)
      → Returns (λ r. Reached connected tcp false c r.1) (begin_connect I d)
  unfolding begin_connect endpoint
  begin_connect-Reached c d tcp s h r up =
      let d' = record d { machine = record d.machine { state = connecting } } in
      let (moved, allowed) = connect-event d.machine s in
      rw (moved, allowed, try_connect-success d' tcp up)
        (Returns-bind _ _ (connect_answered (record d' { tcp = tcp }) ClientResult.success) _
          (answered-Reached c (record d' { tcp = tcp }) refl h (ground arith))
          (λ d'' a. notified-Reached c d'' tcp disconnected a))

  connect-begins :
      (c : Client T)
      → c.machine.state ≡ disconnected
      → (c.initialized || (I.initialize c.tcp).0) ≡ true
      → connect I c
        ≡ begin_connect I
            (record (dialing c) { tcp = started I c; initialized = true; handshake_sent = false })
  unfolding connect connect_to initialize_and_connect with_address
  connect-begins c s ok =
      let idle : is_busy c.machine.state ≡ false = ap is_busy s ∙ not_busy in
      let begins = λ (t : T) (b : Bool).
        begin_connect I (record (dialing c) { tcp = t; initialized = b; handshake_sent = false }) in
      elim (Bool-cases c.initialized) [
        | inl before ↦
            if-false _ _ _ idle
            ∙ if-true _ _ _ before
            ∙ ap₂ begins (sym (if-true c.initialized c.tcp (I.initialize c.tcp).1 before)) before
        | inr first ↦
            (let works : (I.initialize c.tcp).0 ≡ true =
                ap (λ b. b || (I.initialize c.tcp).0) (sym first) ∙ ok in
              if-false _ _ _ idle
              ∙ if-false _ _ _ first
              ∙ if-true _ _ _ works
              ∙ ap (λ t. begins t true)
                  (sym (if-false c.initialized c.tcp (I.initialize c.tcp).1 first)))
      ]

  pub connect-Reached :
      (c : Client T) (tcp : T)
      → c.machine.state ≡ disconnected
      → 0 < c.reconnect_manager.config.multiplier_percent
      → (c.initialized || (I.initialize c.tcp).0) ≡ true
      → I.connect (started I c) (endpoint (dialing c)) ≡ (ClientResult.success, tcp)
      → Returns (λ r. Reached connected tcp false c r.1) (connect I c)
  unfolding with_address endpoint
  connect-Reached c tcp s h ok up =
      let d = record (dialing c) {
        tcp = started I c;
        initialized = true;
        handshake_sent = false;
      } in
      rw (connect-begins c s ok) (
        begin_connect-Reached c d tcp s h
          (record {
            state_is = s;
            tcp_is = refl;
            sent_is = refl;
            same_config = refl;
            same_session = refl;
            same_mac = refl;
            same_timeout = refl;
          })
          up)
