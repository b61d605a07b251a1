-- ===== src/Network/Client/Stuck.antt =====
-- Two ways in which a client never becomes ready again.
use ryu_ldn_nx.Prelude.{
  ℕ, ◌≤◌, ◌<◌, ◌≡◌, ◌≢◌, refl, true, some, List, [], ◌∷◌, arith, leb, ◌==◌, if◌then◌else◌,
  Bool-cases, sym, inl, inr, ap, ◌∙◌, subst,
}
use ryu_ldn_nx.Network.ConnectionState.{connected, backoff, handshaking}
use ryu_ldn_nx.Network.ConnectionState as Machine
use ryu_ldn_nx.Network.TcpInterface.{ClientResult, Endpoint, ITcpClient}
use ryu_ldn_nx.Network.Client.{Client, elapsed, is_sent, is_handshake_timeout}
use ryu_ldn_nx.Network.Client.Connecting.{endpoint}
use ryu_ldn_nx.Network.Client.Receiving.{handle_handshaking_state}
use ryu_ldn_nx.Network.Client.Updating.{update_in, update}
use ryu_ldn_nx.Network.Client.Calls.{call, call_all}
use ryu_ldn_nx.Network.Client.Retrying.{
  Answered, Returns, Returns-bind, Returns-map, updates, update-backoff,
}

-- Connected, with the handshake counted as sent.
abbrev pub IsStuck : {T : Type 0} → T → Client T → Type 0
IsStuck tcp c = (c.machine.state ≡ connected) × (c.handshake_sent ≡ true) × (c.tcp ≡ tcp)

module _ {T : Type 0} (I : ITcpClient T) (rand : ℕ → ℕ) where
  update-IsStuck :
      (tcp : T) (c : Client T) (fuel now : ℕ)
      → IsStuck tcp c
      → Returns (IsStuck tcp) (update I rand fuel c now)
  unfolding update update_in
  update-IsStuck tcp c fuel now s = rw s.0 (rw s.1 (refl, refl, s.2))

  updates-IsStuck :
      (tcp : T) (c : Client T) (ticks : List (ℕ × ℕ))
      → IsStuck tcp c
      → Returns (IsStuck tcp) (call_all I rand c (updates ticks))
  unfolding call_all call
  updates-IsStuck tcp c [] s = s
  updates-IsStuck tcp c ((fuel, now) ∷ ticks) s =
      Returns-bind (IsStuck tcp) (IsStuck tcp) (update I rand fuel c now) _
        (update-IsStuck tcp c fuel now s) (λ c' s'. updates-IsStuck tcp c' ticks s')

  -- A client that has sent its handshake once, has lost the connection and waits to reconnect: when the
  -- delay is over and the TCP client connects, it is connected, but counts its handshake as sent. However
  -- long it is updated from then on, it stays connected, sends and receives nothing, and never becomes
  -- ready. The multiplier of the delay is above 0.
  pub reconnect-IsStuck :
      (c : Client T) (fuel now : ℕ) (ticks : List (ℕ × ℕ))
      → c.machine.state ≡ backoff
      → c.handshake_sent ≡ true
      → 0 < c.reconnect_manager.config.multiplier_percent
      → c.backoff_start_time_ms ≢ 0
      → c.current_backoff_delay_ms ≤ elapsed now c.backoff_start_time_ms
      → (I.connect c.tcp (endpoint c)).0 ≡ ClientResult.success
      → Returns
          (IsStuck (I.connect c.tcp (endpoint c)).1)
          (call_all I rand c (updates ((fuel, now) ∷ ticks)))
  unfolding call_all call
  reconnect-IsStuck c fuel now ticks s sent h started over ok =
      let (result, tcp) = I.connect c.tcp (endpoint c) in
      let (_, _, expired) = update-backoff I rand c fuel now s h in
      Returns-bind (Answered (record c { last_update_time_ms = now }) result tcp) (IsStuck tcp)
        (update I rand fuel c now) _ (expired started over)
        (λ c' a.
          updates-IsStuck tcp c' ticks
            (ground (arith, a.state_is, ok), a.same_sent ∙ sent, a.tcp_is))

-- A TCP client refuses to connect while it is connected, and stays as it is.
pub record RefusesConnected {T : Type 0} (I : ITcpClient T) : Type 0 where
  pub refuses :
      (t : T) (e : Endpoint)
      → I.is_connected t ≡ true
      → I.connect t e ≡ (ClientResult.already_connected, t)

-- The client waits to reconnect while its TCP client is still connected.
abbrev pub IsCaught : {T : Type 0} → ITcpClient T → T → Client T → Type 0
IsCaught I tcp c =
    (c.machine.state ≡ backoff)
    × (c.tcp ≡ tcp)
    × (0 < c.reconnect_manager.config.multiplier_percent)

module _ {T : Type 0} (I : ITcpClient T) (rand : ℕ → ℕ) (law : RefusesConnected I) (tcp : T)
    (up : I.is_connected tcp ≡ true) where
  update-handshaking :
      (c : Client T) (fuel now : ℕ)
      → c.machine.state ≡ handshaking
      → update I rand fuel c now
        ≡ some (handle_handshaking_state I rand (record c { last_update_time_ms = now }) now)
  unfolding update update_in
  update-handshaking c fuel now s =
      ap (λ st. update_in I rand st fuel (record c { last_update_time_ms = now }) now) s

  timed_out-IsCaught :
      (c : Client T) (now : ℕ)
      → c.machine.state ≡ handshaking
      → c.tcp ≡ tcp
      → 0 < c.reconnect_manager.config.multiplier_percent
      → is_handshake_timeout c now ≡ true
      → IsCaught I tcp (handle_handshaking_state I rand c now)
  unfolding handle_handshaking_state Machine.process_event
  timed_out-IsCaught c now s t h over = ground arith

  update-IsCaught :
      (c : Client T) (fuel now : ℕ)
      → IsCaught I tcp c
      → Returns (IsCaught I tcp) (update I rand fuel c now)
  update-IsCaught c fuel now s =
      let (start, wait, expired) = update-backoff I rand c fuel now s.0 s.2 in
      elim (Bool-cases (c.backoff_start_time_ms == 0)) [
        | inl z ↦ rw (start (ground arith)) s
        | inr nz ↦
            elim (Bool-cases
              (leb c.current_backoff_delay_ms (elapsed now c.backoff_start_time_ms))) [
                | inl over ↦
                    Returns-map (update I rand fuel c now) (expired (ground arith) (ground arith))
                      (λ c' a.
                        let r =
                          ap (λ t. I.connect t (endpoint c)) s.1
                          ∙ law.refuses tcp (endpoint c) up in
                        (
                          a.state_is ∙ ap (λ p. if is_sent p.0 then connected else backoff) r,
                          a.tcp_is ∙ ap (λ p. p.1) r,
                          subst (λ m. 0 < m.multiplier_percent) (sym a.same_settings) s.2,
                        ))
                | inr early ↦ rw (wait (ground arith) (ground arith)) s
              ]
      ]

  timeout-IsCaught :
      (c : Client T) (fuel now : ℕ)
      → c.machine.state ≡ handshaking
      → c.tcp ≡ tcp
      → 0 < c.reconnect_manager.config.multiplier_percent
      → is_handshake_timeout c now ≡ true
      → Returns (IsCaught I tcp) (update I rand fuel c now)
  unfolding is_handshake_timeout
  timeout-IsCaught c fuel now s t h over =
      subst (Returns (IsCaught I tcp)) (sym (update-handshaking c fuel now s))
        (timed_out-IsCaught (record c { last_update_time_ms = now }) now s t h over)

  updates-IsCaught :
      (c : Client T) (ticks : List (ℕ × ℕ))
      → IsCaught I tcp c
      → Returns (IsCaught I tcp) (call_all I rand c (updates ticks))
  unfolding call_all call
  updates-IsCaught c [] s = s
  updates-IsCaught c ((fuel, now) ∷ ticks) s =
      Returns-bind (IsCaught I tcp) (IsCaught I tcp) (update I rand fuel c now) _
        (update-IsCaught c fuel now s) (λ c' s'. updates-IsCaught c' ticks s')

  -- A client whose handshake has timed out keeps its connection. When the TCP client refuses to connect
  -- while it is connected, then, however long the client is updated, it waits to reconnect, its TCP
  -- client stays as it is, and no new connection is made. The multiplier of the delay is above 0.
  pub handshake_timeout-IsCaught :
      (c : Client T) (fuel now : ℕ) (ticks : List (ℕ × ℕ))
      → c.machine.state ≡ handshaking
      → c.tcp ≡ tcp
      → 0 < c.reconnect_manager.config.multiplier_percent
      → is_handshake_timeout c now ≡ true
      → Returns (IsCaught I tcp) (call_all I rand c (updates ((fuel, now) ∷ ticks)))
  unfolding call_all call
  handshake_timeout-IsCaught c fuel now ticks s t h over =
      Returns-bind (IsCaught I tcp) (IsCaught I tcp) (update I rand fuel c now) _
        (timeout-IsCaught c fuel now s t h over) (λ c' s'. updates-IsCaught c' ticks s')
