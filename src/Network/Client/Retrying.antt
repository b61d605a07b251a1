-- ===== src/Network/Client/Retrying.antt =====
-- What becomes of a client that waits to reconnect.
use ryu_ldn_nx.Prelude.{
  ℕ, zero, suc, ◌+◌, ◌-◌, ◌*◌, ◌%◌, ◌^◌, ◌≤◌, ◌<◌, ◌≡◌, ◌≢◌, refl, some, none, Option, List, [],
  ◌∷◌, arith, ltb, if◌then◌else◌, ap, Bool-cases, inl, inr,
}
use ryu_ldn_nx.Network.ConnectionState.{ConnectionState, connected, backoff, retrying}
use ryu_ldn_nx.Network.ConnectionState as Machine
use ryu_ldn_nx.Network.Reconnect.{
  ReconnectConfig, ReconnectManager, delay_for, record_failure, reset,
}
use ryu_ldn_nx.Network.Reconnect as Reconnect
use ryu_ldn_nx.Network.TcpInterface.{ClientResult, ITcpClient}
use ryu_ldn_nx.Network.Client.{
  Client, ◌>>=◌, elapsed, is_sent, is_backoff_expired, process_event, notify_change,
}
use ryu_ldn_nx.Network.Client.Connecting.{endpoint, connect_answered, try_connect}
use ryu_ldn_nx.Network.Client.Updating.{retry, wait_backoff, update_in, update}
use ryu_ldn_nx.Network.Client.Calls.{Call}

-- Without a division by zero there is a delay.
backoff-some :
    (c : ReconnectConfig) (rounds delay : ℕ)
    → 0 < c.multiplier_percent
    → (d : ℕ) × (Reconnect.backoff c rounds delay ≡ some d)
unfolding Reconnect.backoff
backoff-some c zero delay h = (delay, refl)
backoff-some c (suc rounds) delay h =
    let (d, e) = backoff-some c rounds (Reconnect.grow c delay).0 h in
    elim (Bool-cases (Reconnect.grow c delay).1) [
      | inl done ↦ ((Reconnect.grow c delay).0, ground arith)
      | inr more ↦ (d, ground arith)
    ]

delay_for-some :
    (c : ReconnectConfig) (n : ℕ) → 0 < c.multiplier_percent → (d : ℕ) × (delay_for c n ≡ some d)
unfolding delay_for
delay_for-some c n h =
    let (d, e) = backoff-some c (n - c.fast_retries) c.initial_delay_ms h in
    elim (Bool-cases (ltb n c.fast_retries)) [
      | inl fast ↦ (c.fast_delay_ms, ground arith)
      | inr slow ↦ (d, ground arith)
    ]

-- How the retry count goes on after a failure.
abbrev pub bump : ℕ → ℕ
bump n = if ltb n (2 ^ 32 - 1) then n + 1 else n

-- A predicate on a result that has to be there.
abbrev pub Returns : {A : Type 0} → (A → Type 0) → Option A → Type 0
Returns P none = ⊥
Returns P (some a) = P a

pub reset-some :
    (m : ReconnectManager)
    → 0 < m.config.multiplier_percent
    → (d : ℕ) × (reset m ≡ some (record m { retry_count = 0; current_delay_ms = d }))
unfolding reset
reset-some m h = let (d, e) = delay_for-some m.config 0 h in (d, ground (arith, e))

record_failure-some :
    (m : ReconnectManager)
    → 0 < m.config.multiplier_percent
    → (d : ℕ) × (record_failure m
        ≡ some (record m { retry_count = bump m.retry_count; current_delay_ms = d }))
      × (delay_for m.config (bump m.retry_count) ≡ some d)
unfolding record_failure
record_failure-some m h =
    let (d, e) = delay_for-some m.config (bump m.retry_count) h in (d, ground (arith, e), e)

-- The seed that `start_backoff` hashes, by the retries and by how often it has run.
abbrev pub seed : ℕ → ℕ → ℕ
seed retries counter = ((retries + 1) * 2654435761 + counter * 40503) % 2 ^ 32

-- The timer of a client after a failed try: with `auto_reconnect` it starts now, with the delay of the
-- retries made so far, spread by a new seed; without it nothing changes.
abbrev pub Waits : {T : Type 0} → Client T → Client T → Type 0
Waits before c =
    if before.config.auto_reconnect
    then (let m = c.reconnect_manager in
        let counter = (before.backoff_counter + 1) % 2 ^ 32 in
        (delay_for m.config m.retry_count ≡ some m.current_delay_ms)
        × (c.backoff_start_time_ms ≡ before.last_update_time_ms)
        × (c.backoff_counter ≡ counter)
        × (c.current_backoff_delay_ms
            ≡ Reconnect.get_next_delay_ms_with_jitter m (seed m.retry_count counter)))
    else (c.backoff_start_time_ms ≡ before.backoff_start_time_ms)
      × (c.backoff_counter ≡ before.backoff_counter)
      × (c.current_backoff_delay_ms ≡ before.current_backoff_delay_ms)

-- What a client is after a try to connect, by what it was before and by the TCP client's answer and
-- state: everything that later tries depend on.
pub record Answered {T : Type 0} (before : Client T) (result : ClientResult) (tcp : T)
    (c : Client T) : Type 0 where
  pub state_is : c.machine.state ≡ (if is_sent result then connected else backoff)
  pub retry_count_is :
      c.reconnect_manager.retry_count
      ≡ (if is_sent result then 0 else bump before.reconnect_manager.retry_count)
  pub same_settings : c.reconnect_manager.config ≡ before.reconnect_manager.config
  pub tcp_is : c.tcp ≡ tcp
  pub same_sent : c.handshake_sent ≡ before.handshake_sent
  pub waits : if is_sent result then Unit {0} else Waits before c

-- The ticks of a clock, each with the fuel for the packets, as calls.
abbrev pub updates : List (ℕ × ℕ) → List Call
updates [] = []
updates ((fuel, now) ∷ ticks) = Call.update fuel now ∷ updates ticks

pub Returns-bind :
    {A B : Type 0} (P : A → Type 0) (Q : B → Type 0) (o : Option A) (f : A → Option B)
    → Returns P o
    → ((a : A) → P a → Returns Q (f a))
    → Returns Q (o >>= f)
Returns-bind P Q none f h k = absurd h
Returns-bind P Q (some a) f h k = k a h

pub Returns-map :
    {A : Type 0} {P Q : A → Type 0} (o : Option A)
    → Returns P o
    → ((a : A) → P a → Q a)
    → Returns Q o
Returns-map none h k = absurd h
Returns-map (some a) h k = k a h

module _ {T : Type 0} where
  connect_answered-Answered :
      (c : Client T) (result : ClientResult)
      → c.machine.state ≡ retrying
      → 0 < c.reconnect_manager.config.multiplier_percent
      → Returns (Answered c result c.tcp) (connect_answered c result)
  unfolding connect_answered Machine.process_event
  connect_answered-Answered c result r h =
      let (d, e) = reset-some c.reconnect_manager h in
      let (d', e', delay) = record_failure-some c.reconnect_manager h in
      elim (Bool-cases (is_sent result)) [
        | inl sent ↦ rw sent (rw e (ground arith))
        | inr failed ↦ rw failed (rw e' (ground arith))
      ]

  notify_change-Answered :
      (before : Client T) (result : ClientResult) (tcp : T) (c : Client T) (state : ConnectionState)
      → Answered before result tcp c
      → Answered before result tcp (notify_change c state)
  unfolding notify_change
  notify_change-Answered before result tcp c state a = ground arith

  -- That a try is made from the state retrying has no part in how it ends.
  retried :
      (c : Client T) (tcp : T) (result : ClientResult) (c' : Client T)
      → let from = record (process_event c Machine.ConnectionEvent.backoff_expired) { tcp = tcp } in
        Answered from result tcp c' → Answered c result tcp c'
  unfolding process_event
  retried c tcp result c' a = record {
    state_is = a.state_is;
    retry_count_is = a.retry_count_is;
    same_settings = a.same_settings;
    tcp_is = a.tcp_is;
    same_sent = a.same_sent;
    waits = a.waits;
  }

  expired-retrying :
      (c : Client T)
      → c.machine.state ≡ backoff
      → (process_event c Machine.ConnectionEvent.backoff_expired).machine.state ≡ retrying
  unfolding process_event Machine.process_event
  expired-retrying c s = ground (arith, s)

module _ {T : Type 0} (I : ITcpClient T) where
  pub retry-Answered :
      (c : Client T)
      → c.machine.state ≡ backoff
      → 0 < c.reconnect_manager.config.multiplier_percent
      → let (result, tcp) = I.connect c.tcp (endpoint c) in
        Returns (Answered c result tcp) (retry I c)
  unfolding retry try_connect process_event endpoint
  retry-Answered c s h =
      let (result, tcp) = I.connect c.tcp (endpoint c) in
      let c' = process_event c Machine.ConnectionEvent.backoff_expired in
      Returns-bind _ _ (try_connect I c') _
        (connect_answered-Answered (record c' { tcp = tcp }) result (expired-retrying c s) h)
        (λ c'' a.
          notify_change-Answered c result tcp c'' c'.machine.state (retried c tcp result c'' a))

  update-wait :
      (rand : ℕ → ℕ) (c : Client T) (fuel now : ℕ)
      → c.machine.state ≡ backoff
      → update I rand fuel c now ≡ wait_backoff I (record c { last_update_time_ms = now }) now
  unfolding update update_in
  update-wait rand c fuel now s =
      ap (λ st. update_in I rand st fuel (record c { last_update_time_ms = now }) now) s

  -- `update` while the client waits to reconnect. The first update after a failure at time 0 only starts
  -- the timer, and an update before the delay is over does nothing. One after it makes a try to connect,
  -- whatever `auto_reconnect` and the limit of retries are. With a multiplier above 0 the result is
  -- there: the client is connected with its retries cleared, or waits again with one more counted, by
  -- the TCP client's answer, and whether it counts its handshake as sent stays as it was. When it waits
  -- again, the timer starts now if `auto_reconnect` is on, with the delay of the new count of retries,
  -- spread by a new seed; else the timer and the delay stay as they were.
  pub update-backoff :
      (rand : ℕ → ℕ) (c : Client T) (fuel now : ℕ)
      → c.machine.state ≡ backoff
      → 0 < c.reconnect_manager.config.multiplier_percent
      → (c.backoff_start_time_ms ≡ 0
          → update I rand fuel c now
            ≡ some (record c { last_update_time_ms = now; backoff_start_time_ms = now }))
        × (c.backoff_start_time_ms ≢ 0
            → elapsed now c.backoff_start_time_ms < c.current_backoff_delay_ms
            → update I rand fuel c now ≡ some (record c { last_update_time_ms = now }))
        × (c.backoff_start_time_ms ≢ 0
            → c.current_backoff_delay_ms ≤ elapsed now c.backoff_start_time_ms
            → let (result, tcp) = I.connect c.tcp (endpoint c) in
              Returns
                (Answered (record c { last_update_time_ms = now }) result tcp)
                (update I rand fuel c now))
  unfolding wait_backoff is_backoff_expired
  update-backoff rand c fuel now s h = (
    λ z. rw (update-wait rand c fuel now s) (ground arith),
    λ z w. rw (update-wait rand c fuel now s) (ground arith),
    λ z w.
        rw (update-wait rand c fuel now s)
          (ground (arith, retry-Answered (record c { last_update_time_ms = now }) s h)),
  )
