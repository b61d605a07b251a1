-- ===== src/Network/Client/Readiness.antt =====
-- How a client becomes ready, and which states a run of its calls can leave it in.
use ryu_ldn_nx.Prelude.{
  ℕ, ◌≡◌, ◌≢◌, true, false, Bool, inl, inr, some, List, [], ◌∷◌, arith, subst, sym,
}
use ryu_ldn_nx.Network.ConnectionState.{
  ConnectionState, disconnected, connecting, handshaking, ready, retrying,
}
use ryu_ldn_nx.Network.TcpInterface.{ITcpClient}
use ryu_ldn_nx.Network.Client.{Client, is_sent, recv_buffer_size}
use ryu_ldn_nx.Network.Client.Updating.{update, update_in}
use ryu_ldn_nx.Network.Client.Calls.{Call, call, call_all}
use ryu_ldn_nx.Network.Client.States.{Each, Each-map, Each-bind, Each-at}
use ryu_ldn_nx.Network.Client.Moves.{call-targets}
use ryu_ldn_nx.Network.Client.Moves.Diagram.{is_in, connects, sends, updates, targets}
use ryu_ldn_nx.Network.Client.Moves.Handshake.{
  Accepts, unready, Outcome, handle_handshaking_state-Outcome,
}

-- Not in the middle of a try to connect.
abbrev pub is_settled : ConnectionState → Bool
is_settled connecting = false
is_settled retrying = false
is_settled _ = true

connects-settled :
    (s t : ConnectionState)
    → is_settled s ≡ true
    → is_in t (connects s) ≡ true
    → is_settled t ≡ true
connects-settled s t h k = ground arith

sends-settled :
    (s t : ConnectionState) → is_settled s ≡ true → is_in t (sends s) ≡ true → is_settled t ≡ true
sends-settled s t h k = ground arith

updates-settled :
    (s t : ConnectionState) → is_settled s ≡ true → is_in t (updates s) ≡ true → is_settled t ≡ true
updates-settled s t h k = ground arith

self-settled :
    (s t : ConnectionState) → is_settled s ≡ true → is_in t (s ∷ []) ≡ true → is_settled t ≡ true
self-settled s t h k = ground arith

left-settled : (t : ConnectionState) → is_in t (disconnected ∷ []) ≡ true → is_settled t ≡ true
left-settled t k = ground arith

targets-settled :
    (e : Call) (s t : ConnectionState)
    → is_settled s ≡ true
    → is_in t (targets e s) ≡ true
    → is_settled t ≡ true
targets-settled (Call.set_config config) s t h k = self-settled s t h k
targets-settled (Call.set_state_callback b) s t h k = self-settled s t h k
targets-settled (Call.set_packet_callback b) s t h k = self-settled s t h k
targets-settled Call.connect s t h k = connects-settled s t h k
targets-settled (Call.connect_to host port) s t h k = connects-settled s t h k
targets-settled Call.disconnect s t h k = left-settled t k
targets-settled (Call.update fuel now) s t h k = updates-settled s t h k
targets-settled _ s t h k = sends-settled s t h k

-- The call is an update.
abbrev pub IsUpdate : Call → Type 0
IsUpdate (Call.update fuel now) = Unit
IsUpdate _ = ⊥

connects-ready : (s t : ConnectionState) → is_in t (connects s) ≡ true → t ≡ ready → s ≢ ready → ⊥
connects-ready s t k r n = ground arith

sends-ready : (s t : ConnectionState) → is_in t (sends s) ≡ true → t ≡ ready → s ≢ ready → ⊥
sends-ready s t k r n = ground arith

self-ready : (s t : ConnectionState) → is_in t (s ∷ []) ≡ true → t ≡ ready → s ≢ ready → ⊥
self-ready s t k r n = ground arith

left-ready : (t : ConnectionState) → is_in t (disconnected ∷ []) ≡ true → t ≡ ready → ⊥
left-ready t k r = ground arith

updates-ready :
    (s t : ConnectionState) → is_in t (updates s) ≡ true → t ≡ ready → s ≢ ready → s ≡ handshaking
updates-ready s t k r n = ground arith

unready-ready : (t : ConnectionState) → is_in t unready ≡ true → t ≡ ready → ⊥
unready-ready t h r = ground arith

targets-ready :
    (e : Call) (s t : ConnectionState)
    → is_in t (targets e s) ≡ true
    → t ≡ ready
    → s ≢ ready
    → IsUpdate e × (s ≡ handshaking)
targets-ready (Call.set_config config) s t k r n = absurd (self-ready s t k r n)
targets-ready (Call.set_state_callback b) s t k r n = absurd (self-ready s t k r n)
targets-ready (Call.set_packet_callback b) s t k r n = absurd (self-ready s t k r n)
targets-ready Call.connect s t k r n = absurd (connects-ready s t k r n)
targets-ready (Call.connect_to host port) s t k r n = absurd (connects-ready s t k r n)
targets-ready Call.disconnect s t k r n = absurd (left-ready t k r)
targets-ready (Call.update fuel now) s t k r n = (tt, updates-ready s t k r n)
targets-ready _ s t k r n = absurd (sends-ready s t k r n)

module _ {T : Type 0} (I : ITcpClient T) (rand : ℕ → ℕ) where
  -- However a client is used from a settled state on, from `disconnected` for one, it is never left in
  -- `connecting` or `retrying`, with the result perhaps missing for a division by zero or lack of fuel.
  call_all-settled :
      (c : Client T) (calls : List Call)
      → is_settled c.machine.state ≡ true
      → Each (λ c'. is_settled c'.machine.state ≡ true) (call_all I rand c calls)
  unfolding call_all
  call_all-settled c [] h = h
  call_all-settled c (e ∷ es) h =
      let P = λ (c' : Client T). is_settled c'.machine.state ≡ true in
      Each-bind P P (call I rand c e) _
        (Each-map (call I rand c e) (call-targets I rand c e)
          (λ c' k. targets-settled e c.machine.state c'.machine.state h k))
        (λ c' h'. call_all-settled c' es h')

  -- The TCP client hands over a packet that ends a handshake well.
  abbrev pub Accepted : Client T → Type 0
  Accepted c =
      let received = (I.receive_packet c.tcp recv_buffer_size c.config.recv_timeout_ms).0 in
      (is_sent received.result ≡ true) × Accepts received.id

  ready-Accepted :
      (c : Client T) (t : ConnectionState)
      → Outcome (I.receive_packet c.tcp recv_buffer_size c.config.recv_timeout_ms).0 t
      → t ≡ ready
      → Accepted c
  ready-Accepted c t (inl (_, ok, a)) r = (ok, a)
  ready-Accepted c t (inr h) r = absurd (unready-ready t h r)

  update-Accepted :
      (c : Client T) (fuel now : ℕ)
      → c.machine.state ≡ handshaking
      → Each (λ c'. c'.machine.state ≡ ready → Accepted c) (update I rand fuel c now)
  unfolding update
  update-Accepted c fuel now s =
      subst
        (λ st.
          Each (λ c'. c'.machine.state ≡ ready → Accepted c)
            (update_in I rand st fuel (record c { last_update_time_ms = now }) now))
        (sym s)
        (unfold update_in in
          ready-Accepted c _ (
            handle_handshaking_state-Outcome I rand (record c { last_update_time_ms = now }) now s))

  accepted-by :
      (c c' : Client T) (e : Call)
      → c.machine.state ≡ handshaking
      → IsUpdate e
      → call I rand c e ≡ some c'
      → c'.machine.state ≡ ready
      → Accepted c
  unfolding call
  accepted-by c c' (Call.update fuel now) s u made r =
      Each-at _ (update I rand fuel c now) (update-Accepted c fuel now s) made r
  accepted-by c c' _ s u made r = absurd u

  -- A call that makes a client ready is an update of a client in `handshaking`, and in it the TCP client
  -- handed over an `Initialize` or a `SyncNetwork` packet.
  pub call-ready :
      (c c' : Client T) (e : Call)
      → call I rand c e ≡ some c'
      → c.machine.state ≢ ready
      → c'.machine.state ≡ ready
      → IsUpdate e × (c.machine.state ≡ handshaking) × Accepted c
  call-ready c c' e made n r =
      let (u, s) =
        targets-ready e c.machine.state c'.machine.state
          (Each-at _ (call I rand c e) (call-targets I rand c e) made) r n in
      (u, s, accepted-by c c' e s u made r)
