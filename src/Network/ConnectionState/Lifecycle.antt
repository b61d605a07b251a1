-- ===== src/Network/ConnectionState/Lifecycle.antt =====
-- Which states the connection passes through, over one event and over a run.
use ryu_ldn_nx.Prelude.{
  ◌≡◌, refl, sym, subst, ◌≢◌, ◌⊎◌, true, none, some, List, [], ◌∷◌, ◌++◌, arith, if◌then◌else◌, Sub,
  nil, keep, skip, Sub-trans,
}
use ryu_ldn_nx.Network.ConnectionState.{
  ConnectionState, ConnectionEvent, disconnected, connecting, connected, handshaking, ready,
  backoff, retrying, disconnecting, error, connect, connect_success, handshake_success, disconnect,
  connection_lost, success, Notice, ConnectionStateMachine, is_valid_transition, process_event, run,
}

-- An event either is accepted, and then the new state is the table's, and the callback, if there
-- is one, is called once with the state before, the state after and the event; or it is refused,
-- and then the machine is as it was and the callback is not called.
pub process_event_outcome :
    (m : ConnectionStateMachine) (e : ConnectionEvent)
    → let (m', result, notices) = process_event m e in
      ((result ≡ success)
        × (is_valid_transition m.state e ≡ some m'.state)
        × (notices ≡ (
            if m.callback
            then record { old_state = m.state; new_state = m'.state; event = e } ∷ []
            else [])))
      ⊎ ((result ≢ success) × (m' ≡ m) × (notices ≡ []))
unfolding process_event
process_event_outcome m e = ground arith

-- What still has to happen before the connection is ready.
abbrev pub owed : ConnectionState → List ConnectionEvent
owed ready = []
owed connected = handshake_success ∷ []
owed handshaking = handshake_success ∷ []
owed _ = connect_success ∷ handshake_success ∷ []

-- The state after an event: the table's target, or the old state where it has none.
abbrev next_state : ConnectionState → ConnectionEvent → ConnectionState
next_state s e = elim (is_valid_transition s e) [ some t ↦ t | none ↦ s ]

state-process_event :
    (m : ConnectionStateMachine) (e : ConnectionEvent)
    → (process_event m e).0.state ≡ next_state m.state e
unfolding process_event
state-process_event m e = ground arith

owed-next_state :
    (s : ConnectionState) (e : ConnectionEvent) → Sub (owed s) (e ∷ owed (next_state s e))
unfolding is_valid_transition
owed-next_state disconnected connect = search (nil, keep, skip)
owed-next_state connecting connect = search (nil, keep, skip)
owed-next_state connected connect = search (nil, keep, skip)
owed-next_state handshaking connect = search (nil, keep, skip)
owed-next_state ready connect = search (nil, keep, skip)
owed-next_state backoff connect = search (nil, keep, skip)
owed-next_state retrying connect = search (nil, keep, skip)
owed-next_state disconnecting connect = search (nil, keep, skip)
owed-next_state error connect = search (nil, keep, skip)
owed-next_state _ _ = search (nil, keep, skip)

owed-step :
    (m : ConnectionStateMachine) (e : ConnectionEvent)
    → Sub (owed m.state) (e ∷ owed (process_event m e).0.state)
owed-step m e = rw (state-process_event m e) (owed-next_state m.state e)

-- A run that ends in `ready` saw, in this order and perhaps among others, the events that its
-- first state owed: a `connect_success` unless that state was `connected`, `handshaking` or
-- `ready`, and a `handshake_success` unless it was `ready`.
pub run-ready_owed :
    (m : ConnectionStateMachine) (es : List ConnectionEvent)
    → (run m es).0.state ≡ ready
    → Sub (owed m.state) es
unfolding run
run-ready_owed m [] h = subst (λ s. Sub (owed s) []) (sym h) nil
run-ready_owed m (e ∷ es) h =
    Sub-trans (owed-step m e) (keep e (run-ready_owed (process_event m e).0 es h))

-- From every state the events `disconnect`, `connection_lost`, `connect`, `connect_success` and
-- `handshake_success`, in this order, lead to `ready`, with the retry counter at 0 and the
-- callback as it was.
run-reconnect :
    (m : ConnectionStateMachine)
    → let m' =
        (run m
          (disconnect ∷ connection_lost ∷ connect ∷ connect_success ∷ handshake_success ∷ [])).0 in
      (m'.state ≡ ready) × (m'.retry_count ≡ 0) × (m'.callback ≡ m.callback)
unfolding run process_event
run-reconnect m = ground arith

-- The notices tell of a path: each starts where the one before it ended.
abbrev pub IsPath : ConnectionState → List Notice → ConnectionState → Type 0
IsPath s [] t = s ≡ t
IsPath s (n ∷ ns) t =
    (n.old_state ≡ s)
    × (is_valid_transition n.old_state n.event ≡ some n.new_state)
    × IsPath n.new_state ns t

IsPath-append :
    (ns ls : List Notice) (s t u : ConnectionState)
    → IsPath s ns t
    → IsPath t ls u
    → IsPath s (ns ++ ls) u
IsPath-append [] ls s t u p q = subst (λ x. IsPath x ls u) (sym p) q
IsPath-append (n ∷ ns) ls s t u p q = (p.0, p.1, IsPath-append ns ls n.new_state t u p.2 q)

process_event-IsPath :
    (m : ConnectionStateMachine) (e : ConnectionEvent)
    → m.callback ≡ true
    → let (m', result, notices) = process_event m e in
      IsPath m.state notices m'.state × (m'.callback ≡ true)
unfolding process_event
process_event-IsPath m e h = ground arith

-- With a callback registered, what it is called with over a run is a path in the transition table
-- from the first state to the last one.
pub run-IsPath :
    (m : ConnectionStateMachine) (es : List ConnectionEvent)
    → m.callback ≡ true
    → IsPath m.state (run m es).1 (run m es).0.state
unfolding run
run-IsPath m [] h = refl
run-IsPath m (e ∷ es) h =
    let (now, on) = process_event-IsPath m e h in
    IsPath-append (process_event m e).2 _ _ _ _ now (run-IsPath (process_event m e).0 es on)
