-- ===== src/Network/Client/States.antt =====
-- Which state the parts of a call leave the connection's state machine in.
use ryu_ldn_nx.Prelude.{
  subst, refl, Bool, true, false, ◌≡◌, some, none, Option, arith, Bool-cases, inl, inr,
  if◌then◌else◌, ◌∙◌,
}
use ryu_ldn_nx.Network.ConnectionState.{
  ConnectionState, disconnected, connecting, connected, handshaking, ready, backoff, retrying,
  disconnecting, error, ConnectionEvent, ConnectionStateMachine, is_already_there,
  is_valid_transition,
}
use ryu_ldn_nx.Network.ConnectionState as Machine
use ryu_ldn_nx.Network.Reconnect as Reconnect
use ryu_ldn_nx.Network.TcpInterface.{ClientResult}
use ryu_ldn_nx.Network.Client.{
  Client, ◌>>=◌, process_event, notify, notify_change, auto_backoff, lose, fail, fail_change,
  is_sent,
}
use ryu_ldn_nx.Network.Client.Connecting.{connect_answered}

-- Where an event leads.
unfoldable pub next : ConnectionState → ConnectionEvent → ConnectionState
unfolding is_already_there is_valid_transition
next s e =
    if is_already_there s e then s else elim (is_valid_transition s e) [ none ↦ s | some t ↦ t ]

-- A predicate on a result, if it is there.
abbrev pub Each : {A : Type 0} → (A → Type 0) → Option A → Type 0
Each P none = Unit
Each P (some a) = P a

pub Each-bind :
    {A B : Type 0} (P : A → Type 0) (Q : B → Type 0) (o : Option A) (f : A → Option B)
    → Each P o
    → ((a : A) → P a → Each Q (f a))
    → Each Q (o >>= f)
Each-bind P Q none f h k = tt
Each-bind P Q (some a) f h k = k a h

pub Each-map :
    {A : Type 0} {P Q : A → Type 0} (o : Option A) → Each P o → ((a : A) → P a → Q a) → Each Q o
Each-map none h k = tt
Each-map (some a) h k = k a h

pub Each-at : {A : Type 0} (P : A → Type 0) {a : A} (o : Option A) → Each P o → o ≡ some a → P a
Each-at P o h e = subst (Each P) e h

pub Each-of :
    {A B : Type 0} (Q : B → Type 0) (o : Option A) (f : A → Option B)
    → ((a : A) → Each Q (f a))
    → Each Q (o >>= f)
Each-of Q none f k = tt
Each-of Q (some a) f k = k a

pub if-holds :
    {A : Type 0} (P : A → Type 0) (b : Bool) (x y : A) → P x → P y → P (if b then x else y)
if-holds P true x y h k = h
if-holds P false x y h k = k

pub if-true {ℓ} : {A : Type ℓ} (b : Bool) (x y : A) → b ≡ true → (if b then x else y) ≡ x
if-true true x y h = refl
if-true false x y h = cc

pub if-false {ℓ} : {A : Type ℓ} (b : Bool) (x y : A) → b ≡ false → (if b then x else y) ≡ y
if-false true x y h = cc
if-false false x y h = refl

pub if-cases :
    {A : Type 0} (P : A → Type 0) (b : Bool) (x y : A)
    → (b ≡ true → P x)
    → (b ≡ false → P y)
    → P (if b then x else y)
if-cases P true x y h k = h refl
if-cases P false x y h k = k refl

module _ {T : Type 0} where
  pub state-process_event :
      (c : Client T) (e : ConnectionEvent)
      → (process_event c e).machine.state ≡ next c.machine.state e
  unfolding process_event Machine.process_event next
  state-process_event c e = ground arith

  pub state-notify :
      (c : Client T) (s : ConnectionState) → (notify c s).machine.state ≡ c.machine.state
  unfolding notify
  state-notify c s = ground arith

  pub state-notify_change :
      (c : Client T) (s : ConnectionState) → (notify_change c s).machine.state ≡ c.machine.state
  unfolding notify_change
  state-notify_change c s = ground arith

  pub state-auto_backoff : (c : Client T) → (auto_backoff c).machine.state ≡ c.machine.state
  unfolding auto_backoff
  state-auto_backoff c = ground arith

  pub state-lose :
      (c : Client T) (e : ConnectionEvent) → (lose c e).machine.state ≡ next c.machine.state e
  unfolding lose
  state-lose c e = state-notify_change (process_event c e) c.machine.state ∙ state-process_event c e

  pub state-fail :
      (c : Client T) (e : ConnectionEvent) → (fail c e).machine.state ≡ next c.machine.state e
  unfolding fail
  state-fail c e =
      state-notify (auto_backoff (process_event c e)) c.machine.state
      ∙ state-auto_backoff (process_event c e)
      ∙ state-process_event c e

  pub state-fail_change :
      (c : Client T) (e : ConnectionEvent)
      → (fail_change c e).machine.state ≡ next c.machine.state e
  unfolding fail_change
  state-fail_change c e =
      state-notify_change (auto_backoff (process_event c e)) c.machine.state
      ∙ state-auto_backoff (process_event c e)
      ∙ state-process_event c e

  -- The answer of the TCP client decides between two events.
  pub state-connect_answered :
      (c : Client T) (result : ClientResult)
      → Each
          (λ c'.
            c'.machine.state
            ≡ next c.machine.state (
                if is_sent result
                then Machine.ConnectionEvent.connect_success
                else Machine.ConnectionEvent.connect_failed))
          (connect_answered c result)
  unfolding connect_answered
  state-connect_answered c result = elim (Bool-cases (is_sent result)) [
    | inl sent ↦ rw sent (
        Each-of _ (Reconnect.reset c.reconnect_manager) _ (λ m.
          state-notify
            (record (process_event c Machine.ConnectionEvent.connect_success) {
              reconnect_manager = m;
            })
            c.machine.state
          ∙ state-process_event c Machine.ConnectionEvent.connect_success))
    | inr failed ↦ rw failed (
        Each-of _ (Reconnect.record_failure c.reconnect_manager) _ (λ m.
          let c' = record (process_event c Machine.ConnectionEvent.connect_failed) {
            reconnect_manager = m;
          } in
          state-notify (auto_backoff c') c.machine.state
          ∙ state-auto_backoff c'
          ∙ state-process_event c Machine.ConnectionEvent.connect_failed))
  ]
