-- ===== src/Ldn/StateMachine/Sessions.antt =====
-- What a run of operations must have held.
use ryu_ldn_nx.Prelude.{
  ◌≡◌, refl, sym, subst, ap, ◌⊎◌, inl, inr, true, false, List, [], ◌∷◌, arith, Sub, nil, keep, skip,
  Sub-trans,
}
use ryu_ldn_nx.Ldn.StateMachine.{
  CommState, none, initialized, access_point, access_point_created, station, station_connected,
  error, LdnStateMachine, Op, initializes, finalizes, opens_access_point, creates_network,
  opens_station, connects, is_network_active, step, run,
}

-- What still has to be called before the machine hosts a network, and before it has joined one.
abbrev pub owed_host : CommState → List Op
owed_host access_point_created = []
owed_host access_point = creates_network ∷ []
owed_host none = initializes ∷ opens_access_point ∷ creates_network ∷ []
owed_host error = finalizes ∷ initializes ∷ opens_access_point ∷ creates_network ∷ []
owed_host _ = opens_access_point ∷ creates_network ∷ []

abbrev pub owed_guest : CommState → List Op
owed_guest station_connected = []
owed_guest station = connects ∷ []
owed_guest none = initializes ∷ opens_station ∷ connects ∷ []
owed_guest error = finalizes ∷ initializes ∷ opens_station ∷ connects ∷ []
owed_guest _ = opens_station ∷ connects ∷ []

abbrev bare : CommState → LdnStateMachine
bare s = record { state = s; state_event = false; callback = false }

abbrev next_state : CommState → Op → CommState
next_state s op = (step (bare s) op).0.state

-- The event and the callback have no say in the next state.
state-step : (m : LdnStateMachine) (op : Op) → (step m op).0.state ≡ next_state m.state op
unfolding step
state-step m op = ground arith

owed_host-next : (s : CommState) (op : Op) → Sub (owed_host s) (op ∷ owed_host (next_state s op))
unfolding step
owed_host-next none initializes = search (nil, keep, skip) depth 7
owed_host-next initialized initializes = search (nil, keep, skip) depth 7
owed_host-next access_point initializes = search (nil, keep, skip) depth 7
owed_host-next access_point_created initializes = search (nil, keep, skip) depth 7
owed_host-next station initializes = search (nil, keep, skip) depth 7
owed_host-next station_connected initializes = search (nil, keep, skip) depth 7
owed_host-next error initializes = search (nil, keep, skip) depth 7
owed_host-next _ _ = search (nil, keep, skip) depth 7

owed_guest-next : (s : CommState) (op : Op) → Sub (owed_guest s) (op ∷ owed_guest (next_state s op))
unfolding step
owed_guest-next none initializes = search (nil, keep, skip) depth 7
owed_guest-next initialized initializes = search (nil, keep, skip) depth 7
owed_guest-next access_point initializes = search (nil, keep, skip) depth 7
owed_guest-next access_point_created initializes = search (nil, keep, skip) depth 7
owed_guest-next station initializes = search (nil, keep, skip) depth 7
owed_guest-next station_connected initializes = search (nil, keep, skip) depth 7
owed_guest-next error initializes = search (nil, keep, skip) depth 7
owed_guest-next _ _ = search (nil, keep, skip) depth 7

-- One step at a time: an account of what is owed that every step respects holds of every run.
run-owed :
    (owed : CommState → List Op)
    → ((s : CommState) (op : Op) → Sub (owed s) (op ∷ owed (next_state s op)))
    → (m : LdnStateMachine) (ops : List Op) → owed (run m ops).state ≡ []
    → Sub (owed m.state) ops
unfolding run
run-owed owed each m [] h = subst (λ l. Sub l []) (sym h) nil
run-owed owed each m (op ∷ ops) h =
    Sub-trans (rw (state-step m op) (each m.state op))
      (keep op (run-owed owed each (step m op).0 ops h))

-- A run that ends with an active network made, in this order and among others, the calls that its
-- first state owed: from `none` these are `initialize`, `open_access_point` and `create_network` for
-- a host, and `initialize`, `open_station` and `connect` for a guest; from `error` also `finalize`.
run-is_network_active :
    (m : LdnStateMachine) (ops : List Op)
    → is_network_active (run m ops) ≡ true
    → Sub (owed_host m.state) ops ⊎ Sub (owed_guest m.state) ops
unfolding is_network_active
run-is_network_active m ops h = split (run m ops).state refl
  where
    split :
        (s : CommState)
        → (run m ops).state ≡ s
        → Sub (owed_host m.state) ops ⊎ Sub (owed_guest m.state) ops
    split access_point_created e = inl (run-owed owed_host owed_host-next m ops (ap owed_host e))
    split station_connected e = inr (run-owed owed_guest owed_guest-next m ops (ap owed_guest e))
    split none e = ground arith
    split _ e = ground arith

-- In every state these four calls make the machine host a network.
pub run-host_recovery :
    (m : LdnStateMachine)
    → (run m (finalizes ∷ initializes ∷ opens_access_point ∷ creates_network ∷ [])).state
      ≡ access_point_created
unfolding run step
run-host_recovery m = ground arith
