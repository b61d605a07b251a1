-- ===== src/Ldn/StateMachine/Transitions.antt =====
-- What one operation of the LDN state machine does.
use ryu_ldn_nx.Prelude.{◌≡◌, ◌≢◌, ◌⊎◌, true, false, Bool, [], ◌∷◌, arith, if◌then◌else◌}
use ryu_ldn_nx.Ldn.StateMachine.{
  CommState, none, initialized, access_point, access_point_created, station, station_connected,
  error, success, invalid_transition, already_in_state, LdnStateMachine, Op, initializes, finalizes,
  opens_access_point, closes_access_point, creates_network, destroys_network, opens_station,
  closes_station, connects, disconnects, sets_error, is_valid_transition, transition_to, step,
}

-- The state that an operation leads to when it is accepted.
abbrev pub target : Op → CommState
target initializes = initialized
target finalizes = none
target opens_access_point = access_point
target closes_access_point = initialized
target creates_network = access_point_created
target destroys_network = access_point
target opens_station = station
target closes_station = initialized
target connects = station_connected
target disconnects = station
target sets_error = error

-- The states in which an operation is accepted.
abbrev pub starts : Op → CommState → Bool
starts initializes none = true
starts finalizes none = false
starts finalizes from = true
starts opens_access_point initialized = true
starts closes_access_point access_point = true
starts closes_access_point access_point_created = true
starts creates_network access_point = true
starts destroys_network access_point_created = true
starts opens_station initialized = true
starts closes_station station = true
starts closes_station station_connected = true
starts connects station = true
starts disconnects station_connected = true
starts sets_error error = false
starts sets_error from = true
starts op from = false

-- Each operation does one of three things. It answers `already_in_state` exactly when the machine
-- is in the operation's target state, and `invalid_transition` exactly in the other states that are not
-- among its `starts`; both change nothing and call nobody. Or it succeeds, in its `starts`: the
-- machine is in the target state, the event is raised, the callback stays, and is called once with
-- both states if there is one; `IsValidTransition` allows the step.
pub step_outcome :
    (m : LdnStateMachine) (op : Op)
    → let (m', result, notices) = step m op in
      ((result ≡ already_in_state) × (m.state ≡ target op) × (m' ≡ m) × (notices ≡ []))
      ⊎ ((result ≡ invalid_transition)
          × (m.state ≢ target op)
          × (starts op m.state ≡ false)
          × (m' ≡ m)
          × (notices ≡ []))
      ⊎ ((result ≡ success)
          × (starts op m.state ≡ true)
          × (m.state ≢ target op)
          × (is_valid_transition m.state (target op) ≡ true)
          × (m' ≡ record m { state = target op; state_event = true })
          × (notices ≡ (
              if m.callback
              then record { old_state = m.state; new_state = target op } ∷ []
              else [])))
unfolding step is_valid_transition
step_outcome m op = ground arith

-- The operation that takes a machine from one state to another.
abbrev pub op_for : CommState → CommState → Op
op_for from none = finalizes
op_for from error = sets_error
op_for none initialized = initializes
op_for access_point initialized = closes_access_point
op_for access_point_created initialized = closes_access_point
op_for from initialized = closes_station
op_for access_point_created access_point = destroys_network
op_for from access_point = opens_access_point
op_for from access_point_created = creates_network
op_for station_connected station = disconnects
op_for from station = opens_station
op_for from station_connected = connects

-- From every state but `error`, what `TransitionTo` accepts is what one of the public operations
-- does, its result, its event and its callback included.
pub transition_to_is_step :
    (m : LdnStateMachine) (s : CommState)
    → m.state ≢ error
    → (transition_to m s).1 ≡ success
    → step m (op_for m.state s) ≡ transition_to m s
unfolding step transition_to
transition_to_is_step m s h e = ground arith

-- In `error`, from which `IsValidTransition` allows `initialized`, every operation leaves the
-- machine in `error`, but for `finalize`, which may lead to `none`.
error-step :
    (m : LdnStateMachine) (op : Op)
    → m.state ≡ error
    → (is_valid_transition m.state initialized ≡ true)
      × (((step m op).0.state ≡ error) ⊎ ((op ≡ finalizes) × ((step m op).0.state ≡ none)))
unfolding step is_valid_transition
error-step m op h = ground arith
