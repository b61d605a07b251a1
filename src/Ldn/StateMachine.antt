-- ===== src/Ldn/StateMachine.antt =====
-- sysmodule/source/ldn/ldn_state_machine.hpp and ldn_state_machine.cpp, and `CommState` of
-- ldn_types.hpp: the state that a game sees of its LDN session. Each operation holds the machine's
-- mutex from its first line to its last, so a call is one step. The callback is a flag, whether one
-- is registered; what it is called with is the last part of a result. The event is a flag that
-- `SignalStateChange` raises.
pub mod Transitions
pub mod Sessions
use ryu_ldn_nx.Prelude.{Bool, true, false, ◌||◌, List, [], ◌∷◌, if◌then◌else◌}

pub data CommState : Type 0 where
  none initialized access_point access_point_created station station_connected error : CommState

pub data StateTransitionResult : Type 0 where
  success invalid_transition already_in_state : StateTransitionResult

-- One call of the callback.
pub record Notice : Type 0 where
  pub old_state : CommState
  pub new_state : CommState

pub record LdnStateMachine : Type 0 where
  pub state : CommState
  pub state_event : Bool
  pub callback : Bool

unfoldable pub new : LdnStateMachine
new = record { state = none; state_event = false; callback = false }

-- `m_state == state` on the enumeration.
abbrev pub eq_state : CommState → CommState → Bool
eq_state none none = true
eq_state initialized initialized = true
eq_state access_point access_point = true
eq_state access_point_created access_point_created = true
eq_state station station = true
eq_state station_connected station_connected = true
eq_state error error = true
eq_state _ _ = false

unfoldable pub is_initialized : LdnStateMachine → Bool
is_initialized m =
    if eq_state m.state none then false else if eq_state m.state error then false else true

unfoldable pub is_network_active : LdnStateMachine → Bool
is_network_active m = eq_state m.state access_point_created || eq_state m.state station_connected

abbrev pub Outcome : Type 0
Outcome = LdnStateMachine × StateTransitionResult × List Notice

unfoldable pub signal_state_change : LdnStateMachine → LdnStateMachine
signal_state_change m = record m { state_event = true }

-- The lines with which every accepted operation ends: the new state, the event, the callback.
unfoldable pub accept : LdnStateMachine → CommState → Outcome
unfolding signal_state_change
accept m new_state = (
  signal_state_change (record m { state = new_state }),
  success,
  if m.callback then record { old_state = m.state; new_state = new_state } ∷ [] else [],
)

unfoldable pub initialize : LdnStateMachine → Outcome
unfolding accept
initialize m =
    if eq_state m.state initialized
    then (m, already_in_state, [])
    else if eq_state m.state none
    then accept m initialized
    else (m, invalid_transition, [])

unfoldable pub finalize : LdnStateMachine → Outcome
unfolding accept
finalize m = if eq_state m.state none then (m, already_in_state, []) else accept m none

unfoldable pub open_access_point : LdnStateMachine → Outcome
unfolding accept
open_access_point m =
    if eq_state m.state access_point
    then (m, already_in_state, [])
    else if eq_state m.state initialized
    then accept m access_point
    else (m, invalid_transition, [])

unfoldable pub close_access_point : LdnStateMachine → Outcome
unfolding accept
close_access_point m =
    if eq_state m.state initialized
    then (m, already_in_state, [])
    else if eq_state m.state access_point || eq_state m.state access_point_created
    then accept m initialized
    else (m, invalid_transition, [])

unfoldable pub create_network : LdnStateMachine → Outcome
unfolding accept
create_network m =
    if eq_state m.state access_point_created
    then (m, already_in_state, [])
    else if eq_state m.state access_point
    then accept m access_point_created
    else (m, invalid_transition, [])

unfoldable pub destroy_network : LdnStateMachine → Outcome
unfolding accept
destroy_network m =
    if eq_state m.state access_point
    then (m, already_in_state, [])
    else if eq_state m.state access_point_created
    then accept m access_point
    else (m, invalid_transition, [])

unfoldable pub open_station : LdnStateMachine → Outcome
unfolding accept
open_station m =
    if eq_state m.state station
    then (m, already_in_state, [])
    else if eq_state m.state initialized
    then accept m station
    else (m, invalid_transition, [])

unfoldable pub close_station : LdnStateMachine → Outcome
unfolding accept
close_station m =
    if eq_state m.state initialized
    then (m, already_in_state, [])
    else if eq_state m.state station || eq_state m.state station_connected
    then accept m initialized
    else (m, invalid_transition, [])

unfoldable pub connect : LdnStateMachine → Outcome
unfolding accept
connect m =
    if eq_state m.state station_connected
    then (m, already_in_state, [])
    else if eq_state m.state station
    then accept m station_connected
    else (m, invalid_transition, [])

unfoldable pub disconnect : LdnStateMachine → Outcome
unfolding accept
disconnect m =
    if eq_state m.state station
    then (m, already_in_state, [])
    else if eq_state m.state station_connected
    then accept m station
    else (m, invalid_transition, [])

unfoldable pub set_error : LdnStateMachine → Outcome
unfolding accept
set_error m = if eq_state m.state error then (m, already_in_state, []) else accept m error

unfoldable pub set_state_callback : LdnStateMachine → Bool → LdnStateMachine
set_state_callback m callback = record m { callback = callback }

-- `IsValidTransition`: its two exceptions, then the switch.
unfoldable pub is_valid_transition : CommState → CommState → Bool
is_valid_transition from error = true
is_valid_transition from none = true
is_valid_transition none to = eq_state to initialized
is_valid_transition initialized to = eq_state to access_point || eq_state to station
is_valid_transition access_point to = eq_state to access_point_created || eq_state to initialized
is_valid_transition access_point_created to = eq_state to access_point || eq_state to initialized
is_valid_transition station to = eq_state to station_connected || eq_state to initialized
is_valid_transition station_connected to = eq_state to station || eq_state to initialized
is_valid_transition error to = eq_state to initialized

unfoldable pub transition_to : LdnStateMachine → CommState → Outcome
unfolding accept is_valid_transition
transition_to m new_state =
    if eq_state m.state new_state
    then (m, already_in_state, [])
    else if is_valid_transition m.state new_state
    then accept m new_state
    else (m, invalid_transition, [])

-- The public operations, as the requests of a client.
pub data Op : Type 0 where
  initializes finalizes opens_access_point closes_access_point creates_network : Op
  destroys_network opens_station closes_station connects disconnects sets_error : Op

unfoldable pub step : LdnStateMachine → Op → Outcome
unfolding initialize finalize open_access_point close_access_point create_network destroy_network
    open_station close_station connect disconnect set_error
step m initializes = initialize m
step m finalizes = finalize m
step m opens_access_point = open_access_point m
step m closes_access_point = close_access_point m
step m creates_network = create_network m
step m destroys_network = destroy_network m
step m opens_station = open_station m
step m closes_station = close_station m
step m connects = connect m
step m disconnects = disconnect m
step m sets_error = set_error m

unfoldable pub run : LdnStateMachine → List Op → LdnStateMachine
run m [] = m
run m (op ∷ ops) = run (step m op).0 ops
