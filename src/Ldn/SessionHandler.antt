-- ===== src/Ldn/SessionHandler.antt =====
-- sysmodule/source/ldn/ldn_session_handler.hpp and ldn_session_handler.cpp: what the packets of the
-- server do to a session. A callback is a flag, whether one is registered; the calls made to them are
-- the last part of a result. The packet header that every handler ignores is left out. An `int8_t` is
-- its bit pattern, so that -1 is 255.
pub mod States
mod Tests
use ryu_ldn_nx.Prelude.{
  ℕ, ◌%◌, Bool, true, false, ◌&&◌, ◌||◌, not, List, [], ◌∷◌, ◌++◌, ◌==◌, if◌then◌else◌, replicate,
  length,
}

pub data LdnSessionState : Type 0 where
  none initialized station station_connected access_point access_point_created error :
      LdnSessionState

-- Of `NetworkInfo`, the counts that the handler reads, and all its other bytes.
pub record NetworkInfo : Type 0 where
  pub node_count : ℕ  -- uint8_t
  pub node_count_max : ℕ  -- uint8_t
  pub others : List ℕ

-- The structure filled with zeros.
abbrev no_network : NetworkInfo → NetworkInfo
no_network i = record { node_count = 0; node_count_max = 0; others = replicate (length i.others) 0 }

-- One call of a callback.
pub data Call : Type 0 where
  state_changed : LdnSessionState → LdnSessionState → Call
  network_updated scan_result : NetworkInfo → Call
  scan_completed : Call
  disconnected network_error : ℕ → Call
  rejected : ℕ → ℕ → Call
  accept_policy_changed : ℕ → Call

pub record LdnSessionHandler : Type 0 where
  pub state : LdnSessionState
  pub is_host : Bool
  pub local_node_id : ℕ  -- int8_t
  pub last_ping_id : ℕ  -- uint8_t
  pub session_id : List ℕ
  pub mac_address : List ℕ
  pub network_info : NetworkInfo
  pub accept_policy : ℕ  -- uint8_t
  pub state_callback : Bool
  pub network_updated_callback : Bool
  pub scan_result_callback : Bool
  pub scan_completed_callback : Bool
  pub disconnected_callback : Bool
  pub error_callback : Bool
  pub rejected_callback : Bool
  pub accept_policy_changed_callback : Bool

abbrev call_if : Bool → Call → List Call
call_if on c = if on then c ∷ [] else []

abbrev pub Handled : Type 0
Handled = LdnSessionHandler × List Call

abbrev pub eq_state : LdnSessionState → LdnSessionState → Bool
eq_state none none = true
eq_state initialized initialized = true
eq_state station station = true
eq_state station_connected station_connected = true
eq_state access_point access_point = true
eq_state access_point_created access_point_created = true
eq_state error error = true
eq_state _ _ = false

unfoldable pub set_state : LdnSessionHandler → LdnSessionState → Handled
set_state m new_state = if eq_state m.state new_state then (m, []) else (
  record m { state = new_state },
  call_if m.state_callback (state_changed m.state new_state),
)

unfoldable pub is_in_session : LdnSessionHandler → Bool
is_in_session m =
    eq_state m.state station
    || eq_state m.state station_connected
    || eq_state m.state access_point
    || eq_state m.state access_point_created

unfoldable pub get_node_count : LdnSessionHandler → ℕ
unfolding is_in_session
get_node_count m = if not (is_in_session m) then 0 else m.network_info.node_count

unfoldable pub get_max_nodes : LdnSessionHandler → ℕ
unfolding is_in_session
get_max_nodes m = if not (is_in_session m) then 0 else m.network_info.node_count_max

unfoldable pub handle_initialize : LdnSessionHandler → List ℕ → List ℕ → Handled
unfolding set_state
handle_initialize m id mac = set_state (record m { session_id = id; mac_address = mac }) initialized

unfoldable pub handle_connected : LdnSessionHandler → NetworkInfo → Handled
unfolding set_state
handle_connected m info =
    let (m', changes) = set_state (record m { network_info = info; is_host = false }) station in
    (m', changes ++ call_if m'.network_updated_callback (network_updated m'.network_info))

-- The two tests that may make the session an access point.
unfoldable pub become_host : LdnSessionHandler → Handled
unfolding set_state
become_host m =
    if m.local_node_id == 0
    then (if eq_state m.state initialized
        then set_state (record m { is_host = true }) access_point
        else (record m { is_host = true }, []))
    else (m, [])

unfoldable pub host_again : LdnSessionHandler → Handled
unfolding set_state
host_again m =
    if eq_state m.state initialized && m.is_host then set_state m access_point else (m, [])

unfoldable pub handle_sync_network : LdnSessionHandler → NetworkInfo → Handled
unfolding become_host host_again
handle_sync_network m info =
    let (m', first) = become_host (record m { network_info = info }) in
    let (m'', second) = host_again m' in
    (
      m'',
      first ++ (second ++ call_if m''.network_updated_callback (network_updated m''.network_info)),
    )

unfoldable pub handle_scan_reply : LdnSessionHandler → NetworkInfo → Handled
handle_scan_reply m info = (m, call_if m.scan_result_callback (scan_result info))

unfoldable pub handle_scan_reply_end : LdnSessionHandler → Handled
handle_scan_reply_end m = (m, call_if m.scan_completed_callback scan_completed)

-- The handler, and whether to echo.
unfoldable pub handle_ping : LdnSessionHandler → ℕ → ℕ → LdnSessionHandler × Bool
handle_ping m requester id = (record m { last_ping_id = id }, requester == 0)

unfoldable pub handle_disconnect : LdnSessionHandler → ℕ → Handled
handle_disconnect m ip = (m, call_if m.disconnected_callback (disconnected ip))

unfoldable pub handle_network_error : LdnSessionHandler → ℕ → Handled
handle_network_error m code = (m, call_if m.error_callback (network_error code))

unfoldable pub leave_session : LdnSessionHandler → Handled
unfolding set_state is_in_session
leave_session m =
    if not (is_in_session m) && not (eq_state m.state initialized)
    then (m, [])
    else set_state
        (record m {
          is_host = false;
          local_node_id = 255;
          network_info = no_network m.network_info;
        })
        initialized

unfoldable pub handle_reject : LdnSessionHandler → ℕ → ℕ → Handled
unfolding leave_session
handle_reject m node_id reason =
    let told = call_if m.rejected_callback (rejected node_id reason) in
    let (m', changes) = leave_session m in
    if node_id % 256 == m.local_node_id then (m', told ++ changes) else (m, told)

unfoldable pub handle_reject_reply : LdnSessionHandler → Handled
handle_reject_reply m = (m, [])

unfoldable pub handle_set_accept_policy : LdnSessionHandler → ℕ → Handled
handle_set_accept_policy m policy = (
  record m { accept_policy = policy },
  call_if m.accept_policy_changed_callback (accept_policy_changed policy),
)

unfoldable pub set_local_node_id : LdnSessionHandler → ℕ → LdnSessionHandler
unfolding is_in_session
set_local_node_id m node_id =
    if node_id == 0 && is_in_session m
    then record m { local_node_id = node_id; is_host = true }
    else record m { local_node_id = node_id }

unfoldable pub reset : LdnSessionHandler → LdnSessionHandler
reset m = record m {
  state = none;
  is_host = false;
  local_node_id = 255;
  last_ping_id = 0;
  accept_policy = 0;
  session_id = replicate (length m.session_id) 0;
  mac_address = replicate (length m.mac_address) 0;
  network_info = no_network m.network_info;
}
