-- ===== src/Ldn/SessionHandler/States.antt =====
-- Which states a session passes through.
use ryu_ldn_nx.Prelude.{ℕ, ◌≡◌, ◌≢◌, refl, sym, subst, ◌⊎◌, true, List, [], ◌∷◌, ◌++◌, arith}
use ryu_ldn_nx.Ldn.SessionHandler.{
  LdnSessionState, none, initialized, station, access_point, NetworkInfo, Call, state_changed,
  network_updated, scan_result, scan_completed, disconnected, network_error, rejected,
  accept_policy_changed, LdnSessionHandler, Handled, handle_initialize, handle_connected,
  handle_sync_network, handle_scan_reply, handle_scan_reply_end, handle_ping, handle_disconnect,
  handle_network_error, leave_session, handle_reject, handle_reject_reply, handle_set_accept_policy,
  set_local_node_id, set_state, become_host, host_again, is_in_session,
}

-- What happens to a handler between two resets.
pub data Event : Type 0 where
  initialize : List ℕ → List ℕ → Event
  connected sync_network scan_reply : NetworkInfo → Event
  scan_reply_end reject_reply leave : Event
  ping reject : ℕ → ℕ → Event
  disconnect error_message set_policy assign_node : ℕ → Event

abbrev pub step : LdnSessionHandler → Event → Handled
step m (initialize id mac) = handle_initialize m id mac
step m (connected info) = handle_connected m info
step m (sync_network info) = handle_sync_network m info
step m (scan_reply info) = handle_scan_reply m info
step m scan_reply_end = handle_scan_reply_end m
step m reject_reply = handle_reject_reply m
step m leave = leave_session m
step m (ping requester id) = ((handle_ping m requester id).0, [])
step m (reject node reason) = handle_reject m node reason
step m (disconnect ip) = handle_disconnect m ip
step m (error_message code) = handle_network_error m code
step m (set_policy policy) = handle_set_accept_policy m policy
step m (assign_node id) = (set_local_node_id m id, [])

abbrev pub run : LdnSessionHandler → List Event → Handled
run m [] = (m, [])
run m (e ∷ es) = ((run (step m e).0 es).0, (step m e).1 ++ (run (step m e).0 es).1)

-- The calls of the state callback tell of a path of true changes; the other calls do not matter.
abbrev pub IsStatePath : LdnSessionState → List Call → LdnSessionState → Type 0
IsStatePath s [] t = s ≡ t
IsStatePath s (state_changed old now ∷ cs) t = (old ≡ s) × (now ≢ old) × IsStatePath now cs t
IsStatePath s (_ ∷ cs) t = IsStatePath s cs t

IsStatePath-append :
    (cs ds : List Call) (s t u : LdnSessionState)
    → IsStatePath s cs t
    → IsStatePath t ds u
    → IsStatePath s (cs ++ ds) u
IsStatePath-append [] ds s t u p q = subst (λ x. IsStatePath x ds u) (sym p) q
IsStatePath-append (state_changed old now ∷ cs) ds s t u p q =
    (p.0, p.1, IsStatePath-append cs ds now t u p.2 q)
IsStatePath-append (network_updated _ ∷ cs) ds s t u p q = IsStatePath-append cs ds s t u p q
IsStatePath-append (scan_result _ ∷ cs) ds s t u p q = IsStatePath-append cs ds s t u p q
IsStatePath-append (scan_completed ∷ cs) ds s t u p q = IsStatePath-append cs ds s t u p q
IsStatePath-append (disconnected _ ∷ cs) ds s t u p q = IsStatePath-append cs ds s t u p q
IsStatePath-append (network_error _ ∷ cs) ds s t u p q = IsStatePath-append cs ds s t u p q
IsStatePath-append (rejected _ _ ∷ cs) ds s t u p q = IsStatePath-append cs ds s t u p q
IsStatePath-append (accept_policy_changed _ ∷ cs) ds s t u p q = IsStatePath-append cs ds s t u p q

-- The handler is idle, a client, or a host that knows it is one.
abbrev pub IsSettled : LdnSessionHandler → Type 0
IsSettled m =
    (m.state ≡ none)
    ⊎ (m.state ≡ initialized)
    ⊎ (m.state ≡ station)
    ⊎ ((m.state ≡ access_point) × (m.is_host ≡ true))

step-IsSettled : (m : LdnSessionHandler) (e : Event) → IsSettled m → IsSettled (step m e).0
unfolding handle_initialize handle_connected handle_sync_network handle_scan_reply
    handle_scan_reply_end handle_ping handle_disconnect handle_network_error handle_reject
    handle_reject_reply handle_set_accept_policy set_local_node_id leave_session set_state
    become_host host_again is_in_session
step-IsSettled m (initialize id mac) s = ground arith
step-IsSettled m (connected info) s = ground arith
step-IsSettled m (sync_network info) s = ground arith
step-IsSettled m (scan_reply info) s = s
step-IsSettled m scan_reply_end s = s
step-IsSettled m reject_reply s = s
step-IsSettled m leave s = ground arith
step-IsSettled m (ping requester id) s = s
step-IsSettled m (reject node reason) s = ground arith
step-IsSettled m (disconnect ip) s = s
step-IsSettled m (error_message code) s = s
step-IsSettled m (set_policy policy) s = s
step-IsSettled m (assign_node id) s = ground arith

-- A session that starts idle, or as a client, or as an access point that is the host, is in one of
-- these three ways after every run of events: the states `station_connected`,
-- `access_point_created` and `error` do not occur, and an access point is the host.
pub run-IsSettled : (m : LdnSessionHandler) (es : List Event) → IsSettled m → IsSettled (run m es).0
run-IsSettled m [] s = s
run-IsSettled m (e ∷ es) s = run-IsSettled (step m e).0 es (step-IsSettled m e s)

-- One event tells the state callback of what it changed.
abbrev Told : LdnSessionHandler → Handled → Type 0
Told m r = (r.0.state_callback ≡ true) × IsStatePath m.state r.1 r.0.state

set_state-Told :
    (m : LdnSessionHandler) (s : LdnSessionState) → m.state_callback ≡ true → Told m (set_state m s)
unfolding set_state
set_state-Told m s h = ground arith

step-Told : (m : LdnSessionHandler) (e : Event) → m.state_callback ≡ true → Told m (step m e)
unfolding handle_initialize handle_connected handle_sync_network handle_scan_reply
    handle_scan_reply_end handle_ping handle_disconnect handle_network_error handle_reject
    handle_reject_reply handle_set_accept_policy set_local_node_id leave_session set_state
    become_host host_again is_in_session
step-Told m (initialize id mac) h = ground arith
step-Told m (connected info) h = ground arith
step-Told m (sync_network info) h = ground arith
step-Told m (scan_reply info) h = ground arith
step-Told m scan_reply_end h = ground arith
step-Told m reject_reply h = ground arith
step-Told m leave h = ground arith
step-Told m (ping requester id) h = ground arith
step-Told m (reject node reason) h = ground arith
step-Told m (disconnect ip) h = ground arith
step-Told m (error_message code) h = ground arith
step-Told m (set_policy policy) h = ground arith
step-Told m (assign_node id) h = ground arith

-- With a state callback registered, what it is told over a run without a reset is a path of true
-- changes from the first state to the last one.
pub run-IsStatePath :
    (m : LdnSessionHandler) (es : List Event)
    → m.state_callback ≡ true
    → IsStatePath m.state (run m es).1 (run m es).0.state
run-IsStatePath m [] h = refl
run-IsStatePath m (e ∷ es) h =
    let (on, now) = step-Told m e h in
    IsStatePath-append (step m e).1 (run (step m e).0 es).1 m.state (step m e).0.state
      (run (step m e).0 es).0.state now (run-IsStatePath (step m e).0 es on)
