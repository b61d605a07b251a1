-- ===== src/Ldn/SessionHandler/Tests.antt =====
-- Runs of the session handler.
use ryu_ldn_nx.Prelude.{refl, inl, true, false, List, [], ◌∷◌}
use ryu_ldn_nx.Ldn.SessionHandler.{NetworkInfo, LdnSessionHandler, none}
use ryu_ldn_nx.Ldn.SessionHandler.States.{
  Event, initialize, sync_network, assign_node, run, IsSettled, run-IsSettled,
}

abbrev network : NetworkInfo
network = record { node_count = 2; node_count_max = 8; others = [] }

abbrev start : LdnSessionHandler
start = record {
  state = none;
  is_host = false;
  local_node_id = 255;
  last_ping_id = 0;
  session_id = [];
  mac_address = [];
  network_info = network;
  accept_policy = 0;
  state_callback = true;
  network_updated_callback = false;
  scan_result_callback = false;
  scan_completed_callback = false;
  disconnected_callback = false;
  error_callback = false;
  rejected_callback = false;
  accept_policy_changed_callback = false;
}

abbrev script : List Event
script = initialize [] [] ∷ assign_node 0 ∷ sync_network network ∷ []

run-IsSettled_example : IsSettled (run start script).0
run-IsSettled_example = run-IsSettled start script (inl refl)
