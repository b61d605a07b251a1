-- ===== src/Ldn/NodeMapper/Tests.antt =====
-- Runs of the node mapper.
use ryu_ldn_nx.Prelude.{◌≡◌, refl, ◌⊎◌, true, false, none, some, [], ◌∷◌}
use ryu_ldn_nx.Ldn.NodeMapper.{
  LdnNodeMapper, NodeInfo, NetworkInfo, new, broadcast_node_id, listed, add_node,
  get_connected_count, update_from_network_info, should_route_to_node, count_below,
}
use ryu_ldn_nx.Ldn.NodeMapper.Routing.{targets}
use ryu_ldn_nx.Ldn.NodeMapper.Update.{IsValid, in_range, Knows, update_from_network_info-Knows}

abbrev host : NodeInfo
host = record { ipv4_address = 0x0A720001; node_id = 0; is_connected = 1 }

abbrev guest : NodeInfo
guest = record { ipv4_address = 0x0A720002; node_id = 1; is_connected = 1 }

abbrev session : NetworkInfo
session = record { node_count = 2; nodes = host ∷ guest ∷ [] }

new-IsValid : IsValid new
unfolding new
new-IsValid = record { full = refl }

abbrev joined : LdnNodeMapper
joined = add_node (add_node new 0 0x0A720001) 1 0x0A720002

joined-count : (get_connected_count joined ≡ 2) × (targets joined broadcast_node_id 0 ≡ 1)
unfolding new add_node get_connected_count should_route_to_node count_below
joined-count = (refl, refl)

update_from_network_info-Knows_example :
    ((in_range (listed session) ≡ false) × (update_from_network_info new session ≡ none))
    ⊎ ((in_range (listed session) ≡ true)
        × (m' : LdnNodeMapper) × (update_from_network_info new session ≡ some m')
        × Knows m' (listed session)
        × (m'.local_node_id ≡ new.local_node_id))
update_from_network_info-Knows_example = update_from_network_info-Knows new session new-IsValid
