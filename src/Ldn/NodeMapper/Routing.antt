-- ===== src/Ldn/NodeMapper/Routing.antt =====
-- How many nodes a packet goes to.
use ryu_ldn_nx.Prelude.{ℕ, zero, suc, ◌+◌, ◌<◌, ◌≡◌, Bool, false, arith, ltb, ◌==◌, if◌then◌else◌}
use ryu_ldn_nx.Ldn.NodeMapper.{
  LdnNodeMapper, entry, max_nodes, broadcast_node_id, count_below, is_node_connected,
  get_connected_count, should_route_to_node,
}

-- How many nodes a packet is routed to.
abbrev pub targets : LdnNodeMapper → ℕ → ℕ → ℕ
targets m dest source = count_below max_nodes (λ t. should_route_to_node m dest source t)

count_below-other :
    (n k : ℕ) (test test' : ℕ → Bool)
    → ((i : ℕ) → i < n → test' i ≡ (if i == k then false else test i))
    → count_below n test' + (if ltb k n then (if test k then 1 else 0) else 0) ≡ count_below n test
unfolding count_below
count_below-other zero k test test' e = ground arith
count_below-other (suc n) k test test' e =
    ground (arith, e n, count_below-other n k test test' (λ i h. e i (omega arith)))

count_below-only :
    (n k : ℕ) (test test' : ℕ → Bool)
    → ((i : ℕ) → i < n → test' i ≡ (if i == k then test i else false))
    → count_below n test' ≡ (if ltb k n then (if test k then 1 else 0) else 0)
unfolding count_below
count_below-only zero k test test' e = ground arith
count_below-only (suc n) k test test' e =
    ground (arith, e n, count_below-only n k test test' (λ i h. e i (omega arith)))

-- The number of nodes that a broadcast is routed to, and one more if its source is connected, is
-- the number of connected nodes.
pub should_route_to_node-broadcast :
    (m : LdnNodeMapper) (source : ℕ)
    → targets m broadcast_node_id source + (if is_node_connected m source then 1 else 0)
      ≡ get_connected_count m
unfolding get_connected_count is_node_connected should_route_to_node
should_route_to_node-broadcast m source = ground (
  arith,
  count_below-other max_nodes source (λ i. (entry m.nodes i).is_connected)
      (λ t. should_route_to_node m broadcast_node_id source t) (λ i h. ground arith),
)

-- A packet that is no broadcast is routed to one node if the node that it names is connected, and
-- to none otherwise.
pub should_route_to_node-unicast :
    (m : LdnNodeMapper) (dest source : ℕ)
    → dest < broadcast_node_id
    → targets m dest source ≡ (if is_node_connected m dest then 1 else 0)
unfolding is_node_connected should_route_to_node
should_route_to_node-unicast m dest source h = ground (
  arith,
  count_below-only max_nodes dest (λ i. (entry m.nodes i).is_connected)
      (λ t. should_route_to_node m dest source t) (λ i l. ground arith),
)
