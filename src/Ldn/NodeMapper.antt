-- ===== src/Ldn/NodeMapper.antt =====
-- sysmodule/source/ldn/ldn_node_mapper.hpp and ldn_node_mapper.cpp: which node of a session has which
-- address, and which nodes a packet goes to. Every operation holds the mapper's mutex, so a call is
-- one step. Of `NetworkInfo` there is what the mapper reads. A write outside the array, which C++
-- leaves undefined, is a fault, `none`.
pub mod Update
pub mod Routing
mod Tests
use ryu_ldn_nx.Prelude.{
  ℕ, zero, suc, ◌+◌, ◌-◌, ◌^◌, Bool, true, false, Option, none, some, List, [], ◌∷◌, map, ltb, leb,
  ◌==◌, not, if◌then◌else◌, get_or, set, take, min,
}

abbrev pub max_nodes : ℕ
max_nodes = 8

abbrev pub broadcast_node_id : ℕ
broadcast_node_id = 2 ^ 32 - 1

pub record NodeEntry : Type 0 where
  pub node_id : ℕ  -- u32
  pub ipv4_address : ℕ  -- u32
  pub is_connected : Bool

pub record LdnNodeMapper : Type 0 where
  pub nodes : List NodeEntry
  pub local_node_id : ℕ  -- u8

-- `nodeId` and `isConnected` are `s8`, kept as bit patterns.
pub record NodeInfo : Type 0 where
  pub ipv4_address : ℕ  -- u32
  pub node_id : ℕ  -- s8
  pub is_connected : ℕ  -- s8

pub record NetworkInfo : Type 0 where
  pub node_count : ℕ  -- u8
  pub nodes : List NodeInfo

abbrev pub empty_entry : ℕ → NodeEntry
empty_entry i = record { node_id = i; ipv4_address = 0; is_connected = false }

unfoldable pub new : LdnNodeMapper
new = record {
  nodes =
      empty_entry 0
      ∷ empty_entry 1
      ∷ empty_entry 2
      ∷ empty_entry 3
      ∷ empty_entry 4
      ∷ empty_entry 5
      ∷ empty_entry 6
      ∷ empty_entry 7
      ∷ [];
  local_node_id = 255;
}

-- `m_nodes[i]`, read where `i` is below `max_nodes`.
abbrev pub entry : List NodeEntry → ℕ → NodeEntry
entry nodes i = get_or nodes i (empty_entry 0)

-- The two assignments that connect a node.
unfoldable pub put_node : List NodeEntry → ℕ → ℕ → List NodeEntry
put_node nodes i ipv4 =
    set nodes i (record (entry nodes i) { ipv4_address = ipv4; is_connected = true })

unfoldable pub add_node : LdnNodeMapper → ℕ → ℕ → LdnNodeMapper
unfolding put_node
add_node m node_id ipv4 =
    if leb max_nodes node_id then m else record m { nodes = put_node m.nodes node_id ipv4 }

unfoldable pub remove_node : LdnNodeMapper → ℕ → LdnNodeMapper
remove_node m node_id = if leb max_nodes node_id then m else record m {
  nodes = set m.nodes node_id (record (entry m.nodes node_id) { is_connected = false });
}

unfoldable pub is_node_connected : LdnNodeMapper → ℕ → Bool
is_node_connected m node_id =
    if leb max_nodes node_id then false else (entry m.nodes node_id).is_connected

unfoldable pub get_node_ip : LdnNodeMapper → ℕ → ℕ
get_node_ip m node_id = if leb max_nodes node_id then 0 else (entry m.nodes node_id).ipv4_address

-- How many indices below `n` pass a test.
unfoldable pub count_below : ℕ → (ℕ → Bool) → ℕ
count_below zero test = 0
count_below (suc n) test = (if test n then 1 else 0) + count_below n test

unfoldable pub get_connected_count : LdnNodeMapper → ℕ
get_connected_count m = count_below max_nodes (λ i. (entry m.nodes i).is_connected)

unfoldable pub clear_nodes : List NodeEntry → List NodeEntry
clear_nodes [] = []
clear_nodes (n ∷ nodes) = record n { ipv4_address = 0; is_connected = false } ∷ clear_nodes nodes

unfoldable pub clear : LdnNodeMapper → LdnNodeMapper
unfolding clear_nodes
clear m = record { nodes = clear_nodes m.nodes; local_node_id = 255 }

-- The second loop of `UpdateFromNetworkInfo`. Its index is not checked; a negative one has a bit
-- pattern above 127.
unfoldable pub add_nodes : List NodeInfo → List NodeEntry → Option (List NodeEntry)
add_nodes [] nodes = some nodes
add_nodes (i ∷ infos) nodes =
    let skipped = add_nodes infos nodes in
    let added = add_nodes infos (put_node nodes i.node_id i.ipv4_address) in
    if i.is_connected == 0 then skipped else if ltb i.node_id max_nodes then added else none

-- The part of the list that the loop sees.
abbrev pub listed : NetworkInfo → List NodeInfo
listed info = take (min info.node_count max_nodes) info.nodes

unfoldable pub update_from_network_info : LdnNodeMapper → NetworkInfo → Option LdnNodeMapper
unfolding add_nodes clear_nodes
update_from_network_info m info = elim (add_nodes (listed info) (clear_nodes m.nodes)) [
  | none ↦ none
  | some nodes ↦ some (record m { nodes = nodes })
]

unfoldable pub should_route_to_node : LdnNodeMapper → ℕ → ℕ → ℕ → Bool
should_route_to_node m dest_node_id source_node_id target_node_id =
    if leb max_nodes target_node_id
    then false
    else if not (entry m.nodes target_node_id).is_connected
    then false
    else if dest_node_id == broadcast_node_id
    then not (target_node_id == source_node_id)
    else dest_node_id == target_node_id

unfoldable pub set_local_node_id : LdnNodeMapper → ℕ → LdnNodeMapper
set_local_node_id m node_id = record m { local_node_id = node_id }
