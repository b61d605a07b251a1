-- ===== src/Ldn/NodeMapper/Update.antt =====
-- Taking over the nodes of a `NetworkInfo`.
use ryu_ldn_nx.Prelude.{
  ℕ, zero, suc, ◌<◌, ◌≡◌, refl, ◌⊎◌, inl, inr, Bool, true, false, ◌&&◌, ◌||◌, Option, none, some,
  List, [], ◌∷◌, arith, ltb, ◌==◌, if◌then◌else◌, ap, ◌∙◌, length, length-set, get_or-set_self,
  get_or-set_ne, Bool-cases, Option-cases,
}
use ryu_ldn_nx.Ldn.NodeMapper.{
  LdnNodeMapper, NodeEntry, NodeInfo, NetworkInfo, entry, empty_entry, max_nodes, put_node,
  clear_nodes, add_nodes, listed, is_node_connected, get_node_ip, update_from_network_info,
  add_node, remove_node,
}

-- The array has its eight entries.
pub record IsValid (m : LdnNodeMapper) : Type 0 where
  pub full : length m.nodes ≡ max_nodes

-- All the connected nodes have an index of the array.
abbrev pub in_range : List NodeInfo → Bool
in_range [] = true
in_range (i ∷ infos) = (i.is_connected == 0 || ltb i.node_id max_nodes) && in_range infos

-- The address of the last connected node with a given index.
abbrev pub latest : ℕ → List NodeInfo → Option ℕ
latest id [] = none
latest id (i ∷ infos) = elim (latest id infos) [
  | some ipv4 ↦ some ipv4
  | none ↦
      if i.is_connected == 0 then none else if i.node_id == id then some i.ipv4_address else none
]

abbrev after : NodeEntry → Option ℕ → NodeEntry
after e none = e
after e (some ipv4) = record e { ipv4_address = ipv4; is_connected = true }

add_nodes-none :
    (infos : List NodeInfo) (nodes : List NodeEntry)
    → in_range infos ≡ false
    → add_nodes infos nodes ≡ none
unfolding add_nodes
add_nodes-none [] nodes h = cc
add_nodes-none (i ∷ infos) nodes h = ground (
  arith,
  add_nodes-none infos nodes,
  add_nodes-none infos (put_node nodes i.node_id i.ipv4_address),
)

length-put_node :
    (nodes : List NodeEntry) (i ipv4 : ℕ) → length (put_node nodes i ipv4) ≡ length nodes
unfolding put_node
length-put_node nodes i ipv4 = length-set nodes i _

entry-put_node :
    (nodes : List NodeEntry) (i ipv4 id : ℕ)
    → length nodes ≡ max_nodes
    → i < max_nodes
    → entry (put_node nodes i ipv4) id
      ≡ (if i == id then after (entry nodes id) (some ipv4) else entry nodes id)
unfolding put_node
entry-put_node nodes i ipv4 id full h =
    let v = record (entry nodes i) { ipv4_address = ipv4; is_connected = true } in
    ground
      (arith, get_or-set_self nodes i v (empty_entry 0), get_or-set_ne nodes i id v (empty_entry 0))

after-latest :
    (e : NodeEntry) (i : NodeInfo) (infos : List NodeInfo) (id : ℕ)
    → after e (latest id (i ∷ infos)) ≡ (
        if i.is_connected == 0
        then after e (latest id infos)
        else after (if i.node_id == id then after e (some i.ipv4_address) else e) (latest id infos))
after-latest e i infos id = elim (Option-cases (latest id infos)) [
  | inl none_later ↦ ground arith
  | inr (ipv4, later) ↦ ground arith
]

-- What the loop leaves when all is in range.
record Added (infos : List NodeInfo) (nodes : List NodeEntry) : Type 0 where
  final : List NodeEntry
  added : add_nodes infos nodes ≡ some final
  size : length final ≡ max_nodes
  entries : (id : ℕ) → id < max_nodes → entry final id ≡ after (entry nodes id) (latest id infos)

add_nodes-Added :
    (infos : List NodeInfo) (nodes : List NodeEntry)
    → length nodes ≡ max_nodes
    → in_range infos ≡ true
    → Added infos nodes
unfolding add_nodes
add_nodes-Added [] nodes full h = record {
  final = nodes;
  added = refl;
  size = full;
  entries = λ id l. refl;
}
add_nodes-Added (i ∷ infos) nodes full h = elim (Bool-cases (i.is_connected == 0)) [
  | inl off ↦
      let a = add_nodes-Added infos nodes full (ground arith) in
      record {
        final = a.final;
        added = ground (arith, a.added);
        size = a.size;
        entries = λ id l. ground (arith, a.entries id l, after-latest (entry nodes id) i infos id);
      }
  | inr on ↦
      let put = put_node nodes i.node_id i.ipv4_address in
      let a =
        add_nodes-Added infos put (length-put_node nodes i.node_id i.ipv4_address ∙ full)
          (ground arith) in
      record {
        final = a.final;
        added = ground (arith, a.added);
        size = a.size;
        entries = λ id l. ground (
          arith,
          a.entries id l,
          after-latest (entry nodes id) i infos id,
          entry-put_node nodes i.node_id i.ipv4_address id full,
        );
      }
]

length-clear_nodes : (nodes : List NodeEntry) → length (clear_nodes nodes) ≡ length nodes
unfolding clear_nodes
length-clear_nodes [] = refl
length-clear_nodes (n ∷ nodes) = ap suc (length-clear_nodes nodes)

entry-clear_nodes :
    (nodes : List NodeEntry) (id : ℕ)
    → ((entry (clear_nodes nodes) id).is_connected ≡ false)
      × ((entry (clear_nodes nodes) id).ipv4_address ≡ 0)
unfolding clear_nodes
entry-clear_nodes [] id = (refl, refl)
entry-clear_nodes (n ∷ nodes) zero = (refl, refl)
entry-clear_nodes (n ∷ nodes) (suc id) = entry-clear_nodes nodes id

-- What the mapper answers for one index.
abbrev pub Reports : LdnNodeMapper → ℕ → Option ℕ → Type 0
Reports m id none = (is_node_connected m id ≡ false) × (get_node_ip m id ≡ 0)
Reports m id (some ipv4) = (is_node_connected m id ≡ true) × (get_node_ip m id ≡ ipv4)

-- The mapper knows exactly the connected nodes of the list, each with its last address there.
pub record Knows (m : LdnNodeMapper) (infos : List NodeInfo) : Type 0 where
  pub valid : IsValid m
  pub nodes : (id : ℕ) → id < max_nodes → Reports m id (latest id infos)

known :
    (m : LdnNodeMapper) (final : List NodeEntry) (id : ℕ) (found : Option ℕ)
    → id < max_nodes
    → entry final id ≡ after (entry (clear_nodes m.nodes) id) found
    → Reports (record m { nodes = final }) id found
unfolding is_node_connected get_node_ip
known m final id none l e = ground (arith, entry-clear_nodes m.nodes id)
known m final id (some ipv4) l e = ground arith

-- For a mapper with its eight entries: if one of the connected nodes that the message lists has an
-- index outside the array, the update writes outside it. Otherwise, whatever the mapper knew
-- before, it then knows exactly the connected nodes of the message, each with the last address
-- listed for it; its own node's index stays.
pub update_from_network_info-Knows :
    (m : LdnNodeMapper) (info : NetworkInfo)
    → IsValid m
    → ((in_range (listed info) ≡ false) × (update_from_network_info m info ≡ none))
      ⊎ ((in_range (listed info) ≡ true)
          × (m' : LdnNodeMapper) × (update_from_network_info m info ≡ some m')
          × Knows m' (listed info)
          × (m'.local_node_id ≡ m.local_node_id))
unfolding update_from_network_info
update_from_network_info-Knows m info v = elim (Bool-cases (in_range (listed info))) [
  | inl good ↦
      let cleared = clear_nodes m.nodes in
      let a = add_nodes-Added (listed info) cleared (length-clear_nodes m.nodes ∙ v.full) good in
      inr (
        good,
        record m { nodes = a.final },
        ground (arith, a.added),
        record {
          valid = record { full = a.size };
          nodes = λ id l. known m a.final id (latest id (listed info)) l (a.entries id l);
        },
        refl,
      )
  | inr bad ↦ inl (bad, ground (arith, add_nodes-none (listed info) (clear_nodes m.nodes) bad))
]

-- In a mapper with its eight entries, a node that is added and then removed is not connected and
-- keeps the address it was given; the other nodes are as before, and so is every answer if the
-- index is out of range.
pub remove_node-add_node :
    (m : LdnNodeMapper) (k ipv4 : ℕ)
    → IsValid m
    → let m' = remove_node (add_node m k ipv4) k in
      IsValid m'
      × ((id : ℕ)
          → (is_node_connected m' id ≡ (if k == id then false else is_node_connected m id))
            × (get_node_ip m' id
                ≡ (if k == id then (if ltb k max_nodes then ipv4 else 0) else get_node_ip m id)))
unfolding is_node_connected get_node_ip add_node remove_node
remove_node-add_node m k ipv4 v = elim (Bool-cases (ltb k max_nodes)) [
  | inl inside ↦
      let put = put_node m.nodes k ipv4 in
      let off = record (entry put k) { is_connected = false } in
      (
        record { full = ground (arith, length-set put k off, length-put_node m.nodes k ipv4) },
        λ id. ground (
          arith,
          length-put_node m.nodes k ipv4,
          get_or-set_self put k off (empty_entry 0),
          get_or-set_ne put k id off (empty_entry 0),
          entry-put_node m.nodes k ipv4 id,
          entry-put_node m.nodes k ipv4 k,
        ),
      )
  | inr outside ↦ (record { full = ground arith }, λ id. ground arith)
]
