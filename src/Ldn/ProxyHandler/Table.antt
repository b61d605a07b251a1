-- ===== src/Ldn/ProxyHandler/Table.antt =====
-- The table of connections over a run of packets.
use ryu_ldn_nx.Prelude.{
  ◌≡◌, refl, ap, ◌∙◌, inl, inr, Bool, true, false, ◌&&◌, ◌||◌, List, [], ◌∷◌, ◌++◌, arith, ◌==◌,
  if◌then◌else◌, Bool-cases,
}
use ryu_ldn_nx.Ldn.ProxyHandler.{
  ProxyInfo, ProxyConnection, LdnProxyHandler, ProxyPacket, proxy_config, proxy_connect,
  proxy_connect_reply, proxy_data, proxy_disconnect, matches, matches_info, add_connection,
  remove_matching, remove_connection, has_matching, has_connection, handle, run,
}

-- Two descriptions of the same connection.
abbrev pub same : ProxyInfo → ProxyInfo → Bool
same i j =
    (i.source_ipv4 == j.source_ipv4)
    && (i.source_port == j.source_port)
    && (i.dest_ipv4 == j.dest_ipv4)
    && (i.dest_port == j.dest_port)
    && (i.protocol == j.protocol)

abbrev pub knows : LdnProxyHandler → ProxyInfo → Bool
knows m i = has_connection m i.source_ipv4 i.source_port i.dest_ipv4 i.dest_port i.protocol

abbrev has : List ProxyConnection → ProxyInfo → Bool
has cs i = has_matching cs i.source_ipv4 i.source_port i.dest_ipv4 i.dest_port i.protocol

has_matching-append :
    (cs ds : List ProxyConnection) (i : ProxyInfo) → has (cs ++ ds) i ≡ (has cs i || has ds i)
unfolding has_matching
has_matching-append [] ds i = refl
has_matching-append (c ∷ cs) ds i = ground (arith, has_matching-append cs ds i)

matches_both :
    (c : ProxyConnection) (i j : ProxyInfo)
    → matches_info c j ≡ true
    → matches c i.source_ipv4 i.source_port i.dest_ipv4 i.dest_port i.protocol ≡ same j i
unfolding matches matches_info
matches_both c i j h = ground arith

matches_neither :
    (c : ProxyConnection) (i j : ProxyInfo)
    → matches_info c j ≡ false
    → same j i ≡ true
    → matches c i.source_ipv4 i.source_port i.dest_ipv4 i.dest_port i.protocol ≡ false
unfolding matches matches_info
matches_neither c i j h e = ground arith

has_matching-remove_matching :
    (cs : List ProxyConnection) (i j : ProxyInfo)
    → has (remove_matching j cs) i ≡ (if same j i then false else has cs i)
unfolding has_matching remove_matching
has_matching-remove_matching [] i j = elim (Bool-cases (same j i)) [
  | inl e ↦ rw e refl
  | inr e ↦ rw e refl
]
has_matching-remove_matching (c ∷ cs) i j = elim (Bool-cases (matches_info c j)) [
  | inl gone ↦ rw gone (elim (Bool-cases (same j i)) [
    | inl e ↦ ground (arith, has_matching-remove_matching cs i j, e)
    | inr e ↦ ground (arith, has_matching-remove_matching cs i j, matches_both c i j gone, e)
  ])
  | inr kept ↦ rw kept (elim (Bool-cases (same j i)) [
    | inl e ↦ ground (arith, has_matching-remove_matching cs i j, matches_neither c i j kept e, e)
    | inr e ↦ ground (arith, has_matching-remove_matching cs i j, e)
  ])
]

-- Whether a connection is open after a packet, and after a list of packets.
abbrev opened : ProxyInfo → Bool → ProxyPacket → Bool
opened i known (proxy_connect j) = same j i || known
opened i known (proxy_disconnect j reason) = if same j i then false else known
opened i known _ = known

abbrev pub is_open : ProxyInfo → Bool → List ProxyPacket → Bool
is_open i known [] = known
is_open i known (p ∷ ps) = is_open i (opened i known p) ps

knows-add_connection :
    (m : LdnProxyHandler) (i j : ProxyInfo) → knows (add_connection m j) i ≡ (same j i || knows m i)
unfolding has_connection add_connection
knows-add_connection m i j =
    let c : ProxyConnection = record {
      source_ipv4 = j.source_ipv4;
      source_port = j.source_port;
      dest_ipv4 = j.dest_ipv4;
      dest_port = j.dest_port;
      protocol = j.protocol;
    } in
    has_matching-append m.connections (c ∷ []) i ∙ (unfold has_matching matches in ground arith)

knows-remove_connection :
    (m : LdnProxyHandler) (i j : ProxyInfo)
    → knows (remove_connection m j) i ≡ (if same j i then false else knows m i)
unfolding has_connection remove_connection
knows-remove_connection m i j = has_matching-remove_matching m.connections i j

knows-handle :
    (m : LdnProxyHandler) (i : ProxyInfo) (p : ProxyPacket)
    → knows (handle m p).0 i ≡ opened i (knows m i) p
unfolding handle
knows-handle m i (proxy_config ip mask) = unfold has_connection in refl
knows-handle m i (proxy_connect j) = knows-add_connection m i j
knows-handle m i (proxy_connect_reply j) = refl
knows-handle m i (proxy_data j payload n) = refl
knows-handle m i (proxy_disconnect j reason) = knows-remove_connection m i j

-- After any run of packets the handler knows a connection exactly if the last packet that opened or
-- closed it opened it, or if there was none and it knew it before. However often a connection was
-- opened, closing it once is enough.
pub has_connection-run :
    (m : LdnProxyHandler) (i : ProxyInfo) (ps : List ProxyPacket)
    → knows (run m ps).0 i ≡ is_open i (knows m i) ps
unfolding run
has_connection-run m i [] = refl
has_connection-run m i (p ∷ ps) =
    has_connection-run (handle m p).0 i ps ∙ ap (λ k. is_open i k ps) (knows-handle m i p)

-- All five callbacks are registered.
pub record IsWatched (m : LdnProxyHandler) : Type 0 where
  pub on_config : m.config_callback ≡ true
  pub on_connect : m.connect_callback ≡ true
  pub on_connect_reply : m.connect_reply_callback ≡ true
  pub on_data : m.data_callback ≡ true
  pub on_disconnect : m.disconnect_callback ≡ true

handle-IsWatched :
    (m : LdnProxyHandler) (p : ProxyPacket)
    → IsWatched m
    → ((handle m p).1 ≡ p ∷ []) × IsWatched (handle m p).0
unfolding handle add_connection remove_connection
handle-IsWatched m p w =
    ground (arith, w.on_config, w.on_connect, w.on_connect_reply, w.on_data, w.on_disconnect)

-- With all callbacks registered, each packet leads to one call, of its own callback with its own
-- content, in the order of the packets.
pub run-IsWatched : (m : LdnProxyHandler) (ps : List ProxyPacket) → IsWatched m → (run m ps).1 ≡ ps
unfolding run
run-IsWatched m [] w = refl
run-IsWatched m (p ∷ ps) w =
    let (call, w') = handle-IsWatched m p w in
    ap (λ l. l ++ (run (handle m p).0 ps).1) call ∙ ap (◌∷◌ p) (run-IsWatched (handle m p).0 ps w')
