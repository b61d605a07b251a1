-- ===== src/Bsd/ProxySocket/Accepting.antt =====
-- The connections that a listening socket hands out.
use ryu_ldn_nx.Prelude.{
  ℕ, zero, suc, ◌^◌, ◌<◌, ◌≡◌, refl, sym, ap, ap₂, ◌∙◌, Option, none, some, List, [], ◌∷◌, ◌++◌,
  map, append_assoc, append-nil, length, length-map,
}
use ryu_ldn_nx.Bsd.Types.{
  SockAddrIn, bswap16, bswap32, get_addr, get_port, bswap16-bswap16, bswap32-bswap32,
}
use ryu_ldn_nx.Bsd.ProxySocket.{
  ProxySocket, ProxySocketState, Accepted, connected, listening, any_addr, accept, accepted_socket,
  pop_accepted, pop_from, incoming_connection, incoming_connections,
}
use ryu_ldn_nx.Ldn.ProxyHandler.{ProxyInfo}

-- The entry of the accept queue that a request makes.
abbrev entry : SockAddrIn → ProxyInfo → Accepted
entry local r = record {
  local_addr = local;
  remote_addr = record any_addr {
    sin_addr = bswap32 r.source_ipv4;
    sin_port = bswap16 r.source_port;
  };
}

-- `n` calls of `Accept`, while no further request arrives.
unfoldable pub accept_times : ℕ → ProxySocket → List (Option ProxySocket)
accept_times zero s = []
accept_times (suc n) s =
    let (s', (a, replies)) = accept s [] in let rest = accept_times n s' in a ∷ rest

-- What a peer and the game can see of a socket: its state, its address, and the peer's address and port in
-- host order.
abbrev pub Endpoint : Type 0
Endpoint = Option (ProxySocketState × (SockAddrIn × (ℕ × ℕ)))

abbrev pub endpoint : Option ProxySocket → Endpoint
endpoint none = none
endpoint (some t) = some (t.state, (t.local_addr, (get_addr t.remote_addr, get_port t.remote_addr)))

-- The fields of a request are unsigned numbers of 32 and 16 bits.
abbrev pub Fit : List ProxyInfo → Type 0
Fit [] = Unit {0}
Fit (r ∷ rs) = (r.source_ipv4 < 2 ^ 32) × (r.source_port < 2 ^ 16) × Fit rs

incoming_connection_lem :
    (s : ProxySocket) (r : ProxyInfo)
    → s.state ≡ listening
    → let s' = (incoming_connection s r).0 in
      (s'.accept_queue ≡ s.accept_queue ++ (entry s.local_addr r ∷ []))
      × (s'.state ≡ listening)
      × (s'.local_addr ≡ s.local_addr)
unfolding incoming_connection
incoming_connection_lem s r l = simp l (refl, refl, refl)

incoming_connections_lem :
    (s : ProxySocket) (rs : List ProxyInfo)
    → s.state ≡ listening
    → let s' = (incoming_connections s rs).0 in
      (s'.accept_queue ≡ s.accept_queue ++ map (entry s.local_addr) rs) × (s'.state ≡ listening)
unfolding incoming_connections
incoming_connections_lem s [] l = (sym (append-nil s.accept_queue), l)
incoming_connections_lem s (r ∷ rs) l =
    let (q, l', local) = incoming_connection_lem s r l in
    let (q', l'') = incoming_connections_lem (incoming_connection s r).0 rs l' in
    (
      q'
          ∙ ap₂ (λ xs a. xs ++ map (entry a) rs) q local
          ∙ append_assoc s.accept_queue (entry s.local_addr r ∷ []) (map (entry s.local_addr) rs),
      l'',
    )

accept_front :
    (s : ProxySocket) (a : Accepted) (q : List Accepted)
    → s.state ≡ listening
    → s.accept_queue ≡ a ∷ q
    → let (s', (t, replies)) = accept s [] in
      (s'.accept_queue ≡ q)
      × (s'.state ≡ listening)
      × (t ≡ some (accepted_socket s a))
      × ((b : Accepted) → accepted_socket s' b ≡ accepted_socket s b)
unfolding accept pop_accepted pop_from accepted_socket
accept_front s a q l e = simp (l, e) (refl, refl, refl, λ b. refl)

accept_times_lem :
    (s : ProxySocket) (q : List Accepted)
    → s.state ≡ listening
    → s.accept_queue ≡ q
    → accept_times (length q) s ≡ map (λ a. some (accepted_socket s a)) q
unfolding accept_times
accept_times_lem s [] l e = refl
accept_times_lem s (a ∷ q) l e =
    let (e', l', t, same) = accept_front s a q l e in
    ap₂ ◌∷◌ t (
      accept_times_lem (accept s []).0 q l' e'
      ∙ map_eq (λ b. some (accepted_socket (accept s []).0 b)) (λ b. some (accepted_socket s b)) q
          (λ b. ap some (same b)))
  where
    map_eq :
        (f g : Accepted → Option ProxySocket) (q : List Accepted)
        → ((b : Accepted) → f b ≡ g b)
        → map f q ≡ map g q
    map_eq f g [] h = refl
    map_eq f g (b ∷ q) h = ap₂ ◌∷◌ (h b) (map_eq f g q h)

endpoint_entries :
    (t : ProxySocket) (local : SockAddrIn) (rs : List ProxyInfo)
    → Fit rs
    → map endpoint (map (λ a. some (accepted_socket t a)) (map (entry local) rs))
      ≡ map (λ r. some (connected, (local, (r.source_ipv4, r.source_port)))) rs
unfolding accepted_socket get_addr get_port
endpoint_entries t local [] f = refl
endpoint_entries t local (r ∷ rs) (ip, port, f) =
    ap₂ ◌∷◌
      (ap₂ (λ i p. some (connected, (local, (i, p)))) (bswap32-bswap32 r.source_ipv4 ip)
        (bswap16-bswap16 r.source_port port))
      (endpoint_entries t local rs f)

-- A listening socket with nothing queued hands out the connections that were asked for, one by one in
-- their order, each connected, with the listener's address and the address and port of its request.
pub accept_times-incoming_connections :
    (s : ProxySocket) (rs : List ProxyInfo)
    → s.state ≡ listening
    → s.accept_queue ≡ []
    → Fit rs
    → map endpoint (accept_times (length rs) (incoming_connections s rs).0)
      ≡ map (λ r. some (connected, (s.local_addr, (r.source_ipv4, r.source_port)))) rs
accept_times-incoming_connections s rs l none_queued f =
    let t = (incoming_connections s rs).0 in
    let queued = map (entry s.local_addr) rs in
    let (q, l') = incoming_connections_lem s rs l in
    ap (λ n. map endpoint (accept_times n t)) (sym (length-map (entry s.local_addr) rs))
    ∙ ap (map endpoint) (accept_times_lem t queued l' (q ∙ ap (λ xs. xs ++ queued) none_queued))
    ∙ endpoint_entries t s.local_addr rs f
