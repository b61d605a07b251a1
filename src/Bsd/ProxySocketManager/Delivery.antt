-- ===== src/Bsd/ProxySocketManager/Delivery.antt =====
-- What a packet that comes in does to the sockets.
use ryu_ldn_nx.Prelude.{
  ℕ, zero, suc, ◌≤◌, min, ◌≡◌, ◌≢◌, ◌⊎◌, refl, sym, ap, ◌∙◌, inl, inr, Bool, true, false, not, ◌&&◌,
  Option, some, List, [], ◌∷◌, ◌++◌, arith, ◌==◌, if◌then◌else◌, Bool-cases, length, take,
  push_bounded, length-zero, Sub, nil, keep, skip,
}
use ryu_ldn_nx.Bsd.EphemeralPortPool.{ProtocolType, udp}
use ryu_ldn_nx.Bsd.Types.{SockAddrIn, is_protocol}
use ryu_ldn_nx.Bsd.ProxySocket.{ProxySocket, max_queue_size, max_payload}
use ryu_ldn_nx.Bsd.ProxySocket.Transfer.{incoming_data}
use ryu_ldn_nx.Bsd.ProxySocket.Queue.{
  IsValid, pending, pending-incoming_data, incoming_data-IsValid,
}
use ryu_ldn_nx.Bsd.PendingRing.{Route, store}
use ryu_ldn_nx.Bsd.ProxySocketManager.{ProxySocketManager, Sockets, find, update}
use ryu_ldn_nx.Bsd.ProxySocketManager.Routing.{
  has_endpoint, takes_broadcast, is_broadcast, find_all_sockets_by_destination, max_targets,
  source_addr, deliver_to, route_incoming_data,
}
use ryu_ldn_nx.Bsd.ProxySocketManager.Targets.{
  fds_where, is_exact, is_wildcard, find_all_sockets_by_destination_lem,
}
use ryu_ldn_nx.Bsd.ProxySocketManager.Registry.{
  elem, fds, Distinct, Sub-Distinct, mapped, find-update,
}

find-deliver_to :
    (t : Sockets) (targets : List ℕ) (bytes : Option (List ℕ)) (len : ℕ) (from : SockAddrIn) (q : ℕ)
    → Distinct targets
    → find (deliver_to t targets bytes len from) q ≡ (
        if elem q targets
        then mapped (find t q) (λ s. incoming_data s bytes len from)
        else find t q)
unfolding deliver_to
find-deliver_to t [] bytes len from q d = refl
find-deliver_to t (fd ∷ targets) bytes len from q (h, d) =
    let f : ProxySocket → ProxySocket = λ s. incoming_data s bytes len from in
    ground (arith, find-deliver_to (update t fd f) targets bytes len from q d, find-update t fd q f)

fds_where-Sub : (test : ProxySocket → Bool) (t : Sockets) → Sub (fds_where test t) (fds t)
fds_where-Sub test [] = nil
fds_where-Sub test ((fd, s) ∷ t) = elim (Bool-cases (test s)) [
  | inl e ↦ rw e (keep fd (fds_where-Sub test t))
  | inr e ↦ rw e (skip fd (fds_where-Sub test t))
]

take-Sub : (n : ℕ) (xs ys : List ℕ) → Sub xs ys → Sub (take n xs) ys
take-Sub zero xs ys p = nil
take-Sub (suc n) [] ys p = nil
take-Sub (suc n) (x ∷ xs) _ (keep _ p) = keep x (take-Sub n xs _ p)
take-Sub (suc n) (x ∷ xs) _ (skip y p) = skip y (take-Sub (suc n) (x ∷ xs) _ p)

take-one-Distinct : (xs : List ℕ) → Distinct (take 1 xs)
take-one-Distinct [] = tt
take-one-Distinct (x ∷ xs) = (refl, tt)

-- No socket is a target twice.
find_all_sockets_by_destination-Distinct :
    (t : Sockets) (ip port : ℕ) (protocol : ProtocolType)
    → Distinct (fds t)
    → Distinct (find_all_sockets_by_destination t ip port protocol max_targets)
find_all_sockets_by_destination-Distinct t ip port protocol d =
    rw (find_all_sockets_by_destination_lem t ip port protocol max_targets (omega arith))
      (elim (Bool-cases (is_broadcast ip)) [
        | inl e ↦
            let taken = fds_where (λ s. has_endpoint s protocol port && takes_broadcast s ip) t in
            rw e (Sub-Distinct (take-Sub max_targets taken (fds t) (fds_where-Sub _ t)) d)
        | inr e ↦ rw e (
            take-one-Distinct (
              fds_where (is_exact ip port protocol) t
              ++ fds_where (is_wildcard ip port protocol) t))
      ])

abbrev pub targets_of : ProxySocketManager → Route → List ℕ
targets_of m a =
    find_all_sockets_by_destination m.sockets a.dest_ip a.dest_port a.protocol max_targets

abbrev pub is_loopback : ProxySocketManager → Route → Bool
is_loopback m a = not (m.local_ip == 0) && (a.source_ip == m.local_ip)

-- `RouteIncomingData` on all branches. A packet from the own address counts as handled and changes nothing.
-- Without a target a UDP packet is dropped and another one is stored for later, and the call reports that
-- nobody took it. Else there is a target, every target gets the packet once, with the address of its
-- source, and every other socket stays as it was.
pub route_incoming_data_lem :
    (m : ProxySocketManager) (a : Route) (bytes : Option (List ℕ)) (len now_ms : ℕ)
    → Distinct (fds m.sockets)
    → let (m', taken) = route_incoming_data m a bytes len now_ms in
      ((is_loopback m a ≡ true) × (m' ≡ m) × (taken ≡ true))
      ⊎ ((is_loopback m a ≡ false)
          × (targets_of m a ≡ [])
          × (m' ≡ (
              if is_protocol a.protocol udp
              then m
              else record m { pending = store m.pending a now_ms bytes len }))
          × (taken ≡ false))
      ⊎ ((is_loopback m a ≡ false)
          × (targets_of m a ≢ [])
          × (m'.pending ≡ m.pending)
          × (taken ≡ true)
          × ((q : ℕ)
              → find m'.sockets q ≡ (
                  if elem q (targets_of m a)
                  then mapped
                      (find m.sockets q)
                      (λ s. incoming_data s bytes len (source_addr a.source_ip a.source_port))
                  else find m.sockets q)))
unfolding route_incoming_data
route_incoming_data_lem m a bytes len now_ms d = elim (Bool-cases (is_loopback m a)) [
  | inl e ↦ rw e (inl (refl, refl, refl))
  | inr e ↦ rw e (elim (Bool-cases (length (targets_of m a) == 0)) [
    | inl empty ↦
        let no_target : targets_of m a ≡ [] = length-zero (targets_of m a) (ground arith) in
        rw empty (
          inr (
            inl (
              refl,
              no_target,
              choose (is_protocol a.protocol udp) m
                  (record m { pending = store m.pending a now_ms bytes len }),
              choose_flag (is_protocol a.protocol udp) m
                  (record m { pending = store m.pending a now_ms bytes len }),
            )))
    | inr full ↦ rw full (
        inr (
          inr (
            refl,
            some_target full,
            refl,
            refl,
            λ q.
                find-deliver_to m.sockets (targets_of m a) bytes len
                  (source_addr a.source_ip a.source_port) q
                  (find_all_sockets_by_destination-Distinct m.sockets a.dest_ip a.dest_port
                    a.protocol d),
          )))
  ])
]
  where
    some_target : (length (targets_of m a) == 0) ≡ false → targets_of m a ≢ []
    some_target full none = cc (ap (λ l. length l == 0) none, full)

    choose :
        (b : Bool) (x y : ProxySocketManager)
        → let r : ProxySocketManager × Bool = if b then (x, false) else (y, false) in
          r.0 ≡ (if b then x else y)
    choose true x y = refl
    choose false x y = refl

    choose_flag :
        (b : Bool) (x y : ProxySocketManager)
        → let r : ProxySocketManager × Bool = if b then (x, false) else (y, false) in r.1 ≡ false
    choose_flag true x y = refl
    choose_flag false x y = refl

-- A target's queue gets the payload, cut to 2000 bytes, with the source's address at its end, the oldest
-- datagram making room when 64 wait; its ring stays valid.
pub pending-route_incoming_data :
    (m : ProxySocketManager) (a : Route) (bytes : List ℕ) (len now_ms fd : ℕ) (s : ProxySocket)
    → Distinct (fds m.sockets)
    → len ≤ length bytes
    → is_loopback m a ≡ false
    → elem fd (targets_of m a) ≡ true
    → find m.sockets fd ≡ some s
    → IsValid s
    → (s' : ProxySocket) × (find (route_incoming_data m a (some bytes) len now_ms).0.sockets fd
        ≡ some s')
      × IsValid s'
      × (pending s'
          ≡ push_bounded max_queue_size
              (pending s)
              (source_addr a.source_ip a.source_port, take (min len max_payload) bytes))
pending-route_incoming_data m a bytes len now_ms fd s d h loop target present v =
    let from = source_addr a.source_ip a.source_port in
    let s' = incoming_data s (some bytes) len from in
    (
      s',
      elim (route_incoming_data_lem m a (some bytes) len now_ms d) [
        | inl (own, _, _) ↦ absurd (ground arith)
        | inr (inl (_, no_target, _, _)) ↦
            let gone : false ≡ true = sym (ap (elem fd) no_target) ∙ target in absurd (ground arith)
        | inr (inr (_, _, _, _, each)) ↦
            each fd
            ∙ ap
                (λ b.
                  if b
                  then mapped (find m.sockets fd) (λ s. incoming_data s (some bytes) len from)
                  else find m.sockets fd)
                target
            ∙ ap (λ o. mapped o (λ s. incoming_data s (some bytes) len from)) present
      ],
      incoming_data-IsValid s bytes len from v h,
      pending-incoming_data s bytes len from v h,
    )
