-- ===== src/Bsd/ProxySocketManager/Registry.antt =====
-- The map of sockets: what its operations do to the entries.
use ryu_ldn_nx.Prelude.{
  ℕ, suc, ◌≤◌, ◌≡◌, ◌≢◌, ◌⊎◌, refl, ap, inl, inr, Bool, true, false, not, ◌&&◌, ◌||◌, Option, none,
  some, List, [], ◌∷◌, arith, ltb, leb, ◌==◌, if◌then◌else◌, Bool-cases, Option-cases, length, Sub,
  nil, keep, skip,
}
use ryu_ldn_nx.Bsd.EphemeralPortPool.{tcp, release_port}
use ryu_ldn_nx.Bsd.Types.{get_port, is_protocol}
use ryu_ldn_nx.Bsd.ProxySocket.{ProxySocket, close}
use ryu_ldn_nx.Bsd.ProxySocketManager.{
  ProxySocketManager, Sockets, max_proxy_sockets, find, erase, update, create_proxy_socket,
  close_proxy_socket, without, is_silent, has_same_endpoint_socket, purge,
}

abbrev pub elem : ℕ → List ℕ → Bool
elem a [] = false
elem a (x ∷ xs) = (x == a) || elem a xs

abbrev pub fds : Sockets → List ℕ
fds [] = []
fds ((fd, s) ∷ rest) = fd ∷ fds rest

abbrev pub Distinct : List ℕ → Type 0
Distinct [] = Unit {0}
Distinct (x ∷ xs) = (elem x xs ≡ false) × Distinct xs

pub Sub-elem : {xs ys : List ℕ} (a : ℕ) → Sub xs ys → elem a ys ≡ false → elem a xs ≡ false
Sub-elem a nil h = refl
Sub-elem a (keep x p) h = ground (arith, Sub-elem a p)
Sub-elem a (skip y p) h = ground (arith, Sub-elem a p)

pub Sub-Distinct : {xs ys : List ℕ} → Sub xs ys → Distinct ys → Distinct xs
Sub-Distinct nil d = tt
Sub-Distinct (keep x p) (h, d) = (Sub-elem x p h, Sub-Distinct p d)
Sub-Distinct (skip y p) (h, d) = Sub-Distinct p d

abbrev pub mapped : Option ProxySocket → (ProxySocket → ProxySocket) → Option ProxySocket
mapped none f = none
mapped (some s) f = some (f s)

pub Sub-refl : (xs : List ℕ) → Sub xs xs
Sub-refl [] = nil
Sub-refl (x ∷ xs) = keep x (Sub-refl xs)

pub find-update :
    (t : Sockets) (fd q : ℕ) (f : ProxySocket → ProxySocket)
    → find (update t fd f) q ≡ (if fd == q then mapped (find t q) f else find t q)
unfolding find update
find-update [] fd q f = ground arith
find-update ((k, s) ∷ t) fd q f = ground (arith, find-update t fd q f)

pub fds-update :
    (t : Sockets) (fd : ℕ) (f : ProxySocket → ProxySocket) → fds (update t fd f) ≡ fds t
unfolding update
fds-update [] fd f = refl
fds-update ((k, s) ∷ t) fd f = ground (arith, fds-update t fd f)

pub fds-erase : (t : Sockets) (fd : ℕ) → Sub (fds (erase t fd)) (fds t)
unfolding erase
fds-erase [] fd = nil
fds-erase ((k, s) ∷ t) fd = elim (Bool-cases (k == fd)) [
  | inl e ↦ rw e (skip k (Sub-refl (fds t)))
  | inr e ↦ rw e (keep k (fds-erase t fd))
]

-- The file descriptors that have a socket.
pub elem-find : (t : Sockets) (fd : ℕ) → elem fd (fds t) ≡ false → find t fd ≡ none
unfolding find
elem-find [] fd h = refl
elem-find ((k, s) ∷ t) fd h = ground (arith, elem-find t fd)

pub find-elem : (t : Sockets) (fd : ℕ) → find t fd ≡ none → elem fd (fds t) ≡ false
unfolding find
find-elem [] fd h = refl
find-elem ((k, s) ∷ t) fd h = ground (arith, find-elem t fd)

pub find-erase :
    (t : Sockets) (fd q : ℕ)
    → Distinct (fds t)
    → find (erase t fd) q ≡ (if fd == q then none else find t q)
unfolding find erase
find-erase [] fd q d = ground arith
find-erase ((k, s) ∷ t) fd q (h, d) = ground (arith, find-erase t fd q d, elem-find t k h)

length-fds : (t : Sockets) → length (fds t) ≡ length t
length-fds [] = refl
length-fds ((k, s) ∷ t) = ap suc (length-fds t)

length-erase : (t : Sockets) (fd : ℕ) → length (erase t fd) ≤ length t
unfolding erase
length-erase [] fd = omega arith
length-erase ((k, s) ∷ t) fd = ground (arith, length-erase t fd)

-- One socket for each file descriptor, and not too many of them.
abbrev pub IsRegistry : ProxySocketManager → Type 0
IsRegistry m = Distinct (fds m.sockets) × (length m.sockets ≤ max_proxy_sockets)

-- `CreateProxySocket` on all branches: a descriptor that has a socket keeps it; with 64 sockets the call
-- fails and nothing changes; else the new socket is the descriptor's and the others keep theirs. The
-- registry stays one.
pub create_proxy_socket_lem :
    (m : ProxySocketManager) (fd : ℕ) (made : ProxySocket)
    → IsRegistry m
    → let (m', ok) = create_proxy_socket m fd made in
      IsRegistry m'
      × (((find m.sockets fd ≢ none) × (m' ≡ m) × (ok ≡ true))
          ⊎ ((find m.sockets fd ≡ none)
              × (max_proxy_sockets ≤ length m.sockets)
              × (m' ≡ m)
              × (ok ≡ false))
          ⊎ ((find m.sockets fd ≡ none)
              × (ok ≡ true)
              × ((q : ℕ) → find m'.sockets q ≡ (if fd == q then some made else find m.sockets q))))
unfolding create_proxy_socket
create_proxy_socket_lem m fd made (d, l) = elim (Option-cases (find m.sockets fd)) [
  | inl absent ↦ rw absent (elim (Bool-cases (leb max_proxy_sockets (length m.sockets))) [
    | inl full ↦ rw full ((d, l), inr (inl (refl, ground arith, refl, refl)))
    | inr room ↦ rw room (
      ((find-elem m.sockets fd absent, d), ground arith),
      inr (inr (refl, refl, λ q. unfold find in refl)),
    )
  ])
  | inr (s, present) ↦ rw present ((d, l), inl ((λ e. cc), refl, refl))
]

-- Whether the socket sends a message when it is closed.
abbrev pub tells_peer : ProxySocket → Bool
tells_peer s = is_protocol s.protocol tcp && not (get_port s.remote_addr == 0)

is_silent-close : (s : ProxySocket) → is_silent (close s).1 ≡ not (tells_peer s)
unfolding close
is_silent-close s = elim (Bool-cases (tells_peer s)) [ inl e ↦ rw e refl | inr e ↦ rw e refl ]

-- Whether `CloseProxySocket` purges the packets that wait for the socket's protocol and port.
abbrev pub purges : ProxySocketManager → ℕ → ProxySocket → Bool
purges m fd s =
    let port = get_port s.local_addr in
    not (port == 0)
    && ltb 0 m.pending.count
    && not (has_same_endpoint_socket m.sockets fd s.protocol port)

-- `CloseProxySocket` on all branches: without a socket it does nothing; for a TCP socket with a peer it
-- locks its own mutex for a second time; else the descriptor has no socket any more, the others keep
-- theirs, the port is given back, and what waits for the port is purged when no other socket has it.
close_proxy_socket_lem :
    (m : ProxySocketManager) (fd : ℕ)
    → IsRegistry m
    → ((find m.sockets fd ≡ none) × (close_proxy_socket m fd ≡ some (m, false)))
      ⊎ ((s : ProxySocket) × (find m.sockets fd ≡ some s)
          × (tells_peer s ≡ true)
          × (close_proxy_socket m fd ≡ none))
      ⊎ ((s : ProxySocket) × (m' : ProxySocketManager) × (find m.sockets fd ≡ some s)
          × (tells_peer s ≡ false)
          × (close_proxy_socket m fd ≡ some (m', true))
          × IsRegistry m'
          × ((q : ℕ) → find m'.sockets q ≡ (if fd == q then none else find m.sockets q))
          × (m'.port_pool ≡ (
              if get_port s.local_addr == 0
              then m.port_pool
              else release_port m.port_pool (get_port s.local_addr) s.protocol))
          × (m'.pending ≡ (
              if purges m fd s
              then purge m.pending s.protocol (get_port s.local_addr)
              else m.pending)))
unfolding close_proxy_socket without
close_proxy_socket_lem m fd (d, l) = elim (Option-cases (find m.sockets fd)) [
  | inl absent ↦ rw (absent, close_proxy_socket) (inl (refl, refl))
  | inr (s, present) ↦
      rw (present, close_proxy_socket)
        (rw (is_silent-close s) (elim (Bool-cases (tells_peer s)) [
          | inl e ↦ inr (inl (s, refl, e, rw e refl))
          | inr e ↦ inr (
              inr (
                s,
                without m fd s,
                refl,
                e,
                rw e refl,
                (Sub-Distinct (fds-erase m.sockets fd) d, omega (arith, length-erase m.sockets fd)),
                (λ q. find-erase m.sockets fd q d),
                refl,
                refl,
              ))
        ]))
]
