-- ===== src/Bsd/ProxySocketManager/Targets.antt =====
-- Which sockets a packet goes to.
use ryu_ldn_nx.Prelude.{
  ℕ, suc, ◌+◌, ◌-◌, ◌<◌, ◌≡◌, refl, sym, ap, ◌∙◌, inl, inr, Bool, false, not, ◌&&◌, Option, none,
  some, List, [], ◌∷◌, ◌++◌, arith, leb, ◌==◌, if◌then◌else◌, Bool-cases, take, take-nil,
}
use ryu_ldn_nx.Bsd.EphemeralPortPool.{ProtocolType}
use ryu_ldn_nx.Bsd.Types.{get_addr}
use ryu_ldn_nx.Bsd.ProxySocket.{ProxySocket}
use ryu_ldn_nx.Bsd.ProxySocketManager.{Sockets}
use ryu_ldn_nx.Bsd.ProxySocketManager.Routing.{
  has_endpoint, is_broadcast, or_else, find_unicast, best_match, takes_broadcast, find_broadcast,
  find_all_sockets_by_destination,
}

-- The file descriptors of the sockets that pass a test, in the container's order.
abbrev pub fds_where : (ProxySocket → Bool) → Sockets → List ℕ
fds_where test [] = []
fds_where test ((fd, s) ∷ rest) =
    let later = fds_where test rest in if test s then fd ∷ later else later

abbrev pub is_exact : ℕ → ℕ → ProtocolType → ProxySocket → Bool
is_exact ip port protocol s = has_endpoint s protocol port && (get_addr s.local_addr == ip)

abbrev pub is_wildcard : ℕ → ℕ → ProtocolType → ProxySocket → Bool
is_wildcard ip port protocol s =
    has_endpoint s protocol port
    && not (get_addr s.local_addr == ip)
    && (get_addr s.local_addr == 0)

abbrev to_list : Option ℕ → List ℕ
to_list none = []
to_list (some a) = a ∷ []

first_only :
    (xs : List ℕ) (a : ℕ) (ys zs : List ℕ) → take 1 (xs ++ (a ∷ ys)) ≡ take 1 (xs ++ (a ∷ zs))
first_only [] a ys zs = refl
first_only (x ∷ xs) a ys zs = refl

or_else_lem :
    (xs ys : List ℕ) (w : Option ℕ) (fd : ℕ)
    → take 1 (xs ++ (to_list (or_else w fd) ++ ys)) ≡ take 1 (xs ++ (to_list w ++ (fd ∷ ys)))
or_else_lem xs ys none fd = refl
or_else_lem xs ys (some a) fd = first_only xs a ys (fd ∷ ys)

find_unicast_lem :
    (t : Sockets) (ip port : ℕ) (protocol : ProtocolType) (w : Option ℕ)
    → best_match (find_unicast t ip port protocol w)
      ≡ take 1 (
          fds_where (is_exact ip port protocol) t
          ++ (to_list w ++ fds_where (is_wildcard ip port protocol) t))
unfolding find_unicast best_match
find_unicast_lem [] ip port protocol none = refl
find_unicast_lem [] ip port protocol (some a) = refl
find_unicast_lem ((fd, s) ∷ t) ip port protocol w =
    elim (Bool-cases (is_exact ip port protocol s)) [
      | inl exact ↦ rw exact refl
      | inr not_exact ↦ rw not_exact (elim (Bool-cases (is_wildcard ip port protocol s)) [
        | inl wild ↦ rw wild (
            find_unicast_lem t ip port protocol (or_else w fd)
            ∙ or_else_lem (fds_where (is_exact ip port protocol) t)
                (fds_where (is_wildcard ip port protocol) t) w fd)
        | inr not_wild ↦ rw not_wild (find_unicast_lem t ip port protocol w)
      ])
    ]

find_broadcast_lem :
    (t : Sockets) (ip port : ℕ) (protocol : ProtocolType) (bound count : ℕ)
    → find_broadcast t ip port protocol bound count
      ≡ take
          (bound - count)
          (fds_where (λ s. has_endpoint s protocol port && takes_broadcast s ip) t)
unfolding find_broadcast
find_broadcast_lem [] ip port protocol bound count = sym (take-nil (bound - count))
find_broadcast_lem ((fd, s) ∷ t) ip port protocol bound count =
    let taken = has_endpoint s protocol port && takes_broadcast s ip in
    let later = fds_where (λ s. has_endpoint s protocol port && takes_broadcast s ip) t in
    elim (Bool-cases (leb bound count)) [
      | inl enough ↦
          let none_left : bound - count ≡ 0 = ground arith in
          rw enough (ap (λ n. take n (if taken then fd ∷ later else later)) (sym none_left))
      | inr more ↦ rw more (elim (Bool-cases taken) [
        | inl e ↦
            let one_less : bound - count ≡ suc (bound - (count + 1)) = ground arith in
            rw (e, one_less) (ap (◌∷◌ fd) (find_broadcast_lem t ip port protocol bound (count + 1)))
        | inr e ↦ rw e (find_broadcast_lem t ip port protocol bound count)
      ])
    ]

-- The targets of a packet, in the order of the container. A packet to one address goes to the first socket
-- of its protocol and port that is bound to the address, and if there is none to the first one bound to no
-- address. A broadcast or a multicast goes to the sockets of its protocol and port that take it, but to no
-- more than the bound.
pub find_all_sockets_by_destination_lem :
    (t : Sockets) (ip port : ℕ) (protocol : ProtocolType) (bound : ℕ)
    → 0 < bound
    → find_all_sockets_by_destination t ip port protocol bound ≡ (
        if is_broadcast ip
        then take bound (fds_where (λ s. has_endpoint s protocol port && takes_broadcast s ip) t)
        else take 1
            (fds_where (is_exact ip port protocol) t ++ fds_where (is_wildcard ip port protocol) t))
unfolding find_all_sockets_by_destination
find_all_sockets_by_destination_lem t ip port protocol bound h =
    let some_room : (bound == 0) ≡ false = ground arith in
    let whole : bound - 0 ≡ bound = omega arith in
    rw some_room (elim (Bool-cases (is_broadcast ip)) [
      | inl e ↦ rw e (
          find_broadcast_lem t ip port protocol bound 0
          ∙ ap
              (λ n.
                take n (fds_where (λ s. has_endpoint s protocol port && takes_broadcast s ip) t))
              whole)
      | inr e ↦ rw e (find_unicast_lem t ip port protocol none)
    ])
