-- ===== src/Bsd/EphemeralPortPool/Specific.antt =====
-- Allocating a port that the game chose, and giving ports back.
use ryu_ldn_nx.Prelude.{
  ℕ, ◌+◌, ◌-◌, ◌≤◌, ◌<◌, ◌≡◌, refl, ◌⊎◌, inl, inr, Bool, true, false, arith, ◌==◌, if◌then◌else◌,
  Bool-cases, ltb, ltb→lt,
}
use ryu_ldn_nx.Bsd.EphemeralPortPool.{
  EphemeralPortPool, ProtocolType, put_bit, port_min, port_max, get_bitset, with_bitset,
  allocate_specific_port, release_port, is_port_allocated,
}
use ryu_ldn_nx.Bsd.EphemeralPortPool.Bits.{shares, get_bitset-with_bitset}
use ryu_ldn_nx.Bsd.EphemeralPortPool.Allocation.{is_port_allocated-set, shares_self}

-- What a port means to the pool after its bit was written.
abbrev IsPut : EphemeralPortPool → EphemeralPortPool → ℕ → ProtocolType → Bool → Type 0
IsPut p p' port protocol b =
    (q : ℕ) (other : ProtocolType)
    → is_port_allocated p' q other ≡ (
        if shares protocol other
        then (if port == q then b else is_port_allocated p q other)
        else is_port_allocated p q other)

with_bitset-IsPut :
    (p : EphemeralPortPool) (port : ℕ) (protocol : ProtocolType) (b : Bool)
    → port_min ≤ port
    → port ≤ port_max
    → IsPut p
        (with_bitset p protocol (put_bit (get_bitset p protocol) (port - port_min) b))
        port
        protocol
        b
with_bitset-IsPut p port protocol b lo hi q other =
    let e : port_min + (port - port_min) ≡ port = omega arith in
    ground (
      arith,
      e,
      is_port_allocated-set p
          (with_bitset p protocol (put_bit (get_bitset p protocol) (port - port_min) b)) protocol
          (port - port_min) b (omega arith)
          (λ o.
            get_bitset-with_bitset p protocol o
              (put_bit (get_bitset p protocol) (port - port_min) b))
          q other,
    )

below-allocate :
    (p : EphemeralPortPool) (port : ℕ) (protocol : ProtocolType)
    → port < port_min
    → allocate_specific_port p port protocol ≡ (p, true)
unfolding allocate_specific_port
below-allocate p port protocol h = ground arith

inside-allocate :
    (p : EphemeralPortPool) (port : ℕ) (protocol : ProtocolType)
    → port_min ≤ port
    → port ≤ port_max
    → (is_port_allocated p port protocol ≡ get_bitset p protocol (port - port_min))
      × (allocate_specific_port p port protocol ≡ (
          if is_port_allocated p port protocol then (p, false) else (
            with_bitset p protocol (put_bit (get_bitset p protocol) (port - port_min) true),
            true,
          )))
unfolding allocate_specific_port is_port_allocated
inside-allocate p port protocol lo hi = ground arith

-- A port below the range is always granted and never recorded. A port of the range is granted
-- exactly when it is not allocated; then it is allocated for the protocols that share it, and
-- nothing else changes.
pub allocate_specific_port_lem :
    (p : EphemeralPortPool) (port : ℕ) (protocol : ProtocolType)
    → port ≤ port_max
    → let (p', granted) = allocate_specific_port p port protocol in
      ((port < port_min) × (granted ≡ true) × (p' ≡ p))
      ⊎ ((port_min ≤ port)
          × (is_port_allocated p port protocol ≡ true)
          × (granted ≡ false)
          × (p' ≡ p))
      ⊎ ((port_min ≤ port)
          × (is_port_allocated p port protocol ≡ false)
          × (granted ≡ true)
          × ((q : ℕ) (other : ProtocolType)
              → is_port_allocated p' q other ≡ (
                  if shares protocol other
                  then (if port == q then true else is_port_allocated p q other)
                  else is_port_allocated p q other)))
allocate_specific_port_lem p port protocol hi = elim (Bool-cases (ltb port port_min)) [
  | inl below ↦
      let low = ltb→lt port port_min below in
      rw (below-allocate p port protocol low) (inl (low, refl, refl))
  | inr within ↦
      let lo : port_min ≤ port = ground arith in
      elim (Bool-cases (is_port_allocated p port protocol)) [
        | inl taken ↦
            rw ((inside-allocate p port protocol lo hi).1, taken) (inr (inl (lo, refl, refl, refl)))
        | inr free ↦
            let e : allocate_specific_port p port protocol ≡ (
              with_bitset p protocol (put_bit (get_bitset p protocol) (port - port_min) true),
              true,
            ) =
              ground (arith, inside-allocate p port protocol lo hi) in
            rw e (inr (inr (lo, free, refl, with_bitset-IsPut p port protocol true lo hi)))
      ]
]

below_free :
    (p : EphemeralPortPool) (port : ℕ) (protocol : ProtocolType)
    → port < port_min
    → is_port_allocated p port protocol ≡ false
unfolding is_port_allocated
below_free p port protocol h = ground arith

-- Releasing a port of the range makes it free for the protocols that share it, whatever it was,
-- and changes nothing else; a port below the range is ignored.
pub release_port_lem :
    (p : EphemeralPortPool) (port : ℕ) (protocol : ProtocolType)
    → port ≤ port_max
    → (q : ℕ) (other : ProtocolType)
    → is_port_allocated (release_port p port protocol) q other ≡ (
        if shares protocol other
        then (if port == q then false else is_port_allocated p q other)
        else is_port_allocated p q other)
unfolding release_port
release_port_lem p port protocol hi q other = elim (Bool-cases (ltb port port_min)) [
  | inl below ↦ ground (arith, below_free p port other (ltb→lt port port_min below))
  | inr within ↦
      let lo : port_min ≤ port = ground arith in
      ground (arith, with_bitset-IsPut p port protocol false lo hi q other)
]

-- A port that was just released is granted when it is asked for, and a port of the range is then
-- allocated.
pub allocate_specific_port-release_port :
    (p : EphemeralPortPool) (port : ℕ) (protocol : ProtocolType)
    → port ≤ port_max
    → let (p', granted) = allocate_specific_port (release_port p port protocol) port protocol in
      (granted ≡ true) × (port_min ≤ port → is_port_allocated p' port protocol ≡ true)
allocate_specific_port-release_port p port protocol hi =
    let p₁ = release_port p port protocol in
    let freed = release_port_lem p port protocol hi port protocol in
    let self = shares_self protocol in
    elim (allocate_specific_port_lem p₁ port protocol hi) [
      | inl (low, granted, _) ↦ (granted, λ lo. absurd (omega arith))
      | inr (inl (_, taken, _, _)) ↦ absurd (ground (arith, freed, self))
      | inr (inr (_, _, granted, put)) ↦ (granted, λ _. ground (arith, put port protocol, self))
    ]
