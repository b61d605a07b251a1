-- ===== src/Bsd/EphemeralPortPool/Allocation.antt =====
-- `AllocatePort` gives out a free port of the range, and fails only when there is none.
use ryu_ldn_nx.Prelude.{
  ℕ, ◌+◌, ◌-◌, ◌%◌, ◌^◌, ◌≤◌, ◌<◌, ◌≡◌, ◌≢◌, refl, ap, ◌∙◌, ◌⊎◌, inl, inr, Bool, true, false, arith,
  ◌==◌, if◌then◌else◌, Option-cases,
}
use ryu_ldn_nx.Bsd.EphemeralPortPool.{
  EphemeralPortPool, ProtocolType, tcp, put_bit, count_bits, find_free, port_count, port_min,
  port_max, get_bitset, hint_of, with_bitset, with_hint, allocate_port, is_port_allocated,
  get_available_count,
}
use ryu_ldn_nx.Bsd.EphemeralPortPool.Bits.{
  count_bits-le, count_bits-set, find_free-some, find_free_full, put_bit-at, shares,
  get_bitset-with_bitset, get_bitset-with_hint, get_bitset-shares, count_bits-full,
}

-- A set bit, seen through the port numbers: for any pool that has the bit set and nothing else changed.
pub is_port_allocated-set :
    (p p' : EphemeralPortPool) (protocol : ProtocolType) (index : ℕ) (b : Bool)
    → index < port_count
    → ((other : ProtocolType)
        → get_bitset p' other ≡ (
            if shares protocol other
            then put_bit (get_bitset p protocol) index b
            else get_bitset p other))
    → (q : ℕ) (other : ProtocolType)
    → is_port_allocated p' q other ≡ (
        if shares protocol other
        then (if port_min + index == q then b else is_port_allocated p q other)
        else is_port_allocated p q other)
unfolding is_port_allocated
is_port_allocated-set p p' protocol index b h same q other = ground (
  arith,
  same other,
  get_bitset-shares p protocol other,
  put_bit-at (get_bitset p protocol) index (q - port_min) b,
)

allocated-bitset :
    (p : EphemeralPortPool) (protocol : ProtocolType) (index hint : ℕ) (other : ProtocolType)
    → get_bitset
        (with_hint
          (with_bitset p protocol (put_bit (get_bitset p protocol) index true))
          protocol
          hint)
        other
      ≡ (if shares protocol other
          then put_bit (get_bitset p protocol) index true
          else get_bitset p other)
allocated-bitset p protocol index hint other =
    get_bitset-with_hint (with_bitset p protocol (put_bit (get_bitset p protocol) index true))
      protocol other hint
    ∙ get_bitset-with_bitset p protocol other (put_bit (get_bitset p protocol) index true)

is_free :
    (p : EphemeralPortPool) (protocol : ProtocolType) (index : ℕ)
    → get_bitset p protocol index ≡ false
    → is_port_allocated p (port_min + index) protocol ≡ false
unfolding is_port_allocated
is_free p protocol index e =
    let back : port_min + index - port_min ≡ index = omega arith in
    ground (arith, ap (get_bitset p protocol) back)

-- Either `allocate_port` returns 0 and changes nothing, and every port of the range was allocated. Or it
-- returns a port of the range that was free; that port is allocated now, and for the protocols that
-- share the ports nothing else has changed, for the others nothing at all.
pub allocate_port_lem :
    (p : EphemeralPortPool) (protocol : ProtocolType)
    → let (p', port) = allocate_port p protocol in
      ((port ≡ 0)
        × (p' ≡ p)
        × ((q : ℕ) → port_min ≤ q → q ≤ port_max → is_port_allocated p q protocol ≡ true))
      ⊎ ((port_min ≤ port)
          × (port ≤ port_max)
          × (is_port_allocated p port protocol ≡ false)
          × ((q : ℕ) (other : ProtocolType)
              → is_port_allocated p' q other ≡ (
                  if shares protocol other
                  then (if port == q then true else is_port_allocated p q other)
                  else is_port_allocated p q other)))
unfolding allocate_port
allocate_port_lem p protocol =
    elim (Option-cases (find_free (get_bitset p protocol) (hint_of p protocol) port_count 0)) [
      | inl full ↦
          rw (full, allocate_port)
            (inl (
              refl,
              refl,
              λ q lo hi.
                  unfold is_port_allocated in
                  ground (
                    arith,
                    find_free_full (get_bitset p protocol) (hint_of p protocol) (q - port_min) full,
                  ),
            ))
      | inr (index, found) ↦
          let (free, inside) =
            find_free-some (get_bitset p protocol) (hint_of p protocol) port_count 0 index found in
          let port : (port_min + index) % 2 ^ 16 ≡ port_min + index = omega arith in
          rw (found, allocate_port)
            (rw port (
              inr (
                omega arith,
                omega arith,
                is_free p protocol index free,
                is_port_allocated-set p _ protocol index true inside
                    (allocated-bitset p protocol index ((index + 1) % port_count)),
              )))
    ]

pub shares_self : (protocol : ProtocolType) → shares protocol protocol ≡ true
shares_self tcp = refl
shares_self _ = refl

own_bitset :
    (p : EphemeralPortPool) (protocol : ProtocolType) (index hint : ℕ)
    → get_bitset
        (with_hint
          (with_bitset p protocol (put_bit (get_bitset p protocol) index true))
          protocol
          hint)
        protocol
      ≡ put_bit (get_bitset p protocol) index true
own_bitset p protocol index hint =
    ground (arith, allocated-bitset p protocol index hint protocol, shares_self protocol)

-- A successful allocation uses up one port of the protocol's set, and an unsuccessful one means that
-- none is left.
pub get_available_count-allocate_port :
    (p : EphemeralPortPool) (protocol : ProtocolType)
    → let (p', port) = allocate_port p protocol in
      ((port ≢ 0) × (get_available_count p' protocol + 1 ≡ get_available_count p protocol))
      ⊎ ((port ≡ 0) × (get_available_count p protocol ≡ 0))
unfolding allocate_port get_available_count
get_available_count-allocate_port p protocol =
    let bits = get_bitset p protocol in
    elim (Option-cases (find_free bits (hint_of p protocol) port_count 0)) [
      | inl full ↦
          rw (full, allocate_port)
            (inr (
              refl,
              omega (
                arith,
                count_bits-full port_count bits
                    (λ i h. find_free_full bits (hint_of p protocol) i full h),
              ),
            ))
      | inr (index, found) ↦
          let (free, inside) = find_free-some bits (hint_of p protocol) port_count 0 index found in
          rw (found, allocate_port)
            (inl (
              (λ e. absurd (omega arith)),
              omega (
                arith,
                ap (count_bits port_count) (own_bitset p protocol index ((index + 1) % port_count)),
                count_bits-set port_count index bits inside free,
                count_bits-le port_count (put_bit bits index true),
              ),
            ))
    ]
