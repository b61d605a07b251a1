-- ===== src/Bsd/EphemeralPortPool.antt =====
-- sysmodule/source/bsd/ephemeral_port_pool.hpp and ephemeral_port_pool.cpp: the ports that the proxy
-- sockets are given. A `std::bitset` of 16384 bits is a function from the index. Every operation
-- holds the pool's mutex, so a call is one step.
pub mod Bits
pub mod Allocation
pub mod Specific
use ryu_ldn_nx.Prelude.{
  ℕ, zero, suc, ◌+◌, ◌-◌, ◌%◌, ◌^◌, Bool, true, false, Option, none, some, ltb, leb, ◌==◌,
  if◌then◌else◌,
}

abbrev pub port_min : ℕ
port_min = 49152

abbrev pub port_max : ℕ
port_max = 65535

abbrev pub port_count : ℕ
port_count = 16384

-- `ProtocolType` of bsd_types.hpp.
pub data ProtocolType : Type 0 where
  unspecified icmp tcp udp : ProtocolType

abbrev pub Bitset : Type 0
Bitset = ℕ → Bool

unfoldable pub put_bit : Bitset → ℕ → Bool → Bitset
put_bit bits i b = λ j. if i == j then b else bits j

-- `bitset.count()`, over the first `n` bits.
unfoldable pub count_bits : ℕ → Bitset → ℕ
count_bits zero bits = 0
count_bits (suc n) bits = (if bits n then 1 else 0) + count_bits n bits

pub record EphemeralPortPool : Type 0 where
  pub udp_ports : Bitset
  pub tcp_ports : Bitset
  pub udp_hint : ℕ
  pub tcp_hint : ℕ

unfoldable pub new : EphemeralPortPool
new = record { udp_ports = λ i. false; tcp_ports = λ i. false; udp_hint = 0; tcp_hint = 0 }

-- `PortToIndex`: the count itself stands for no index.
unfoldable pub port_to_index : ℕ → ℕ
port_to_index port = if ltb port port_min then port_count else port - port_min

-- `IndexToPort`, with its cast to `uint16_t`.
unfoldable pub index_to_port : ℕ → ℕ
index_to_port index = (port_min + index) % 2 ^ 16

-- `GetBitset`: every protocol but TCP has the UDP ports.
unfoldable pub get_bitset : EphemeralPortPool → ProtocolType → Bitset
get_bitset p udp = p.udp_ports
get_bitset p tcp = p.tcp_ports
get_bitset p _ = p.udp_ports

unfoldable pub hint_of : EphemeralPortPool → ProtocolType → ℕ
hint_of p tcp = p.tcp_hint
hint_of p _ = p.udp_hint

-- The writes that go through the references to a protocol's bits and hint.
unfoldable pub with_bitset : EphemeralPortPool → ProtocolType → Bitset → EphemeralPortPool
with_bitset p udp bits = record p { udp_ports = bits }
with_bitset p tcp bits = record p { tcp_ports = bits }
with_bitset p _ bits = record p { udp_ports = bits }

unfoldable pub with_hint : EphemeralPortPool → ProtocolType → ℕ → EphemeralPortPool
with_hint p tcp hint = record p { tcp_hint = hint }
with_hint p _ hint = record p { udp_hint = hint }

-- The loop of `AllocatePort` from round `i` on: the first free index.
unfoldable pub find_free : Bitset → ℕ → ℕ → ℕ → Option ℕ
find_free bits hint zero i = none
find_free bits hint (suc rounds) i =
    let index = (hint + i) % port_count in
    let rest = find_free bits hint rounds (i + 1) in if bits index then rest else some index

unfoldable pub allocate_port : EphemeralPortPool → ProtocolType → EphemeralPortPool × ℕ
unfolding index_to_port
allocate_port p protocol =
    let bits = get_bitset p protocol in
    elim (find_free bits (hint_of p protocol) port_count 0) [
      | none ↦ (p, 0)
      | some index ↦ (
        with_hint (with_bitset p protocol (put_bit bits index true)) protocol
            ((index + 1) % port_count),
        index_to_port index,
      )
    ]

unfoldable pub allocate_specific_port :
    EphemeralPortPool → ℕ → ProtocolType → EphemeralPortPool × Bool
unfolding port_to_index
allocate_specific_port p port protocol =
    let index = port_to_index port in
    if leb port_count index
    then (p, true)
    else let bits = get_bitset p protocol in
      if bits index then (p, false) else (with_bitset p protocol (put_bit bits index true), true)

unfoldable pub release_port : EphemeralPortPool → ℕ → ProtocolType → EphemeralPortPool
unfolding port_to_index
release_port p port protocol =
    let index = port_to_index port in
    if leb port_count index
    then p
    else with_bitset p protocol (put_bit (get_bitset p protocol) index false)

unfoldable pub is_port_allocated : EphemeralPortPool → ℕ → ProtocolType → Bool
unfolding port_to_index
is_port_allocated p port protocol =
    let index = port_to_index port in
    if leb port_count index then false else get_bitset p protocol index

unfoldable pub get_available_count : EphemeralPortPool → ProtocolType → ℕ
get_available_count p protocol = port_count - count_bits port_count (get_bitset p protocol)

unfoldable pub release_all : EphemeralPortPool → EphemeralPortPool
release_all p = record {
  udp_ports = λ i. false;
  tcp_ports = λ i. false;
  udp_hint = 0;
  tcp_hint = 0;
}
