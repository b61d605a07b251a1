-- ===== src/Bsd/Tests.antt =====
-- Runs of the port pool.
use ryu_ldn_nx.Prelude.{ℕ, ◌≤◌, ◌≡◌, ◌⊎◌, true, false, ◌==◌, if◌then◌else◌}
use ryu_ldn_nx.Bsd.EphemeralPortPool.{
  EphemeralPortPool, ProtocolType, tcp, port_min, port_max, allocate_port, is_port_allocated,
}
use ryu_ldn_nx.Bsd.EphemeralPortPool.Bits.{shares}
use ryu_ldn_nx.Bsd.EphemeralPortPool.Allocation.{allocate_port_lem}

-- TCP has given out the first port, and looks at the second one next.
abbrev used : EphemeralPortPool
used = record { udp_ports = λ i. false; tcp_ports = λ i. i == 0; udp_hint = 0; tcp_hint = 1 }

allocate_port_lem_example :
    let (p', port) = allocate_port used tcp in
    ((port ≡ 0)
      × (p' ≡ used)
      × ((q : ℕ) → port_min ≤ q → q ≤ port_max → is_port_allocated used q tcp ≡ true))
    ⊎ ((port_min ≤ port)
        × (port ≤ port_max)
        × (is_port_allocated used port tcp ≡ false)
        × ((q : ℕ) (other : ProtocolType)
            → is_port_allocated p' q other ≡ (
                if shares tcp other
                then (if port == q then true else is_port_allocated used q other)
                else is_port_allocated used q other)))
allocate_port_lem_example = allocate_port_lem used tcp
