-- ===== src/Network/Reconnect/Jitter.antt =====
-- The random part of the delay.
use ryu_ldn_nx.Prelude.{ℕ, ◌+◌, ◌-◌, ◌*◌, ◌/◌, ◌%◌, ◌≤◌, arith, min}
use ryu_ldn_nx.Network.Reconnect.{
  ReconnectConfig, ReconnectManager, spread, hash_of, get_next_delay_ms_with_jitter,
}

scale_mono : (d a b : ℕ) → a ≤ b → d * a ≤ d * b
scale_mono d a b h = grind arith

spread_bounds :
    (c : ReconnectConfig) (d r : ℕ)
    → 1 ≤ d
    → d ≤ c.max_delay_ms
    → r ≤ 2 * c.jitter_percent
    → (1 ≤ spread c d r)
      × (spread c d r ≤ c.max_delay_ms)
      × (min c.max_delay_ms (d * (100 - c.jitter_percent) / 100) ≤ spread c d r)
      × (spread c d r ≤ d * (100 + c.jitter_percent) / 100)
unfolding spread
spread_bounds c d r pos top h = ground (
  arith,
  scale_mono d (100 - c.jitter_percent) (100 + r - c.jitter_percent),
  scale_mono d (100 + r - c.jitter_percent) (100 + c.jitter_percent),
)

-- If the plain delay is between 1 and `max_delay_ms`, then for every seed the delay with jitter is
-- so too, and is within `jitter_percent` of the plain delay, up to the rounding and these two
-- bounds.
pub jitter_bounds :
    (m : ReconnectManager) (seed : ℕ)
    → 1 ≤ m.current_delay_ms
    → m.current_delay_ms ≤ m.config.max_delay_ms
    → let c = m.config in
      let d = m.current_delay_ms in
      let delay = get_next_delay_ms_with_jitter m seed in
      (1 ≤ delay)
      × (delay ≤ c.max_delay_ms)
      × (min c.max_delay_ms (d * (100 - c.jitter_percent) / 100) ≤ delay)
      × (delay ≤ d * (100 + c.jitter_percent) / 100)
unfolding get_next_delay_ms_with_jitter
jitter_bounds m seed pos top =
    let r = hash_of seed % (2 * m.config.jitter_percent + 1) in
    ground (arith, spread_bounds m.config m.current_delay_ms r pos top)
