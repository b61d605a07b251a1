-- ===== src/Network/Reconnect/Retries.antt =====
-- Counting failures.
use ryu_ldn_nx.Prelude.{
  ℕ, zero, suc, ◌+◌, ◌-◌, ◌^◌, ◌≤◌, ◌<◌, ◌≡◌, refl, some, arith, ltb, if◌then◌else◌, subst, sym,
  ◌∙◌, ◌↔◌,
}
use ryu_ldn_nx.Network.Reconnect.{
  ReconnectManager, max_retries_reached, delay_for, record_failure, may_retry, fail_times,
}
use ryu_ldn_nx.Network.Reconnect.Delay.{IsSensible, delay_for_bounds}

-- The manager's delay is the one for its count of retries.
pub record IsCurrent (m : ReconnectManager) : Type 0 where
  pub computed : delay_for m.config m.retry_count ≡ some m.current_delay_ms
  pub counted : m.retry_count < 2 ^ 32

-- `m_retry_count` stops at the largest `uint32_t`.
abbrev bump : ℕ → ℕ
bump n = if ltb n (2 ^ 32 - 1) then n + 1 else n

-- What `record_failure` makes of a manager.
record Failed (m : ReconnectManager) : Type 0 where
  after : ReconnectManager
  recorded : record_failure m ≡ some after
  same_config : after.config ≡ m.config
  bumped : after.retry_count ≡ bump m.retry_count
  current : IsCurrent after

record_failure-Failed : (m : ReconnectManager) → IsSensible m.config → IsCurrent m → Failed m
unfolding record_failure
record_failure-Failed m s v =
    let (d, _, e, _, _, _, _) = delay_for_bounds m.config (bump m.retry_count) s in
    record {
      after = record m { retry_count = bump m.retry_count; current_delay_ms = d };
      recorded = ground (arith, e);
      same_config = refl;
      bumped = refl;
      current = record { computed = e; counted = ground (arith, v.counted) };
    }

-- A new manager, and what `n` failures in a row make of it.
record FailedTimes (m : ReconnectManager) (n : ℕ) : Type 0 where
  after : ReconnectManager
  recorded : fail_times n m ≡ some after
  same_config : after.config ≡ m.config
  count : after.retry_count ≡ n
  current : IsCurrent after

fail_times-FailedTimes :
    (m : ReconnectManager) (n : ℕ)
    → IsSensible m.config
    → IsCurrent m
    → m.retry_count ≡ 0
    → n < 2 ^ 32
    → FailedTimes m n
unfolding fail_times
fail_times-FailedTimes m zero s v z h = record {
  after = m;
  recorded = refl;
  same_config = refl;
  count = z;
  current = v;
}
fail_times-FailedTimes m (suc n) s v z h =
    let f = fail_times-FailedTimes m n s v z (omega arith) in
    let g = record_failure-Failed f.after (subst IsSensible (sym f.same_config) s) f.current in
    record {
      after = g.after;
      recorded = ground (arith, f.recorded, g.recorded);
      same_config = g.same_config ∙ f.same_config;
      count = ground (arith, f.count, g.bumped);
      current = g.current;
    }

-- From a manager with no failures counted and the delay for that, under a sensible configuration,
-- fewer than 2 ^ 32 failures in a row are all recorded without a fault: after `n` of them the
-- counter is `n`, the delay is the one for `n` retries, and `should_retry` refuses exactly when
-- there is a limit and `n` has reached it.
pub fail_times-may_retry :
    (m : ReconnectManager) (n : ℕ)
    → IsSensible m.config
    → IsCurrent m
    → m.retry_count ≡ 0
    → n < 2 ^ 32
    → (m' : ReconnectManager) × (fail_times n m ≡ some m')
      × (m'.retry_count ≡ n)
      × (delay_for m.config n ≡ some m'.current_delay_ms)
      × ((may_retry m' ≡ max_retries_reached)
          ↔ ((0 < m.config.max_retries) × (m.config.max_retries ≤ n)))
unfolding may_retry
fail_times-may_retry m n s v z h =
    let f = fail_times-FailedTimes m n s v z h in
    (
      f.after,
      f.recorded,
      f.count,
      ground (arith, f.same_config, f.count, f.current.computed),
      (λ e. ground (arith, f.same_config, f.count), λ e. ground (arith, f.same_config, f.count)),
    )

-- However often it is called, `record_failure` keeps the counter a `uint32_t`, and at the largest
-- one it leaves it.
pub record_failure_saturates :
    (m m' : ReconnectManager)
    → record_failure m ≡ some m'
    → m.retry_count < 2 ^ 32
    → (m'.retry_count < 2 ^ 32)
      × (m.retry_count ≤ m'.retry_count)
      × (m.retry_count ≡ 2 ^ 32 - 1 → m'.retry_count ≡ m.retry_count)
unfolding record_failure delay_for
record_failure_saturates m m' e h = ground arith
