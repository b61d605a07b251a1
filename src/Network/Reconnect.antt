-- ===== src/Network/Reconnect.antt =====
-- sysmodule/source/network/reconnect.hpp and reconnect.cpp: how long to wait before the next try.
-- A `uint32_t` computation keeps its wrap-around; a division by zero, which C++ leaves undefined, is
-- a fault, `none`.
pub mod Delay
pub mod Jitter
pub mod Retries
use Prim.Native.Nat.{bit_xor}
use ryu_ldn_nx.Prelude.{
  ℕ, zero, suc, ◌+◌, ◌-◌, ◌*◌, ◌/◌, ◌%◌, ◌^◌, Bool, true, false, Option, none, some, ltb, leb, ◌==◌,
  if◌then◌else◌,
}

pub record ReconnectConfig : Type 0 where
  pub initial_delay_ms : ℕ  -- uint32_t
  pub max_delay_ms : ℕ  -- uint32_t
  pub multiplier_percent : ℕ  -- uint16_t
  pub jitter_percent : ℕ  -- uint8_t
  pub max_retries : ℕ  -- uint16_t
  pub fast_retries : ℕ  -- uint8_t
  pub fast_delay_ms : ℕ  -- uint32_t

unfoldable pub default_config : ReconnectConfig
default_config = record {
  initial_delay_ms = 1000;
  max_delay_ms = 30000;
  multiplier_percent = 200;
  jitter_percent = 10;
  max_retries = 0;
  fast_retries = 1;
  fast_delay_ms = 200;
}

pub data RetryResult : Type 0 where
  should_retry max_retries_reached : RetryResult

pub record ReconnectManager : Type 0 where
  pub config : ReconnectConfig
  pub retry_count : ℕ  -- uint32_t
  pub current_delay_ms : ℕ  -- uint32_t

abbrev pub u32 : ℕ → ℕ
u32 n = n % 2 ^ 32

-- The body of the loop of `calculate_delay`: the next delay, and whether the loop returns with it.
unfoldable pub grow : ReconnectConfig → ℕ → ℕ × Bool
grow c delay =
    let safe_threshold = u32 (c.max_delay_ms * 100) / c.multiplier_percent in
    if leb safe_threshold delay
    then (c.max_delay_ms, true)
    else let next = u32 (delay * c.multiplier_percent) / 100 in
      if ltb c.max_delay_ms next then (c.max_delay_ms, true) else (next, false)

-- The loop, `rounds` being what is left of `exponential_count`.
unfoldable pub backoff : ReconnectConfig → ℕ → ℕ → Option ℕ
unfolding grow
backoff c zero delay = some delay
backoff c (suc rounds) delay =
    let (next, done) = grow c delay in
    let rest = backoff c rounds next in
    if c.multiplier_percent == 0 then none else if done then some next else rest

-- The delay that `calculate_delay` computes.
unfoldable pub delay_for : ReconnectConfig → ℕ → Option ℕ
delay_for c retry_count =
    if ltb retry_count c.fast_retries
    then some c.fast_delay_ms
    else backoff c (retry_count - c.fast_retries) c.initial_delay_ms

unfoldable pub calculate_delay : ReconnectManager → Option ReconnectManager
unfolding delay_for
calculate_delay m = elim (delay_for m.config m.retry_count) [
  | none ↦ none
  | some d ↦ some (record m { current_delay_ms = d })
]

unfoldable pub new : ReconnectConfig → Option ReconnectManager
unfolding calculate_delay
new c = calculate_delay (record { config = c; retry_count = 0; current_delay_ms = 0 })

unfoldable pub record_failure : ReconnectManager → Option ReconnectManager
unfolding calculate_delay
record_failure m =
    calculate_delay
      (if ltb m.retry_count (2 ^ 32 - 1) then record m { retry_count = m.retry_count + 1 } else m)

unfoldable pub reset : ReconnectManager → Option ReconnectManager
unfolding calculate_delay
reset m = calculate_delay (record m { retry_count = 0 })

unfoldable pub set_config : ReconnectManager → ReconnectConfig → Option ReconnectManager
unfolding calculate_delay
set_config m c = calculate_delay (record m { config = c })

-- `should_retry()`.
unfoldable pub may_retry : ReconnectManager → RetryResult
may_retry m =
    if m.config.max_retries == 0
    then should_retry
    else if leb m.config.max_retries m.retry_count
    then max_retries_reached
    else should_retry

-- The three xorshift steps on `seed`.
unfoldable pub hash_of : ℕ → ℕ
hash_of seed =
    let a = bit_xor seed (u32 (seed * 2 ^ 13)) in
    let b = bit_xor a (a / 2 ^ 17) in bit_xor b (u32 (b * 2 ^ 5))

-- The last part of `get_next_delay_ms_with_jitter`, from `hash % jitter_range` on. The factor
-- `100 + jitter_offset` is negative where `100 + r < jitter_percent`; then so is the product, and
-- the first clamp makes it 1.
unfoldable pub spread : ReconnectConfig → ℕ → ℕ → ℕ
spread c delay r =
    let scaled =
      if ltb (100 + r) c.jitter_percent then 0 else delay * (100 + r - c.jitter_percent) / 100 in
    let adjusted = if ltb scaled 1 then 1 else scaled in
    if ltb c.max_delay_ms adjusted then c.max_delay_ms else adjusted

unfoldable pub get_next_delay_ms_with_jitter : ReconnectManager → ℕ → ℕ
get_next_delay_ms_with_jitter m seed =
    if m.config.jitter_percent == 0
    then m.current_delay_ms
    else spread m.config m.current_delay_ms (hash_of seed % (2 * m.config.jitter_percent + 1))

-- `n` failures in a row.
unfoldable pub fail_times : ℕ → ReconnectManager → Option ReconnectManager
fail_times zero m = some m
fail_times (suc n) m = elim (fail_times n m) [ none ↦ none | some m' ↦ record_failure m' ]
