-- ===== src/Network/Reconnect/Delay.antt =====
-- The delay grows, stays within its bounds, and is computed without overflow.
use ryu_ldn_nx.Prelude.{
  ℕ, zero, suc, ◌+◌, ◌-◌, ◌*◌, ◌/◌, ◌%◌, ◌^◌, ◌≤◌, ◌<◌, ◌≡◌, refl, true, some, arith, min, ltb,
  if◌then◌else◌, Bool-cases, inl, inr, sym, ap, ◌∙◌,
}
use ryu_ldn_nx.Network.Reconnect.{ReconnectConfig, grow, backoff, delay_for}

-- A sensible configuration: the delays are in order, the multiplier does not shrink a delay, and a
-- hundred times the longest delay fits 32 bits.
pub record IsSensible (c : ReconnectConfig) : Type 0 where
  pub fast_in : c.fast_delay_ms ≤ c.max_delay_ms
  pub initial_in : c.initial_delay_ms ≤ c.max_delay_ms
  pub grows : 100 ≤ c.multiplier_percent
  pub fits : c.max_delay_ms * 100 < 2 ^ 32

-- Below the code's threshold the product cannot exceed a hundred times the longest delay.
below_threshold : (top m d : ℕ) → 0 < m → d < top / m → d * m ≤ top
below_threshold top m d pos h = grind arith

at_threshold : (top m d : ℕ) → 0 < m → top % m ≡ 0 → top / m ≤ d → top ≤ d * m
at_threshold top m d pos e h = grind arith

scale_up : (m d : ℕ) → 100 ≤ m → d * 100 ≤ d * m
scale_up m d h = grind arith

grow_bounds :
    (c : ReconnectConfig) (delay : ℕ)
    → IsSensible c
    → delay ≤ c.max_delay_ms
    → (delay ≤ (grow c delay).0) × ((grow c delay).0 ≤ c.max_delay_ms)
unfolding grow
grow_bounds c delay s h = ground (
  arith,
  below_threshold (c.max_delay_ms * 100) c.multiplier_percent delay,
  scale_up c.multiplier_percent delay s.grows,
)

-- Two runs of the loop that differ by one round.
record Growing (c : ReconnectConfig) (rounds delay : ℕ) : Type 0 where
  now : ℕ
  next : ℕ
  now_is : backoff c rounds delay ≡ some now
  next_is : backoff c (suc rounds) delay ≡ some next
  from : delay ≤ now
  in_order : now ≤ next
  below_max : next ≤ c.max_delay_ms

backoff_one :
    (c : ReconnectConfig) (delay : ℕ) → IsSensible c → backoff c 1 delay ≡ some (grow c delay).0
unfolding backoff
backoff_one c delay s = ground arith

backoff-suc :
    (c : ReconnectConfig) (rounds delay : ℕ)
    → IsSensible c
    → backoff c (suc rounds) delay
      ≡ (if (grow c delay).1 then some (grow c delay).0 else backoff c rounds (grow c delay).0)
unfolding backoff
backoff-suc c rounds delay s = ground arith

backoff-Growing :
    (c : ReconnectConfig) (rounds delay : ℕ)
    → IsSensible c
    → delay ≤ c.max_delay_ms
    → Growing c rounds delay
backoff-Growing c zero delay s h =
    let (up, top) = grow_bounds c delay s h in
    record {
      now = delay;
      next = (grow c delay).0;
      now_is = unfold backoff in refl;
      next_is = backoff_one c delay s;
      from = omega arith;
      in_order = up;
      below_max = top;
    }
backoff-Growing c (suc rounds) delay s h =
    let (up, top) = grow_bounds c delay s h in
    let here = backoff-suc c rounds delay s in
    let there = backoff-suc c (suc rounds) delay s in
    elim (Bool-cases (grow c delay).1) [
      | inl done ↦ record {
        now = (grow c delay).0;
        next = (grow c delay).0;
        now_is = ground (arith, here);
        next_is = ground (arith, there);
        from = up;
        in_order = omega arith;
        below_max = top;
      }
      | inr more ↦
          let g = backoff-Growing c rounds (grow c delay).0 s top in
          record {
            now = g.now;
            next = g.next;
            now_is = ground (arith, here, g.now_is);
            next_is = ground (arith, there, g.next_is);
            from = omega (arith, g.from);
            in_order = g.in_order;
            below_max = g.below_max;
          }
    ]

-- Under a sensible configuration the delay is computed without a fault for every count of retries,
-- and never exceeds `max_delay_ms`. While the fast retries last it is `fast_delay_ms`; afterwards
-- it is at least `initial_delay_ms` and does not fall from one retry to the next.
pub delay_for_bounds :
    (c : ReconnectConfig) (n : ℕ)
    → IsSensible c
    → (d d' : ℕ) × (delay_for c n ≡ some d)
      × (delay_for c (n + 1) ≡ some d')
      × (d ≤ c.max_delay_ms)
      × (c.fast_retries ≤ n → (c.initial_delay_ms ≤ d) × (d ≤ d'))
      × (n < c.fast_retries → d ≡ c.fast_delay_ms)
unfolding delay_for
delay_for_bounds c n s = elim (Bool-cases (ltb n c.fast_retries)) [
  | inl fast ↦
      let first = backoff-Growing c 0 c.initial_delay_ms s s.initial_in in
      (
        c.fast_delay_ms,
        (if ltb (n + 1) c.fast_retries then c.fast_delay_ms else first.now),
        ground arith,
        ground (arith, first.now_is, zero_rounds n c.fast_retries),
        s.fast_in,
        ground arith,
        λ _. refl,
      )
  | inr slow ↦
      let g = backoff-Growing c (n - c.fast_retries) c.initial_delay_ms s s.initial_in in
      let e : n + 1 - c.fast_retries ≡ suc (n - c.fast_retries) = ground arith in
      (
        g.now,
        g.next,
        ground (arith, g.now_is),
        ground (arith, g.next_is, e),
        omega (arith, g.in_order, g.below_max),
        (λ _. (g.from, g.in_order)),
        ground arith,
      )
]
  where
    zero_rounds : (n f : ℕ) → n < f → f ≤ n + 1 → n + 1 - f ≡ 0
    zero_rounds n f a b = omega arith

-- The delay as it is meant: each retry multiplies it, and the result is capped.
abbrev pub ideal : ReconnectConfig → ℕ → ℕ → ℕ
ideal c zero delay = delay
ideal c (suc rounds) delay =
    ideal c rounds (min c.max_delay_ms (delay * c.multiplier_percent / 100))

grow-ideal :
    (c : ReconnectConfig) (delay : ℕ)
    → IsSensible c
    → (c.max_delay_ms * 100) % c.multiplier_percent ≡ 0
    → delay ≤ c.max_delay_ms
    → ((grow c delay).0 ≡ min c.max_delay_ms (delay * c.multiplier_percent / 100))
      × ((grow c delay).1 ≡ true → (grow c delay).0 ≡ c.max_delay_ms)
unfolding grow
grow-ideal c delay s e h = ground (
  arith,
  below_threshold (c.max_delay_ms * 100) c.multiplier_percent delay,
  at_threshold (c.max_delay_ms * 100) c.multiplier_percent delay,
)

ideal_max :
    (c : ReconnectConfig) (rounds : ℕ)
    → IsSensible c
    → ideal c rounds c.max_delay_ms ≡ c.max_delay_ms
ideal_max c zero s = refl
ideal_max c (suc rounds) s =
    let e : min c.max_delay_ms (c.max_delay_ms * c.multiplier_percent / 100) ≡ c.max_delay_ms =
      omega (arith, scale_up c.multiplier_percent c.max_delay_ms s.grows) in
    ap (ideal c rounds) e ∙ ideal_max c rounds s

backoff-ideal :
    (c : ReconnectConfig) (rounds delay : ℕ)
    → IsSensible c
    → (c.max_delay_ms * 100) % c.multiplier_percent ≡ 0
    → delay ≤ c.max_delay_ms
    → backoff c rounds delay ≡ some (ideal c rounds delay)
backoff-ideal c zero delay s e h = unfold backoff in refl
backoff-ideal c (suc rounds) delay s e h =
    let (step, stop) = grow-ideal c delay s e h in
    let (_, top) = grow_bounds c delay s h in
    elim (Bool-cases (grow c delay).1) [
      | inl done ↦ ground (
        arith,
        backoff-suc c rounds delay s,
        ap (ideal c rounds) (sym step ∙ stop done),
        ideal_max c rounds s,
        stop done,
      )
      | inr more ↦ ground (
        arith,
        backoff-suc c rounds delay s,
        backoff-ideal c rounds (grow c delay).0 s e top,
        ap (ideal c rounds) step,
      )
    ]

-- Under a sensible configuration whose `multiplier_percent` also divides a hundred times the
-- longest delay, as by default, the 32-bit computation with its early returns gives, once the fast
-- retries are used up, exactly the capped exponential.
pub delay_for-ideal :
    (c : ReconnectConfig) (n : ℕ)
    → IsSensible c
    → (c.max_delay_ms * 100) % c.multiplier_percent ≡ 0
    → c.fast_retries ≤ n
    → delay_for c n ≡ some (ideal c (n - c.fast_retries) c.initial_delay_ms)
unfolding delay_for
delay_for-ideal c n s e h =
    ground (arith, backoff-ideal c (n - c.fast_retries) c.initial_delay_ms s e s.initial_in)
