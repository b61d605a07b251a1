-- ===== src/Bsd/EphemeralPortPool/Bits.antt =====
-- Counting and searching bits.
use native.Mathlib.Nat.{le_refl}
use ryu_ldn_nx.Prelude.{
  ℕ, zero, suc, ◌+◌, ◌-◌, ◌%◌, ◌≤◌, ◌<◌, ◌≡◌, refl, inl, inr, Bool, true, false, none, some, arith,
  ◌==◌, if◌then◌else◌, Bool-cases, subst,
}
use ryu_ldn_nx.Bsd.EphemeralPortPool.{
  EphemeralPortPool, ProtocolType, tcp, Bitset, put_bit, count_bits, find_free, port_count,
  get_bitset, with_bitset, with_hint,
}

pub count_bits-le : (n : ℕ) (bits : Bitset) → count_bits n bits ≤ n
unfolding count_bits
count_bits-le zero bits = omega arith
count_bits-le (suc n) bits = ground (arith, count_bits-le n bits)

count_bits-outside :
    (n i : ℕ) (bits : Bitset) (b : Bool)
    → n ≤ i
    → count_bits n (put_bit bits i b) ≡ count_bits n bits
unfolding count_bits put_bit
count_bits-outside zero i bits b h = refl
count_bits-outside (suc n) i bits b h = ground (arith, count_bits-outside n i bits b)

-- Setting a clear bit adds one to the count.
pub count_bits-set :
    (n i : ℕ) (bits : Bitset)
    → i < n
    → bits i ≡ false
    → count_bits n (put_bit bits i true) ≡ count_bits n bits + 1
unfolding count_bits put_bit
count_bits-set zero i bits h e = absurd (omega arith)
count_bits-set (suc n) i bits h e =
    ground (arith, count_bits-outside n i bits true, count_bits-set n i bits)

-- What the search returns is a free index, and if it returns none then the rounds saw no free one.
pub find_free-some :
    (bits : Bitset) (hint rounds i index : ℕ)
    → find_free bits hint rounds i ≡ some index
    → (bits index ≡ false) × (index < port_count)
unfolding find_free
find_free-some bits hint zero i index e = cc
find_free-some bits hint (suc rounds) i index e =
    ground (arith, find_free-some bits hint rounds (i + 1) index)

pub find_free-none :
    (bits : Bitset) (hint rounds i j : ℕ)
    → find_free bits hint rounds i ≡ none
    → i ≤ j
    → j < i + rounds
    → bits ((hint + j) % port_count) ≡ true
unfolding find_free
find_free-none bits hint zero i j e lo hi = absurd (omega arith)
find_free-none bits hint (suc rounds) i j e lo hi = elim (Bool-cases (i == j)) [
  | inl here ↦ ground arith
  | inr later ↦ ground (arith, find_free-none bits hint rounds (i + 1) j)
]

-- If all the rounds of a whole turn saw no free index, no index is free.
pub find_free_full :
    (bits : Bitset) (hint index : ℕ)
    → find_free bits hint port_count 0 ≡ none
    → index < port_count
    → bits index ≡ true
find_free_full bits hint index e h =
    let j = (index + port_count - hint % port_count) % port_count in
    let back : (hint + j) % port_count ≡ index = omega arith in
    subst (λ k. bits k ≡ true) back
      (find_free-none bits hint port_count 0 j e (omega arith) (omega arith))

pub put_bit-at :
    (bits : Bitset) (i j : ℕ) (b : Bool) → put_bit bits i b j ≡ (if i == j then b else bits j)
unfolding put_bit
put_bit-at bits i j b = refl

-- The two sets of ports: TCP has its own, the other protocols share one.
abbrev pub shares : ProtocolType → ProtocolType → Bool
shares tcp tcp = true
shares tcp _ = false
shares _ tcp = false
shares _ _ = true

pub get_bitset-with_bitset :
    (p : EphemeralPortPool) (protocol other : ProtocolType) (bits : Bitset)
    → get_bitset (with_bitset p protocol bits) other
      ≡ (if shares protocol other then bits else get_bitset p other)
unfolding get_bitset with_bitset
get_bitset-with_bitset p protocol other bits = ground arith

pub get_bitset-with_hint :
    (p : EphemeralPortPool) (protocol other : ProtocolType) (hint : ℕ)
    → get_bitset (with_hint p protocol hint) other ≡ get_bitset p other
unfolding get_bitset with_hint
get_bitset-with_hint p protocol other hint = ground arith

pub get_bitset-shares :
    (p : EphemeralPortPool) (protocol other : ProtocolType)
    → shares protocol other ≡ true
    → get_bitset p other ≡ get_bitset p protocol
unfolding get_bitset
get_bitset-shares p protocol other e = ground arith

pub count_bits-full :
    (n : ℕ) (bits : Bitset) → ((i : ℕ) → i < n → bits i ≡ true) → count_bits n bits ≡ n
unfolding count_bits
count_bits-full zero bits h = refl
count_bits-full (suc n) bits h =
    ground (arith, h n (le_refl (suc n)), count_bits-full n bits (λ i l. h i (omega arith)))
