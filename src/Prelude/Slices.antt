-- ===== src/Prelude/Slices.antt =====
-- Parts of a block of memory, and what a write leaves of them.
use Prim.Native.Nat.{ℕ, ◌+◌, ◌-◌, ◌≤◌}
use mathlib.Core.Path.{◌≡◌, sym, ap, ◌∙◌, refl}
use mathlib.Core.Logic.{◌⊎◌, inl, inr}
use mathlib.Core.List.{List, ◌++◌, append_assoc}
use native.Mathlib.Omega.{arith}
use ryu_ldn_nx.Prelude.Lists.{
  length, take, drop, length-append, length-take, take-append_length, drop-append_length, drop-drop,
  take-drop, take-append_left, take-take,
}
use ryu_ldn_nx.Prelude.Bytes.{write_at}

-- The `size` bytes from `offset` on.
abbrev pub slice : List ℕ → ℕ → ℕ → List ℕ
slice block offset size = take size (drop offset block)

pub slice-write_at_self :
    (block : List ℕ) (offset : ℕ) (bytes : List ℕ)
    → offset ≤ length block
    → slice (write_at block offset bytes) offset (length bytes) ≡ bytes
unfolding write_at
slice-write_at_self block offset bytes h =
    ap (take (length bytes)) (
      drop-append_length offset (take offset block) (bytes ++ drop (offset + length bytes) block)
        (omega (arith, length-take offset block)))
    ∙ take-append_length (length bytes) bytes (drop (offset + length bytes) block) refl

take-write_at_before :
    (block : List ℕ) (offset n : ℕ) (bytes : List ℕ)
    → offset ≤ length block
    → n ≤ offset
    → take n (write_at block offset bytes) ≡ take n block
unfolding write_at
take-write_at_before block offset n bytes h l =
    take-append_left n (take offset block) (bytes ++ drop (offset + length bytes) block)
      (omega (arith, length-take offset block))
    ∙ take-take n offset block l

drop-write_at_behind :
    (block : List ℕ) (offset n : ℕ) (bytes : List ℕ)
    → offset ≤ length block
    → offset + length bytes ≤ n
    → drop n (write_at block offset bytes) ≡ drop n block
unfolding write_at
drop-write_at_behind block offset n bytes h l =
    let first = take offset block ++ bytes in
    let past = drop (offset + length bytes) block in
    let k = n - (offset + length bytes) in
    let e : (offset + length bytes) + k ≡ n = omega arith in
    ap (drop n) (sym (append_assoc (take offset block) bytes past))
    ∙ ap (λ i. drop i (first ++ past)) (sym e)
    ∙ sym (drop-drop k (offset + length bytes) (first ++ past))
    ∙ ap (drop k) (
        drop-append_length (offset + length bytes) first past
          (omega (arith, length-append (take offset block) bytes, length-take offset block)))
    ∙ drop-drop k (offset + length bytes) block
    ∙ ap (λ i. drop i block) e

-- Two parts do not meet.
abbrev pub Apart : ℕ → ℕ → ℕ → ℕ → Type 0
Apart offset size offset' size' = (offset + size ≤ offset') ⊎ (offset' + size' ≤ offset)

-- A write leaves a part that it does not meet.
pub slice-write_at_other :
    (block : List ℕ) (offset : ℕ) (bytes : List ℕ) (o s : ℕ)
    → offset ≤ length block
    → Apart o s offset (length bytes)
    → slice (write_at block offset bytes) o s ≡ slice block o s
slice-write_at_other block offset bytes o s h (inl before) =
    take-drop s o (write_at block offset bytes)
    ∙ ap (drop o) (take-write_at_before block offset (o + s) bytes h before)
    ∙ sym (take-drop s o block)
slice-write_at_other block offset bytes o s h (inr behind) =
    ap (take s) (drop-write_at_behind block offset o bytes h behind)
