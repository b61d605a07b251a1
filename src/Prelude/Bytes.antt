-- ===== src/Prelude/Bytes.antt =====
-- Blocks of memory as lists of bytes: `memcpy` into a block, and little-endian fields.
use Prim.Native.Nat.{ℕ, ◌+◌, ◌*◌, ◌/◌, ◌%◌, ◌≤◌}
use mathlib.Core.Path.{◌≡◌, sym, ap, ap₂, ◌∙◌}
use mathlib.Core.List.{List, [], ◌∷◌, ◌++◌, append_assoc}
use native.Mathlib.Omega.{arith}
use ryu_ldn_nx.Prelude.Lists.{
  length, get_or, take, drop, length-append, length-take, length-drop, take-append_length,
  drop-append_length, drop-drop,
}

-- `memcpy(block + offset, bytes, size)`.
unfoldable pub write_at : List ℕ → ℕ → List ℕ → List ℕ
write_at block offset bytes = take offset block ++ (bytes ++ drop (offset + length bytes) block)

pub length-write_at :
    (block : List ℕ) (offset : ℕ) (bytes : List ℕ)
    → offset + length bytes ≤ length block
    → length (write_at block offset bytes) ≡ length block
unfolding write_at
length-write_at block offset bytes h = omega (
  arith,
  length-append (take offset block) (bytes ++ drop (offset + length bytes) block),
  length-append bytes (drop (offset + length bytes) block),
  length-take offset block,
  length-drop (offset + length bytes) block,
)

-- What stood before the bytes and the bytes themselves are the block's first part.
pub take-write_at :
    (block : List ℕ) (offset n : ℕ) (bytes : List ℕ)
    → offset ≤ length block
    → n ≡ offset + length bytes
    → take n (write_at block offset bytes) ≡ take offset block ++ bytes
unfolding write_at
take-write_at block offset n bytes h e =
    ap (take n) (sym (append_assoc (take offset block) bytes (drop (offset + length bytes) block)))
    ∙ take-append_length n (take offset block ++ bytes) (drop (offset + length bytes) block)
        (omega (arith, length-append (take offset block) bytes, length-take offset block))

-- At the front of a block.
pub write_at-front :
    (block bytes : List ℕ) → write_at block 0 bytes ≡ bytes ++ drop (length bytes) block
unfolding write_at
write_at-front block bytes = ap (λ n. bytes ++ drop n block) (omega arith)

-- Behind a first part of the block.
pub write_at-append :
    (xs rest : List ℕ) (n : ℕ) (bytes : List ℕ)
    → n ≡ length xs
    → write_at (xs ++ rest) n bytes ≡ (xs ++ bytes) ++ drop (length bytes) rest
unfolding write_at
write_at-append xs rest n bytes e =
    ap₂ (λ l r. l ++ (bytes ++ r)) (take-append_length n xs rest e)
      (sym (drop-drop (length bytes) n (xs ++ rest))
        ∙ ap (drop (length bytes)) (drop-append_length n xs rest e))
    ∙ sym (append_assoc xs bytes (drop (length bytes) rest))

-- A little-endian field of two or four bytes, as it lies in a packed structure.
abbrev pub u16_bytes : ℕ → List ℕ
u16_bytes n = n % 256 ∷ n / 256 % 256 ∷ []

abbrev pub u32_bytes : ℕ → List ℕ
u32_bytes n = n % 256 ∷ n / 256 % 256 ∷ n / 65536 % 256 ∷ n / 16777216 % 256 ∷ []

abbrev pub read_u16 : List ℕ → ℕ → ℕ
read_u16 block i = get_or block i 0 + 256 * get_or block (i + 1) 0

abbrev pub read_u32 : List ℕ → ℕ → ℕ
read_u32 block i =
    get_or block i 0
    + 256 * get_or block (i + 1) 0
    + 65536 * get_or block (i + 2) 0
    + 16777216 * get_or block (i + 3) 0
