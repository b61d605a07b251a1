-- ===== src/Protocol/PacketBuffer/Contents.antt =====
-- The packet buffer as a queue of bytes.
use ryu_ldn_nx.Prelude.{
  ℕ, ◌+◌, ◌-◌, ◌≤◌, ◌<◌, ◌≡◌, List, ◌++◌, arith, append-nil, length, take, drop, length-take,
  length-drop, length-zero, take-drop, drop-all, ◌⊎◌, length-replicate,
}
use ryu_ldn_nx.Prelude.Bytes.{length-write_at, take-write_at}
use ryu_ldn_nx.Protocol.PacketBuffer.{success, buffer_full, PacketBuffer, new, append, consume}

-- The bytes received and not yet consumed.
abbrev pub contents : PacketBuffer → List ℕ
contents b = take b.write_pos b.buffer

-- The block has the template's size, and the write position lies within it.
pub record IsValid (buffer_size : ℕ) (b : PacketBuffer) : Type 0 where
  pub block : length b.buffer ≡ buffer_size
  pub in_block : b.write_pos ≤ buffer_size

pub length-contents :
    (size : ℕ) (b : PacketBuffer) → IsValid size b → length (contents b) ≡ b.write_pos
length-contents size b v = omega (arith, length-take b.write_pos b.buffer)

pub new-IsValid : (size : ℕ) → IsValid size (new size)
unfolding new
new-IsValid size = ground (arith, length-replicate size (◌+◌ 0 0))

pub append-IsValid :
    (size : ℕ) (b : PacketBuffer) (bytes : List ℕ)
    → IsValid size b
    → IsValid size (append size b bytes).1
unfolding append
append-IsValid size b bytes v = ground (arith, length-write_at b.buffer b.write_pos bytes)

pub consume-IsValid :
    (size : ℕ) (b : PacketBuffer) (n : ℕ) → IsValid size b → IsValid size (consume b n)
unfolding consume
consume-IsValid size b n v = ground (
  arith,
  length-write_at b.buffer 0 (take (b.write_pos - n) (drop n b.buffer)),
  length-take (b.write_pos - n) (drop n b.buffer),
  length-drop n b.buffer,
)

-- To a valid buffer, `append` refuses exactly the chunks that do not fit behind the contents, and
-- then changes nothing; any other chunk it puts at the end of the contents.
pub contents-append :
    (size : ℕ) (b : PacketBuffer) (bytes : List ℕ)
    → IsValid size b
    → let (result, b') = append size b bytes in
      ((size < length (contents b) + length bytes) × (result ≡ buffer_full) × (b' ≡ b))
      ⊎ ((length (contents b) + length bytes ≤ size)
          × (result ≡ success)
          × (contents b' ≡ contents b ++ bytes))
unfolding append
contents-append size b bytes v = ground (
  arith,
  length-contents size b v,
  length-zero bytes,
  append-nil (contents b),
  take-write_at b.buffer b.write_pos (b.write_pos + length bytes) bytes,
)

-- From a valid buffer, `consume` takes the given number of bytes off the front of the contents, or
-- all of them if there are fewer.
pub contents-consume :
    (size : ℕ) (b : PacketBuffer) (n : ℕ)
    → IsValid size b
    → contents (consume b n) ≡ drop n (contents b)
unfolding consume
contents-consume size b n v = ground (
  arith,
  drop-all n (contents b),
  length-contents size b v,
  take-write_at b.buffer 0 r moved,
  length-take r (drop n b.buffer),
  length-drop n b.buffer,
  take-drop r n b.buffer,
)
  where
    r : ℕ
    r = b.write_pos - n

    moved : List ℕ
    moved = take r (drop n b.buffer)
