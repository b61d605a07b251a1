-- ===== src/Protocol/PacketBuffer/Resync.antt =====
-- Finding the next header after a protocol error.
use mathlib.Core.Path.{ap₂}
use native.Mathlib.Nat.{le_refl}
use ryu_ldn_nx.Prelude.{
  ℕ, zero, suc, ◌+◌, ◌≤◌, ◌<◌, ◌≡◌, ◌≢◌, refl, sym, ap, subst, ◌∙◌, ◌⊎◌, inl, inr, List, [], arith,
  append-nil, length, drop, drop-drop, length-drop,
}
use ryu_ldn_nx.Protocol.Header.{header_size}
use ryu_ldn_nx.Protocol.Codec.{DecodeResult, decode_header, undefined_header}
use ryu_ldn_nx.Protocol.PacketBuffer.{PacketBuffer, consume, discard_from, discard_until_valid}
use ryu_ldn_nx.Protocol.PacketBuffer.Contents.{
  contents, IsValid, length-contents, contents-consume, consume-IsValid,
}
use ryu_ldn_nx.Protocol.PacketBuffer.Extraction.{decode_header-contents}

-- The bytes begin with a header that `decode_header` accepts.
abbrev pub Accepted : List ℕ → Type 0
Accepted xs = (decode_header xs (length xs) undefined_header).0 ≡ DecodeResult.success

-- `n` is the first place in `xs` where a header is accepted or too few bytes for one are left, and
-- `ys` is what stands from there on.
pub record Resynced (xs ys : List ℕ) (n : ℕ) : Type 0 where
  pub moved : ys ≡ drop n xs
  pub stopped : (length ys < header_size) ⊎ Accepted ys
  pub earlier : (j : ℕ) → j < n → (header_size ≤ length (drop j xs)) × (¬ Accepted (drop j xs))

decode_header-ne-incomplete :
    (xs : List ℕ) (n : ℕ) → (decode_header xs n undefined_header).0 ≢ DecodeResult.incomplete_packet
unfolding decode_header
decode_header-ne-incomplete xs n = ground arith

decode_header-window :
    (size : ℕ) (b : PacketBuffer)
    → IsValid size b
    → header_size ≤ b.write_pos
    → decode_header b.buffer b.write_pos undefined_header
      ≡ decode_header (contents b) (length (contents b)) undefined_header
decode_header-window size b v long =
    decode_header-contents size b [] undefined_header v long
    ∙ ap₂ (λ xs n. decode_header xs n undefined_header) (append-nil (contents b))
        (sym (length-contents size b v))

-- A round of the loop either ends it, or takes one byte and goes on.
discard_from-round :
    (size fuel : ℕ) (b : PacketBuffer) (discarded : ℕ)
    → IsValid size b
    → (((length (contents b) < header_size) ⊎ Accepted (contents b))
        × (discard_from (suc fuel) b discarded ≡ (b, discarded)))
      ⊎ ((header_size ≤ length (contents b))
          × (¬ Accepted (contents b))
          × (discard_from (suc fuel) b discarded ≡ discard_from fuel (consume b 1) (discarded + 1)))
unfolding discard_from
discard_from-round size fuel b discarded v = ground (
  arith,
  length-contents size b v,
  decode_header-window size b v,
  decode_header-ne-incomplete (contents b) (length (contents b)),
)

Resynced-here : (xs : List ℕ) → (length xs < header_size) ⊎ Accepted xs → Resynced xs xs 0
Resynced-here xs s = record { moved = refl; stopped = s; earlier = λ j h. elim h [ ] }

-- A place found behind the first byte is the place behind it.
Resynced-next :
    (xs ys : List ℕ) (k : ℕ)
    → header_size ≤ length xs
    → ¬ Accepted xs
    → Resynced (drop 1 xs) ys k
    → Resynced xs ys (1 + k)
Resynced-next xs ys k long bad r = record {
  moved = r.moved ∙ drop-drop k 1 xs;
  stopped = r.stopped;
  earlier = earlier;
}
  where
    earlier : (j : ℕ) → j < 1 + k → (header_size ≤ length (drop j xs)) × (¬ Accepted (drop j xs))
    earlier zero h = (long, bad)
    earlier (suc j) h =
        let e : 1 + j ≡ suc j = omega arith in
        subst (λ l. (header_size ≤ length l) × (¬ Accepted l))
          (drop-drop j 1 xs ∙ ap (λ i. drop i xs) e) (r.earlier j (omega arith))

discard_from-Resynced :
    (size fuel : ℕ) (b : PacketBuffer) (discarded : ℕ)
    → IsValid size b
    → b.write_pos ≤ fuel
    → let (b', n) = discard_from fuel b discarded in
      (k : ℕ) × (n ≡ discarded + k) × Resynced (contents b) (contents b') k × IsValid size b'
unfolding discard_from
discard_from-Resynced size zero b discarded v enough =
    (0, omega arith, Resynced-here (contents b) (inl (omega (arith, length-contents size b v))), v)
discard_from-Resynced size (suc fuel) b discarded v enough =
    elim (discard_from-round size fuel b discarded v) [
      | inl (stop, e) ↦ rw e (0, omega arith, Resynced-here (contents b) stop, v)
      | inr (long, bad, e) ↦ rw e (
          let (k, counted, found, v') =
            discard_from-Resynced size fuel (consume b 1) (discarded + 1)
              (consume-IsValid size b 1 v)
              (ground (
                arith,
                enough,
                length-contents size b v,
                length-contents size (consume b 1) (consume-IsValid size b 1 v),
                ap length (contents-consume size b 1 v),
                length-drop 1 (contents b),
              )) in
          (
            1 + k,
            omega arith,
            Resynced-next (contents b) _ k long bad (
                subst
                  (λ l. Resynced l (contents (discard_from fuel (consume b 1) (discarded + 1)).0) k)
                  (contents-consume size b 1 v) found),
            v',
          ))
    ]

-- In a valid buffer, `discard_until_valid` leaves the contents from the first place on where a
-- header is accepted or fewer than twelve bytes remain, returns how many bytes it discarded, and
-- leaves a valid buffer.
pub discard_until_valid-Resynced :
    (size : ℕ) (b : PacketBuffer)
    → IsValid size b
    → let (b', discarded) = discard_until_valid b in
      Resynced (contents b) (contents b') discarded × IsValid size b'
unfolding discard_until_valid
discard_until_valid-Resynced size b v =
    let (k, counted, found, v') =
      discard_from-Resynced size b.write_pos b 0 v (le_refl b.write_pos) in
    let e : k ≡ (discard_from b.write_pos b 0).1 = omega arith in
    (subst (Resynced (contents b) (contents (discard_from b.write_pos b 0).0)) e found, v')
