-- ===== src/Ldn/ProxyBuffer/Layout.antt =====
-- How the packets lie in the proxy buffer's slots and in its block of bytes.
use mathlib.Core.Path.{ap₂}
use ryu_ldn_nx.Prelude.{
  ℕ, zero, suc, ◌+◌, ◌-◌, ◌%◌, ◌≤◌, ◌<◌, ◌≡◌, refl, sym, ap, ◌∙◌, inl, inr, some, List, [], ◌∷◌,
  ◌++◌, map, arith, length, take, drop, take-all, take-append-drop, get_or,
}
use native.Mathlib.Nat.{le_refl}
use ryu_ldn_nx.Prelude.Bytes.{write_at}
use ryu_ldn_nx.Prelude.Slices.{slice, Apart, slice-write_at_other}
use ryu_ldn_nx.Prelude.Ring.{window}
use ryu_ldn_nx.Ldn.ProxyBuffer.{
  LdnProxyBuffer, ProxyDataHeader, PacketEntry, zero_entry, buffer_size, max_queued_packets,
  copy_in,
}

-- The queued packets' descriptions, oldest first, and the packets themselves.
abbrev pub entries : LdnProxyBuffer → List PacketEntry
entries b = window zero_entry max_queued_packets b.packets b.packet_read_idx b.packet_count

abbrev pub fetch : List ℕ → PacketEntry → ProxyDataHeader × List ℕ
fetch block e = (e.header, slice block e.data_offset e.data_size)

abbrev pub queue : LdnProxyBuffer → List (ProxyDataHeader × List ℕ)
queue b = map (fetch b.data_buffer) (entries b)

abbrev pub Inside : List PacketEntry → Type 0
Inside [] = Unit
Inside (e ∷ es) = (e.data_offset + e.data_size ≤ buffer_size) × Inside es

-- Positions and indices are in range, and every queued packet lies within the block.
pub record IsValid (b : LdnProxyBuffer) : Type 0 where
  pub slots : length b.packets ≡ max_queued_packets
  pub block : length b.data_buffer ≡ buffer_size
  pub read_in : b.packet_read_idx < max_queued_packets
  pub write_is : b.packet_write_idx ≡ (b.packet_read_idx + b.packet_count) % max_queued_packets
  pub count_in : b.packet_count ≤ max_queued_packets
  pub read_pos_in : b.data_read_pos ≤ buffer_size
  pub write_pos_in : b.data_write_pos ≤ buffer_size
  pub inside : Inside (entries b)

-- The packets lie one behind the other from `lo` to `hi`.
abbrev pub Chain : ℕ → ℕ → List PacketEntry → Type 0
Chain lo hi [] = lo ≤ hi
Chain lo hi (e ∷ es) = (lo ≤ e.data_offset) × Chain (e.data_offset + e.data_size) hi es

-- No packet lies in front of an older one.
abbrev pub IsLinear : LdnProxyBuffer → Type 0
IsLinear b = Chain b.data_read_pos b.data_write_pos (entries b)

-- No queued packet meets a part of the block.
abbrev pub Clear : ℕ → ℕ → List PacketEntry → Type 0
Clear pos size [] = Unit
Clear pos size (e ∷ es) = Apart e.data_offset e.data_size pos size × Clear pos size es

pub Chain-le : (lo hi : ℕ) (es : List PacketEntry) → Chain lo hi es → lo ≤ hi
Chain-le lo hi [] c = c
Chain-le lo hi (e ∷ es) c = omega (arith, Chain-le (e.data_offset + e.data_size) hi es c.1)

pub Chain-append :
    (lo hi size : ℕ) (h : ProxyDataHeader) (es : List PacketEntry)
    → Chain lo hi es
    → Chain lo (hi + size) (es ++ (record { header = h; data_size = size; data_offset = hi } ∷ []))
Chain-append lo hi size h [] c = (c, le_refl (hi + size))
Chain-append lo hi size h (e ∷ es) c =
    (c.0, Chain-append (e.data_offset + e.data_size) hi size h es c.1)

pub Clear-behind : (lo hi size : ℕ) (es : List PacketEntry) → Chain lo hi es → Clear hi size es
Clear-behind lo hi size [] c = tt
Clear-behind lo hi size (e ∷ es) c = (
  inl (Chain-le (e.data_offset + e.data_size) hi es c.1),
  Clear-behind (e.data_offset + e.data_size) hi size es c.1,
)

pub Clear-front :
    (lo hi size : ℕ) (es : List PacketEntry) → size ≤ lo → Chain lo hi es → Clear 0 size es
Clear-front lo hi size [] l c = tt
Clear-front lo hi size (e ∷ es) l c = (
  inr (omega (arith, c.0)),
  Clear-front (e.data_offset + e.data_size) hi size es (omega (arith, c.0)) c.1,
)

pub Inside-append :
    (es : List PacketEntry) (e : PacketEntry)
    → Inside es
    → e.data_offset + e.data_size ≤ buffer_size
    → Inside (es ++ (e ∷ []))
Inside-append [] e i l = (l, tt)
Inside-append (x ∷ es) e i l = (i.0, Inside-append es e i.1 l)

-- A write that meets no queued packet leaves them all.
pub fetch-write_at :
    (block : List ℕ) (pos : ℕ) (bytes : List ℕ) (es : List PacketEntry)
    → pos ≤ length block
    → Clear pos (length bytes) es
    → map (fetch (write_at block pos bytes)) es ≡ map (fetch block) es
fetch-write_at block pos bytes [] h c = refl
fetch-write_at block pos bytes (e ∷ es) h c =
    ap₂ (λ s r. (e.header, s) ∷ r)
      (slice-write_at_other block pos bytes e.data_offset e.data_size h c.0)
      (fetch-write_at block pos bytes es h c.1)

write_at-nil : (block : List ℕ) (pos : ℕ) → write_at block pos [] ≡ block
unfolding write_at
write_at-nil block pos =
    let e : pos + 0 ≡ pos = omega arith in
    ap (λ n. take pos block ++ drop n block) e ∙ take-append-drop pos block

-- The guard `size > 0` makes no difference.
pub copy_in-write_at :
    (block : List ℕ) (pos : ℕ) (bytes : List ℕ)
    → copy_in block pos (some bytes) (length bytes) ≡ write_at block pos bytes
unfolding copy_in
copy_in-write_at block pos [] = sym (write_at-nil block pos)
copy_in-write_at block pos (x ∷ bytes) =
    ground (arith, take-all (length (x ∷ bytes)) (x ∷ bytes) (le_refl _))

-- The oldest entry and the others.
pub window-split :
    (slots : List PacketEntry) (idx count : ℕ)
    → 0 < count
    → window zero_entry max_queued_packets slots idx count
      ≡ get_or slots idx zero_entry
        ∷ window zero_entry max_queued_packets slots ((idx + 1) % max_queued_packets) (count - 1)
window-split slots idx zero h = absurd (omega arith)
window-split slots idx (suc count) h =
    let e : count ≡ suc count - 1 = omega arith in
    ap
      (λ n.
        get_or slots idx zero_entry
        ∷ window zero_entry max_queued_packets slots ((idx + 1) % max_queued_packets) n)
      e
