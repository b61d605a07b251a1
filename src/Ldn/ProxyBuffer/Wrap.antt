-- ===== src/Ldn/ProxyBuffer/Wrap.antt =====
-- Writing to the proxy buffer once a packet lies in front of an older one.
use mathlib.Core.Path.{ap₂}
use ryu_ldn_nx.Prelude.{
  ℕ, ◌+◌, ◌≤◌, ◌<◌, ◌≡◌, ◌≢◌, refl, ap, ◌∙◌, inl, inr, true, some, List, arith, min, length,
  get_or-set_ne,
}
use ryu_ldn_nx.Prelude.Bytes.{write_at}
use ryu_ldn_nx.Prelude.Slices.{slice, slice-write_at_self}
use ryu_ldn_nx.Ldn.ProxyBuffer.{
  LdnProxyBuffer, ProxyDataHeader, zero_entry, buffer_size, max_packet_data_size,
  max_queued_packets, oldest, store, write, read,
}
use ryu_ldn_nx.Ldn.ProxyBuffer.Layout.{IsValid}
use ryu_ldn_nx.Ldn.ProxyBuffer.Writes.{write_cases, data_buffer-store}
use ryu_ldn_nx.Ldn.ProxyBuffer.Reads.{read_cases, copy_out-write_at}

module _ (b : LdnProxyBuffer) (h : ProxyDataHeader) (bytes : List ℕ) (v : IsValid b)
    (queued : 0 < b.packet_count) (room : b.packet_count < max_queued_packets) where
  other_slot : b.packet_write_idx ≢ b.packet_read_idx
  other_slot e = omega (arith, v.write_is, v.read_in)

  oldest-store : (pos : ℕ) → oldest (store b h (some bytes) (length bytes) pos) ≡ oldest b
  unfolding store
  oldest-store pos =
      get_or-set_ne b.packets b.packet_write_idx b.packet_read_idx
        (record { header = h; data_size = length bytes; data_offset = pos }) zero_entry other_slot

  count-store : (pos : ℕ) → 0 < (store b h (some bytes) (length bytes) pos).packet_count
  unfolding store
  count-store pos = omega arith

  read-store :
      (pos : ℕ) (h' : ProxyDataHeader) (out : List ℕ) (old max_size : ℕ)
      → pos + length bytes ≤ buffer_size
      → (oldest b).data_offset ≡ pos
      → (oldest b).data_size ≡ length bytes
      → length bytes ≤ max_size
      → let (_, found, header, out', size) =
          read (store b h (some bytes) (length bytes) pos) h' (some out) old max_size in
        (found ≡ true) × (header ≡ (oldest b).header) × (out' ≡ some (write_at out 0 bytes))
  read-store pos h' out old max_size fits at same enough =
      let s = store b h (some bytes) (length bytes) pos in
      let size = min (oldest s).data_size max_size in
      let whole : size ≡ length bytes =
        ap (λ e. min e.data_size max_size) (oldest-store pos) ∙ omega (arith, same, enough) in
      let place : (oldest s).data_offset ≡ pos = ap (λ e. e.data_offset) (oldest-store pos) ∙ at in
      elim (read_cases s h' out old max_size) [
        | inl (empty, _) ↦ absurd (omega (arith, count-store pos, empty))
        | inr (_, e) ↦ rw e (
          refl,
          ap (λ e. e.header) (oldest-store pos),
          copy_out-write_at out s.data_buffer (oldest s).data_offset size
              ∙ ap₂ (λ o n. some (write_at out 0 (slice s.data_buffer o n))) place whole
              ∙ ap (λ m. some (write_at out 0 (slice m pos (length bytes))))
                  (data_buffer-store b h bytes pos)
              ∙ ap (λ l. some (write_at out 0 l))
                  (slice-write_at_self b.data_buffer pos bytes (omega (arith, v.block))),
        )
      ]

-- `Write` looks at the room up to the end of the block and not at the packets still queued. When
-- in a valid buffer with a free slot the write position stands at the oldest unread packet, a new
-- packet of the same length, within the limit and with room to the end of the block, is accepted,
-- and the next `Read` that allows this length gives the new bytes under the old packet's header.
write-overwrites :
    (b : LdnProxyBuffer) (h : ProxyDataHeader) (bytes : List ℕ) (h' : ProxyDataHeader)
    (out : List ℕ) (old max_size : ℕ)
    → IsValid b
    → 0 < b.packet_count
    → b.packet_count < max_queued_packets
    → (oldest b).data_offset ≡ b.data_write_pos
    → (oldest b).data_size ≡ length bytes
    → length bytes ≤ max_packet_data_size
    → b.data_write_pos + length bytes ≤ buffer_size
    → length bytes ≤ max_size
    → let (b', ok) = write b h (some bytes) (length bytes) in
      let (b'', found, header, out', size) = read b' h' (some out) old max_size in
      (ok ≡ true)
      × (found ≡ true)
      × (header ≡ (oldest b).header)
      × (out' ≡ some (write_at out 0 bytes))
write-overwrites b h bytes h' out old max_size v queued room at same short fits enough =
    elim (write_cases b h bytes v) [
      | inl (why, _) ↦ absurd (ground arith)
      | inr (inl (_, _, _, e)) ↦
          let (found, header, copied) =
            read-store b h bytes v queued room b.data_write_pos h' out old max_size fits at same
              enough in
          rw e (refl, found, header, copied)
      | inr (inr (_, _, over, _, _)) ↦ absurd (omega arith)
    ]
