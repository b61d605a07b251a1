-- ===== src/Ldn/ProxyBuffer/Writes.antt =====
-- Writing to the proxy buffer as a push at the end of a queue.
use mathlib.Core.Path.{ap₂}
use ryu_ldn_nx.Prelude.{
  ℕ, suc, ◌+◌, ◌≤◌, ◌<◌, ◌≡◌, refl, sym, ap, ◌∙◌, ◌⊎◌, inl, inr, true, false, some, List, [], ◌∷◌,
  ◌++◌, map, arith, length, set, length-set, subst,
}
use ryu_ldn_nx.Prelude.Bytes.{write_at, length-write_at}
use ryu_ldn_nx.Prelude.Ring.{window, window-push}
use ryu_ldn_nx.Ldn.ProxyBuffer.{
  LdnProxyBuffer, ProxyDataHeader, PacketEntry, zero_entry, buffer_size, max_packet_data_size,
  max_queued_packets, write_position, store, write,
}
use ryu_ldn_nx.Prelude.{map-append}
use ryu_ldn_nx.Ldn.ProxyBuffer.Layout.{
  entries, fetch, queue, Inside, IsValid, Chain, IsLinear, Clear, Chain-append, Clear-behind,
  Clear-front, Inside-append, fetch-write_at, copy_in-write_at,
}
use ryu_ldn_nx.Prelude.Slices.{slice-write_at_self}

module _ (b : LdnProxyBuffer) (h : ProxyDataHeader) (bytes : List ℕ) (pos : ℕ) where
  abbrev stored : PacketEntry
  stored = record { header = h; data_size = length bytes; data_offset = pos }

  entries-store :
      IsValid b
      → b.packet_count < max_queued_packets
      → entries (store b h (some bytes) (length bytes) pos) ≡ entries b ++ (stored ∷ [])
  unfolding store
  entries-store v room =
      let e : b.packet_count + 1 ≡ suc b.packet_count = omega arith in
      ap
        (λ n.
          window zero_entry max_queued_packets (set b.packets b.packet_write_idx stored)
            b.packet_read_idx n)
        e
      ∙ ap
          (λ i.
            window zero_entry max_queued_packets (set b.packets i stored) b.packet_read_idx
              (suc b.packet_count))
          v.write_is
      ∙ window-push zero_entry max_queued_packets b.packets b.packet_read_idx b.packet_count stored
          v.slots v.read_in room

  pub data_buffer-store :
      (store b h (some bytes) (length bytes) pos).data_buffer ≡ write_at b.data_buffer pos bytes
  unfolding store
  data_buffer-store = copy_in-write_at b.data_buffer pos bytes

  -- Bytes stored where no queued packet lies are a new last packet.
  pub queue-store :
      IsValid b
      → b.packet_count < max_queued_packets
      → pos + length bytes ≤ buffer_size
      → Clear pos (length bytes) (entries b)
      → queue (store b h (some bytes) (length bytes) pos) ≡ queue b ++ ((h, bytes) ∷ [])
  queue-store v room fits clear =
      let low : pos ≤ length b.data_buffer = omega (arith, v.block) in
      ap₂ (λ block es. map (fetch block) es) data_buffer-store (entries-store v room)
      ∙ map-append (fetch (write_at b.data_buffer pos bytes)) (entries b) (stored ∷ [])
      ∙ ap₂ (λ q s. q ++ ((h, s) ∷ []))
          (fetch-write_at b.data_buffer pos bytes (entries b) low clear)
          (slice-write_at_self b.data_buffer pos bytes low)

  pub store-IsValid :
      IsValid b
      → b.packet_count < max_queued_packets
      → pos + length bytes ≤ buffer_size
      → IsValid (store b h (some bytes) (length bytes) pos)
  store-IsValid v room fits = record {
    slots = unfold store in length-set b.packets b.packet_write_idx stored ∙ v.slots;
    block =
        ap length data_buffer-store
        ∙ length-write_at b.data_buffer pos bytes (omega (arith, v.block))
        ∙ v.block;
    read_in = unfold store in v.read_in;
    write_is = unfold store in omega (arith, v.write_is, v.read_in);
    count_in = unfold store in omega arith;
    read_pos_in = unfold store in v.read_pos_in;
    write_pos_in = unfold store in fits;
    inside =
        subst Inside (sym (entries-store v room)) (Inside-append (entries b) stored v.inside fits);
  }

store-IsLinear :
    (b : LdnProxyBuffer) (h : ProxyDataHeader) (bytes : List ℕ)
    → IsValid b
    → b.packet_count < max_queued_packets
    → IsLinear b
    → IsLinear (store b h (some bytes) (length bytes) b.data_write_pos)
unfolding store
store-IsLinear b h bytes v room c =
    subst (Chain b.data_read_pos (b.data_write_pos + length bytes))
      (sym (entries-store b h bytes b.data_write_pos v room))
      (Chain-append b.data_read_pos b.data_write_pos (length bytes) h (entries b) c)

-- `Write` by its checks.
pub write_cases :
    (b : LdnProxyBuffer) (h : ProxyDataHeader) (bytes : List ℕ)
    → IsValid b
    → let n = length bytes in
      (((max_packet_data_size < n)
          ⊎ (b.packet_count ≡ max_queued_packets)
          ⊎ ((buffer_size < b.data_write_pos + n) × (b.data_read_pos ≤ n)))
        × (write b h (some bytes) n ≡ (b, false)))
      ⊎ ((n ≤ max_packet_data_size)
          × (b.packet_count < max_queued_packets)
          × (b.data_write_pos + n ≤ buffer_size)
          × (write b h (some bytes) n ≡ (store b h (some bytes) n b.data_write_pos, true)))
      ⊎ ((n ≤ max_packet_data_size)
          × (b.packet_count < max_queued_packets)
          × (buffer_size < b.data_write_pos + n)
          × (n < b.data_read_pos)
          × (write b h (some bytes) n ≡ (store b h (some bytes) n 0, true)))
unfolding write write_position
write_cases b h bytes v = ground (arith, v.count_in, v.write_pos_in)

-- To a valid buffer in which no packet lies in front of an older one, `Write` is a bounded push.
-- It refuses a packet that is too long, or for which all slots are taken or the block has no room,
-- and then changes nothing. A packet that is short enough, for which there is a slot, and room behind the
-- last packet or else in front of the first, becomes the last one, all that were queued stay as
-- they were, and the buffer is valid; if the packet fits behind the last one, again no packet lies
-- in front of an older one.
pub write-queue :
    (b : LdnProxyBuffer) (h : ProxyDataHeader) (bytes : List ℕ)
    → IsValid b
    → IsLinear b
    → let n = length bytes in
      let (b', ok) = write b h (some bytes) n in
      (((max_packet_data_size < n)
          ⊎ (b.packet_count ≡ max_queued_packets)
          ⊎ ((buffer_size < b.data_write_pos + n) × (b.data_read_pos ≤ n)))
        × (ok ≡ false)
        × (b' ≡ b))
      ⊎ ((n ≤ max_packet_data_size)
          × (b.packet_count < max_queued_packets)
          × ((b.data_write_pos + n ≤ buffer_size) ⊎ (n < b.data_read_pos))
          × (ok ≡ true)
          × (queue b' ≡ queue b ++ ((h, bytes) ∷ []))
          × IsValid b'
          × ((b.data_write_pos + n ≤ buffer_size) → IsLinear b'))
write-queue b h bytes v c = elim (write_cases b h bytes v) [
  | inl (why, e) ↦ rw e (inl (why, refl, refl))
  | inr (inl (short, room, fits, e)) ↦ rw e (
      inr (
        short,
        room,
        inl fits,
        refl,
        queue-store b h bytes b.data_write_pos v room fits
            (Clear-behind b.data_read_pos b.data_write_pos (length bytes) (entries b) c),
        store-IsValid b h bytes b.data_write_pos v room fits,
        λ _. store-IsLinear b h bytes v room c,
      ))
  | inr (inr (short, room, over, low, e)) ↦
      let fits : 0 + length bytes ≤ buffer_size = omega (arith, v.read_pos_in) in
      rw e (
        inr (
          short,
          room,
          inr low,
          refl,
          queue-store b h bytes 0 v room fits (
              Clear-front b.data_read_pos b.data_write_pos (length bytes) (entries b) (omega arith)
                c),
          store-IsValid b h bytes 0 v room fits,
          λ l. absurd (omega arith),
        ))
]
