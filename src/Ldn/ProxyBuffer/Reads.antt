-- ===== src/Ldn/ProxyBuffer/Reads.antt =====
-- Reading from the proxy buffer as a pop at the front of a queue.
use ryu_ldn_nx.Prelude.{
  ℕ, zero, suc, ◌+◌, ◌-◌, ◌%◌, ◌<◌, ◌≡◌, refl, sym, ap, ◌∙◌, ◌⊎◌, inl, inr, true, false, some, List,
  [], ◌∷◌, map, arith, min, ◌==◌, length, take, drop, subst, Bool-cases, take-take, length-take,
  length-drop,
}
use ryu_ldn_nx.Prelude.Bytes.{write_at, write_at-front}
use ryu_ldn_nx.Prelude.Slices.{slice}
use ryu_ldn_nx.Prelude.Ring.{window}
use ryu_ldn_nx.Ldn.ProxyBuffer.{
  LdnProxyBuffer, ProxyDataHeader, zero_entry, max_queued_packets, oldest, release, read, copy_out,
}
use ryu_ldn_nx.Ldn.ProxyBuffer.Layout.{
  entries, fetch, queue, Inside, IsValid, Chain, IsLinear, window-split,
}

-- The guard `size > 0` makes no difference.
pub copy_out-write_at :
    (out block : List ℕ) (offset size : ℕ)
    → copy_out (some out) block offset size ≡ some (write_at out 0 (slice block offset size))
unfolding copy_out
copy_out-write_at out block offset zero = ap some (sym (write_at-front out []))
copy_out-write_at out block offset (suc n) = ground arith

module _ (b : LdnProxyBuffer) (v : IsValid b) (some_queued : 0 < b.packet_count) where
  entries-release : entries b ≡ oldest b ∷ entries (release b)
  unfolding release
  entries-release = window-split b.packets b.packet_read_idx b.packet_count some_queued

  length-oldest :
      length (slice b.data_buffer (oldest b).data_offset (oldest b).data_size)
      ≡ (oldest b).data_size
  length-oldest =
      let i : Inside (oldest b ∷ entries (release b)) = subst Inside entries-release v.inside in
      omega (
        arith,
        i.0,
        v.block,
        length-take (oldest b).data_size (drop (oldest b).data_offset b.data_buffer),
        length-drop (oldest b).data_offset b.data_buffer,
      )

  release-IsValid : IsValid (release b)
  release-IsValid =
      let i : Inside (oldest b ∷ entries (release b)) = subst Inside entries-release v.inside in
      record {
        slots = unfold release in v.slots;
        block = unfold release in v.block;
        read_in = unfold release in omega arith;
        write_is = unfold release in omega (arith, v.write_is, v.read_in, v.count_in);
        count_in = unfold release in omega (arith, v.count_in);
        read_pos_in = unfold release in ground (arith, i.0);
        write_pos_in = unfold release in ground (arith, v.write_pos_in);
        inside = i.1;
      }

  last_one : (n : ℕ) → n ≡ b.packet_count - 1 → (n == 0) ≡ true → entries (release b) ≡ []
  unfolding release
  last_one n e z =
      let none_left : b.packet_count - 1 ≡ 0 = ground arith in
      ap
        (window zero_entry max_queued_packets b.packets
          ((b.packet_read_idx + 1) % max_queued_packets))
        none_left

  release-IsLinear : IsLinear b → IsLinear (release b)
  release-IsLinear c =
      let rest : Chain b.data_read_pos b.data_write_pos (oldest b ∷ entries (release b)) =
        subst (Chain b.data_read_pos b.data_write_pos) entries-release c in
      elim (Bool-cases (b.packet_count - 1 == 0)) [
        | inl z ↦
            let gone = last_one (b.packet_count - 1) refl z in
            subst (Chain (release b).data_read_pos (release b).data_write_pos) (sym gone)
              (unfold release in ground arith)
        | inr more ↦
            let lo : (oldest b).data_offset + (oldest b).data_size ≡ (release b).data_read_pos =
              unfold release in ground arith in
            let hi : b.data_write_pos ≡ (release b).data_write_pos =
              unfold release in ground arith in
            subst (λ l. Chain l (release b).data_write_pos (entries (release b))) lo
              (subst
                (λ k. Chain ((oldest b).data_offset + (oldest b).data_size) k (entries (release b)))
                hi rest.1)
      ]

pub read_cases :
    (b : LdnProxyBuffer) (h : ProxyDataHeader) (out : List ℕ) (old max_size : ℕ)
    → ((b.packet_count ≡ 0) × (read b h (some out) old max_size ≡ (b, false, h, some out, old)))
      ⊎ ((0 < b.packet_count)
          × (let size = min (oldest b).data_size max_size in
              read b h (some out) old max_size ≡ (
                release b,
                true,
                (oldest b).header,
                copy_out (some out) b.data_buffer (oldest b).data_offset size,
                size,
              )))
unfolding read
read_cases b h out old max_size = ground arith

-- From a valid buffer, `Read` is a pop. If the queue is empty it returns false and changes
-- nothing. Otherwise it hands out the header of the oldest packet and as many of its bytes as the
-- caller allows, at the front of the caller's block, and leaves the other packets as they were in
-- a valid buffer; if no packet lay in front of an older one, none does afterwards.
pub read-queue :
    (b : LdnProxyBuffer) (h : ProxyDataHeader) (out : List ℕ) (old max_size : ℕ)
    → IsValid b
    → let (b', found, h', out', size) = read b h (some out) old max_size in
      ((queue b ≡ []) × (found ≡ false) × (b' ≡ b) × (h' ≡ h) × (out' ≡ some out) × (size ≡ old))
      ⊎ ((bytes : List ℕ) × (queue b ≡ (h', bytes) ∷ queue b')
          × (found ≡ true)
          × (size ≡ min (length bytes) max_size)
          × (out' ≡ some (write_at out 0 (take size bytes)))
          × IsValid b'
          × (IsLinear b → IsLinear b'))
read-queue b h out old max_size v = elim (read_cases b h out old max_size) [
  | inl (empty, e) ↦ rw e (
      inl (
        ap
            (λ n.
              map (fetch b.data_buffer)
                (window zero_entry max_queued_packets b.packets b.packet_read_idx n))
            empty,
        refl,
        refl,
        refl,
        refl,
        refl,
      ))
  | inr (queued, e) ↦
      let n = (oldest b).data_size in
      let size = min n max_size in
      let bytes = slice b.data_buffer (oldest b).data_offset n in
      let same : (release b).data_buffer ≡ b.data_buffer = unfold release in refl in
      rw e (
        inr (
          bytes,
          ap (map (fetch b.data_buffer)) (entries-release b v queued)
              ∙ ap (λ m. ((oldest b).header, bytes) ∷ map (fetch m) (entries (release b)))
                  (sym same),
          refl,
          ap (λ k. min k max_size) (sym (length-oldest b v queued)),
          copy_out-write_at out b.data_buffer (oldest b).data_offset size
              ∙ ap (λ s. some (write_at out 0 s))
                  (sym
                    (take-take size n (drop (oldest b).data_offset b.data_buffer) (omega arith))),
          release-IsValid b v queued,
          release-IsLinear b v queued,
        ))
]
