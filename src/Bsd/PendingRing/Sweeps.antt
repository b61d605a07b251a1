-- ===== src/Bsd/PendingRing/Sweeps.antt =====
-- Compacting the ring in place is going through the packets in order and leaving some out.
use ryu_ldn_nx.Prelude.{
  ℕ, zero, suc, ◌+◌, ◌-◌, ◌%◌, ◌≤◌, ◌<◌, ◌≡◌, refl, sym, ap, ap₂, ◌∙◌, ◌⊎◌, inl, inr, Bool, true,
  false, List, [], ◌∷◌, ◌++◌, append_assoc, append-nil, arith, ◌==◌, if◌then◌else◌, Bool-cases,
  length, get_or, subst, set, length-set,
}
use ryu_ldn_nx.Prelude.Ring.{window, window-push, window-set_behind, window-snoc, length-window}
use ryu_ldn_nx.Bsd.PendingRing.{
  PendingPacket, PendingRing, blank, max_pending_packets, next_pending, keep_slot, sweep,
  sweep_from,
}

abbrev pub packets : PendingRing → List PendingPacket
packets r = window blank max_pending_packets r.slots r.head r.count

pub record IsValid (r : PendingRing) : Type 0 where
  pub slots_length : length r.slots ≡ max_pending_packets
  pub head_lt : r.head < max_pending_packets
  pub count_le : r.count ≤ max_pending_packets
  pub tail_eq : r.tail ≡ (r.head + r.count) % max_pending_packets

module _ (slots : List PendingPacket) (head off kept remaining read_idx write_idx : ℕ)
    (full : length slots ≡ max_pending_packets) (h : head < max_pending_packets) (k : kept ≤ off)
    (o : off + suc remaining ≤ max_pending_packets)
    (read_eq : read_idx ≡ (head + off) % max_pending_packets)
    (write_eq : write_idx ≡ (head + kept) % max_pending_packets) where
  abbrev pkt : PendingPacket
  pkt = get_or slots read_idx blank

  keep_slot_cases :
      ((keep_slot slots read_idx write_idx ≡ slots) × (read_idx ≡ write_idx))
      ⊎ ((keep_slot slots read_idx write_idx ≡ set slots write_idx pkt) × (kept < off))
  unfolding keep_slot
  keep_slot_cases = elim (Bool-cases (write_idx == read_idx)) [
    | inl e ↦ inl (rw e refl, ground arith)
    | inr e ↦ inr (rw e refl, ground arith)
  ]

  length-keep_slot : length (keep_slot slots read_idx write_idx) ≡ max_pending_packets
  length-keep_slot = elim keep_slot_cases [
    | inl (e, same) ↦ ap length e ∙ full
    | inr (e, less) ↦ ap length e ∙ length-set slots write_idx pkt ∙ full
  ]

  window-keep_slot :
      window blank max_pending_packets (keep_slot slots read_idx write_idx) head (kept + 1)
      ≡ window blank max_pending_packets slots head kept ++ (pkt ∷ [])
  window-keep_slot =
      let more : kept + 1 ≡ suc kept = omega arith in
      ap (window blank max_pending_packets (keep_slot slots read_idx write_idx) head) more
      ∙ elim keep_slot_cases [
        | inl (e, same) ↦
            ap (λ l. window blank max_pending_packets l head (suc kept)) e
            ∙ window-snoc blank max_pending_packets slots head kept h (omega arith)
            ∙ ap
                (λ n.
                  window blank max_pending_packets slots head kept ++ (get_or slots n blank ∷ []))
                (sym (same ∙ write_eq))
        | inr (e, less) ↦
            ap (λ l. window blank max_pending_packets l head (suc kept)) e
            ∙ ap (λ n. window blank max_pending_packets (set slots n pkt) head (suc kept)) write_eq
            ∙ window-push blank max_pending_packets slots head kept pkt full h (omega arith)
      ]

  window-keep_slot_rest :
      window blank max_pending_packets
        (keep_slot slots read_idx write_idx)
        (next_pending read_idx)
        remaining
      ≡ window blank max_pending_packets slots (next_pending read_idx) remaining
  window-keep_slot_rest = elim keep_slot_cases [
    | inl (e, same) ↦
        ap (λ l. window blank max_pending_packets l (next_pending read_idx) remaining) e
    | inr (e, less) ↦
        let behind = 31 + kept - off in
        let place : write_idx ≡ (next_pending read_idx + behind) % max_pending_packets =
          omega arith in
        ap (λ l. window blank max_pending_packets l (next_pending read_idx) remaining) e
        ∙ ap
            (λ n.
              window blank max_pending_packets (set slots n pkt) (next_pending read_idx) remaining)
            place
        ∙ window-set_behind blank max_pending_packets slots (next_pending read_idx) remaining behind
            pkt (omega arith) (omega arith) (omega arith)
  ]

module _ {ℓ} {S : Type ℓ} (step : S → PendingPacket → S × Bool) where
  -- The same on a list.
  abbrev pub sweep_list : S → List PendingPacket → S × List PendingPacket
  sweep_list s [] = (s, [])
  sweep_list s (p ∷ ps) =
      let (s', stays) = step s p in
      let (s'', rest) = sweep_list s' ps in (s'', if stays then p ∷ rest else rest)

  -- What `sweep_from` ends with, as a list, and how its indices fit.
  abbrev Ends : ℕ → S × (List PendingPacket × (ℕ × ℕ)) → S × List PendingPacket → Type ℓ
  Ends head (s, (slots, (write_idx, kept))) (s', ps) =
      (s ≡ s')
      × (window blank max_pending_packets slots head kept ≡ ps)
      × (length slots ≡ max_pending_packets)
      × (write_idx ≡ (head + kept) % max_pending_packets)

  module _ (s : S) (slots : List PendingPacket) (read_idx write_idx remaining kept : ℕ) (b : Bool)
      (e : (step s (get_or slots read_idx blank)).1 ≡ b) where
    sweep_from-suc :
        sweep_from step s slots read_idx write_idx (suc remaining) kept
        ≡ sweep_from step
            (step s (get_or slots read_idx blank)).0
            (if b then keep_slot slots read_idx write_idx else slots)
            (next_pending read_idx)
            (if b then next_pending write_idx else write_idx)
            remaining
            (if b then kept + 1 else kept)
    unfolding sweep_from
    sweep_from-suc =
        ap
          (λ c.
            sweep_from step (step s (get_or slots read_idx blank)).0
              (if c then keep_slot slots read_idx write_idx else slots) (next_pending read_idx)
              (if c then next_pending write_idx else write_idx) remaining
              (if c then kept + 1 else kept))
          e

  sweep_from_lem :
      (s : S) (slots : List PendingPacket) (head off kept remaining read_idx write_idx : ℕ)
      → length slots ≡ max_pending_packets
      → head < max_pending_packets
      → kept ≤ off
      → off + remaining ≤ max_pending_packets
      → read_idx ≡ (head + off) % max_pending_packets
      → write_idx ≡ (head + kept) % max_pending_packets
      → let (s', rest) = sweep_list s (window blank max_pending_packets slots read_idx remaining) in
        Ends head
          (sweep_from step s slots read_idx write_idx remaining kept)
          (s', window blank max_pending_packets slots head kept ++ rest)
  unfolding sweep_from
  sweep_from_lem s slots head off kept zero read_idx write_idx full h k o re we =
      (refl, sym (append-nil (window blank max_pending_packets slots head kept)), full, we)
  sweep_from_lem s slots head off kept (suc remaining) read_idx write_idx full h k o re we =
      let p = get_or slots read_idx blank in
      let s' = (step s p).0 in
      let ps = window blank max_pending_packets slots (next_pending read_idx) remaining in
      let front = window blank max_pending_packets slots head kept in
      let rest = (sweep_list s' ps).1 in
      elim (Bool-cases (step s p).1) [
        | inl stays ↦
            let slots' = keep_slot slots read_idx write_idx in
            let same =
              window-keep_slot_rest slots head off kept remaining read_idx write_idx full h k o re
                we in
            let (state, kept_eq, len, place) =
              sweep_from_lem s' slots' head (off + 1) (kept + 1) remaining (next_pending read_idx)
                (next_pending write_idx)
                (length-keep_slot slots head off kept remaining read_idx write_idx full h k o re we)
                h (omega arith) (omega arith) (omega arith) (omega arith) in
            subst
              (λ x.
                Ends head x
                  ((sweep_list s' ps).0, front ++ (if (step s p).1 then p ∷ rest else rest)))
              (sym (sweep_from-suc s slots read_idx write_idx remaining kept true stays))
              (
                state ∙ ap (λ l. (sweep_list s' l).0) same,
                kept_eq
                    ∙ ap₂ (λ l r. l ++ (sweep_list s' r).1)
                        (window-keep_slot slots head off kept remaining read_idx write_idx full h k
                          o re we)
                        same
                    ∙ append_assoc front (p ∷ []) rest
                    ∙ ap (λ c. front ++ (if c then p ∷ rest else rest)) (sym stays),
                len,
                place,
              )
        | inr goes ↦
            let (state, kept_eq, len, place) =
              sweep_from_lem s' slots head (off + 1) kept remaining (next_pending read_idx)
                write_idx full h (omega arith) (omega arith) (omega arith) we in
            subst
              (λ x.
                Ends head x
                  ((sweep_list s' ps).0, front ++ (if (step s p).1 then p ∷ rest else rest)))
              (sym (sweep_from-suc s slots read_idx write_idx remaining kept false goes))
              (
                state,
                kept_eq ∙ ap (λ c. front ++ (if c then p ∷ rest else rest)) (sym goes),
                len,
                place,
              )
      ]

  length-sweep_list : (s : S) (ps : List PendingPacket) → length (sweep_list s ps).1 ≤ length ps
  length-sweep_list s [] = omega arith
  length-sweep_list s (p ∷ ps) = ground (arith, length-sweep_list (step s p).0 ps)

  -- Sweeping the ring in place is going through its packets in order: the same state comes out, the
  -- packets that are to stay are there in their order, and the ring stays valid.
  pub sweep_lem :
      (s : S) (r : PendingRing)
      → IsValid r
      → let (s', r') = sweep step s r in IsValid r' × ((s', packets r') ≡ sweep_list s (packets r))
  unfolding sweep
  sweep_lem s r v =
      let (state, kept_eq, len, place) =
        sweep_from_lem s r.slots r.head 0 0 r.count r.head r.head v.slots_length v.head_lt
          (omega arith) (omega (arith, v.count_le)) (omega (arith, v.head_lt))
          (omega (arith, v.head_lt)) in
      let ended = sweep_from step s r.slots r.head r.head r.count 0 in
      let kept = ended.1.1.1 in
      (
        record {
          slots_length = len;
          head_lt = v.head_lt;
          count_le = omega (
            arith,
            length-window blank max_pending_packets ended.1.0 r.head kept,
            ap length kept_eq,
            length-sweep_list s (packets r),
            length-window blank max_pending_packets r.slots r.head r.count,
            v.count_le,
          );
          tail_eq = place;
        },
        ap₂ (λ s ps. (s, ps)) state kept_eq,
      )
