-- ===== src/Network/SendQueue/Sent.antt =====
-- The packets pushed, those that left the queue and the bytes sent, as lists.
use ryu_ldn_nx.Prelude.{
  ℕ, zero, suc, ◌+◌, ◌≤◌, ◌≡◌, refl, sym, ap, ◌∙◌, List, [], ◌∷◌, ◌++◌, map, append_assoc,
  append-nil, arith, length, take, drop, concat, map-append, subst,
}
use ryu_ldn_nx.Network.SendQueue.{QueuedPacket, Phase, idle, holding, finished, stopped, overrun}

abbrev pub contents : List QueuedPacket → List (List ℕ)
contents ps = map (λ (p : QueuedPacket). p.bytes) ps

-- How many bytes of the front packet the socket has, and what the thread knows of it.
abbrev pub part : Phase → ℕ → List (List ℕ) → List ℕ
part finished offset (f ∷ fs) = f
part _ offset (f ∷ fs) = take offset f
part _ offset [] = []

abbrev pub Fits : Phase → ℕ → List (List ℕ) → Type 0
Fits idle offset [] = offset ≡ 0
Fits idle offset (f ∷ fs) = offset ≤ length f
Fits (holding copy) offset [] = ⊥
Fits (holding copy) offset (f ∷ fs) = (copy ≡ f) × (offset ≤ length f)
Fits finished offset [] = ⊥
Fits finished offset (f ∷ fs) = Unit {0}
Fits stopped offset [] = offset ≡ 0
Fits stopped offset (f ∷ fs) = offset ≤ length f
Fits overrun offset fs = ⊥

-- Some packets of a list in their order, of which only stale ones are left out.
pub data Kept (Stale : QueuedPacket → Type 0) : List QueuedPacket → List QueuedPacket → Type 0 where
  nil : Kept Stale [] []
  keep :
      (p : QueuedPacket) {ps qs : List QueuedPacket}
      → Kept Stale ps qs
      → Kept Stale (p ∷ ps) (p ∷ qs)
  skip :
      (p : QueuedPacket) {ps qs : List QueuedPacket}
      → Stale p
      → Kept Stale ps qs
      → Kept Stale ps (p ∷ qs)

Kept-append :
    (Stale : QueuedPacket → Type 0) (ps qs rs ss : List QueuedPacket)
    → Kept Stale ps qs
    → Kept Stale rs ss
    → Kept Stale (ps ++ rs) (qs ++ ss)
Kept-append Stale ps qs rs ss nil k = k
Kept-append Stale ps qs rs ss (keep p l) k = keep p (Kept-append Stale _ _ rs ss l k)
Kept-append Stale ps qs rs ss (skip p old l) k = skip p old (Kept-append Stale ps _ rs ss l k)

-- The packets that were pushed are those that left the queue and those in it; the socket has got those
-- that left, in order and without some stale ones, and the first part of the front packet.
abbrev pub Sent :
    (QueuedPacket → Type 0) → List QueuedPacket → Phase → ℕ → List QueuedPacket → List ℕ → Type 0
Sent Stale all phase offset queued wire =
    (gone : List QueuedPacket) × (done : List QueuedPacket) × (all ≡ gone ++ queued)
    × Kept Stale done gone
    × (wire ≡ concat (contents done) ++ part phase offset (contents queued))
    × Fits phase offset (contents queued)

concat-append : (xss yss : List (List ℕ)) → concat (xss ++ yss) ≡ concat xss ++ concat yss
concat-append [] yss = refl
concat-append (xs ∷ xss) yss =
    ap (◌++◌ xs) (concat-append xss yss) ∙ sym (append_assoc xs (concat xss) (concat yss))

-- A push behind the queue changes neither the part that was sent nor what fits.
part-push :
    (phase : Phase) (offset : ℕ) (q : List (List ℕ)) (x : List ℕ)
    → Fits phase offset q
    → (part phase offset (q ++ (x ∷ [])) ≡ part phase offset q) × Fits phase offset (q ++ (x ∷ []))
part-push idle offset [] x f = (ap (λ n. take n x) f, omega arith)
part-push idle offset (g ∷ q) x f = (refl, f)
part-push (holding copy) offset [] x f = absurd f
part-push (holding copy) offset (g ∷ q) x f = (refl, f)
part-push finished offset [] x f = absurd f
part-push finished offset (g ∷ q) x f = (refl, f)
part-push stopped offset [] x f = (ap (λ n. take n x) f, omega arith)
part-push stopped offset (g ∷ q) x f = (refl, f)
part-push overrun offset q x f = absurd f

none_sent : (q : List (List ℕ)) → (part idle 0 q ≡ []) × Fits idle 0 q
none_sent [] = (refl, refl)
none_sent (f ∷ q) = (refl, omega arith)

concat-contents_snoc :
    (ps : List QueuedPacket) (p : QueuedPacket)
    → concat (contents (ps ++ (p ∷ []))) ≡ concat (contents ps) ++ p.bytes
concat-contents_snoc ps p =
    ap concat (map-append (λ (p : QueuedPacket). p.bytes) ps (p ∷ []))
    ∙ concat-append (contents ps) (p.bytes ∷ [])
    ∙ ap (◌++◌ (concat (contents ps))) (append-nil p.bytes)

module _ (Stale : QueuedPacket → Type 0) (all : List QueuedPacket) where
  pub Sent-push :
      (phase : Phase) (offset : ℕ) (q : List QueuedPacket) (wire : List ℕ) (p : QueuedPacket)
      → Sent Stale all phase offset q wire
      → Sent Stale (all ++ (p ∷ [])) phase offset (q ++ (p ∷ [])) wire
  Sent-push phase offset q wire p (gone, done, split, sub, got, fits) =
      let (same, fits') = part-push phase offset (contents q) p.bytes fits in
      let e = map-append (λ (p : QueuedPacket). p.bytes) q (p ∷ []) in
      (
        gone,
        done,
        ap (λ l. l ++ (p ∷ [])) split ∙ append_assoc gone q (p ∷ []),
        sub,
        got ∙ ap (◌++◌ (concat (contents done))) (sym (ap (part phase offset) e ∙ same)),
        subst (Fits phase offset) (sym e) fits',
      )

  -- A stale packet leaves the queue, and so does one that is sent.
  pub Sent-drop :
      (p : QueuedPacket) (q : List QueuedPacket) (wire : List ℕ)
      → Stale p
      → Sent Stale all idle 0 (p ∷ q) wire
      → Sent Stale all idle 0 q wire
  Sent-drop p q wire old (gone, done, split, sub, got, fits) =
      let (empty, fits') = none_sent (contents q) in
      (
        gone ++ (p ∷ []),
        done,
        split ∙ sym (append_assoc gone (p ∷ []) q),
        subst (λ l. Kept Stale l (gone ++ (p ∷ []))) (append-nil done)
            (Kept-append Stale done gone [] (p ∷ []) sub (skip p old nil)),
        got ∙ ap (◌++◌ (concat (contents done))) (sym empty),
        fits',
      )

  pub Sent-finish :
      (offset : ℕ) (p : QueuedPacket) (q : List QueuedPacket) (wire : List ℕ)
      → Sent Stale all finished offset (p ∷ q) wire
      → Sent Stale all idle 0 q wire
  Sent-finish offset p q wire (gone, done, split, sub, got, fits) =
      let (empty, fits') = none_sent (contents q) in
      let done' = done ++ (p ∷ []) in
      (
        gone ++ (p ∷ []),
        done',
        split ∙ sym (append_assoc gone (p ∷ []) q),
        Kept-append Stale done gone (p ∷ []) (p ∷ []) sub (keep p nil),
        got
            ∙ sym (concat-contents_snoc done p)
            ∙ sym (append-nil (concat (contents done')))
            ∙ ap (◌++◌ (concat (contents done'))) (sym empty),
        fits',
      )

take-length-take : (n : ℕ) (f : List ℕ) → take n f ≡ take (length (take n f)) f
take-length-take zero f = refl
take-length-take (suc n) [] = refl
take-length-take (suc n) (x ∷ f) = ap (◌∷◌ x) (take-length-take n f)

-- The bytes that one call of the socket takes.
pub take-more :
    (n offset : ℕ) (f : List ℕ)
    → offset ≤ length f
    → take offset f ++ take n (drop offset f) ≡ take (offset + length (take n (drop offset f))) f
take-more n zero f h =
    let e : 0 + length (take n f) ≡ length (take n f) = omega arith in
    take-length-take n f ∙ ap (λ k. take k f) (sym e)
take-more n (suc offset) [] h = absurd (omega arith)
take-more n (suc offset) (x ∷ f) h =
    let e : suc offset + length (take n (drop offset f))
        ≡ suc (offset + length (take n (drop offset f))) =
      omega arith in
    ap (◌∷◌ x) (take-more n offset f (omega arith)) ∙ ap (λ k. take k (x ∷ f)) (sym e)
