-- ===== src/Prelude/Ring.antt =====
-- Fixed slots used as a ring: what lies in the `count` slots from `idx` on, oldest first.
use Prim.Native.Nat.{ℕ, zero, suc, ◌+◌, ◌-◌, ◌%◌, ◌≤◌, ◌<◌}
use mathlib.Core.Path.{◌≡◌, refl, sym, ap, ap₂, ◌∙◌}
use mathlib.Core.Logic.{◌≢◌}
use mathlib.Core.List.{List, [], ◌∷◌, ◌++◌}
use native.Mathlib.Omega.{arith}
use native.Mathlib.Nat.{mod-add-mod}
use ryu_ldn_nx.Prelude.Lists.{length, get_or, set, drop, get_or-set_self, get_or-set_ne}

-- `d` stands for what a read outside the slots would give.
module _ {ℓ} {A : Type ℓ} (d : A) (size : ℕ) where
  abbrev pub window : List A → ℕ → ℕ → List A
  window slots idx zero = []
  window slots idx (suc count) = get_or slots idx d ∷ window slots ((idx + 1) % size) count

next_slot :
    (size idx k : ℕ)
    → idx < size
    → suc k < size
    → ((idx + 1) % size + k) % size ≡ (idx + suc k) % size
next_slot size idx k h l = mod-add-mod (idx + 1) size k ∙ ap (λ (n : ℕ). n % size) (omega arith)

other_slot : (size idx k : ℕ) → idx < size → 0 < k → k < size → (idx + k) % size ≢ idx
other_slot size idx k h p l e = grind arith

module _ {ℓ} {A : Type ℓ} (d : A) (size : ℕ) where
  -- A write behind the window does not show in it.
  pub window-set_behind :
      (slots : List A) (idx count k : ℕ) (v : A)
      → idx < size
      → count ≤ k
      → k < size
      → window d size (set slots ((idx + k) % size) v) idx count ≡ window d size slots idx count
  window-set_behind slots idx zero k v h l m = refl
  window-set_behind slots idx (suc count) zero v h l m = absurd (omega arith)
  window-set_behind slots idx (suc count) (suc k) v h l m =
      ap₂ ◌∷◌
        (get_or-set_ne slots ((idx + suc k) % size) idx v d
          (other_slot size idx (suc k) h (omega arith) m))
        (ap (λ j. window d size (set slots j v) ((idx + 1) % size) count)
            (sym (next_slot size idx k h m))
          ∙ window-set_behind slots ((idx + 1) % size) count k v (omega arith) (omega arith)
              (omega arith))

  pub window-snoc :
      (slots : List A) (idx count : ℕ)
      → idx < size
      → count < size
      → window d size slots idx (suc count)
        ≡ window d size slots idx count ++ (get_or slots ((idx + count) % size) d ∷ [])
  window-snoc slots idx zero h l = ap (λ j. get_or slots j d ∷ []) here
    where
      here : idx ≡ (idx + 0) % size
      here = grind arith
  window-snoc slots idx (suc count) h l = ap (◌∷◌ (get_or slots idx d)) (
      window-snoc slots ((idx + 1) % size) count (omega arith) (omega arith)
      ∙ ap (λ j. window d size slots ((idx + 1) % size) count ++ (get_or slots j d ∷ []))
          (next_slot size idx count h l))

  -- A write into the next free slot is a new last entry.
  pub window-push :
      (slots : List A) (idx count : ℕ) (v : A)
      → length slots ≡ size
      → idx < size
      → count < size
      → window d size (set slots ((idx + count) % size) v) idx (suc count)
        ≡ window d size slots idx count ++ (v ∷ [])
  window-push slots idx count v full h l =
      window-snoc (set slots ((idx + count) % size) v) idx count h l
      ∙ ap₂ (λ xs x. xs ++ (x ∷ [])) (window-set_behind slots idx count count v h (omega arith) l)
          (get_or-set_self slots ((idx + count) % size) v d (omega arith))

  pub length-window :
      (slots : List A) (idx count : ℕ) → length (window d size slots idx count) ≡ count
  length-window slots idx zero = refl
  length-window slots idx (suc count) = ap suc (length-window slots ((idx + 1) % size) count)

  -- One step on, the window has lost its first entry.
  pub window-next :
      (slots : List A) (idx count : ℕ)
      → window d size slots ((idx + 1) % size) (count - 1) ≡ drop 1 (window d size slots idx count)
  window-next slots idx zero = refl
  window-next slots idx (suc count) =
      let e : suc count - 1 ≡ count = omega arith in ap (window d size slots ((idx + 1) % size)) e
