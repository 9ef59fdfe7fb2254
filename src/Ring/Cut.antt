-- ===== src/Ring/Cut.antt =====
-- A reset in the middle of a call: the stores of src/ring_buffer.rs are cut off after any of them.
use defmt_persist.Common.{ℕ, zero, suc, List, [], ◌∷◌, ◌++◌, take}
use defmt_persist.Ring.{RingBuffer, Store, apply, run}

-- A predicate holds before, between and after the stores.
abbrev pub Throughout : (RingBuffer → Type 0) → RingBuffer → List Store → Type 0
Throughout P r [] = P r
Throughout P r (s ∷ ss) = P r × Throughout P (apply r s) ss

module _ (P : RingBuffer → Type 0) where
  pub Throughout-take :
      (k : ℕ) (r : RingBuffer) (ss : List Store) → Throughout P r ss → P (run r (take k ss))
  Throughout-take zero r [] h = h
  Throughout-take zero r (s ∷ ss) h = h.0
  Throughout-take (suc k) r [] h = h
  Throughout-take (suc k) r (s ∷ ss) h = Throughout-take k (apply r s) ss h.1

  pub Throughout-end : (r : RingBuffer) (ss : List Store) → Throughout P r ss → P (run r ss)
  Throughout-end r [] h = h
  Throughout-end r (s ∷ ss) h = Throughout-end (apply r s) ss h.1

  pub Throughout-append :
      (r : RingBuffer) (xs ys : List Store)
      → Throughout P r xs
      → Throughout P (run r xs) ys
      → Throughout P r (xs ++ ys)
  Throughout-append r [] ys hx hy = hy
  Throughout-append r (x ∷ xs) ys hx hy = (hx.0, Throughout-append (apply r x) xs ys hx.1 hy)

module _ (P Q : RingBuffer → Type 0) (h : (r : RingBuffer) → P r → Q r) where
  pub Throughout-map : (r : RingBuffer) (ss : List Store) → Throughout P r ss → Throughout Q r ss
  Throughout-map r [] p = h r p
  Throughout-map r (s ∷ ss) p = (h r p.0, Throughout-map (apply r s) ss p.1)
