-- ===== src/Ring/Safety.antt =====
-- The memory safety that src/ring_buffer.rs argues for at its `unsafe` blocks: the producer stores
-- only into its own part of the buffer, and the slices of a grant lie in the buffer.
use defmt_persist.Common.{
  ℕ, suc, ◌+◌, ◌≤◌, ◌<◌, ◌≢◌, sym, subst, Bool, true, false, List, [], ◌∷◌, ◌++◌, ◌==◌, length,
  take, length-take, All, Bool-cases, inl, inr, arith,
}
use defmt_persist.Ring.{RingBuffer, Store, set_header, set_read, set_write, set_flush, set_byte}
use defmt_persist.Ring.Producer.{write_stores}
use defmt_persist.Ring.Window.{ahead, size}
use defmt_persist.Ring.Bounds.{IsValid, ahead-distance}
use defmt_persist.Ring.Copy.{ring_copy, next-ahead}
use defmt_persist.Ring.Write.{accepted, copied, commit, write_stores_lem, n-lt}

-- A store of the producer: a byte inside the buffer, at none of the places that the consumer owns,
-- or the write index, or the flush.
abbrev pub IsProducers : RingBuffer → Store → Type 0
IsProducers r (set_header _) = ⊥
IsProducers r (set_read _) = ⊥
IsProducers r (set_write w) = w < length r.buf
IsProducers r set_flush = Unit
IsProducers r (set_byte i _) =
    (i < length r.buf) × ((k : ℕ) → k < size r → ahead (length r.buf) r.read k ≢ i)

All-append : (P : Store → Type 0) (xs ys : List Store) → All P xs → All P ys → All P (xs ++ ys)
All-append P [] ys hx hy = hy
All-append P (x ∷ xs) ys hx hy = (hx.0, All-append P xs ys hx.1 hy)

module _ (r : RingBuffer) (v : IsValid r) where
  ahead-apart :
      (m k : ℕ)
      → k < m
      → m < length r.buf
      → ahead (length r.buf) r.read k ≢ ahead (length r.buf) r.read m
  ahead-apart m k hk hm = ground (arith, v.read_in)

  ring_copy-IsProducers :
      (m : ℕ) (bs : List ℕ)
      → size r ≤ m
      → m + length bs ≤ length r.buf
      → All (IsProducers r) (ring_copy (length r.buf) (ahead (length r.buf) r.read m) bs)
  ring_copy-IsProducers m [] hm hb = tt
  ring_copy-IsProducers m (b ∷ bs) hm hb = (
    (ground (arith, v.read_in), λ k hk. ahead-apart m k (omega arith) (omega arith)),
    subst (λ j. All (IsProducers r) (ring_copy (length r.buf) j bs))
        (sym (next-ahead (length r.buf) r.read m v.read_in (omega arith)))
        (ring_copy-IsProducers (suc m) bs (omega arith) (omega arith)),
  )

commit-IsProducers :
    (ecc : Bool) (r : RingBuffer) (w : ℕ) → w < length r.buf → All (IsProducers r) (commit ecc w)
commit-IsProducers true r w h = (tt, (h, (tt, tt)))
commit-IsProducers false r w h = (h, tt)

-- Every byte that a write to a valid ring stores goes inside the buffer and to no place that the
-- consumer owns, and the index that it stores lies in the buffer.
pub write_stores-IsProducers :
    (ecc : Bool) (r : RingBuffer) (bytes : List ℕ)
    → IsValid r
    → All (IsProducers r) (write_stores ecc r bytes)
write_stores-IsProducers ecc r bytes v = elim (Bool-cases (accepted r bytes == 0)) [
  | inl none_taken ↦ rw (write_stores_lem ecc r bytes v, none_taken) tt
  | inr some_taken ↦
      rw (write_stores_lem ecc r bytes v, some_taken)
        (All-append (IsProducers r) (copied r bytes)
          (commit ecc (ahead (length r.buf) r.write (accepted r bytes)))
          (subst
            (λ j. All (IsProducers r) (ring_copy (length r.buf) j (take (accepted r bytes) bytes)))
            (ahead-distance (length r.buf) r.read r.write v.read_in v.write_in v.small)
            (ring_copy-IsProducers r v (size r) (take (accepted r bytes) bytes) (omega arith)
              (omega (arith, length-take (accepted r bytes) bytes, n-lt ecc r bytes v, v.read_in))))
          (commit-IsProducers ecc r _ (ground (arith, n-lt ecc r bytes v, v.write_in))))
]
