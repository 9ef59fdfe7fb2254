-- ===== src/Ring/Write.antt =====
-- `Producer::write` of src/ring_buffer.rs against the queue: what it stores, and what the ring
-- holds afterwards.
use defmt_persist.Common.{
  ℕ, ◌+◌, ◌-◌, ◌<◌, ◌≡◌, refl, sym, ap, ap₂, ◌∙◌, List, [], ◌∷◌, ◌++◌, Bool, true, false,
  if◌then◌else◌, ==→eq, ==→ne, ◌==◌, Bool-cases, inl, inr, ◌⊎◌, ◌≢◌, length, take, length-take,
  take-min, min, arith, append-nil, as_u32, add_usize, ◌%◌,
}
use defmt_persist.Ring.{RingBuffer, Store, set_write, run, run-append, flush_ecc}
use defmt_persist.Ring.Producer.{available, copy_stores, write_stores, write}
use defmt_persist.Ring.Window.{ahead, distance, window, size, contents, length-window}
use defmt_persist.Ring.Bounds.{IsValid, available_lem, stored_index, ahead-distance, distance-lt}
use defmt_persist.Ring.Queue
use defmt_persist.Ring.Copy.{
  ring_copy, fill, run-ring_copy, length-fill, window-fill, copy_stores-ring_copy,
}

-- How many bytes a write takes.
abbrev pub accepted : RingBuffer → List ℕ → ℕ
accepted r bytes = min (length bytes) (length r.buf - 1 - size r)

-- The stores that make the copied bytes part of the ring: the first flush comes before the index.
abbrev pub commit : Bool → ℕ → List Store
commit ecc w = flush_ecc ecc ++ set_write w ∷ flush_ecc ecc

-- The stores of the bytes that a write takes.
abbrev pub copied : RingBuffer → List ℕ → List Store
copied r bytes = ring_copy (length r.buf) r.write (take (accepted r bytes) bytes)

module _ (ecc : Bool) (r : RingBuffer) (bytes : List ℕ) (v : IsValid r) where
  -- `write` stores nothing where it takes no byte; else it copies, and then moves the index.
  pub write_stores_lem : write_stores ecc r bytes ≡ (
      if accepted r bytes == 0
      then []
      else copied r bytes ++ commit ecc (ahead (length r.buf) r.write (accepted r bytes)))
  unfolding write_stores
  write_stores_lem = ap stores_of taken ∙ elim (Bool-cases (n == 0)) [
    | inl none_taken ↦ rw none_taken
    | inr some_taken ↦ rw some_taken (
        ap₂ (λ cs w. cs ++ commit ecc w)
          (copy_stores-ring_copy len r.write n bytes v.write_in fits (omega arith) v.small)
          (stored_index len r.write n v.write_in fits v.small))
  ]
    where
      len : ℕ
      len = length r.buf

      n : ℕ
      n = accepted r bytes

      stores_of : ℕ → List Store
      stores_of m =
          if m == 0
          then []
          else copy_stores len r.write m bytes ++ commit ecc (as_u32 (add_usize r.write m % len))

      taken : min (length bytes) (available len r.read r.write) ≡ n
      taken =
          ap (min (length bytes)) (available_lem len r.read r.write v.read_in v.write_in v.small)

      fits : n < len
      fits = omega (arith, v.read_in)

contents-commit :
    (ecc : Bool) (r : RingBuffer) (w : ℕ)
    → contents (run r (commit ecc w)) ≡ contents (record r { write = w })
contents-commit true r w = refl
contents-commit false r w = refl

IsValid-commit :
    (ecc : Bool) (r : RingBuffer) (w : ℕ)
    → IsValid (record r { write = w })
    → IsValid (run r (commit ecc w))
IsValid-commit true r w v = omega arith
IsValid-commit false r w v = omega arith

commit_frame :
    (ecc : Bool) (r : RingBuffer) (w : ℕ)
    → ((run r (commit ecc w)).header ≡ r.header)
      × ((run r (commit ecc w)).read ≡ r.read)
      × ((run r (commit ecc w)).buf ≡ r.buf)
commit_frame true r w = (refl, refl, refl)
commit_frame false r w = (refl, refl, refl)

module _ (ecc : Bool) (r : RingBuffer) (bytes : List ℕ) (v : IsValid r) where
  abbrev pub len : ℕ
  len = length r.buf

  abbrev pub n : ℕ
  n = accepted r bytes

  -- The ring once the bytes are copied, before the index moves.
  abbrev pub copied_ring : RingBuffer
  copied_ring = record r { buf = fill len r.buf r.write (take n bytes) }

  pub write_cases :
      (n ≡ 0) × (write ecc r bytes ≡ r)
      ⊎ (n ≢ 0) × (write ecc r bytes ≡ run copied_ring (commit ecc (ahead len r.write n)))
  unfolding write
  write_cases = elim (Bool-cases (n == 0)) [
    | inl none_taken ↦ inl (==→eq n 0 none_taken, rw (write_stores_lem ecc r bytes v, none_taken))
    | inr some_taken ↦
        inr (==→ne n 0 some_taken, rw (write_stores_lem ecc r bytes v, some_taken) ran)
  ]
    where
      ran :
          run r (copied r bytes ++ commit ecc (ahead len r.write n))
          ≡ run copied_ring (commit ecc (ahead len r.write n))
      ran =
          run-append r (copied r bytes) (commit ecc (ahead len r.write n))
          ∙ ap (λ s. run s (commit ecc (ahead len r.write n)))
              (run-ring_copy len r r.write (take n bytes))

  pub n-lt : n < len - size r
  n-lt = omega (arith, v.read_in, distance-lt len r.read r.write v.read_in v.write_in v.small)

  pub length-copied_ring : length copied_ring.buf ≡ len
  length-copied_ring = length-fill len r.buf r.write (take n bytes)

  pub moved-lt : ahead len r.write n < len
  moved-lt = ground (arith, n-lt, v.write_in)

  moved-distance : distance len r.read (ahead len r.write n) ≡ size r + n
  moved-distance = ground (arith, n-lt, v.read_in, v.write_in)

  -- A write keeps both indices of a valid ring in its buffer.
  pub write-IsValid : IsValid (write ecc r bytes)
  write-IsValid = elim write_cases [
    | inl (_, e) ↦ rw e v
    | inr (_, e) ↦ rw e (
        IsValid-commit ecc copied_ring (ahead len r.write n)
          (omega (arith, length-copied_ring, moved-lt, v.read_in, v.small)))
  ]

  -- A write leaves the header, the read index and the size of the buffer alone.
  pub write_frame :
      ((write ecc r bytes).header ≡ r.header)
      × ((write ecc r bytes).read ≡ r.read)
      × (length (write ecc r bytes).buf ≡ len)
  write_frame = elim write_cases [
    | inl (_, e) ↦ rw e (refl, refl, refl)
    | inr (_, e) ↦ rw e (
        let f = commit_frame ecc copied_ring (ahead len r.write n) in
        (f.0, f.1, ap length f.2 ∙ length-copied_ring))
  ]

  pub contents-moved :
      contents (record copied_ring { write = ahead len r.write n }) ≡ contents r ++ take n bytes
  contents-moved =
      ap (λ l. window l copied_ring.buf r.read (distance l r.read (ahead len r.write n)))
        length-copied_ring
      ∙ (ap (λ k. window len copied_ring.buf r.read k) moved-distance
          ∙ (ap (λ j. window len (fill len r.buf j (take n bytes)) r.read (size r + n))
                (sym (ahead-distance len r.read r.write v.read_in v.write_in v.small))
              ∙ window-fill len r.buf r.read (size r) (size r + n) (take n bytes) (omega arith)
                  v.read_in (omega (arith, length-take n bytes)) (omega (arith, n-lt, v.read_in))))

  pub taken_lem : take n bytes ≡ take (len - 1 - length (contents r)) bytes
  taken_lem =
      take-min (len - 1 - size r) bytes
      ∙ ap (λ k. take (len - 1 - k) bytes) (sym (length-window len r.buf r.read (size r)))

  -- A write to a valid ring appends to the contents as many bytes from the front as fit, in order,
  -- and discards the rest.
  pub contents-write :
      contents (write ecc r bytes) ≡ Queue.write (length r.buf - 1) (contents r) bytes
  contents-write = elim write_cases [
    | inl (e0, e) ↦ rw e (
        sym (append-nil (contents r))
        ∙ ap (λ t. contents r ++ t) (ap (λ k. take k bytes) (sym e0) ∙ taken_lem))
    | inr (_, e) ↦ rw e (
        contents-commit ecc copied_ring (ahead len r.write n)
        ∙ (contents-moved ∙ ap (λ t. contents r ++ t) taken_lem))
  ]
