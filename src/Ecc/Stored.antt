-- ===== src/Ecc/Stored.antt =====
-- The stores of a write and of a release of src/ring_buffer.rs on the RAM of Ecc.antt.
use defmt_persist.Common.{
  ℕ, zero, suc, ◌+◌, ◌≡◌, refl, sym, ap, ◌∙◌, ◌⊎◌, inl, inr, Bool, true, List, [], ◌∷◌, ◌++◌,
  append_assoc, All, length, take, drop, min, ◌==◌, ltb, Bool-cases, as_u32, add_usize, sub_usize,
  ◌%◌,
}
use defmt_persist.Ring.{RingBuffer, Store, set_flush, set_read, set_write, run, run-append}
use defmt_persist.Ring.Producer.{available, copy, copy_stores, write_stores}
use defmt_persist.Ring.Consumer.{GrantR, release_stores, new_read}
use defmt_persist.Layout.{Target}
use defmt_persist.Ecc.{Ram, visible, size, feed}
use defmt_persist.Ecc.Cache.{
  IsWordSize, HasFlush, IsFlush, IsByte, IsSettled, All-snoc, take-length_append, step-IsSettled,
  visible-step, feed-OfOneKind, feed-append, committed_cut,
}
use defmt_persist.Ecc.Settled.{
  flushes_lem, set_write-IsIndex, set_read-IsIndex, index_flush, index_cut,
}

take_of_append :
    {A : Type 0} (xs ys : List A) (i : ℕ)
    → ((j : ℕ) × (take i (xs ++ ys) ≡ take j xs))
      ⊎ ((j : ℕ) × (take i (xs ++ ys) ≡ xs ++ take j ys))
take_of_append xs ys zero = inl (0, refl)
take_of_append [] ys (suc i) = inr (suc i, refl)
take_of_append (x ∷ xs) ys (suc i) = elim (take_of_append xs ys i) [
  | inl (j, e) ↦ inl (suc j, ap (λ l. x ∷ l) e)
  | inr (j, e) ↦ inr (j, ap (λ l. x ∷ l) e)
]

take_of_take : {A : Type 0} (xs : List A) (i k : ℕ) → (j : ℕ) × (take i (take k xs) ≡ take j xs)
take_of_take xs zero k = (0, refl)
take_of_take xs (suc i) zero = (0, refl)
take_of_take [] (suc i) (suc k) = (0, refl)
take_of_take (x ∷ xs) (suc i) (suc k) =
    let (j, e) = take_of_take xs i k in (suc j, ap (λ l. x ∷ l) e)

take_more : {A : Type 0} (xs ys : List A) (i : ℕ) → (j : ℕ) × (take i xs ≡ take j (xs ++ ys))
take_more xs ys zero = (0, refl)
take_more [] ys (suc i) = (0, refl)
take_more (x ∷ xs) ys (suc i) = let (j, e) = take_more xs ys i in (suc j, ap (λ l. x ∷ l) e)

All-take : (P : Store → Type 0) (ss : List Store) (j : ℕ) → All P ss → All P (take j ss)
All-take P ss zero h = tt
All-take P [] (suc j) h = tt
All-take P (s ∷ ss) (suc j) (h, hs) = (h, All-take P ss j hs)

All-append : (P : Store → Type 0) (xs ys : List Store) → All P xs → All P ys → All P (xs ++ ys)
All-append P [] ys hx hy = hy
All-append P (x ∷ xs) ys (h, hx) hy = (h, All-append P xs ys hx hy)

copy-IsByte : (offset : ℕ) (bytes : List ℕ) → All IsByte (copy offset bytes)
unfolding copy
copy-IsByte offset [] = tt
copy-IsByte offset (b ∷ bs) = ((offset, b, refl), copy-IsByte (offset + 1) bs)

copy_stores-IsByte :
    (buf_len write len : ℕ) (bytes : List ℕ) → All IsByte (copy_stores buf_len write len bytes)
unfolding copy_stores
copy_stores-IsByte buf_len write len bytes =
    let pivot = sub_usize buf_len write in
    elim (Bool-cases (ltb buf_len (add_usize write len))) [
      | inl wraps ↦ rw wraps (
          All-append IsByte (copy write (take pivot bytes))
            (copy 0 (take (sub_usize len pivot) (drop pivot bytes)))
            (copy-IsByte write (take pivot bytes))
            (copy-IsByte 0 (take (sub_usize len pivot) (drop pivot bytes))))
      | inr fits ↦ rw fits (copy-IsByte write (take len bytes))
    ]

-- A write stores nothing, or bytes, and last of all the index between two flushes.
write_stores-shape :
    (r : RingBuffer) (bytes : List ℕ)
    → (write_stores true r bytes ≡ [])
      ⊎ ((copies : List Store) × (v : ℕ) × All IsByte copies
          × (write_stores true r bytes
              ≡ (copies ++ set_flush ∷ []) ++ set_write v ∷ set_flush ∷ []))
unfolding write_stores
write_stores-shape r bytes =
    let len = min (length bytes) (available (length r.buf) r.read r.write) in
    let copies = copy_stores (length r.buf) r.write len bytes in
    let v = as_u32 (add_usize r.write len % length r.buf) in
    elim (Bool-cases (len == 0)) [
      | inl none_fit ↦ inl (rw none_fit refl)
      | inr some_fit ↦ inr (
        copies,
        v,
        copy_stores-IsByte (length r.buf) r.write len bytes,
        rw some_fit (sym (append_assoc copies (set_flush ∷ []) (set_write v ∷ set_flush ∷ []))),
      )
    ]

byte_size_lem : (ss : List Store) → All IsByte ss → All (λ s. size s ≡ 1) ss
byte_size_lem [] bytes = tt
byte_size_lem (s ∷ ss) ((i, b, e), bytes) = (ap size e, byte_size_lem ss bytes)

module _ (target : Target) (word_size : ℕ) (immediate : Ram → Store → Bool)
    (h : IsWordSize word_size) (room : HasFlush target) (m : Ram) (settled : IsSettled m) where
  abbrev fed : List Store → Ram
  fed = feed target word_size immediate m

  -- A reset leaves what some of the first stores make, but for the byte that flushes.
  abbrev Left : List Store → List Store → Type 0
  Left fed_stores ss =
      (j : ℕ) × (x : ℕ) × ((fed fed_stores).committed
        ≡ record (run (visible m) (take j ss)) { ecc_flush = x })

  bytes_left : (ss : List Store) (k : ℕ) → All (λ s. size s ≡ 1) ss → Left (take k ss) ss
  bytes_left ss k ones =
      let (i, e) =
        committed_cut target word_size immediate h room m (take k ss)
          (All-take (λ s. size s ≡ 1) ss k ones) in
      elim (take_of_append m.cached (take k ss) i) [
        | inl (j, few) ↦
            let (x, f) =
              flushes_lem m.committed (take j m.cached) (All-take IsFlush m.cached j settled) in
            let (y, g) = flushes_lem m.committed m.cached settled in
            (
              0,
              x,
              e
                  ∙ (ap (run m.committed) few
                      ∙ (f ∙ ap {A = RingBuffer} (λ r. record r { ecc_flush = x }) (sym g))),
            )
        | inr (j, more) ↦
            let (j', t) = take_of_take ss j k in
            (
              j',
              (run (visible m) (take j' ss)).ecc_flush,
              e
                  ∙ (ap (run m.committed) more
                      ∙ (run-append m.committed m.cached (take j (take k ss))
                          ∙ ap (run (visible m)) t)),
            )
      ]

  module _ (copies : List Store) (bytes : All IsByte copies) where
    abbrev flushed : List Store
    flushed = copies ++ set_flush ∷ []

    flushed_lem : IsSettled (fed flushed) × (visible (fed flushed) ≡ run (visible m) flushed)
    unfolding feed
    flushed_lem =
        let (kind, seen) =
          feed-OfOneKind target word_size immediate h room m copies bytes (inl settled) in
        let m1 : Ram = fed copies in
        rw (feed-append target word_size immediate h room m copies (set_flush ∷ [])) (
          step-IsSettled target word_size immediate h room m1 kind,
          visible-step target word_size immediate h room m1 set_flush refl
              ∙ (ap (λ r. run r (set_flush ∷ [])) seen
                  ∙ sym (run-append (visible m) copies (set_flush ∷ []))),
        )

    module _ (v : ℕ) where
      abbrev index : List Store
      index = set_write v ∷ set_flush ∷ []

      whole_left : (k : ℕ) → Left (take k (flushed ++ index)) (flushed ++ index)
      whole_left k = elim (take_of_append flushed index k) [
        | inl (j, few) ↦
            let (i, x, e) =
              bytes_left flushed j
                (All-snoc (λ s. size s ≡ 1) copies set_flush (byte_size_lem copies bytes) refl) in
            let (i', t) = take_more flushed index i in
            (
              i',
              x,
              ap (λ ss. (fed ss).committed) few
                  ∙ (e ∙ ap (λ ss. record (run (visible m) ss) { ecc_flush = x }) t),
            )
        | inr (j, more) ↦
            let (settled1, seen) = flushed_lem in
            let (i, x, e) =
              index_cut target word_size immediate h room (fed flushed) settled1 (set_write v)
                (set_write-IsIndex target word_size immediate h v) j in
            (
              length flushed + i,
              x,
              ap (λ ss. (fed ss).committed) more
                  ∙ (ap (λ m. m.committed)
                        (feed-append target word_size immediate h room m flushed (take j index))
                      ∙ (e
                          ∙ ap {A = RingBuffer} (λ r. record r { ecc_flush = x })
                              (ap (λ r. run r (take i index)) seen
                                ∙ (sym (run-append (visible m) flushed (take i index))
                                    ∙ ap (run (visible m))
                                        (sym (take-length_append flushed index i)))))),
            )
      ]

      whole_settled :
          IsSettled (fed (flushed ++ index))
          × (visible (fed (flushed ++ index)) ≡ run (visible m) (flushed ++ index))
      whole_settled =
          let (settled1, seen) = flushed_lem in
          let (settled2, seen2) =
            index_flush target word_size immediate h room (fed flushed) settled1 (set_write v)
              (set_write-IsIndex target word_size immediate h v) in
          rw (feed-append target word_size immediate h room m flushed index) (
            settled2,
            seen2 ∙ (ap (λ r. run r index) seen ∙ sym (run-append (visible m) flushed index)),
          )

  pub write_left :
      (bytes : List ℕ) (k : ℕ) → let ss = write_stores true (visible m) bytes in Left (take k ss) ss
  write_left bytes k = elim (write_stores-shape (visible m) bytes) [
    | inl none_fit ↦ rw none_fit (bytes_left [] k tt)
    | inr (copies, v, are_bytes, some_fit) ↦ rw some_fit (whole_left copies are_bytes v k)
  ]

  pub write_settled :
      (bytes : List ℕ)
      → let ss = write_stores true (visible m) bytes in
        IsSettled (fed ss) × (visible (fed ss) ≡ run (visible m) ss)
  unfolding feed
  write_settled bytes = elim (write_stores-shape (visible m) bytes) [
    | inl none_fit ↦ rw none_fit (settled, refl)
    | inr (copies, v, are_bytes, some_fit) ↦ rw some_fit (whole_settled copies are_bytes v)
  ]

  pub release_left :
      (g : GrantR) (used k : ℕ)
      → let ss = release_stores true (visible m) g used in Left (take k ss) ss
  unfolding release_stores
  release_left g used k =
      let v = as_u32 (new_read (length (visible m).buf) g used) in
      index_cut target word_size immediate h room m settled (set_read v)
        (set_read-IsIndex target word_size immediate h v) k

  pub release_settled :
      (g : GrantR) (used : ℕ)
      → let ss = release_stores true (visible m) g used in
        IsSettled (fed ss) × (visible (fed ss) ≡ run (visible m) ss)
  unfolding release_stores
  release_settled g used =
      let v = as_u32 (new_read (length (visible m).buf) g used) in
      index_flush target word_size immediate h room m settled (set_read v)
        (set_read-IsIndex target word_size immediate h v)
