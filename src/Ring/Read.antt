-- ===== src/Ring/Read.antt =====
-- `Consumer` and `GrantR` of src/ring_buffer.rs against the queue.
use defmt_persist.Common.{
  ℕ, ◌+◌, ◌-◌, ◌≡◌, ◌↔◌, refl, sym, ap, ap₂, ◌∙◌, [], ◌++◌, true, if◌then◌else◌, ltb, Bool-cases,
  ltb→lt, inl, inr, length, drop, length-take, length-drop, append-nil, min, arith,
}
use defmt_persist.Ring.{RingBuffer}
use defmt_persist.Ring.Consumer.{is_empty, slice, read, bufs, new_read}
use defmt_persist.Ring.Window.{
  ahead, window, size, contents, length-window, window-append, window-slice,
}
use defmt_persist.Ring.Bounds.{IsValid}

module _ (r : RingBuffer) (v : IsValid r) where
  abbrev len : ℕ
  len = length r.buf

  -- The lengths of the two slices.
  abbrev pub len1 : ℕ
  len1 = if ltb r.write r.read then len - r.read else r.write - r.read

  abbrev pub len2 : ℕ
  len2 = if ltb r.write r.read then r.write else 0

  slices : ((read r).slice1 ≡ slice r.buf r.read len1) × ((read r).slice2 ≡ slice r.buf 0 len2)
  unfolding read
  slices = (ap (slice r.buf r.read) (ground (arith, v.read_in, v.write_in, v.small)), refl)

  lengths : (length (read r).slice1 ≡ len1) × (length (read r).slice2 ≡ len2)
  lengths = (
    ap length slices.0
        ∙ ground (
          arith,
          length-take len1 (drop r.read r.buf),
          length-drop r.read r.buf,
          v.read_in,
          v.write_in,
        ),
    ap length slices.1 ∙ ground (arith, length-take len2 r.buf, v.write_in),
  )

  original_read-read : (read r).original_read ≡ r.read
  unfolding read
  original_read-read = refl

  len1-add-len2 : len1 + len2 ≡ size r
  len1-add-len2 = ground arith

  whole : window len r.buf r.read (size r) ≡ slice r.buf r.read len1 ++ slice r.buf 0 len2
  whole = elim (Bool-cases (ltb r.write r.read)) [
    | inl crosses ↦ rw crosses (
        window-append len r.buf r.read (len - r.read) r.write _ v.read_in
          (omega (arith, ltb→lt r.write r.read crosses, v.read_in)) refl
        ∙ ap₂ ◌++◌ (window-slice len r.buf r.read (len - r.read) refl (omega (arith, v.read_in))) (
            ap (λ j. window len r.buf j r.write) at_end
            ∙ window-slice len r.buf 0 r.write refl (omega (arith, v.write_in))))
    | inr straight ↦ rw straight (
        window-slice len r.buf r.read (r.write - r.read) refl (omega (arith, v.read_in, v.write_in))
        ∙ sym (append-nil (slice r.buf r.read (r.write - r.read))))
  ]
    where
      at_end : ahead len r.read (len - r.read) ≡ 0
      at_end = ground (arith, v.read_in)

  size-zero : size r ≡ 0 → contents r ≡ []
  size-zero e = ap (window len r.buf r.read) e

  -- The two slices of a grant on a valid ring are, one after the other, all that the ring holds.
  pub bufs-read : (bufs (read r)).0 ++ (bufs (read r)).1 ≡ contents r
  unfolding bufs
  bufs-read = ap₂ ◌++◌ slices.0 slices.1 ∙ sym whole

  -- is_empty finds a valid ring empty exactly when it holds no byte.
  pub is_empty_iff : (is_empty r ≡ true) ↔ (contents r ≡ [])
  unfolding is_empty
  is_empty_iff = (
    λ e. size-zero (ground (arith, v.read_in)),
    λ e.
        ground (arith, ap length e, length-window len r.buf r.read (size r), v.read_in, v.write_in),
  )

  -- The index that `release` stores is the read index, moved on by the bytes used.
  pub new_read_lem : (used : ℕ) → new_read len (read r) used ≡ ahead len r.read (min used (size r))
  unfolding new_read
  new_read_lem used =
      ground (arith, lengths, original_read-read, len1-add-len2, v.read_in, v.write_in, v.small)
