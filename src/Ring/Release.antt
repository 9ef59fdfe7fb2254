-- ===== src/Ring/Release.antt =====
-- `GrantR::release` and `release_all` of src/ring_buffer.rs against the queue.
use defmt_persist.Common.{
  ℕ, ◌-◌, ◌<◌, ◌≡◌, refl, sym, ap, ap₂, ◌∙◌, List, ◌∷◌, [], ◌∷◌, Bool, true, false, length, drop,
  drop-append_length, drop-min, drop_all, usize_max, min, arith,
}
use defmt_persist.Ring.{RingBuffer, set_read, run, flush_ecc}
use defmt_persist.Ring.Consumer.{read, release_stores, release, release_all}
use defmt_persist.Ring.Window.{ahead, window, size, contents, length-window, window-append}
use defmt_persist.Ring.Bounds.{IsValid, distance-lt}
use defmt_persist.Ring.Queue
use defmt_persist.Ring.Read.{new_read_lem}

contents-flush : (ecc : Bool) (r : RingBuffer) → contents (run r (flush_ecc ecc)) ≡ contents r
contents-flush true r = refl
contents-flush false r = refl

IsValid-flush : (ecc : Bool) (r : RingBuffer) → IsValid r → IsValid (run r (flush_ecc ecc))
IsValid-flush true r v = omega arith
IsValid-flush false r v = omega arith

module _ (ecc : Bool) (r : RingBuffer) (v : IsValid r) (used : ℕ) where
  abbrev pub len : ℕ
  len = length r.buf

  abbrev pub taken : ℕ
  taken = min used (size r)

  abbrev pub moved : RingBuffer
  moved = record r { read = ahead len r.read taken }

  size-lt : size r < len
  size-lt = distance-lt len r.read r.write v.read_in v.write_in v.small

  pub moved-IsValid : IsValid moved
  moved-IsValid = ground (arith, v.read_in, v.write_in, v.small, size-lt)

  size-moved : size moved ≡ size r - taken
  size-moved = ground (arith, v.read_in, v.write_in, size-lt)

  pub release_stores_lem :
      release_stores ecc r (read r) used ≡ set_read (ahead len r.read taken) ∷ flush_ecc ecc
  unfolding release_stores
  release_stores_lem =
      ap (λ i. set_read i ∷ flush_ecc ecc)
        (ground (arith, new_read_lem r v used, moved-IsValid.read_in, v.small))

  pub release_lem : release ecc r (read r) used ≡ run moved (flush_ecc ecc)
  unfolding release
  release_lem = ap (run r) release_stores_lem

  pub contents-moved : contents moved ≡ Queue.release (contents r) used
  contents-moved =
      ap (window len r.buf moved.read) size-moved
      ∙ sym (
          sym (drop-min used (contents r))
          ∙ (ap (λ k. drop (min used k) (contents r)) (length-window len r.buf r.read (size r))
              ∙ dropped))
    where
      first : List ℕ
      first = window len r.buf r.read taken

      rest : List ℕ
      rest = window len r.buf moved.read (size r - taken)

      dropped : drop taken (contents r) ≡ rest
      dropped =
          ap₂ drop (sym (length-window len r.buf r.read taken)) (
            window-append len r.buf r.read taken (size r - taken) (size r) v.read_in
              (omega (arith, size-lt)) (omega arith))
          ∙ drop-append_length first rest

  -- Releasing a grant on a valid ring drops as many of the oldest bytes as are asked for, and all
  -- where fewer are there.
  pub contents-release : contents (release ecc r (read r) used) ≡ Queue.release (contents r) used
  contents-release = rw release_lem (contents-flush ecc moved ∙ contents-moved)

  -- A release keeps both indices of a valid ring in its buffer.
  pub release-IsValid : IsValid (release ecc r (read r) used)
  release-IsValid = rw release_lem (IsValid-flush ecc moved moved-IsValid)

-- release_all on a grant of a valid ring leaves it empty.
pub contents-release_all :
    (ecc : Bool) (r : RingBuffer) → IsValid r → contents (release_all ecc r (read r)) ≡ []
unfolding release_all
contents-release_all ecc r v =
    contents-release ecc r v usize_max
    ∙ drop_all usize_max (contents r) (
        omega (
          arith,
          length-window (length r.buf) r.buf r.read (size r),
          v.small,
          distance-lt (length r.buf) r.read r.write v.read_in v.write_in v.small,
        ))
