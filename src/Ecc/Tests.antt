-- ===== src/Ecc/Tests.antt =====
-- Resets with a write cache of words of 32 and of 64 bits at a concrete ring of src/ring_buffer.rs.
use defmt_persist.Common.{◌≡◌, ◌⊎◌, refl, inl, inr, Bool, true, false, [], ◌∷◌, arith, take}
use defmt_persist.Ring.{Store, set_flush, set_write, set_byte, magic}
use defmt_persist.Ring.Producer.{write_stores, copy_stores, copy, available}
use defmt_persist.Ring.Consumer.{read, release_stores}
use defmt_persist.Ring.Window.{contents}
use defmt_persist.Ring.Bounds.{IsValid}
use defmt_persist.Ring.Queue
use defmt_persist.Recover.{recover_or_reinitialize}
use defmt_persist.Layout.{Target}
use defmt_persist.Ecc.{Ram, visible, store, feed}
use defmt_persist.Ecc.Cache.{IsSettled}
use defmt_persist.Ecc.Survive.{ecc_write_cut, ecc_write_kept, ecc_release_kept}

abbrev cortex_m : Target
cortex_m = record { size_of = 32; align_of = 8 }

-- It holds 7 and 8; the byte that flushes is still in the cache.
abbrev ram : Ram
ram = record {
  committed = record {
    header = magic true;
    read = 3;
    write = 1;
    ecc_flush = 0;
    buf = 8 ∷ 5 ∷ 6 ∷ 7 ∷ [];
  };
  cached = set_flush ∷ [];
}

ram-IsSettled : IsSettled ram
ram-IsSettled = (refl, tt)

ram-IsValid : IsValid (visible ram)
ram-IsValid = omega arith

-- All stores that fill a word are committed at once, or none.
abbrev always : Ram → Store → Bool
always m s = true

abbrev never : Ram → Store → Bool
never m s = false

-- Without the flushes of the feature `ecc` the new write index is lost.
lost_without_flush :
    (feed cortex_m 8 never ram (write_stores false (visible ram) (1 ∷ []))).committed.write ≡ 1
unfolding feed store write_stores copy_stores copy available
lost_without_flush = refl

-- Without the flush in front of the index, a byte that is not committed is recovered.
stale_without_first_flush :
    contents (
      recover_or_reinitialize true
        (feed cortex_m 4 always ram (set_byte 1 1 ∷ set_write 2 ∷ [])).committed)
    ≡ 7 ∷ 8 ∷ 5 ∷ []
unfolding feed store recover_or_reinitialize
stale_without_first_flush = refl

ecc_write_cut_example :
    let left =
      (feed cortex_m 4 always ram
        (take 4 (write_stores true (visible ram) (1 ∷ 2 ∷ [])))).committed in
    let found = contents (recover_or_reinitialize true left) in
    (found ≡ 7 ∷ 8 ∷ []) ⊎ (found ≡ Queue.write 3 (7 ∷ 8 ∷ []) (1 ∷ 2 ∷ []))
ecc_write_cut_example =
    ecc_write_cut cortex_m 4 always (inl refl) (omega arith) ram ram-IsSettled ram-IsValid refl
      (1 ∷ 2 ∷ []) 4

ecc_write_kept_example :
    let left =
      (feed cortex_m 4 always ram (write_stores true (visible ram) (1 ∷ 2 ∷ []))).committed in
    contents (recover_or_reinitialize true left) ≡ Queue.write 3 (7 ∷ 8 ∷ []) (1 ∷ 2 ∷ [])
ecc_write_kept_example =
    ecc_write_kept cortex_m 4 always (inl refl) (omega arith) ram ram-IsSettled ram-IsValid refl
      (1 ∷ 2 ∷ [])

ecc_release_kept_example :
    let ss = release_stores true (visible ram) (read (visible ram)) 1 in
    contents (recover_or_reinitialize true (feed cortex_m 8 never ram ss).committed)
    ≡ Queue.release (7 ∷ 8 ∷ []) 1
ecc_release_kept_example =
    ecc_release_kept cortex_m 8 never (inr refl) (omega arith) ram ram-IsSettled ram-IsValid refl 1
