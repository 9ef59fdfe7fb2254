-- ===== src/Ecc/Survive.antt =====
-- A reset, which loses the write cache, in an operation of src/ring_buffer.rs or after it.
use defmt_persist.Common.{
  ℕ, ◌-◌, ◌≡◌, ap, ◌∙◌, ◌⊎◌, inl, inr, Bool, true, List, length, take, arith,
}
use defmt_persist.Ring.{RingBuffer, Store, magic}
use defmt_persist.Ring.Producer
use defmt_persist.Ring.Producer.{write_stores}
use defmt_persist.Ring.Consumer.{read, release_stores, release}
use defmt_persist.Ring.Window.{contents, contents_of_fields}
use defmt_persist.Ring.Bounds.{IsValid}
use defmt_persist.Ring.Queue
use defmt_persist.Ring.Write.{write-IsValid, write_frame, contents-write}
use defmt_persist.Ring.Release.{release_lem, release-IsValid, contents-release}
use defmt_persist.Recover.{recover_or_reinitialize}
use defmt_persist.Recover.Survive.{write_cut, recover-valid}
use defmt_persist.Recover.Released.{release_cut}
use defmt_persist.Layout.{Target}
use defmt_persist.Ecc.{Ram, visible, feed}
use defmt_persist.Ecc.Cache.{IsWordSize, HasFlush, IsSettled}
use defmt_persist.Ecc.Settled.{settled_lem}
use defmt_persist.Ecc.Stored.{write_left, write_settled, release_left, release_settled}

-- The byte that flushes plays no part in a recovery.
recover-ecc_flush :
    (r : RingBuffer) (x : ℕ)
    → contents (recover_or_reinitialize true (record r { ecc_flush = x }))
      ≡ contents (recover_or_reinitialize true r)
unfolding recover_or_reinitialize
recover-ecc_flush r x =
    contents_of_fields (recover_or_reinitialize true (record r { ecc_flush = x }))
      (recover_or_reinitialize true r) (fields r x)
  where
    fields :
        (r : RingBuffer) (x : ℕ)
        → let a = recover_or_reinitialize true (record r { ecc_flush = x }) in
          let b = recover_or_reinitialize true r in
          (a.read ≡ b.read) × (a.write ≡ b.write) × (a.buf ≡ b.buf)
    fields r x = ground arith

module _ (target : Target) (word_size : ℕ) (immediate : Ram → Store → Bool)
    (h : IsWordSize word_size) (room : HasFlush target) where
  -- What a settled RAM has committed is what a load sees, for a recovery.
  settled-recover :
      (m : Ram)
      → IsSettled m
      → contents (recover_or_reinitialize true m.committed)
        ≡ contents (recover_or_reinitialize true (visible m))
  settled-recover m quiet =
      let (x, e) = settled_lem m quiet in
      ap (λ r. contents (recover_or_reinitialize true r)) e ∙ recover-ecc_flush (visible m) x

  module _ (m : Ram) (quiet : IsSettled m) (v : IsValid (visible m))
      (hm : (visible m).header ≡ magic true) where
    -- With the feature ecc, on a RAM that holds at most flushes in its write cache and a valid
    -- ring with the right header: a reset after any store of a write, which loses the cache,
    -- leaves memory from which the next start recovers the old contents, or those with the whole
    -- of what the write takes. The hardware may commit the index at once, also while older stores
    -- are cached, where it fills a word. Words have 32 or 64 bits, and the structure has room for
    -- its flush field.
    pub ecc_write_cut :
        (bytes : List ℕ) (k : ℕ)
        → let ss = take k (write_stores true (visible m) bytes) in
          let left = (feed target word_size immediate m ss).committed in
          let found = contents (recover_or_reinitialize true left) in
          (found ≡ contents (visible m))
          ⊎ (found ≡ Queue.write (length (visible m).buf - 1) (contents (visible m)) bytes)
    ecc_write_cut bytes k =
        let (j, x, e) = write_left target word_size immediate h room m quiet bytes k in
        let same = ap (λ r. contents (recover_or_reinitialize true r)) e ∙ recover-ecc_flush _ x in
        elim (write_cut true (visible m) bytes v hm j) [
          | inl before ↦ inl (same ∙ before)
          | inr after ↦ inr (same ∙ after)
        ]

    -- What a reset in a release leaves.
    ecc_release_cut :
        (used k : ℕ)
        → let ss = take k (release_stores true (visible m) (read (visible m)) used) in
          let left = (feed target word_size immediate m ss).committed in
          let found = contents (recover_or_reinitialize true left) in
          (found ≡ contents (visible m)) ⊎ (found ≡ Queue.release (contents (visible m)) used)
    ecc_release_cut used k =
        let (j, x, e) =
          release_left target word_size immediate h room m quiet (read (visible m)) used k in
        let same = ap (λ r. contents (recover_or_reinitialize true r)) e ∙ recover-ecc_flush _ x in
        elim (release_cut true (visible m) v used hm j) [
          | inl before ↦ inl (same ∙ before)
          | inr after ↦ inr (same ∙ after)
        ]

    -- With the feature ecc, on a RAM that holds at most flushes in its write cache and a valid
    -- ring with the right header: a reset after a write has returned loses the cache, and the next
    -- start still recovers the old contents with all that the write takes. The hardware may commit
    -- the index at once, also while older stores are cached, where it fills a word. Words have 32
    -- or 64 bits, and the structure has room for its flush field.
    pub ecc_write_kept :
        (bytes : List ℕ)
        → let ss = write_stores true (visible m) bytes in
          let left = (feed target word_size immediate m ss).committed in
          contents (recover_or_reinitialize true left)
          ≡ Queue.write (length (visible m).buf - 1) (contents (visible m)) bytes
    unfolding Producer.write
    ecc_write_kept bytes =
        let r : RingBuffer = visible m in
        let (settled, seen) = write_settled target word_size immediate h room m quiet bytes in
        settled-recover _ settled
        ∙ (ap (λ r. contents (recover_or_reinitialize true r)) seen
            ∙ (recover-valid true (Producer.write true r bytes) (write-IsValid true r bytes v)
                  ((write_frame true r bytes v).0 ∙ hm)
                ∙ contents-write true r bytes v))

    -- With the feature ecc, on a RAM that holds at most flushes in its write cache and a valid
    -- ring with the right header: a reset after a release has returned loses the cache, and the
    -- next start still recovers the contents without the released bytes. The hardware may commit
    -- the index at once, also while older stores are cached, where it fills a word. Words have 32
    -- or 64 bits, and the structure has room for its flush field.
    pub ecc_release_kept :
        (used : ℕ)
        → let ss = release_stores true (visible m) (read (visible m)) used in
          let left = (feed target word_size immediate m ss).committed in
          contents (recover_or_reinitialize true left) ≡ Queue.release (contents (visible m)) used
    unfolding release
    ecc_release_kept used =
        let r : RingBuffer = visible m in
        let (settled, seen) =
          release_settled target word_size immediate h room m quiet (read r) used in
        settled-recover _ settled
        ∙ (ap (λ r. contents (recover_or_reinitialize true r)) seen
            ∙ (recover-valid true (release true r (read r) used) (release-IsValid true r v used)
                  (ap (λ s. s.header) (release_lem true r v used) ∙ hm)
                ∙ contents-release true r v used))
