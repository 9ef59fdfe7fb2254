-- ===== src/Ring/Tests.antt =====
-- The unit tests of src/ring_buffer.rs, and the theorems at concrete rings.
use defmt_persist.Common.{ℕ, ◌≡◌, refl, true, false, List, [], ◌∷◌, ◌++◌, All, arith}
use defmt_persist.Ring.{RingBuffer, magic}
use defmt_persist.Ring.Producer.{available, copy, copy_stores, write_stores, write}
use defmt_persist.Ring.Consumer.{read, bufs, new_read, release_stores, release}
use defmt_persist.Ring.Window.{contents}
use defmt_persist.Ring.Bounds.{IsValid}
use defmt_persist.Ring.Queue
use defmt_persist.Ring.Queue.{put, poll, get}
use defmt_persist.Ring.Copy.{ring_copy, copy_stores-ring_copy}
use defmt_persist.Ring.Write.{contents-write}
use defmt_persist.Ring.Read.{bufs-read}
use defmt_persist.Ring.Client.{calls, calls_refine}
use defmt_persist.Ring.Safety.{IsProducers, write_stores-IsProducers}

-- `RingBuffer::new`, over four bytes
abbrev new : ℕ → ℕ → RingBuffer
new r w = record {
  header = magic false;
  read = r;
  write = w;
  ecc_flush = 0;
  buf = 0 ∷ 0 ∷ 0 ∷ 0 ∷ [];
}

-- The slices of the grant after a write.
shown : ℕ → List ℕ → List ℕ × List ℕ
unfolding write write_stores available copy_stores copy read bufs
shown start bytes = bufs (read (write false (new start start) bytes))

-- The slices of the next grant, after a release.
shown_after : ℕ → List ℕ → ℕ → List ℕ × List ℕ
unfolding write write_stores available copy_stores copy read bufs release release_stores new_read
shown_after start bytes used =
    let r = write false (new start start) bytes in bufs (read (release false r (read r) used))

touching_no_boundaries :
    (shown 1 (1 ∷ 2 ∷ []) ≡ (1 ∷ 2 ∷ [], [])) × (shown_after 1 (1 ∷ 2 ∷ []) 2 ≡ ([], []))
unfolding shown shown_after
touching_no_boundaries = (refl, refl)

fill_crossing_end :
    (shown 2 (1 ∷ 2 ∷ 3 ∷ []) ≡ (1 ∷ 2 ∷ [], 3 ∷ []))
    × (shown_after 2 (1 ∷ 2 ∷ 3 ∷ []) 2 ≡ (3 ∷ [], []))
unfolding shown shown_after
fill_crossing_end = (refl, refl)

release_crossing_end : shown_after 2 (1 ∷ 2 ∷ 3 ∷ []) 3 ≡ ([], [])
unfolding shown_after
release_crossing_end = refl

underfill_crossing_end :
    (shown 3 (1 ∷ 2 ∷ []) ≡ (1 ∷ [], 2 ∷ [])) × (shown_after 3 (1 ∷ 2 ∷ []) 1 ≡ (2 ∷ [], []))
unfolding shown shown_after
underfill_crossing_end = (refl, refl)

overfill : shown 0 (1 ∷ 2 ∷ 3 ∷ 4 ∷ 5 ∷ 6 ∷ 7 ∷ []) ≡ (1 ∷ 2 ∷ 3 ∷ [], [])
unfolding shown
overfill = refl

zero_release : shown_after 2 (1 ∷ 2 ∷ []) 0 ≡ (1 ∷ 2 ∷ [], [])
unfolding shown_after
zero_release = refl

partial_release : shown_after 2 (1 ∷ 2 ∷ []) 1 ≡ (2 ∷ [], [])
unfolding shown_after
partial_release = refl

-- Two bytes round the end: 7, then 8.
abbrev wrapped : RingBuffer
wrapped = record {
  header = magic true;
  read = 3;
  write = 1;
  ecc_flush = 0;
  buf = 8 ∷ 5 ∷ 6 ∷ 7 ∷ [];
}

wrapped-IsValid : IsValid wrapped
wrapped-IsValid = omega arith

calls_refine_example :
    calls true wrapped (put (1 ∷ 2 ∷ []) ∷ poll ∷ get 2 ∷ get 9 ∷ poll ∷ [])
    ≡ Queue.run 3 (7 ∷ 8 ∷ []) (put (1 ∷ 2 ∷ []) ∷ poll ∷ get 2 ∷ get 9 ∷ poll ∷ [])
calls_refine_example =
    calls_refine true (put (1 ∷ 2 ∷ []) ∷ poll ∷ get 2 ∷ get 9 ∷ poll ∷ []) wrapped wrapped-IsValid

contents-write_example :
    contents (write true wrapped (1 ∷ 2 ∷ [])) ≡ Queue.write 3 (7 ∷ 8 ∷ []) (1 ∷ 2 ∷ [])
contents-write_example = contents-write true wrapped (1 ∷ 2 ∷ []) wrapped-IsValid

copy_stores-ring_copy_example : copy_stores 4 3 2 (1 ∷ 2 ∷ 9 ∷ []) ≡ ring_copy 4 3 (1 ∷ 2 ∷ [])
copy_stores-ring_copy_example =
    copy_stores-ring_copy 4 3 2 (1 ∷ 2 ∷ 9 ∷ []) (omega arith) (omega arith) (omega arith)
      (omega arith)

bufs-read_example : (bufs (read wrapped)).0 ++ (bufs (read wrapped)).1 ≡ 7 ∷ 8 ∷ []
bufs-read_example = bufs-read wrapped wrapped-IsValid

write_stores-IsProducers_example : All (IsProducers wrapped) (write_stores true wrapped (1 ∷ []))
write_stores-IsProducers_example = write_stores-IsProducers true wrapped (1 ∷ []) wrapped-IsValid
