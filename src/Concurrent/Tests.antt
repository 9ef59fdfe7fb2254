-- ===== src/Concurrent/Tests.antt =====
-- Runs of the two ends of src/ring_buffer.rs with their stores interleaved.
use defmt_persist.Common.{ℕ, ◌≡◌, refl, true, List, [], ◌∷◌, ◌++◌, arith}
use defmt_persist.Ring.{RingBuffer, Store, set_byte, set_flush, set_write, run}
use defmt_persist.Ring.Producer.{available, copy, copy_stores, write_stores}
use defmt_persist.Ring.Consumer.{read, bufs}
use defmt_persist.Ring.Bounds.{IsValid}
use defmt_persist.Concurrent.{
  Ends, Producing, Consuming, loaded, offered, granted, Step, call_write, start_write, produce,
  call_read, Steps, stay, ◌⟶◌,
}
use defmt_persist.Concurrent.Fifo.{begin, on_the_way, Steps-fifo, Steps-offered}

abbrev two_of_four : RingBuffer
two_of_four = record { header = 0; read = 2; write = 0; ecc_flush = 255; buf = 9 ∷ 9 ∷ 1 ∷ 2 ∷ [] }

two_of_four-IsValid : IsValid two_of_four
two_of_four-IsValid = omega arith

-- What is left of a write of the bytes 7 and 8, of which the ring has room for one.
abbrev stores : List Store
stores = set_byte 0 7 ∷ set_flush ∷ set_write 1 ∷ set_flush ∷ []

abbrev at : (done left : List Store) → (unpublished : List ℕ) → Consuming → Ends
at done left unpublished c = record {
  ring = run two_of_four done;
  producing = Producing.storing left unpublished;
  consuming = c;
  sent = 1 ∷ 2 ∷ 7 ∷ [];
  received = [];
}

abbrev called : Ends
called = record (begin two_of_four) { producing = loaded 2 (7 ∷ 8 ∷ []) }

-- The grant is got after the copy, and before the store of the index.
abbrev grant : Consuming
grant = granted 0 (1 ∷ 2 ∷ [])

starts : Step true called (at [] stores (7 ∷ []) Consuming.resting)
unfolding write_stores available copy_stores copy
starts = start_write 2 (7 ∷ 8 ∷ []) refl

gets :
    Step true
      (at (set_byte 0 7 ∷ []) (set_flush ∷ set_write 1 ∷ set_flush ∷ []) (7 ∷ []) Consuming.resting)
      (at (set_byte 0 7 ∷ []) (set_flush ∷ set_write 1 ∷ set_flush ∷ []) (7 ∷ []) grant)
unfolding read bufs
gets = call_read refl

overtaken : Steps true (begin two_of_four) (at stores [] [] grant)
overtaken =
    call_write (7 ∷ 8 ∷ []) refl
    ⟶ starts
    ⟶ produce (set_byte 0 7) (set_flush ∷ set_write 1 ∷ set_flush ∷ []) (7 ∷ []) refl
    ⟶ gets
    ⟶ produce set_flush (set_write 1 ∷ set_flush ∷ []) (7 ∷ []) refl
    ⟶ produce (set_write 1) (set_flush ∷ []) (7 ∷ []) refl
    ⟶ produce set_flush [] [] refl
    ⟶ stay

Steps-fifo_example :
    IsValid (run two_of_four stores) × (1 ∷ 2 ∷ 7 ∷ [] ≡ [] ++ on_the_way (at stores [] [] grant))
Steps-fifo_example =
    Steps-fifo true two_of_four (at stores [] [] grant) two_of_four-IsValid overtaken

Steps-offered_example : offered (run two_of_four stores) 0 ≡ 1 ∷ 2 ∷ []
Steps-offered_example =
    Steps-offered true two_of_four (at stores [] [] grant) 0 (1 ∷ 2 ∷ []) two_of_four-IsValid
      overtaken refl
