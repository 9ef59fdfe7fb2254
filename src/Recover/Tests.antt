-- ===== src/Recover/Tests.antt =====
-- The recovery of src/ring_buffer.rs at concrete memories.
use defmt_persist.Common.{◌≡◌, ◌⊎◌, refl, true, false, [], ◌∷◌, arith, take}
use defmt_persist.Ring.{RingBuffer, run, magic}
use defmt_persist.Ring.Producer.{write_stores}
use defmt_persist.Ring.Consumer.{read, release_stores}
use defmt_persist.Ring.Window.{contents}
use defmt_persist.Ring.Bounds.{IsValid}
use defmt_persist.Ring.Queue
use defmt_persist.Recover.{recover_stores, recover_or_reinitialize}
use defmt_persist.Recover.Reset.{recover_cut}
use defmt_persist.Recover.Survive.{write_cut}
use defmt_persist.Recover.Released.{release_cut}

-- A ring of an earlier run that holds 7 and 8.
abbrev found : RingBuffer
found = record { header = magic true; read = 3; write = 1; ecc_flush = 0; buf = 8 ∷ 5 ∷ 6 ∷ 7 ∷ [] }

found-IsValid : IsValid found
found-IsValid = omega arith

-- The read index is corrupt.
abbrev corrupt : RingBuffer
corrupt = record found { read = 0xff00_0003 }

corrupt_gives_empty : contents (recover_or_reinitialize true corrupt) ≡ []
unfolding recover_or_reinitialize
corrupt_gives_empty = refl

kept : contents (recover_or_reinitialize true found) ≡ 7 ∷ 8 ∷ []
unfolding recover_or_reinitialize
kept = refl

-- Another setting of the feature `ecc` finds no ring.
other_feature : contents (recover_or_reinitialize false found) ≡ []
unfolding recover_or_reinitialize
other_feature = refl

recover_cut_example :
    contents (recover_or_reinitialize true (run corrupt (take 1 (recover_stores true corrupt))))
    ≡ contents (recover_or_reinitialize true corrupt)
recover_cut_example = recover_cut corrupt (omega arith) (omega arith) true 1

write_cut_example :
    let after =
      contents (
        recover_or_reinitialize true (run found (take 2 (write_stores true found (1 ∷ 2 ∷ []))))) in
    (after ≡ contents found) ⊎ (after ≡ Queue.write 3 (contents found) (1 ∷ 2 ∷ []))
write_cut_example = write_cut true found (1 ∷ 2 ∷ []) found-IsValid refl 2

release_cut_example :
    let after = contents (
      recover_or_reinitialize true
        (run found (take 1 (release_stores true found (read found) 1)))) in
    (after ≡ contents found) ⊎ (after ≡ Queue.release (contents found) 1)
release_cut_example = release_cut true found found-IsValid 1 refl 1
