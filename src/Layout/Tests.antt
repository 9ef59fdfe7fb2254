-- ===== src/Layout/Tests.antt =====
-- The layout of src/ring_buffer.rs at a concrete dump.
use defmt_persist.Common.{◌≡◌, refl, true, List, [], ◌∷◌, ℕ}
use defmt_persist.Ring.{magic}
use defmt_persist.Layout.{Target, load, view}

abbrev cortex_m : Target
cortex_m = record { size_of = 32; align_of = 8 }

-- A ring of the feature `ecc`, whose four bytes hold 7 and 8.
abbrev dump : List ℕ
dump =
    0x6c ∷ 0x3c ∷ 0xcd ∷ 0x69 ∷ 0x13 ∷ 0x10 ∷ 0x94 ∷ 0xa1 ∷ 0xb4 ∷ 0xf2 ∷ 0xb9 ∷ 0x27 ∷ 0x60 ∷ 0x20
    ∷ 0xff ∷ 0x1d ∷ 3 ∷ 0 ∷ 0 ∷ 0 ∷ 1 ∷ 0 ∷ 0 ∷ 0 ∷ 0 ∷ 0 ∷ 0 ∷ 0 ∷ 0 ∷ 0 ∷ 0 ∷ 0 ∷ 8 ∷ 5 ∷ 6 ∷ 7
    ∷ []

dump-view :
    view cortex_m dump
    ≡ record { header = magic true; read = 3; write = 1; ecc_flush = 0; buf = 8 ∷ 5 ∷ 6 ∷ 7 ∷ [] }
unfolding view load
dump-view = refl
