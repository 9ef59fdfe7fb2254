-- ===== src/Layout/Patch.antt =====
-- The structure of src/ring_buffer.rs in memory: the length of its buffer, and what single bytes make
-- of its fields.
use defmt_persist.Common.{
  ℕ, ◌*◌, ◌-◌, ◌≤◌, ◌^◌, suc, ◌≡◌, ◌≢◌, List, length, length-drop, get_or, arith, Bool, true, false,
}
use defmt_persist.Ring.{magic}
use defmt_persist.Layout.{Target, load, view, offset_header, index_size}

-- The buffer is what the structure leaves.
pub length-view_buf :
    (target : Target) (memory : List ℕ)
    → length (view target memory).buf ≡ length memory - target.size_of
unfolding view
length-view_buf target memory = length-drop target.size_of memory

-- A number is at least what its highest byte stands for.
high_byte :
    (memory : List ℕ) (offset : ℕ)
    → get_or memory (suc (suc (suc offset))) 0 * 2 ^ 24 ≤ load 4 memory offset
unfolding load
high_byte memory offset = omega arith

-- A zero in the lowest byte of the header is no MAGIC.
pub header_zero :
    (target : Target) (memory : List ℕ) (ecc : Bool)
    → get_or memory offset_header 0 ≡ 0
    → (view target memory).header ≢ magic ecc
unfolding view load
header_zero target memory true h = omega arith
header_zero target memory false h = omega arith

-- 0xff in the highest byte of an index is out of every buffer.
pub index_high :
    (memory : List ℕ) (offset : ℕ)
    → get_or memory (suc (suc (suc offset))) 0 ≡ 0xff
    → 0xff00_0000 ≤ load index_size memory offset
index_high memory offset h = omega (arith, high_byte memory offset)
