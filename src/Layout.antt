-- ===== src/Layout.antt =====
-- src/ring_buffer.rs: how `RingBuffer` and the buffer lie in memory, which `repr(C)`, `offsets` and
-- the first lines of `RingBuffer::recover_or_reinitialize` fix. Memory is the list of its bytes, and
-- the target is little-endian.
pub mod Patch
pub mod Dump
mod Tests
use defmt_persist.Common.{ℕ, ◌+◌, ◌*◌, zero, suc, List, get_or, drop}
use defmt_persist.Ring.{RingBuffer}

-- `size_of::<RingBuffer>()` and `align_of::<RingBuffer>()`, which depend on the target's u128.
pub record Target : Type 0 where
  pub size_of : ℕ
  pub align_of : ℕ

-- `offsets`
abbrev pub offset_header : ℕ
offset_header = 0

abbrev pub offset_read : ℕ
offset_read = 16

abbrev pub offset_write : ℕ
offset_write = 20

abbrev pub offset_ecc_flush : ℕ
offset_ecc_flush = 24

abbrev pub index_size : ℕ
index_size = 4

-- The number of so many bytes at an offset.
unfoldable pub load : ℕ → List ℕ → ℕ → ℕ
load zero memory offset = 0
load (suc n) memory offset = get_or memory offset 0 + 256 * load n memory (suc offset)

-- The memory read as the structure and the bytes behind it.
unfoldable pub view : Target → List ℕ → RingBuffer
view target memory = record {
  header = load 16 memory offset_header;
  read = load index_size memory offset_read;
  write = load index_size memory offset_write;
  ecc_flush = load 8 memory offset_ecc_flush;
  buf = drop target.size_of memory;
}
