-- ===== src/Ring.antt =====
-- src/ring_buffer.rs: the shared structure, its memory stores, and the ECC flush.
-- An operation is modelled by the list of the stores that it makes, in program order. Running the
-- whole list is the call; running a part of it is a call that a reset has cut off.
pub mod Producer
pub mod Consumer
pub mod Window
pub mod Bounds
pub mod Queue
pub mod Copy
pub mod Write
pub mod Read
pub mod Release
pub mod Client
pub mod Cut
pub mod Safety
mod Tests
use defmt_persist.Common.{ℕ, ◌*◌, ◌/◌, Bool, List, [], ◌∷◌, ◌++◌, ◌≡◌, refl, if◌then◌else◌, set}

-- `RingBuffer`, with the bytes behind it that `Producer` and `Consumer` share as `buf`.
pub record RingBuffer : Type 0 where
  pub header : ℕ  -- u128
  pub read : ℕ  -- AtomicU32
  pub write : ℕ  -- AtomicU32
  pub ecc_flush : ℕ  -- u64, present with the feature `ecc`
  pub buf : List ℕ

-- One store to the memory of the region.
pub data Store : Type 0 where
  set_header : ℕ → Store
  set_read : ℕ → Store
  set_write : ℕ → Store
  set_flush : Store  -- the byte 0 to the first byte of `_ecc_flush`
  set_byte : (offset byte : ℕ) → Store

abbrev pub apply : RingBuffer → Store → RingBuffer
apply r (set_header v) = record r { header = v }
apply r (set_read v) = record r { read = v }
apply r (set_write v) = record r { write = v }
apply r set_flush = record r { ecc_flush = r.ecc_flush / 256 * 256 }
apply r (set_byte i b) = record r { buf = set r.buf i b }

abbrev pub run : RingBuffer → List Store → RingBuffer
run r [] = r
run r (s ∷ ss) = run (apply r s) ss

pub run-append : (r : RingBuffer) (xs ys : List Store) → run r (xs ++ ys) ≡ run (run r xs) ys
run-append r [] ys = refl
run-append r (x ∷ xs) ys = run-append (apply r x) xs ys

-- `flush_ecc`; the argument tells whether the feature `ecc` is on.
abbrev pub flush_ecc : Bool → List Store
flush_ecc ecc = if ecc then set_flush ∷ [] else []

-- `MAGIC`, for each setting of the feature `ecc`
abbrev pub magic : Bool → ℕ
magic ecc =
    if ecc
    then 0x1dff_2060_27b9_f2b4_a194_1013_69cd_3c6c
    else 0xb528_c25f_90c6_16af_cbc1_502c_09c1_fd6e
