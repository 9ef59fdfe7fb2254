-- ===== src/Recover.antt =====
-- src/ring_buffer.rs, `RingBuffer::recover_or_reinitialize` and `RingBuffer::split`.
pub mod Outcome
pub mod Reset
pub mod Survive
pub mod Released
mod Tests
use defmt_persist.Common.{
  ℕ, Bool, true, false, List, [], ◌∷◌, ◌++◌, if◌then◌else◌, ltb, ◌==◌, not, length, as_u32,
}
use defmt_persist.Ring.{RingBuffer, Store, set_header, set_read, set_write, run, flush_ecc, magic}

-- The `match` on whether the two indices lie in the buffer.
unfoldable pub repair : (read_ok write_ok : Bool) → (read write : ℕ) → List Store
repair true true read write = []
repair true false read write = set_write (as_u32 read) ∷ []
repair false true read write = set_read (as_u32 write) ∷ []
repair false false read write = set_read 0 ∷ set_write 0 ∷ []

-- The stores of `recover_or_reinitialize`, in program order. `r` is what the memory holds, read as
-- the structure and the bytes behind it.
unfoldable pub recover_stores : Bool → RingBuffer → List Store
unfolding repair
recover_stores ecc r =
    if not (r.header == magic ecc)
    then set_read 0 ∷ set_write 0 ∷ (flush_ecc ecc ++ set_header (magic ecc) ∷ [])
    else repair (ltb r.read (length r.buf)) (ltb r.write (length r.buf)) r.read r.write
      ++ flush_ecc ecc

-- The region after the call. `split` hands it to a `Producer` and a `Consumer`, which share it.
unfoldable pub recover_or_reinitialize : Bool → RingBuffer → RingBuffer
unfolding recover_stores
recover_or_reinitialize ecc r = run r (recover_stores ecc r)
