-- ===== src/Ring/Bounds.antt =====
-- The well-formedness of a ring, and the arithmetic of its indices: nothing wraps on `usize`.
use defmt_persist.Common.{
  ℕ, ◌+◌, ◌-◌, ◌/◌, ◌%◌, ◌<◌, ◌≡◌, length, add_usize, as_u32, i32_max, arith, dec_lt,
}
use native.Mathlib.Nat.{mod-eq_of_lt, mod-eq-sub-mod}
use defmt_persist.Ring.{RingBuffer}
use defmt_persist.Ring.Producer.{available}
use defmt_persist.Ring.Window.{ahead, distance}

-- Both indices lie in the buffer, and the buffer is below the limit of `recover_or_reinitialize`.
pub record IsValid (r : RingBuffer) : Type 0 where
  pub read_in : r.read < length r.buf
  pub write_in : r.write < length r.buf
  pub small : length r.buf < i32_max / 4

module _ (len read write : ℕ) (hr : read < len) (hw : write < len) (hs : len < i32_max / 4) where
  -- One place stays free, so that a full ring is not an empty one.
  pub available_lem : available len read write ≡ len - 1 - distance len read write
  unfolding available
  available_lem = ground arith

  pub distance-lt : distance len read write < len
  distance-lt = ground arith

  -- The write index is the read index, moved on by what the ring holds.
  pub ahead-distance : ahead len read (distance len read write) ≡ write
  ahead-distance = ground arith

-- The index that `write` stores is the write index moved on by `n`, going round at the end.
pub stored_index :
    (len write n : ℕ)
    → write < len
    → n < len
    → len < i32_max / 4
    → as_u32 (add_usize write n % len) ≡ ahead len write n
stored_index len write n hw hn hs = elim (dec_lt (write + n) len) [
  | yes p ↦ ground (arith, mod-eq_of_lt {n = write + n} {m = len} p)
  | no p ↦ ground (
    arith,
    mod-eq-sub-mod {n = write + n} {m = len} (omega arith),
    mod-eq_of_lt {n = write + n - len} {m = len} (omega arith),
  )
]
