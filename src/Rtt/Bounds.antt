-- ===== src/Rtt/Bounds.antt =====
-- The well-formedness of the channel of src/logger/rtt.rs, and what it holds for the host.
use defmt_persist.Common.{
  ℕ, ◌+◌, ◌-◌, ◌%◌, ◌^◌, ◌≤◌, ◌<◌, ◌≡◌, List, length, add_usize, as_u32, arith, dec_lt,
}
use native.Mathlib.Nat.{mod-eq_of_lt, mod-eq-sub-mod}
use defmt_persist.Ring.Window.{ahead, distance, window}
use defmt_persist.Rtt.{Channel, available_buffer_size}

-- Both cursors lie in the buffer. build.rs asserts the lower limit of its size; the upper one is that
-- of every object in memory, `isize::MAX`.
pub record IsValid (buf_size : ℕ) (c : Channel) : Type 0 where
  pub read_in : c.read < buf_size
  pub write_in : c.write < buf_size
  pub storage : length c.buffer ≡ buf_size
  pub large : 32 ≤ buf_size
  pub small : buf_size < 2 ^ 31

module _ (buf_size : ℕ) where
  -- The number of bytes that the host has not read, and the bytes.
  abbrev pub held : Channel → ℕ
  held c = distance buf_size c.read c.write

  abbrev pub pending : Channel → List ℕ
  pending c = window buf_size c.buffer c.read (held c)

  -- The room that is left: one place stays free.
  abbrev pub room : Channel → ℕ
  room c = buf_size - 1 - held c

module _ (buf_size read write : ℕ) (hr : read < buf_size) (hw : write < buf_size)
    (hs : buf_size < 2 ^ 31) where
  pub available_lem :
      available_buffer_size buf_size read write ≡ buf_size - 1 - distance buf_size read write
  unfolding available_buffer_size
  available_lem = ground arith

  pub distance-lt : distance buf_size read write < buf_size
  distance-lt = ground arith

  pub ahead-distance : ahead buf_size read (distance buf_size read write) ≡ write
  ahead-distance = ground arith

  pub stored_index :
      (n : ℕ) → n < buf_size → as_u32 (add_usize write n % buf_size) ≡ ahead buf_size write n
  stored_index n hn = elim (dec_lt (write + n) buf_size) [
    | yes p ↦ ground (arith, mod-eq_of_lt {n = write + n} {m = buf_size} p)
    | no p ↦ ground (
      arith,
      mod-eq-sub-mod {n = write + n} {m = buf_size} (omega arith),
      mod-eq_of_lt {n = write + n - buf_size} {m = buf_size} (omega arith),
    )
  ]
