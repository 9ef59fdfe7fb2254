-- ===== src/Recover/Outcome.antt =====
-- What src/ring_buffer.rs makes of the memory that it finds at a start.
use defmt_persist.Common.{
  ◌/◌, ◌<◌, ◌≡◌, Bool, true, false, ◌&&◌, [], if◌then◌else◌, ltb, ◌==◌, length, i32_max, arith, inl,
  inr, Bool-cases,
}
use defmt_persist.Ring.{RingBuffer, magic}
use defmt_persist.Ring.Window.{contents, contents-empty, contents_of_fields}
use defmt_persist.Ring.Bounds.{IsValid}
use defmt_persist.Recover.{recover_or_reinitialize}

-- Whether the memory is taken for a ring of an earlier run.
abbrev pub is_intact : Bool → RingBuffer → Bool
is_intact ecc r = r.header == magic ecc && (ltb r.read (length r.buf) && ltb r.write (length r.buf))

-- Whatever the memory holds, a start makes it a valid ring with the header MAGIC, and leaves its
-- bytes alone, for a buffer that is not empty and below the limit.
pub recover-IsValid :
    (ecc : Bool) (r : RingBuffer)
    → 0 < length r.buf
    → length r.buf < i32_max / 4
    → let r' = recover_or_reinitialize ecc r in
      IsValid r' × (r'.header ≡ magic ecc) × (r'.buf ≡ r.buf)
unfolding recover_or_reinitialize
recover-IsValid true r h hs = ground arith
recover-IsValid false r h hs = ground arith

-- Memory that is not intact gives equal indices.
recover-reset :
    (ecc : Bool) (r : RingBuffer)
    → 0 < length r.buf
    → length r.buf < i32_max / 4
    → is_intact ecc r ≡ false
    → (recover_or_reinitialize ecc r).read ≡ (recover_or_reinitialize ecc r).write
unfolding recover_or_reinitialize
recover-reset true r h hs e = ground arith
recover-reset false r h hs e = ground arith

-- Intact memory keeps its indices.
recover-kept :
    (ecc : Bool) (r : RingBuffer)
    → is_intact ecc r ≡ true
    → ((recover_or_reinitialize ecc r).read ≡ r.read)
      × ((recover_or_reinitialize ecc r).write ≡ r.write)
      × ((recover_or_reinitialize ecc r).buf ≡ r.buf)
unfolding recover_or_reinitialize
recover-kept true r e = ground arith
recover-kept false r e = ground arith

-- A start keeps the bytes of memory with the right header and both indices in the buffer, and
-- makes any other memory an empty ring, for a buffer that is not empty and below the limit.
pub contents-recover :
    (ecc : Bool) (r : RingBuffer)
    → 0 < length r.buf
    → length r.buf < i32_max / 4
    → contents (recover_or_reinitialize ecc r) ≡ (if is_intact ecc r then contents r else [])
contents-recover ecc r h hs = elim (Bool-cases (is_intact ecc r)) [
  | inl kept ↦
      rw kept (contents_of_fields (recover_or_reinitialize ecc r) r (recover-kept ecc r kept))
  | inr lost ↦
      rw lost (contents-empty (recover_or_reinitialize ecc r) (recover-reset ecc r h hs lost))
]
