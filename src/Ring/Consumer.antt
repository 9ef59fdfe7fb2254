-- ===== src/Ring/Consumer.antt =====
-- src/ring_buffer.rs, `impl Consumer` and `impl GrantR`.
use defmt_persist.Common.{
  ℕ, min, Bool, List, ◌∷◌, if◌then◌else◌, ltb, ◌==◌, length, take, drop, add_usize, sub_usize,
  as_u32, usize_max,
}
use defmt_persist.Ring.{RingBuffer, Store, set_read, run, flush_ecc}

-- `GrantR`. The `consumer` that it borrows is an argument of the methods.
pub record GrantR : Type 0 where
  pub slice1 : List ℕ
  pub slice2 : List ℕ
  pub original_read : ℕ

unfoldable pub is_empty : RingBuffer → Bool
is_empty r = r.write == r.read

-- `slice::from_raw_parts(buf.add(offset), len)`
abbrev pub slice : List ℕ → ℕ → ℕ → List ℕ
slice buf offset len = take len (drop offset buf)

unfoldable pub read : RingBuffer → GrantR
read r =
    let buf_len = length r.buf in
    let crosses = ltb r.write r.read in
    record {
      slice1 =
          slice r.buf r.read
            (if crosses then sub_usize buf_len r.read else sub_usize r.write r.read);
      slice2 = slice r.buf 0 (if crosses then r.write else 0);
      original_read = r.read;
    }

-- `GrantR::bufs`
unfoldable pub bufs : GrantR → List ℕ × List ℕ
bufs g = (g.slice1, g.slice2)

-- The index that `release` stores.
unfoldable pub new_read : ℕ → GrantR → ℕ → ℕ
new_read buf_len g wanted =
    let used = min wanted (add_usize (length g.slice1) (length g.slice2)) in
    if ltb (add_usize g.original_read used) buf_len
    then add_usize g.original_read used
    else sub_usize used (length g.slice1)

unfoldable pub release_stores : Bool → RingBuffer → GrantR → ℕ → List Store
release_stores ecc r g used = set_read (as_u32 (new_read (length r.buf) g used)) ∷ flush_ecc ecc

unfoldable pub release : Bool → RingBuffer → GrantR → ℕ → RingBuffer
release ecc r g used = run r (release_stores ecc r g used)

unfoldable pub release_all : Bool → RingBuffer → GrantR → RingBuffer
release_all ecc r g = release ecc r g usize_max
