-- ===== src/Ring/Producer.antt =====
-- src/ring_buffer.rs, `impl Producer`.
use defmt_persist.Common.{
  ℕ, ◌+◌, ◌%◌, min, Bool, List, [], ◌∷◌, ◌++◌, if◌then◌else◌, ltb, ◌==◌, length, take, drop,
  add_usize, sub_usize, as_u32,
}
use defmt_persist.Ring.{RingBuffer, Store, set_write, set_byte, run, flush_ecc}

-- How much space is left in a buffer of `len` bytes.
unfoldable pub available : ℕ → ℕ → ℕ → ℕ
available len read write =
    if ltb write read
    then sub_usize (sub_usize read write) 1
    else add_usize (sub_usize (sub_usize len write) 1) read

-- `ptr::copy_nonoverlapping` into the buffer at an offset: a store for each byte.
unfoldable pub copy : ℕ → List ℕ → List Store
copy offset [] = []
copy offset (b ∷ bs) = set_byte offset b ∷ copy (offset + 1) bs

-- The copies of `write`, of the first `len` bytes of `bytes`, which it has found to fit.
unfoldable pub copy_stores : ℕ → ℕ → ℕ → List ℕ → List Store
copy_stores buf_len write len bytes =
    if ltb buf_len (add_usize write len)
    then (let pivot = sub_usize buf_len write in
        copy write (take pivot bytes) ++ copy 0 (take (sub_usize len pivot) (drop pivot bytes)))
    else copy write (take len bytes)

-- The stores of `write`, in program order.
unfoldable pub write_stores : Bool → RingBuffer → List ℕ → List Store
write_stores ecc r bytes =
    let buf_len = length r.buf in
    let len = min (length bytes) (available buf_len r.read r.write) in
    if len == 0
    then []
    else copy_stores buf_len r.write len bytes
      ++ (flush_ecc ecc ++ (set_write (as_u32 (add_usize r.write len % buf_len)) ∷ flush_ecc ecc))

unfoldable pub write : Bool → RingBuffer → List ℕ → RingBuffer
write ecc r bytes = run r (write_stores ecc r bytes)
