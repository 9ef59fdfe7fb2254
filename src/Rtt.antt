-- ===== src/Rtt.antt =====
-- src/logger/rtt.rs: the RTT up channel. The host's only move is to store to `read`; the loops take
-- the list of the values that their loads of `read` see, one for each round, and report when it has
-- run out. `name` and the pointer `buffer` are fixed at compile time; the bytes are in `buffer`.
pub mod Bounds
pub mod Impl
pub mod Stream
pub mod Finish
mod Tests
use defmt_persist.Common.{
  ℕ, ◌+◌, ◌-◌, ◌%◌, min, Bool, true, false, List, [], ◌∷◌, if◌then◌else◌, ltb, ◌==◌, not, length,
  set, take, drop, add_usize, sub_usize, as_u32, replicate,
}

-- `Channel`
pub record Channel : Type 0 where
  pub size : ℕ
  pub write : ℕ  -- AtomicU32, written by the target
  pub read : ℕ  -- AtomicU32, written by the host
  pub flags : ℕ  -- AtomicU32
  pub buffer : List ℕ

abbrev pub mode_block_if_full : ℕ
mode_block_if_full = 2

abbrev pub mode_non_blocking_trim : ℕ
mode_non_blocking_trim = 1

-- The channel of `RttHeader::new`. The memory of `BUFFER` is not initialised: it may hold any bytes.
abbrev pub new : ℕ → List ℕ → Channel
new buf_size memory = record {
  size = as_u32 buf_size;
  write = 0;
  read = 0;
  flags = mode_non_blocking_trim;
  buffer = memory;
}

-- `flags & MODE_MASK == MODE_BLOCK_IF_FULL`; the mask is 0b11.
unfoldable pub host_is_connected : Channel → Bool
host_is_connected c = c.flags % 4 == mode_block_if_full

-- `ptr::copy_nonoverlapping` into the buffer at an offset.
abbrev pub copy : List ℕ → ℕ → List ℕ → List ℕ
copy buf offset [] = buf
copy buf offset (b ∷ bs) = copy (set buf offset b) (offset + 1) bs

module _ (buf_size : ℕ) where
  unfoldable pub available_buffer_size : ℕ → ℕ → ℕ
  available_buffer_size read write =
      if ltb write read
      then sub_usize (sub_usize read write) 1
      else add_usize (sub_usize (sub_usize buf_size write) 1) read

  -- The buffer after the copies of `write_impl`, of the first `len` of `bytes`.
  unfoldable pub copies : List ℕ → List ℕ → ℕ → ℕ → List ℕ
  copies buf bytes cursor len =
      if ltb buf_size (add_usize cursor len)
      then (let pivot = sub_usize buf_size cursor in
          copy (copy buf cursor (take pivot bytes)) 0
            (take (sub_usize len pivot) (drop pivot bytes)))
      else copy buf cursor (take len bytes)

  unfoldable pub write_impl : Channel → List ℕ → ℕ → ℕ → Channel × ℕ
  write_impl c bytes cursor available =
      let len = min (length bytes) available in
      (
        record c {
          buffer = copies c.buffer bytes cursor len;
          write = as_u32 (add_usize cursor len % buf_size);
        },
        len,
      )

  unfoldable pub blocking_write : Channel → List ℕ → Channel × ℕ
  blocking_write c bytes =
      if length bytes == 0
      then (c, 0)
      else (let available = available_buffer_size c.read c.write in
          if available == 0 then (c, 0) else write_impl c bytes c.write available)

  unfoldable pub nonblocking_write : Channel → List ℕ → Channel × ℕ
  nonblocking_write c bytes = write_impl c bytes c.write (available_buffer_size c.read c.write)

  -- `write_fn`, chosen once before the loop
  abbrev pub write_fn : Bool → Channel → List ℕ → Channel × ℕ
  write_fn true = blocking_write
  write_fn false = nonblocking_write

-- How a loop ends: it is through, with the bytes that it gave up, or it would go on.
pub data Progress : Type 0 where
  finished : Channel → (discarded : List ℕ) → Progress
  spinning : Channel → (rest : List ℕ) → Progress

module _ (buf_size : ℕ) (connected : Bool) where
  -- The loop of `write_all`.
  unfoldable pub write_loop : List ℕ → Channel → List ℕ → Progress
  write_loop reads c [] = finished c []
  write_loop [] c (b ∷ bs) = spinning c (b ∷ bs)
  write_loop (r ∷ reads) c (b ∷ bs) =
      let (c', consumed) = write_fn buf_size connected (record c { read = r }) (b ∷ bs) in
      let more = write_loop reads c' (drop consumed (b ∷ bs)) in
      if not (consumed == 0) then more else if not connected then finished c' (b ∷ bs) else more

unfoldable pub write_all : ℕ → List ℕ → Channel → List ℕ → Progress
write_all buf_size reads c bytes = write_loop buf_size (host_is_connected c) reads c bytes

-- The loop of `flush`: whether it ends within the loads that are given.
unfoldable pub flush_loop : List ℕ → Channel → Bool
flush_loop [] c = false
flush_loop (r ∷ reads) c = if r == c.write then true else flush_loop reads c

unfoldable pub flush : List ℕ → Channel → Bool
flush reads c = if not (host_is_connected c) then true else flush_loop reads c
