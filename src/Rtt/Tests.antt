-- ===== src/Rtt/Tests.antt =====
-- The channel of src/logger/rtt.rs at concrete states.
use defmt_persist.Common.{ℕ, ◌≡◌, refl, true, false, List, [], ◌∷◌, ◌++◌, arith, replicate}
use defmt_persist.Rtt.{
  Channel, Progress, new, host_is_connected, available_buffer_size, copies, write_impl,
  blocking_write, nonblocking_write, write_loop, write_all,
}
use defmt_persist.Rtt.Bounds.{IsValid, pending}
use defmt_persist.Rtt.Stream.{HostMove, HostPlays, history, channel, left_over, write_all-stream}
use defmt_persist.Rtt.Finish.{IsFinished, Draining, write_all-nonblocking, write_all-blocking}

-- The host has read two bytes of a channel that is nearly full, where the next byte to write goes to
-- the front of the buffer; it is in blocking mode or not.
abbrev nearly_full : ℕ → Channel
nearly_full flags = record (new 32 (replicate 32 5)) { read = 2; write = 0; flags = flags }

nearly_full-IsValid : (flags : ℕ) → IsValid 32 (nearly_full flags)
nearly_full-IsValid flags = omega arith

-- Before the first round the host reads one more byte, and then two.
abbrev reads : List ℕ
reads = 3 ∷ 5 ∷ 5 ∷ []

trims :
    write_all 32 (2 ∷ 2 ∷ []) (nearly_full 1) (1 ∷ 2 ∷ 3 ∷ [])
    ≡ Progress.finished
        (record (nearly_full 1) { write = 1; buffer = 1 ∷ replicate 31 5 })
        (2 ∷ 3 ∷ [])
unfolding write_all write_loop host_is_connected nonblocking_write write_impl copies
    available_buffer_size
trims = refl

nonblocking_host : HostPlays 32 false (HostMove 32) reads (nearly_full 1) (1 ∷ 2 ∷ 3 ∷ [])
unfolding nonblocking_write write_impl copies available_buffer_size
nonblocking_host = omega arith

blocking_host : HostPlays 32 true (Draining 32) reads (nearly_full 2) (1 ∷ 2 ∷ 3 ∷ [])
unfolding blocking_write write_impl copies available_buffer_size
blocking_host = omega arith

not_connected : host_is_connected (nearly_full 1) ≡ false
unfolding host_is_connected
not_connected = refl

connected : host_is_connected (nearly_full 2) ≡ true
unfolding host_is_connected
connected = refl

moves :
    HostPlays 32
      (host_is_connected (nearly_full 1))
      (HostMove 32)
      reads
      (nearly_full 1)
      (1 ∷ 2 ∷ 3 ∷ [])
unfolding host_is_connected
moves = nonblocking_host

write_all-stream_example :
    let p = write_all 32 reads (nearly_full 1) (1 ∷ 2 ∷ 3 ∷ []) in
    IsValid 32 (channel p)
    × (history 32 (host_is_connected (nearly_full 1)) reads (nearly_full 1) (1 ∷ 2 ∷ 3 ∷ [])
          ++ (pending 32 (channel p) ++ left_over p)
        ≡ pending 32 (nearly_full 1) ++ 1 ∷ 2 ∷ 3 ∷ [])
write_all-stream_example =
    write_all-stream 32 reads (nearly_full 1) (1 ∷ 2 ∷ 3 ∷ []) (nearly_full-IsValid 1) moves

write_all-nonblocking_example : IsFinished (write_all 32 reads (nearly_full 1) (1 ∷ 2 ∷ 3 ∷ []))
write_all-nonblocking_example =
    write_all-nonblocking 32 reads (nearly_full 1) (1 ∷ 2 ∷ 3 ∷ []) (nearly_full-IsValid 1)
      not_connected nonblocking_host (omega arith)

write_all-blocking_example :
    IsFinished (write_all 32 reads (nearly_full 2) (1 ∷ 2 ∷ 3 ∷ []))
    × (left_over (write_all 32 reads (nearly_full 2) (1 ∷ 2 ∷ 3 ∷ [])) ≡ [])
write_all-blocking_example =
    write_all-blocking 32 reads (nearly_full 2) (1 ∷ 2 ∷ 3 ∷ []) (nearly_full-IsValid 2) connected
      blocking_host (omega arith)
