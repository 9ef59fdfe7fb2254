-- ===== src/Rtt/Finish.antt =====
-- When `write_all` and `flush` of src/logger/rtt.rs come to an end.
use defmt_persist.Common.{
  ℕ, ◌≤◌, ◌<◌, ◌≡◌, refl, true, false, List, [], ◌∷◌, ◌==◌, length, drop, length-drop, arith,
  Bool-cases, ==→eq, ==→ne, inl, inr,
}
use defmt_persist.Rtt.{
  Channel, Progress, finished, spinning, write_fn, write_loop, write_all, host_is_connected,
}
use defmt_persist.Rtt.Bounds.{IsValid, room}
use defmt_persist.Rtt.Impl.{write_fn-Took}
use defmt_persist.Rtt.Stream.{HostMove, HostPlays, seen-IsValid, left_over}

abbrev pub IsFinished : Progress → Type 0
IsFinished (finished _ _) = Unit
IsFinished (spinning _ _) = ⊥

module _ (buf_size : ℕ) where
  -- Without a host in blocking mode, each round takes a byte or ends the loop.
  nonblocking-IsFinished :
      (reads : List ℕ) (c : Channel) (bytes : List ℕ)
      → IsValid buf_size c
      → HostPlays buf_size false (HostMove buf_size) reads c bytes
      → length bytes ≤ length reads
      → IsFinished (write_loop buf_size false reads c bytes)
  unfolding write_loop
  nonblocking-IsFinished reads c [] v h l = tt
  nonblocking-IsFinished [] c (b ∷ bs) v h l = absurd (omega arith)
  nonblocking-IsFinished (r ∷ reads) c (b ∷ bs) v h l =
      let out = write_fn buf_size false (record c { read = r }) (b ∷ bs) in
      let took =
        write_fn-Took buf_size (record c { read = r }) (b ∷ bs) (seen-IsValid buf_size c r v h.0)
          false in
      elim (Bool-cases (out.1 == 0)) [
        | inl e ↦ rw e tt
        | inr e ↦ rw e (
            nonblocking-IsFinished reads out.0 (drop out.1 (b ∷ bs)) took.valid h.1
              (omega (arith, length-drop out.1 (b ∷ bs), ==→ne out.1 0 e)))
      ]

  -- The host moves forward and makes room.
  pub record Draining (c : Channel) (r : ℕ) : Type 0 where
    pub move : HostMove buf_size c r
    pub some_room : 0 < room buf_size (record c { read = r })

  blocking-IsFinished :
      (reads : List ℕ) (c : Channel) (bytes : List ℕ)
      → IsValid buf_size c
      → HostPlays buf_size true Draining reads c bytes
      → length bytes ≤ length reads
      → IsFinished (write_loop buf_size true reads c bytes)
        × (left_over (write_loop buf_size true reads c bytes) ≡ [])
  unfolding write_loop
  blocking-IsFinished reads c [] v h l = (tt, refl)
  blocking-IsFinished [] c (b ∷ bs) v h l = absurd (omega arith)
  blocking-IsFinished (r ∷ reads) c (b ∷ bs) v h l =
      let out = write_fn buf_size true (record c { read = r }) (b ∷ bs) in
      let took =
        write_fn-Took buf_size (record c { read = r }) (b ∷ bs)
          (seen-IsValid buf_size c r v h.0.move) true in
      elim (Bool-cases (out.1 == 0)) [
        | inl e ↦ absurd (omega (arith, ==→eq out.1 0 e, took.count, h.0.some_room))
        | inr e ↦ rw e (
            blocking-IsFinished reads out.0 (drop out.1 (b ∷ bs)) took.valid h.1
              (omega (arith, length-drop out.1 (b ∷ bs), ==→ne out.1 0 e)))
      ]

-- Where no host is in blocking mode, write_all on a valid channel ends after at most one round for
-- each byte, with a host that only moves forward over bytes that are there.
pub write_all-nonblocking :
    (buf_size : ℕ) (reads : List ℕ) (c : Channel) (bytes : List ℕ)
    → IsValid buf_size c
    → host_is_connected c ≡ false
    → HostPlays buf_size false (HostMove buf_size) reads c bytes
    → length bytes ≤ length reads
    → IsFinished (write_all buf_size reads c bytes)
unfolding write_all
write_all-nonblocking buf_size reads c bytes v e h l =
    rw e (nonblocking-IsFinished buf_size reads c bytes v h l)

-- In blocking mode, with a host that makes room before each round, write_all on a valid channel
-- ends after at most one round for each byte and gives up no byte.
pub write_all-blocking :
    (buf_size : ℕ) (reads : List ℕ) (c : Channel) (bytes : List ℕ)
    → IsValid buf_size c
    → host_is_connected c ≡ true
    → HostPlays buf_size true (Draining buf_size) reads c bytes
    → length bytes ≤ length reads
    → IsFinished (write_all buf_size reads c bytes)
      × (left_over (write_all buf_size reads c bytes) ≡ [])
unfolding write_all
write_all-blocking buf_size reads c bytes v e h l =
    rw e (blocking-IsFinished buf_size reads c bytes v h l)
