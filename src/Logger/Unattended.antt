-- ===== src/Logger/Unattended.antt =====
-- The channel of src/logger/rtt.rs as the output of the logger of src/logger.rs, while no host is
-- attached: nothing reads, and the mode is not the blocking one.
use defmt_persist.Common.{
  ℕ, ◌-◌, zero, suc, ◌≡◌, ◌≢◌, refl, sym, ap, subst, ◌∙◌, true, false, List, [], ◌∷◌, Option, none,
  some, ◌==◌, ◌%◌, drop, if◌then◌else◌, length, length-replicate, replicate, arith, Bool-cases, inl,
  inr,
}
use mathlib.Core.Option.{some-ne-none}
use defmt_persist.Rtt.{
  Channel, Progress, finished, spinning, write_fn, write_loop, write_all, flush, host_is_connected,
  mode_block_if_full,
}
use defmt_persist.Rtt.Bounds
use defmt_persist.Ring.Window.{contents}
use defmt_persist.Ring.Bounds.{IsValid}
use defmt_persist.Logger.{Features, Platform, World}
use defmt_persist.Logger.Reentrant.{run}
use defmt_persist.Logger.Emitted.{queue_after, frame_chunks, frame_events}
use defmt_persist.Logger.Frame.{frame_lem}
use defmt_persist.Rtt.Impl.{write_fn-Took}
use defmt_persist.Rtt.Stream.{HostMove, HostPlays, seen-IsValid, channel, write_all-stream}
use defmt_persist.Rtt.Finish.{IsFinished, write_all-nonblocking}

module _ (buf_size : ℕ) where
  pub record Unattended : Type 0 where
    pub rtt : Channel
    pub valid : Bounds.IsValid buf_size rtt
    pub detached : host_is_connected rtt ≡ false

  still : (c : Channel) → Bounds.IsValid buf_size c → HostMove buf_size c c.read
  still c v = record { inside = v.read_in; forward = ground (arith, v.read_in, v.write_in) }

  -- Each load of `read` sees what was there.
  still-HostPlays :
      (n : ℕ) (c : Channel) (bytes : List ℕ)
      → Bounds.IsValid buf_size c
      → HostPlays buf_size false (HostMove buf_size) (replicate n c.read) c bytes
  still-HostPlays zero c [] v = tt
  still-HostPlays zero c (b ∷ bs) v = tt
  still-HostPlays (suc n) c [] v = tt
  still-HostPlays (suc n) c (b ∷ bs) v =
      let out = write_fn buf_size false c (b ∷ bs) in
      let took = write_fn-Took buf_size c (b ∷ bs) v false in
      (
        still c v,
        subst
            (λ r.
              HostPlays buf_size false (HostMove buf_size) (replicate n r) out.0
                (drop out.1 (b ∷ bs)))
            took.read (still-HostPlays n out.0 (drop out.1 (b ∷ bs)) took.valid),
      )

  flags-write_loop :
      (reads : List ℕ) (c : Channel) (bytes : List ℕ)
      → Bounds.IsValid buf_size c
      → HostPlays buf_size false (HostMove buf_size) reads c bytes
      → (channel (write_loop buf_size false reads c bytes)).flags ≡ c.flags
  unfolding write_loop
  flags-write_loop reads c [] v h = refl
  flags-write_loop [] c (b ∷ bs) v h = refl
  flags-write_loop (r ∷ reads) c (b ∷ bs) v h =
      let out = write_fn buf_size false (record c { read = r }) (b ∷ bs) in
      let took =
        write_fn-Took buf_size (record c { read = r }) (b ∷ bs) (seen-IsValid buf_size c r v h.0)
          false in
      elim (Bool-cases (out.1 == 0)) [
        | inl e ↦ rw e took.flags
        | inr e ↦
            rw e (flags-write_loop reads out.0 (drop out.1 (b ∷ bs)) took.valid h.1 ∙ took.flags)
      ]

  abbrev pub settle :
      (p : Progress)
      → Bounds.IsValid buf_size (channel p)
      → host_is_connected (channel p) ≡ false
      → Option Unattended
  settle (finished c _) v d = some (record { rtt = c; valid = v; detached = d })
  settle (spinning _ _) v d = none

  settle-ends :
      (p : Progress) (v : Bounds.IsValid buf_size (channel p))
      (d : host_is_connected (channel p) ≡ false)
      → IsFinished p
      → settle p v d ≢ none
  settle-ends (finished c _) v d f = some-ne-none (record { rtt = c; valid = v; detached = d })
  settle-ends (spinning _ _) v d f = absurd f

  module _ (s : Unattended) (bytes : List ℕ) where
    abbrev reads : List ℕ
    reads = replicate (length bytes) s.rtt.read

    plays : HostPlays buf_size false (HostMove buf_size) reads s.rtt bytes
    plays = still-HostPlays (length bytes) s.rtt bytes s.valid

    after-IsValid : Bounds.IsValid buf_size (channel (write_all buf_size reads s.rtt bytes))
    after-IsValid =
        (write_all-stream buf_size reads s.rtt bytes s.valid (
          subst (λ b. HostPlays buf_size b (HostMove buf_size) reads s.rtt bytes) (sym s.detached)
            plays)).0

    after_flags : (channel (write_all buf_size reads s.rtt bytes)).flags ≡ s.rtt.flags
    unfolding write_all
    after_flags = rw s.detached (flags-write_loop reads s.rtt bytes s.valid plays)

    after_detached : host_is_connected (channel (write_all buf_size reads s.rtt bytes)) ≡ false
    unfolding host_is_connected
    after_detached = ap (λ flags. flags % 4 == mode_block_if_full) after_flags ∙ s.detached

    -- The write of a chunk.
    pub rtt_write : Option Unattended
    rtt_write = settle (write_all buf_size reads s.rtt bytes) after-IsValid after_detached

    -- It comes to an end.
    pub rtt_write-ends : rtt_write ≢ none
    unfolding rtt_write
    rtt_write-ends =
        settle-ends (write_all buf_size reads s.rtt bytes) after-IsValid after_detached (
          write_all-nonblocking buf_size reads s.rtt bytes s.valid s.detached plays
            (omega (arith, length-replicate (length bytes) s.rtt.read)))

-- A platform with this channel for its RTT.
abbrev pub with_channel : ℕ → Platform → Platform
with_channel buf_size p = record p {
  Rtt = Unattended buf_size;
  rtt_write = rtt_write buf_size;
  rtt_flush = λ s. if flush [] s.rtt then some s else none;
}

-- With the channel of rtt.rs for the RTT output, no host attached, any whole frame of an
-- initialised logger, at depth 0 and with a valid ring, comes to an end, and adds to the ring what
-- fits of each chunk of the encoder, in order, where cs_release undoes cs_acquire.
pub frame-with_channel :
    (features : Features) (p : Platform) (buf_size : ℕ)
    → let q = with_channel buf_size p in
      (bs : List (List ℕ)) (w : World q)
      → w.depth ≡ 0
      → w.initialized ≡ true
      → IsValid w.ring
      → q.cs_release (q.cs_acquire w.cpu).0 (q.cs_acquire w.cpu).1 ≡ w.cpu
      → (w' : World q) × (run features q w (frame_events bs) ≡ some w')
        × (contents w'.ring
            ≡ queue_after (length w.ring.buf - 1) (contents w.ring) (frame_chunks q w.encoder bs))
frame-with_channel features p buf_size bs w idle on v law =
    let (w', ok, d, c, v', e) =
      frame_lem features (with_channel buf_size p) (rtt_write-ends buf_size) bs w idle on v law in
    (w', ok, e)
