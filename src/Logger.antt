-- ===== src/Logger.antt =====
-- src/logger.rs: the global logger. The encoder of defmt, the critical section and the wakers are code
-- of other crates or hardware: a `Platform`. The outputs to RTT and semihosting are fields of it too,
-- so that the logger stands by itself.
pub mod Reentrant
pub mod Emitted
pub mod Frame
pub mod Preempted
pub mod Board
pub mod Unattended
mod Tests
use defmt_persist.Common.{
  ℕ, ◌+◌, ◌-◌, ◌<◌, Bool, true, false, not, List, [], ◌∷◌, ◌++◌, Option, none, some, ◌>>=◌,
  if◌then◌else◌, ltb, ◌==◌, add_usize, sub_usize,
}
use defmt_persist.Ring.{RingBuffer}
use defmt_persist.Ring.Producer
use defmt_persist.Waker.{AtomicWaker, wake}

-- The features of Cargo.toml.
pub record Features : Type 0 where
  pub ecc : Bool
  pub rtt : Bool
  pub async_await : Bool
  pub qemu_test : Bool

-- An encoder hands its callback the chunks of a call one by one, which the model lists. A write to
-- RTT is `none` where it does not come to an end.
pub record Platform : Type 1 where
  pub Encoder : Type 0
  pub start_frame : Encoder → Encoder × List (List ℕ)
  pub encode : Encoder → List ℕ → Encoder × List (List ℕ)
  pub end_frame : Encoder → Encoder × List (List ℕ)
  pub RestoreState : Type 0
  pub Cpu : Type 0
  pub cs_acquire : Cpu → RestoreState × Cpu
  pub cs_release : RestoreState → Cpu → Cpu
  pub Rtt : Type 0
  pub rtt_write : Rtt → List ℕ → Option Rtt
  pub rtt_flush : Rtt → Option Rtt
  pub Semihosting : Type 0
  pub semihosting_write : Semihosting → List ℕ → Semihosting
  pub Waker : Type 0

-- `LOGGER_STATE`, with what the logger acts on: the region of the producer, the CPU, the outputs, the
-- waker slot, and the wakers that were woken, latest first.
pub record World (p : Platform) : Type 0 where
  pub ring : RingBuffer
  pub initialized : Bool
  pub depth : ℕ  -- AtomicUsize
  pub cs_state : p.RestoreState
  pub encoder : p.Encoder
  pub cpu : p.Cpu
  pub rtt : p.Rtt
  pub semihosting : p.Semihosting
  pub waker : AtomicWaker p.Waker
  pub woken : List p.Waker

module _ (features : Features) (p : Platform) where
  -- `LoggerState::write`
  unfoldable pub state_write : World p → List ℕ → World p
  state_write w bytes =
      if w.initialized then record w { ring = Producer.write features.ecc w.ring bytes } else w

  abbrev pub rtt_output : World p → List ℕ → Option (World p)
  rtt_output w bytes =
      if features.rtt
      then (do rtt' ← p.rtt_write w.rtt bytes; some (record w { rtt = rtt' }))
      else some w

  abbrev pub semihosting_output : World p → List ℕ → World p
  semihosting_output w bytes =
      if features.qemu_test
      then record w { semihosting = p.semihosting_write w.semihosting bytes }
      else w

  unfoldable pub write_all : World p → List ℕ → Option (World p)
  write_all w bytes = do
    w' ← rtt_output (state_write w bytes) bytes
    some (semihosting_output w' bytes)

  -- The callback on each chunk.
  unfoldable pub output : World p → List (List ℕ) → Option (World p)
  output w [] = some w
  output w (chunk ∷ chunks) = do w' ← write_all w chunk; output w' chunks

  unfoldable pub acquire : World p → Option (World p)
  acquire w =
      let w1 : World p = record w { depth = add_usize w.depth 1 } in
      if ltb 0 w.depth
      then some w1
      else (let (restore, cpu') = p.cs_acquire w.cpu in
          let (encoder', chunks) = p.start_frame w.encoder in
          output (record w1 { cs_state = restore; cpu = cpu'; encoder = encoder' }) chunks)

  unfoldable pub flush : World p → Option (World p)
  flush w =
      if not (w.depth == 1)
      then some w
      else if features.rtt
      then (do rtt' ← p.rtt_flush w.rtt; some (record w { rtt = rtt' }))
      else some w

  -- `WAKER.wake()`
  unfoldable pub wake_waker : World p → World p
  wake_waker w =
      let (slot, taken) = wake w.waker in
      elim taken [
        | none ↦ record w { waker = slot }
        | some x ↦ record w { waker = slot; woken = x ∷ w.woken }
      ]

  unfoldable pub leave : World p → World p
  leave w =
      let left : World p = record w { cpu = p.cs_release w.cs_state w.cpu } in
      if features.async_await then wake_waker left else left

  -- `release`: the `fetch_sub`, and what follows it at depth 1.
  unfoldable pub release_start : World p → World p
  release_start w = record w { depth = sub_usize w.depth 1 }

  unfoldable pub release_finish : World p → Option (World p)
  release_finish w =
      let (encoder', chunks) = p.end_frame w.encoder in
      do w' ← output (record w { encoder = encoder' }) chunks; some (leave w')

  unfoldable pub release : World p → Option (World p)
  unfolding release_start release_finish
  release w =
      if not (w.depth == 1) then some (release_start w) else release_finish (release_start w)

  unfoldable pub write : World p → List ℕ → Option (World p)
  write w bytes =
      if not (w.depth == 1)
      then some w
      else (let (encoder', chunks) = p.encode w.encoder bytes in
          output (record w { encoder = encoder' }) chunks)
