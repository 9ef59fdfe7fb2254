-- ===== src/Wait.antt =====
-- src/ring_buffer.rs, `Consumer::wait_for_data`, beside a logger that writes to the ring and then
-- wakes, as `release` of src/logger.rs does. Each step runs without interruption.
pub mod NoLost
pub mod Ready
mod Tests
use defmt_persist.Common.{Bool, true, false, ◌||◌, ℕ, List, ◌≡◌, if◌then◌else◌, Option, none, some}
use defmt_persist.Ring.{RingBuffer}
use defmt_persist.Ring.Producer
use defmt_persist.Ring.Consumer.{is_empty}
use defmt_persist.Waker.{AtomicWaker, register, wake}

pub data Poll : Type 0 where
  pending : Poll
  ready : Poll

-- The closure of `poll_fn`, after its first call.
unfoldable pub poll_ring : RingBuffer → Poll
poll_ring r = if is_empty r then pending else ready

-- Where the task is: not polled yet, between the two calls of the closure, or after it. It goes with
-- the waker of its last poll.
pub data Task (Waker : Type 0) : Type 0 where
  unpolled : Task Waker
  registered : Waker → Task Waker
  polled : Waker → Poll → Task Waker

-- Where the logger is.
pub data Log : Type 0 where
  idle : Log
  wrote : Log

-- `woken` is the waker that was woken last since the last poll.
pub record Waiting (Waker : Type 0) : Type 0 where
  pub ring : RingBuffer
  pub slot : AtomicWaker Waker
  pub woken : Option Waker
  pub task : Task Waker
  pub log : Log

module _ {Waker : Type 0} where
  abbrev pub or_else : Option Waker → Option Waker → Option Waker
  or_else (some w) _ = some w
  or_else none before = before

  abbrev pub after_register : Waiting Waker → Waker → Waiting Waker
  after_register s cx = record s { slot = register s.slot cx; woken = none; task = registered cx }

  abbrev pub after_check : Waiting Waker → Waker → Waiting Waker
  after_check s cx = record s { task = polled cx (poll_ring s.ring) }

  abbrev pub after_write : Bool → Waiting Waker → List ℕ → Waiting Waker
  after_write ecc s bytes = record s { ring = Producer.write ecc s.ring bytes; log = wrote }

  abbrev pub after_wake : Waiting Waker → Waiting Waker
  after_wake s =
      let (slot', taken) = wake s.slot in
      record s { slot = slot'; woken = or_else taken s.woken; log = idle }

-- An executor polls a task again after a wake-up, and may do so without one.
pub data Step {Waker : Type 0} (ecc : Bool) : Waiting Waker → Waiting Waker → Type 0 where
  first_poll :
      {s : Waiting Waker} (cx : Waker) → s.task ≡ unpolled → Step ecc s (after_register s cx)
  poll_again :
      {s : Waiting Waker} {before : Waker} (cx : Waker)
      → s.task ≡ polled before pending
      → Step ecc s (after_register s cx)
  check : {s : Waiting Waker} (cx : Waker) → s.task ≡ registered cx → Step ecc s (after_check s cx)
  log_bytes :
      {s : Waiting Waker} (bytes : List ℕ) → s.log ≡ idle → Step ecc s (after_write ecc s bytes)
  wake_up : {s : Waiting Waker} → s.log ≡ wrote → Step ecc s (after_wake s)

infixr 30 ◌⟶◌
pub data Steps {Waker : Type 0} (ecc : Bool) : Waiting Waker → Waiting Waker → Type 0 where
  stay : {s : Waiting Waker} → Steps ecc s s
  ◌⟶◌ : {s t u : Waiting Waker} → Step ecc s t → Steps ecc t u → Steps ecc s u
