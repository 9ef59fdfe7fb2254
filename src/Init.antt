-- ===== src/Init.antt =====
-- src/lib.rs: `init`. The memory between the linker symbols is the list of its bytes.
pub mod Outcome
pub mod Interrupted
pub mod Restart
pub mod Board
mod Tests
use defmt_persist.Common.{
  ℕ, ◌+◌, ◌-◌, ◌/◌, ◌%◌, Bool, true, false, not, List, Option, none, some, if◌then◌else◌, leb, ◌==◌,
  length, i32_max,
}
use defmt_persist.Ring.{RingBuffer}
use defmt_persist.Ring.Consumer.{read, bufs}
use defmt_persist.Recover.{recover_or_reinitialize}
use defmt_persist.Layout.{Target, view}
use defmt_persist.Logger.{Features, Platform, World}

pub data InitError : Type 0 where
  already_initialized : InitError
  bad_alignment : InitError
  too_small : InitError
  too_large : InitError

-- The consumer is the other end of the region that the logger writes to.
pub record ConsumerAndMetadata : Type 0 where
  pub recovered_logs_len : ℕ

pub data Result : Type 0 where
  ok : ConsumerAndMetadata → Result
  err : InitError → Result

-- The static of `init`, and what the logger acts on.
pub record Statics (p : Platform) : Type 0 where
  pub called : Bool  -- INITIALIZED
  pub world : World p

-- The tests on the symbols, in their order.
unfoldable pub validate : Target → (start end : ℕ) → Option InitError
validate target start end =
    if not (start % target.align_of == 0)
    then some bad_alignment
    else if leb (end - start) target.size_of
    then some too_small
    else if leb (i32_max / 4) (end - start - target.size_of)
    then some too_large
    else none

module _ (p : Platform) where
  -- `LoggerState::initialize`
  unfoldable pub initialize : World p → RingBuffer → World p
  initialize w region = record w { ring = region; initialized = true }

  -- `init` until the logger has the producer.
  unfoldable pub init_start :
      Features → Target → Statics p → (start end : ℕ) → List ℕ → Statics p × Option InitError
  init_start features target s start end memory =
      let swapped : Statics p = record s { called = true } in
      if s.called then (swapped, some already_initialized) else elim (validate target start end) [
        | some e ↦ (swapped, some e)
        | none ↦ (
          record swapped {
            world = initialize s.world (recover_or_reinitialize features.ecc (view target memory));
          },
          none,
        )
      ]

  -- The rest of `init`.
  unfoldable pub init_finish : World p → ConsumerAndMetadata
  init_finish w =
      let (buf1, buf2) = bufs (read w.ring) in
      record { recovered_logs_len = length buf1 + length buf2 }

  -- What `init` returns: an early return, or what follows it.
  abbrev pub settle : Statics p × Option InitError → Statics p × Result
  settle (s, some e) = (s, err e)
  settle (s, none) = (s, ok (init_finish s.world))

  unfoldable pub init :
      Features → Target → Statics p → (start end : ℕ) → List ℕ → Statics p × Result
  init features target s start end memory = settle (init_start features target s start end memory)
