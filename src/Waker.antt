-- ===== src/Waker.antt =====
-- src/atomic_waker.rs. Each method runs in one critical section, so it is one step.
use defmt_persist.Common.{Option, none, some}

-- `AtomicWaker`; a waker is of core::task.
pub record AtomicWaker (Waker : Type 0) : Type 0 where
  pub waker : Option Waker

module _ {Waker : Type 0} where
  unfoldable pub register : AtomicWaker Waker → Waker → AtomicWaker Waker
  register a new_waker = record a { waker = some new_waker }

  -- The slot afterwards, and the waker that is woken.
  unfoldable pub wake : AtomicWaker Waker → AtomicWaker Waker × Option Waker
  wake a = (record a { waker = none }, a.waker)

abbrev pub new : (Waker : Type 0) → AtomicWaker Waker
new Waker = record { waker = none }
