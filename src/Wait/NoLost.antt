-- ===== src/Wait/NoLost.antt =====
-- No wake-up is lost in `Consumer::wait_for_data` of src/ring_buffer.rs.
use mathlib.Core.Option.{none-ne-some}
use defmt_persist.Common.{
  ap, sym, ◌∙◌, Bool, false, ◌≡◌, ◌⊎◌, inl, inr, refl, Option, none, some, arith,
}
use defmt_persist.Ring.Consumer.{is_empty}
use defmt_persist.Waker.{register, wake}
use defmt_persist.Wait.{
  Task, registered, pending, poll_ring, unpolled, polled, idle, wrote, Waiting, after_wake, Step,
  first_poll, poll_again, check, log_bytes, wake_up, Steps, stay, ◌⟶◌,
}

module _ {Waker : Type 0} where
  abbrev task_waker : Task Waker → Option Waker
  task_waker unpolled = none
  task_waker (registered cx) = some cx
  task_waker (polled cx _) = some cx

  -- The task can be woken by a waker, or was.
  abbrev Wakeable : Waker → Waiting Waker → Type 0
  Wakeable cx s = (s.slot.waker ≡ some cx) ⊎ ((s.slot.waker ≡ none) × (s.woken ≡ some cx))

  -- After a poll the task can be woken by the waker of that poll, or was; and where it is pending and
  -- there is data, it was woken or will be.
  record Inv (s : Waiting Waker) : Type 0 where
    pub wakeable : (cx : Waker) → task_waker s.task ≡ some cx → Wakeable cx s
    pub informed :
        (cx : Waker)
        → s.task ≡ polled cx pending
        → is_empty s.ring ≡ false
        → (s.woken ≡ some cx) ⊎ (s.log ≡ wrote)

  is_woken : (s : Waiting Waker) (cx : Waker) → Wakeable cx s → (after_wake s).woken ≡ some cx
  unfolding wake
  is_woken s cx (inl there) = rw there refl
  is_woken s cx (inr (empty, before)) = rw empty before

  Step-Inv : (ecc : Bool) {s t : Waiting Waker} → Step ecc s t → Inv s → Inv t
  unfolding register wake poll_ring
  Step-Inv ecc (first_poll cx h) i = record {
    wakeable = λ cx' e. inl e;
    informed = λ cx' e _. ground arith;
  }
  Step-Inv ecc (poll_again cx h) i = record {
    wakeable = λ cx' e. inl e;
    informed = λ cx' e _. ground arith;
  }
  Step-Inv ecc (check cx h) i = record {
    wakeable = λ cx' e. i.wakeable cx' (ap task_waker h ∙ e);
    informed = λ cx' e n. ground arith;
  }
  Step-Inv ecc (log_bytes bytes h) i = record {
    wakeable = i.wakeable;
    informed = λ _ _ _. inr refl;
  }
  Step-Inv ecc (wake_up {s} h) i = record {
    wakeable = λ cx' e. inr (refl, is_woken s cx' (i.wakeable cx' e));
    informed = λ cx' e _. inl (is_woken s cx' (i.wakeable cx' (ap task_waker e)));
  }

  Steps-Inv : (ecc : Bool) {s t : Waiting Waker} → Steps ecc s t → Inv s → Inv t
  Steps-Inv ecc stay i = i
  Steps-Inv ecc (step ⟶ steps) i = Steps-Inv ecc steps (Step-Inv ecc step i)

  -- In every interleaving of wait_for_data with a logger that writes and then wakes: when the task
  -- is pending, the logger is between frames and there is data, the waker of the last poll was
  -- woken.
  pub woken_lem :
      (ecc : Bool) (s t : Waiting Waker) (cx : Waker)
      → s.task ≡ unpolled
      → Steps ecc s t
      → t.task ≡ polled cx pending
      → t.log ≡ idle
      → is_empty t.ring ≡ false
      → t.woken ≡ some cx
  woken_lem ecc s t cx start steps waits quiet data_there =
      let i = Steps-Inv ecc steps (record {
        wakeable = λ cx' e. absurd (none-ne-some cx' (ap task_waker (sym start) ∙ e));
        informed = λ cx' e _. ground arith;
      }) in
      elim (i.informed cx waits data_there) [
        | inl yes_woken ↦ yes_woken
        | inr writing ↦ ground arith
      ]
