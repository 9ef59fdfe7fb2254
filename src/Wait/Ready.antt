-- ===== src/Wait/Ready.antt =====
-- What it means that `Consumer::wait_for_data` of src/ring_buffer.rs is over.
use defmt_persist.Common.{
  Bool, true, List, [], ◌∷◌, ◌++◌, ◌≡◌, ◌≢◌, refl, sym, ap, ◌∙◌, arith, ℕ, take, length, ◌-◌,
}
use defmt_persist.Ring.{RingBuffer}
use defmt_persist.Ring.Consumer.{is_empty}
use defmt_persist.Ring.Window.{contents}
use defmt_persist.Ring.Bounds.{IsValid}
use defmt_persist.Ring.Read.{is_empty_iff}
use defmt_persist.Ring.Write.{write-IsValid, contents-write}
use defmt_persist.Wait.{
  Task, Poll, pending, ready, poll_ring, unpolled, polled, Waiting, Step, first_poll, poll_again,
  check, log_bytes, wake_up, Steps, stay, ◌⟶◌,
}

append_nonempty : (xs ys : List ℕ) → xs ≢ [] → xs ++ ys ≢ []
append_nonempty [] ys h e = h refl
append_nonempty (x ∷ xs) ys h e = ground arith

check-data_there : (r : RingBuffer) → IsValid r → poll_ring r ≡ ready → contents r ≢ []
unfolding poll_ring
check-data_there r v e none_there =
    let empty : is_empty r ≡ true = (is_empty_iff r v).1 none_there in ground arith

module _ {Waker : Type 0} where
  -- The result of the last poll.
  abbrev task_poll : Task Waker → Poll
  task_poll (polled _ result) = result
  task_poll _ = pending

  -- The ring stays valid, and holds data once the future is over.
  record Inv (s : Waiting Waker) : Type 0 where
    pub valid : IsValid s.ring
    pub data_there : (cx : Waker) → s.task ≡ polled cx ready → contents s.ring ≢ []

  Step-Inv : (ecc : Bool) {s t : Waiting Waker} → Step ecc s t → Inv s → Inv t
  Step-Inv ecc (first_poll cx h) i = record { valid = i.valid; data_there = λ cx' e. ground arith }
  Step-Inv ecc (poll_again cx h) i = record { valid = i.valid; data_there = λ cx' e. ground arith }
  Step-Inv ecc (check {s} cx h) i = record {
    valid = i.valid;
    data_there = λ cx' e. check-data_there s.ring i.valid (ap task_poll e);
  }
  Step-Inv ecc (log_bytes {s} bytes h) i = record {
    valid = write-IsValid ecc s.ring bytes i.valid;
    data_there = λ cx' e none_there.
        append_nonempty (contents s.ring)
          (take (length s.ring.buf - 1 - length (contents s.ring)) bytes) (i.data_there cx' e)
          (sym (contents-write ecc s.ring bytes i.valid) ∙ none_there);
  }
  Step-Inv ecc (wake_up h) i = record { valid = i.valid; data_there = i.data_there }

  Steps-Inv : (ecc : Bool) {s t : Waiting Waker} → Steps ecc s t → Inv s → Inv t
  Steps-Inv ecc stay i = i
  Steps-Inv ecc (step ⟶ steps) i = Steps-Inv ecc steps (Step-Inv ecc step i)

  -- In every interleaving of wait_for_data with a logger, from a valid ring, the ring holds data
  -- once the future is over.
  pub ready_lem :
      (ecc : Bool) (s t : Waiting Waker) (cx : Waker)
      → s.task ≡ unpolled
      → IsValid s.ring
      → Steps ecc s t
      → t.task ≡ polled cx ready
      → contents t.ring ≢ []
  ready_lem ecc s t cx start v steps =
      (Steps-Inv ecc steps (record { valid = v; data_there = λ cx' e. ground arith })).data_there cx
