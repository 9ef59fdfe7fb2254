-- ===== src/Wait/Tests.antt =====
-- `Consumer::wait_for_data` of src/ring_buffer.rs, polled once before and once after a log.
use defmt_persist.Common.{ℕ, ◌≡◌, ◌≢◌, refl, false, [], ◌∷◌, none, some, arith}
use defmt_persist.Ring.{RingBuffer}
use defmt_persist.Ring.Producer
use defmt_persist.Ring.Producer.{available, copy, copy_stores, write_stores}
use defmt_persist.Ring.Consumer.{is_empty}
use defmt_persist.Ring.Window.{contents}
use defmt_persist.Waker.{register, wake}
use defmt_persist.Wait.{
  Waiting, unpolled, polled, pending, ready, idle, poll_ring, Steps, stay, ◌⟶◌, first_poll,
  poll_again, check, log_bytes, wake_up,
}
use defmt_persist.Wait.NoLost.{woken_lem}
use defmt_persist.Wait.Ready.{ready_lem}

abbrev at_start : Waiting ℕ
at_start = record {
  ring = record { header = 0; read = 2; write = 2; ecc_flush = 0; buf = 0 ∷ 0 ∷ 0 ∷ 0 ∷ [] };
  slot = record { waker = none };
  woken = none;
  task = unpolled;
  log = idle;
}

-- The ring after the log.
abbrev filled : RingBuffer
filled = record { header = 0; read = 2; write = 0; ecc_flush = 0; buf = 0 ∷ 0 ∷ 7 ∷ 8 ∷ [] }

abbrev told : Waiting ℕ
told = record {
  ring = filled;
  slot = record { waker = none };
  woken = some 5;
  task = polled 5 pending;
  log = idle;
}

polled_and_told : Steps false at_start told
unfolding poll_ring is_empty register wake Producer.write write_stores copy_stores available copy
polled_and_told =
    first_poll 5 refl ⟶ check 5 refl ⟶ log_bytes (7 ∷ 8 ∷ []) refl ⟶ wake_up refl ⟶ stay

data_there : is_empty filled ≡ false
unfolding is_empty
data_there = refl

woken_lem_example : told.woken ≡ some 5
woken_lem_example = woken_lem false at_start told 5 refl polled_and_told refl refl data_there

abbrev over : Waiting ℕ
over = record told { slot = record { waker = some 6 }; woken = none; task = polled 6 ready }

polled_twice : Steps false at_start over
unfolding poll_ring is_empty register wake Producer.write write_stores copy_stores available copy
polled_twice =
    first_poll 5 refl
    ⟶ check 5 refl
    ⟶ log_bytes (7 ∷ 8 ∷ []) refl
    ⟶ wake_up refl
    ⟶ poll_again 6 refl
    ⟶ check 6 refl
    ⟶ stay

ready_lem_example : contents over.ring ≢ []
ready_lem_example = ready_lem false at_start over 6 refl (omega arith) polled_twice refl
