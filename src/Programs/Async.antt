-- ===== src/Programs/Async.antt =====
-- testsuite/examples/async_test.rs: a task that logs and a task that waits for data, joined. What they
-- share is `none` when a log call or a drain does not end.
pub mod Rounds
pub mod Sent
pub mod Started
use defmt_persist.Common.{
  ℕ, zero, suc, Bool, true, false, List, [], ◌∷◌, length, Option, none, some, ◌>>=◌, if◌then◌else◌,
}
use defmt_persist.Ring.Consumer.{is_empty}
use defmt_persist.Waker.{register}
use defmt_persist.Layout.{Target}
use defmt_persist.Logger.{Features, Platform}
use defmt_persist.Testsuite.Futures.{Poll, ready, pending, Future, join, unpolled, block_on}
use defmt_persist.Programs.{Machine, Exit, log, drain}

module _ (features : Features) (p : Platform) (target : Target) (rest : List ℕ) (start end : ℕ)
    (cx : p.Waker) where
  abbrev pub Shared : Type 0
  Shared = Option (Machine p)

  -- `writer_task`: what is left to log, and whether the `yield_once` in front of it has yielded.
  unfoldable pub poll_writer :
      List (List (List ℕ)) × Bool
      → Shared
      → Poll (Unit {0}) × (List (List (List ℕ)) × Bool) × Shared
  poll_writer (messages, false) shared = (pending, (messages, true), shared)
  poll_writer ([], true) shared = (ready tt, ([], true), shared)
  poll_writer (message ∷ [], true) shared =
      (ready tt, ([], true), shared >>= λ m. log features p target rest start end m message)
  poll_writer (message ∷ next ∷ messages, true) shared = (
    pending,
    (next ∷ messages, true),
    shared >>= λ m. log features p target rest start end m message,
  )

  abbrev pub writer_task : Future Shared (Unit {0})
  writer_task = record { State = List (List (List ℕ)) × Bool; poll = poll_writer }

  -- `WAKER.register` in `wait_for_data`
  abbrev pub registered : Machine p → Machine p
  registered m = record m { world = record m.world { waker = register m.world.waker cx } }

  -- `reader_task`: the rounds that are left. A round that finds data goes on to the next at once.
  unfoldable pub poll_reader : ℕ → Shared → Poll (Unit {0}) × ℕ × Shared
  poll_reader zero shared = (ready tt, zero, shared)
  poll_reader (suc n) none = (pending, suc n, none)
  poll_reader (suc n) (some m) =
      let later = poll_reader n (drain features p target rest start end (registered m)) in
      if is_empty m.world.ring then (pending, suc n, some (registered m)) else later

  abbrev pub reader_task : Future Shared (Unit {0})
  reader_task = record { State = ℕ; poll = poll_reader }

  abbrev pub finished : Option ((Unit {0} × Unit {0}) × Shared) → Option (Exit p)
  finished none = none
  finished (some (_, none)) = none
  finished (some (_, some m)) = some (record { success = true; machine = m })

  -- async_test.rs, with as many rounds of `block_on` as there are messages and one more.
  unfoldable pub async_test : List (List (List ℕ)) → Machine p → Option (Exit p)
  async_test messages m = finished (
      block_on (suc (length messages)) (join writer_task reader_task)
        (unpolled writer_task (messages, false), unpolled reader_task (length messages)) (some m))
