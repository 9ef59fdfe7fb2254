-- ===== src/Programs/Async/Rounds.antt =====
-- The rounds of `block_on` in testsuite/examples/async_test.rs.
use defmt_persist.Common.{
  ℕ, suc, ◌≡◌, ap, true, false, List, [], ◌∷◌, length, Option, none, some, if◌then◌else◌,
}
use defmt_persist.Ring.Window.{contents}
use defmt_persist.Ring.Bounds.{IsValid}
use defmt_persist.Ring.Read.{is_empty_iff}
use defmt_persist.Layout.{Target}
use defmt_persist.Logger.{Features, Platform}
use defmt_persist.Testsuite.Futures.{
  Poll, ready, pending, Future, Slot, kept, poll_slot, take_both, poll_join, join, unpolled,
  block_on,
}
use defmt_persist.Programs.{Machine, log, drain}
use defmt_persist.Programs.Async.{
  Shared, poll_writer, writer_task, registered, poll_reader, reader_task,
}

module _ (features : Features) (p : Platform) (target : Target) (rest : List ℕ) (start end : ℕ)
    (cx : p.Waker) where
  abbrev pub poll_at :
      ℕ
      → Shared features p target rest start end cx
      → Poll (Unit {0}) × ℕ × Shared features p target rest start end cx
  poll_at = poll_reader features p target rest start end cx

  abbrev pub writer : Future (Shared features p target rest start end cx) (Unit {0})
  writer = writer_task features p target rest start end cx

  abbrev pub reader : Future (Shared features p target rest start end cx) (Unit {0})
  reader = reader_task features p target rest start end cx

  -- From a `yield_once` that has yielded on.
  abbrev pub from_yield :
      List (List (List ℕ))
      → ℕ
      → Machine p
      → Option ((Unit {0} × Unit {0}) × Shared features p target rest start end cx)
  from_yield messages rounds m =
      block_on rounds (join writer reader) (((messages, true), none), (length messages, none))
        (some m)

  -- The rest of a round, after the writer's part of it.
  abbrev after_writer :
      ℕ
      → Slot writer
      → Poll (Unit {0}) × ℕ × Shared features p target rest start end cx
      → Option ((Unit {0} × Unit {0}) × Shared features p target rest start end cx)
  after_writer rounds slot1 x =
      let (slot2, w) = kept x in
      let (polled, s', w') = take_both slot1 slot2 w in
      let again = block_on rounds (join writer reader) s' w' in
      elim polled [ ready val ↦ some (val, w') | pending ↦ again ]

  pub last_round :
      (m m' : Machine p) (message : List (List ℕ)) (rounds : ℕ)
      → poll_at 1 (log features p target rest start end m message) ≡ poll_at 0 (some m')
      → from_yield (message ∷ []) (suc rounds) m ≡ some ((tt, tt), some m')
  unfolding block_on poll_join poll_slot poll_writer poll_reader
  last_round m m' message rounds e = ap (after_writer rounds (([], true), some tt)) e

  pub next_round :
      (m m' : Machine p) (message next : List (List ℕ)) (messages : List (List (List ℕ)))
      (rounds : ℕ)
      → poll_at (suc (suc (length messages))) (log features p target rest start end m message)
        ≡ (pending, suc (length messages), some m')
      → from_yield (message ∷ next ∷ messages) (suc rounds) m
        ≡ from_yield (next ∷ messages) rounds m'
  unfolding block_on poll_join poll_slot poll_writer
  next_round m m' message next messages rounds e =
      ap (after_writer rounds ((next ∷ messages, true), none)) e

  pub first_round :
      (m m' : Machine p) (messages : List (List (List ℕ))) (rounds : ℕ)
      → poll_at (length messages) (some m) ≡ (pending, length messages, some m')
      → block_on
          (suc rounds)
          (join writer reader)
          (unpolled writer (messages, false), unpolled reader (length messages))
          (some m)
        ≡ from_yield messages rounds m'
  unfolding block_on poll_join poll_slot poll_writer
  first_round m m' messages rounds e = ap (after_writer rounds ((messages, true), none)) e

  -- Nothing to read: the reader leaves its waker.
  pub waits :
      (k : ℕ) (m : Machine p)
      → IsValid m.world.ring
      → contents m.world.ring ≡ []
      → poll_at (suc k) (some m)
        ≡ (pending, suc k, some (registered features p target rest start end cx m))
  unfolding poll_reader
  waits k m v empty =
      ap
        (λ b.
          if b
          then (pending, suc k, some (registered features p target rest start end cx m))
          else poll_at k (
              drain features p target rest start end
                (registered features p target rest start end cx m)))
        ((is_empty_iff m.world.ring v).1 empty)
