-- ===== src/Testsuite/Futures.antt =====
-- testsuite/src/lib.rs: `yield_once`, `join` and the executor `block_on`. A future is a state and a `poll`,
-- which may act on the world that it shares with others; the waker of `block_on` does nothing.
pub mod Bounded
use defmt_persist.Common.{ℕ, zero, suc, Bool, true, false, Option, none, some}

pub data Poll (T : Type 0) : Type 0 where
  ready : T → Poll T
  pending : Poll T

pub record Future (World T : Type 0) : Type 1 where
  pub State : Type 0
  pub poll : State → World → Poll T × State × World

module _ {World : Type 0} where
  -- `yield_once`; the state is `yielded`.
  unfoldable pub poll_yield : Bool → World → Poll (Unit {0}) × Bool × World
  poll_yield true w = (ready tt, true, w)
  poll_yield false w = (pending, true, w)

  abbrev pub yield_once : Future World (Unit {0})
  yield_once = record { State = Bool; poll = poll_yield }

  module _ {T : Type 0} where
    -- A future and what it has returned.
    abbrev pub Slot : Future World T → Type 0
    Slot f = f.State × Option T

    -- `if done.is_none() { if let Poll::Ready(val) = f.poll(cx) { done = Some(val) } }`
    abbrev pub kept : {S : Type 0} → Poll T × S × World → (S × Option T) × World
    kept (ready val, s, w) = ((s, some val), w)
    kept (pending, s, w) = ((s, none), w)

    unfoldable pub poll_slot : (f : Future World T) → Slot f → World → Slot f × World
    poll_slot f (s, some val) w = ((s, some val), w)
    poll_slot f (s, none) w = kept (f.poll s w)

  module _ {T U : Type 0} where
    -- Both values are taken when both are there.
    abbrev pub take_both :
        {A B : Type 0}
        → A × Option T
        → B × Option U
        → World
        → Poll (T × U) × ((A × Option T) × (B × Option U)) × World
    take_both (s, some x) (t, some y) w = (ready (x, y), ((s, none), (t, none)), w)
    take_both slot1 slot2 w = (pending, (slot1, slot2), w)

    unfoldable pub poll_join :
        (a : Future World T) (b : Future World U)
        → Slot a × Slot b
        → World
        → Poll (T × U) × (Slot a × Slot b) × World
    poll_join a b (slot1, slot2) w =
        let (slot1', w1) = poll_slot a slot1 w in
        let (slot2', w2) = poll_slot b slot2 w1 in take_both slot1' slot2' w2

    abbrev pub join : Future World T → Future World U → Future World (T × U)
    join a b = record { State = Slot a × Slot b; poll = poll_join a b }

  -- What `join` starts with.
  abbrev pub unpolled : {T : Type 0} (f : Future World T) → f.State → Slot f
  unpolled f s = (s, none)

  -- The loop of `block_on`, with a bound on its rounds.
  unfoldable pub block_on :
      {T : Type 0} → ℕ → (f : Future World T) → f.State → World → Option (T × World)
  block_on zero f s w = none
  block_on (suc rounds) f s w =
      let (polled, s', w') = f.poll s w in
      let again = block_on rounds f s' w' in
      elim polled [ ready val ↦ some (val, w') | pending ↦ again ]
