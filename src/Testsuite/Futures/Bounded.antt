-- ===== src/Testsuite/Futures/Bounded.antt =====
-- The executor of testsuite/src/lib.rs on futures that are pending at most so often: it ends.
use defmt_persist.Common.{
  ℕ, zero, suc, ◌+◌, ◌<◌, ◌≡◌, ◌≢◌, refl, Bool, true, false, none, some, ◌⊎◌, inl, inr, arith,
}
use defmt_persist.Testsuite.Futures.{
  Poll, ready, pending, Future, poll_yield, yield_once, Slot, kept, poll_slot, take_both, poll_join,
  join, unpolled, block_on,
}

-- How often the future may still be pending, whatever becomes of the world.
pub record IsBounded {World T : Type 0} (f : Future World T) : Type 0 where
  pub left : f.State → ℕ
  pub falls : (s : f.State) (w : World) → (f.poll s w).0 ≡ pending → left (f.poll s w).1 < left s

abbrev yield_left : Bool → ℕ
yield_left true = 0
yield_left false = 1

pub poll_yield-falls :
    {World : Type 0} (s : Bool) (w : World)
    → (poll_yield s w).0 ≡ pending
    → yield_left (poll_yield s w).1 < yield_left s
unfolding poll_yield
poll_yield-falls true w h = absurd (ground arith)
poll_yield-falls false w h = omega arith

abbrev pub yield_once-IsBounded : {World : Type 0} → IsBounded (yield_once {World = World})
yield_once-IsBounded = record { left = yield_left; falls = poll_yield-falls }

not_pending : {T : Type 0} (val : T) → Poll.ready val ≢ pending
not_pending val e = ground arith

Poll-cases : {T : Type 0} (x : Poll T) → ((val : T) × (x ≡ ready val)) ⊎ (x ≡ pending)
Poll-cases (ready val) = inl (val, refl)
Poll-cases pending = inr refl

module _ {World : Type 0} where
  module _ {T : Type 0} (f : Future World T) (b : IsBounded f) where
    abbrev pub slot_left : Slot f → ℕ
    slot_left (s, some _) = 0
    slot_left (s, none) = suc (b.left s)

    -- A poll of a slot that is not done takes one off.
    kept-falls :
        (s : f.State) (x : Poll T × f.State × World)
        → (x.0 ≡ pending → b.left x.1 < b.left s)
        → slot_left (kept x).0 < suc (b.left s)
    kept-falls s (ready val, s', w') h = omega arith
    kept-falls s (pending, s', w') h = omega (arith, h refl)

    slot_falls : (s : f.State) (w : World) → slot_left (poll_slot f (s, none) w).0 < suc (b.left s)
    unfolding poll_slot
    slot_falls s w = kept-falls s (f.poll s w) (b.falls s w)

  module _ {T U : Type 0} (f : Future World T) (g : Future World U) (b : IsBounded f)
      (c : IsBounded g) where
    join_left : Slot f × Slot g → ℕ
    join_left (x, y) = slot_left f b x + slot_left g c y

    -- What is taken is not pending, and nothing else changes the slots.
    take_both-left :
        (x : Slot f) (y : Slot g) (w : World)
        → (take_both x y w).0 ≡ pending
        → join_left (take_both x y w).1 ≡ join_left (x, y)
    take_both-left (s, some _) (t, some _) w h = absurd (ground arith)
    take_both-left (s, some _) (t, none) w h = refl
    take_both-left (s, none) (t, some _) w h = refl
    take_both-left (s, none) (t, none) w h = refl

    join_falls :
        (s : Slot f × Slot g) (w : World)
        → (poll_join f g s w).0 ≡ pending
        → join_left (poll_join f g s w).1 < join_left s
    unfolding poll_join poll_slot join_left
    join_falls ((s, some x), (t, some y)) w h = absurd (not_pending (x, y) h)
    join_falls ((s, some x), (t, none)) w h =
        let e =
          take_both-left (s, some x) (poll_slot g (t, none) w).0 (poll_slot g (t, none) w).1 h in
        omega (arith, e, slot_falls g c t w)
    join_falls ((s, none), (t, some y)) w h =
        let x' = poll_slot f (s, none) w in
        let e = take_both-left x'.0 (t, some y) x'.1 h in omega (arith, e, slot_falls f b s w)
    join_falls ((s, none), (t, none)) w h =
        let x' = poll_slot f (s, none) w in
        let y' = poll_slot g (t, none) x'.1 in
        let e = take_both-left x'.0 y'.0 y'.1 h in
        omega (arith, e, slot_falls f b s w, slot_falls g c t x'.1)

    pub join-IsBounded : IsBounded (join f g)
    join-IsBounded = record { left = join_left; falls = join_falls }

  block_on-IsBounded :
      {T : Type 0} (f : Future World T) (b : IsBounded f) (rounds : ℕ) (s : f.State) (w : World)
      → b.left s < rounds
      → (val : T) × (w' : World) × (block_on rounds f s w ≡ some (val, w'))
  unfolding block_on
  block_on-IsBounded f b zero s w h = absurd (omega arith)
  block_on-IsBounded f b (suc rounds) s w h = elim (Poll-cases (f.poll s w).0) [
    | inl (val, e) ↦ (val, (f.poll s w).2, rw (e, block_on) refl)
    | inr e ↦
        let (val, w', done) =
          block_on-IsBounded f b rounds (f.poll s w).1 (f.poll s w).2
            (omega (arith, b.falls s w e)) in
        (val, w', rw (e, block_on) done)
  ]

  -- block_on of the join of two futures, each of which is pending at most so often whatever
  -- becomes of what they share, returns after at most three rounds more than these two numbers
  -- together.
  pub block_on-join :
      {T U : Type 0} (f : Future World T) (g : Future World U) (b : IsBounded f) (c : IsBounded g)
      (s : f.State) (t : g.State) (w : World)
      → (val : T × U) × (w' : World) × (block_on
            (b.left s + c.left t + 3)
            (join f g)
            (unpolled f s, unpolled g t)
            w
          ≡ some (val, w'))
  unfolding join-IsBounded join_left
  block_on-join f g b c s t w =
      block_on-IsBounded (join f g) (join-IsBounded f g b c) (b.left s + c.left t + 3)
        (unpolled f s, unpolled g t) w (omega arith)
