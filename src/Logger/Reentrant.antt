-- ===== src/Logger/Reentrant.antt =====
-- The calls of the logger of src/logger.rs as events, and frames inside a frame.
use defmt_persist.Common.{
  ℕ, ◌+◌, ◌<◌, ◌^◌, ◌≡◌, refl, ap, ◌∙◌, List, [], ◌∷◌, ◌++◌, Option, some, ◌>>=◌, length,
  length-append, ◌==◌, arith, add_usize, sub_usize, lt→ltb, Option-cases, inl, inr, false,
}
use defmt_persist.Logger.{Features, Platform, World, acquire, flush, release, write}

-- The calls that defmt makes.
pub data Event : Type 0 where
  acquires : Event
  writes : List ℕ → Event
  flushes : Event
  releases : Event

module _ (features : Features) (p : Platform) where
  abbrev pub step : World p → Event → Option (World p)
  step w acquires = acquire features p w
  step w (writes bytes) = write features p w bytes
  step w flushes = flush features p w
  step w releases = release features p w

  unfoldable pub run : World p → List Event → Option (World p)
  run w [] = some w
  run w (e ∷ es) = do w' ← step w e; run w' es

  pub run-append :
      (w : World p) (es fs : List Event) → run w (es ++ fs) ≡ (run w es >>= λ w'. run w' fs)
  unfolding run
  run-append w [] fs = refl
  run-append w (e ∷ es) fs = elim (Option-cases (step w e)) [
    | inl stuck ↦ rw stuck
    | inr (w', ok) ↦ rw ok (run-append w' es fs)
  ]

-- What may be called inside a frame by code that interrupts it: writes, flushes and whole frames.
pub data Nested : List Event → Type 0 where
  nothing : Nested []
  write_call : {es : List Event} (bytes : List ℕ) → Nested es → Nested (writes bytes ∷ es)
  flush_call : {es : List Event} → Nested es → Nested (flushes ∷ es)
  frame : {es fs : List Event} → Nested es → Nested fs → Nested (acquires ∷ (es ++ releases ∷ fs))

not_one : (d : ℕ) → 1 < d → (d == 1) ≡ false
not_one d h = ground arith

module _ (features : Features) (p : Platform) where
  acquire-reentrant :
      (w : World p)
      → 0 < w.depth
      → acquire features p w ≡ some (record w { depth = add_usize w.depth 1 })
  unfolding acquire
  acquire-reentrant w h = rw (lt→ltb 0 w.depth h)

  release-reentrant :
      (w : World p)
      → 1 < w.depth
      → release features p w ≡ some (record w { depth = sub_usize w.depth 1 })
  unfolding release
  release-reentrant w h = rw (not_one w.depth h)

  write-reentrant : (w : World p) (bytes : List ℕ) → 1 < w.depth → write features p w bytes ≡ some w
  unfolding write
  write-reentrant w bytes h = rw (not_one w.depth h)

  flush-reentrant : (w : World p) → 1 < w.depth → flush features p w ≡ some w
  unfolding flush
  flush-reentrant w h = rw (not_one w.depth h)

  -- Above depth 1 nothing that is nested has an effect.
  Nested-dropped :
      {es : List Event} (w : World p)
      → Nested es
      → 1 < w.depth
      → w.depth + length es < 2 ^ 32
      → run features p w es ≡ some w
  unfolding run
  Nested-dropped w nothing h l = refl
  Nested-dropped w (write_call bytes n) h l =
      rw (write-reentrant w bytes h) (Nested-dropped w n h (omega arith))
  Nested-dropped w (flush_call n) h l =
      rw (flush-reentrant w h) (Nested-dropped w n h (omega arith))
  Nested-dropped w (frame {es} {fs} n m) h l =
      let deeper : World p = record w { depth = add_usize w.depth 1 } in
      rw (acquire-reentrant w (omega arith)) (
        run-append features p deeper es (releases ∷ fs)
        ∙ (ap (λ o. o >>= λ w'. run features p w' (releases ∷ fs))
              (Nested-dropped deeper n (omega arith)
                (omega (arith, length-append {0} es (releases ∷ fs))))
            ∙ (rw (release-reentrant deeper (omega arith)) (
                ap (λ d. run features p (record w { depth = d }) fs) (omega arith)
                ∙ Nested-dropped w m h (omega (arith, length-append {0} es (releases ∷ fs)))))))

  -- A frame that interrupts a frame at depth 1, with all writes, flushes and frames nested in it,
  -- below the limit on the number of calls, leaves the logger and all it acts on exactly as they
  -- were.
  pub reentrant_frame-dropped :
      {es : List Event} (w : World p)
      → Nested es
      → w.depth ≡ 1
      → length es < 2 ^ 31
      → run features p w (acquires ∷ (es ++ releases ∷ [])) ≡ some w
  unfolding run
  reentrant_frame-dropped {es} w n h l =
      let deeper : World p = record w { depth = add_usize w.depth 1 } in
      rw (acquire-reentrant w (omega arith)) (
        run-append features p deeper es (releases ∷ [])
        ∙ (ap (λ o. o >>= λ w'. run features p w' (releases ∷ []))
              (Nested-dropped deeper n (omega arith) (omega arith))
            ∙ (rw (release-reentrant deeper (omega arith))
                (ap (λ d. some (record w { depth = d })) (omega arith)))))
