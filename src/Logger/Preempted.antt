-- ===== src/Logger/Preempted.antt =====
-- `release` of src/logger.rs, interrupted between its `fetch_sub` and the end of the frame by code
-- that the critical section does not hold off, such as an NMI, and that logs a frame.
use defmt_persist.Common.{ℕ, ◌≡◌, ◌≢◌, sym, ap, ap₂, ◌∙◌, List, Option, none, some, ◌>>=◌, arith}
use defmt_persist.Logger.{Features, Platform, World, release_start, release_finish}
use defmt_persist.Logger.Reentrant.{run}
use defmt_persist.Logger.Emitted.{frame_events}
use defmt_persist.Logger.Frame.{release_finish-Logged, frame-Logged}

module _ (features : Features) (p : Platform) where
  -- `release`, with a frame in between.
  pub preempted_release : World p → List (List ℕ) → Option (World p)
  preempted_release w bs = do
    w1 ← run features p (release_start features p w) (frame_events bs)
    release_finish features p w1

  module _ (ends : (s : p.Rtt) (bytes : List ℕ) → p.rtt_write s bytes ≢ none) where
    -- Where a frame is logged between the fetch_sub of release at depth 1 and the rest of it, on a
    -- CPU whose critical section is already entered and where RTT writes end, release leaves the
    -- CPU as it is: the critical section is never left.
    pub preempted_release_lem :
        (bs : List (List ℕ)) (w : World p)
        → w.depth ≡ 1
        → p.cs_release (p.cs_acquire w.cpu).0 (p.cs_acquire w.cpu).1 ≡ w.cpu
        → (p.cs_acquire w.cpu).1 ≡ w.cpu
        → (w' : World p) × (preempted_release w bs ≡ some w') × (w'.cpu ≡ w.cpu)
    unfolding preempted_release release_start
    preempted_release_lem bs w h law held =
        let (w1, ok, d, c, s, r, _, _, _) =
          frame-Logged features p ends bs (release_start features p w) (omega arith) law in
        let (w2, ok', l) = release_finish-Logged features p ends w1 d in
        (
          w2,
          ap (λ o. o >>= λ w'. release_finish features p w') ok ∙ ok',
          l.cpu ∙ (ap₂ p.cs_release s (c ∙ sym held) ∙ law),
        )
