-- ===== src/Init/Interrupted.antt =====
-- `init` of src/lib.rs, interrupted between the store of the producer and `Consumer::read` by code
-- that logs a frame.
use defmt_persist.Common.{
  ℕ, ◌-◌, ◌≡◌, ◌≢◌, refl, ap, ◌∙◌, List, Option, none, some, ◌>>=◌, length, true, false,
}
use defmt_persist.Ring.Window.{contents}
use defmt_persist.Recover.{recover_or_reinitialize}
use defmt_persist.Layout.{Target, view}
use defmt_persist.Logger.{Features, Platform, World}
use defmt_persist.Logger.Reentrant.{run}
use defmt_persist.Logger.Emitted.{queue_after, frame_chunks, frame_events}
use defmt_persist.Logger.Frame.{frame_lem}
use defmt_persist.Init.{InitError, Statics, Result, initialize, init_start, settle}
use defmt_persist.Init.Outcome.{
  Fits, validate-Fits, init_start-accepted, accepted-ring, init_finish-contents,
}

module _ (p : Platform) (features : Features) (target : Target) where
  -- What is left of `init`, after a frame.
  abbrev resume : List (List ℕ) → Statics p × Option InitError → Option (Statics p × Result)
  resume bs (s, stopped) = do
    w ← run features p s.world (frame_events bs)
    some (settle p (record s { world = w }, stopped))

  -- `init`, with a frame before its grant.
  pub interrupted_init :
      Statics p → (start end : ℕ) → List ℕ → List (List ℕ) → Option (Statics p × Result)
  interrupted_init s start end memory bs =
      resume bs (init_start p features target s start end memory)

  -- Where a frame is logged in a first accepted init, at depth 0, after the logger got the ring
  -- and before the grant, and RTT writes end and cs_release undoes cs_acquire, recovered_logs_len
  -- counts the bytes of that frame that fit along with the recovered ones.
  pub interrupted_init_lem :
      ((s : p.Rtt) (bytes : List ℕ) → p.rtt_write s bytes ≢ none)
      → (s : Statics p) (start end : ℕ) (memory : List ℕ) (bs : List (List ℕ)) → s.called ≡ false
      → Fits target start end
      → length memory ≡ end - start
      → s.world.depth ≡ 0
      → p.cs_release (p.cs_acquire s.world.cpu).0 (p.cs_acquire s.world.cpu).1 ≡ s.world.cpu
      → let ring = recover_or_reinitialize features.ecc (view target memory) in
        (w : World p) × (interrupted_init s start end memory bs
          ≡ some (
            record { called = true; world = w },
            Result.ok (record {
              recovered_logs_len = length (
                  queue_after
                    (length ring.buf - 1)
                    (contents ring)
                    (frame_chunks p s.world.encoder bs));
            }),
          ))
  unfolding interrupted_init initialize
  interrupted_init_lem ends s start end memory bs first f l idle law =
      let step =
        init_start-accepted p features target s start end memory first
          (validate-Fits target start end f) in
      let w : World p =
        initialize p s.world (recover_or_reinitialize features.ecc (view target memory)) in
      let (v, c) = accepted-ring p features target start end memory f l in
      let (w', ok, d, cpu, v', c') = frame_lem features p ends bs w idle refl v law in
      let finish : World p → Option (Statics p × Result) =
        λ w. some (settle p (record { called = true; world = w }, none)) in
      (
        w',
        ap (resume bs) step
            ∙ (ap (λ o. o >>= finish) ok
                ∙ ap
                    (λ n. some (
                      record { called = true; world = w' },
                      Result.ok (record { recovered_logs_len = n }),
                    ))
                    (init_finish-contents p features target w' v' ∙ ap length c')),
      )
