-- ===== src/Logger/Frame.antt =====
-- A whole frame of the logger of src/logger.rs, from depth 0.
use defmt_persist.Common.{
  ℕ, ◌-◌, ◌≡◌, ◌≢◌, refl, sym, ap, ap₂, subst, ◌∙◌, true, false, List, [], ◌∷◌, none, some, ◌>>=◌,
  if◌then◌else◌, length, Bool-cases, inl, inr, arith, ltb, ◌==◌, add_usize,
}
use defmt_persist.Ring.Window.{contents}
use defmt_persist.Ring.Bounds.{IsValid}
use defmt_persist.Waker.{wake}
use defmt_persist.Logger.{
  Features, Platform, World, acquire, release_start, release_finish, release, write, wake_waker,
  leave,
}
use defmt_persist.Logger.Reentrant.{run}
use defmt_persist.Logger.Emitted.{
  ring_after, queue_after, ring_after_lem, body_chunks, frame_chunks, body_encoder, frame_encoder,
  body_events, frame_events, emitted_twice, said_after, said_after-append, output-Emitted,
}

module _ (features : Features) (p : Platform) where
  wake_waker_fields :
      (w : World p)
      → ((wake_waker features p w).ring ≡ w.ring)
        × ((wake_waker features p w).depth ≡ w.depth)
        × ((wake_waker features p w).cpu ≡ w.cpu)
        × ((wake_waker features p w).cs_state ≡ w.cs_state)
        × ((wake_waker features p w).semihosting ≡ w.semihosting)
        × ((wake_waker features p w).initialized ≡ w.initialized)
        × ((wake_waker features p w).encoder ≡ w.encoder)
  unfolding wake_waker wake
  wake_waker_fields w = ground arith

  leave_fields :
      (w : World p)
      → ((leave features p w).ring ≡ w.ring)
        × ((leave features p w).depth ≡ w.depth)
        × ((leave features p w).cpu ≡ p.cs_release w.cs_state w.cpu)
        × ((leave features p w).cs_state ≡ w.cs_state)
        × ((leave features p w).semihosting ≡ w.semihosting)
        × ((leave features p w).initialized ≡ w.initialized)
        × ((leave features p w).encoder ≡ w.encoder)
  unfolding leave
  leave_fields w = elim (Bool-cases features.async_await) [
    | inl on ↦ simp on (wake_waker_fields (record w { cpu = p.cs_release w.cs_state w.cpu }))
    | inr off ↦ simp off (refl, refl, refl, refl, refl, refl, refl)
  ]

  -- What a frame has done when it is over.
  pub record Logged (w w' : World p) (chunks : List (List ℕ)) (encoder' : p.Encoder) : Type 0 where
    pub ring : w'.ring ≡ (if w.initialized then ring_after features.ecc w.ring chunks else w.ring)
    pub depth : w'.depth ≡ 0
    pub cpu : w'.cpu ≡ p.cs_release w.cs_state w.cpu
    pub cs_state : w'.cs_state ≡ w.cs_state
    pub semihosting : w'.semihosting ≡ said_after features p w.semihosting chunks
    pub initialized : w'.initialized ≡ w.initialized
    pub encoder : w'.encoder ≡ encoder'

  module _ (ends : (s : p.Rtt) (bytes : List ℕ) → p.rtt_write s bytes ≢ none) where
    at_one : (w : World p) → w.depth ≡ 1 → (w.depth == 1) ≡ true
    at_one w h = ground arith

    pub release_finish-Logged :
        (w : World p)
        → w.depth ≡ 0
        → (w' : World p) × (release_finish features p w ≡ some w')
          × Logged w w' (p.end_frame w.encoder).1 (p.end_frame w.encoder).0
    unfolding release_finish
    release_finish-Logged w h =
        let w1 : World p = record w { encoder = (p.end_frame w.encoder).0 } in
        let (w2, ok, e) = output-Emitted features p ends w1 (p.end_frame w.encoder).1 in
        let f = leave_fields w2 in
        (
          leave features p w2,
          ap (λ o. o >>= λ w'. some (leave features p w')) ok,
          record {
            ring = f.0 ∙ e.ring;
            depth = f.1 ∙ (e.depth ∙ h);
            cpu = f.2 ∙ ap₂ p.cs_release e.cs_state e.cpu;
            cs_state = f.3 ∙ e.cs_state;
            semihosting = f.4 ∙ e.semihosting;
            initialized = f.5 ∙ e.initialized;
            encoder = f.6 ∙ e.encoder;
          },
        )

    release-Logged :
        (w : World p)
        → w.depth ≡ 1
        → (w' : World p) × (release features p w ≡ some w')
          × Logged w w' (p.end_frame w.encoder).1 (p.end_frame w.encoder).0
    unfolding release
    release-Logged w h =
        let (w', ok, l) = release_finish-Logged (release_start features p w) (omega arith) in
        (
          w',
          rw (at_one w h) ok,
          record {
            ring = l.ring;
            depth = l.depth;
            cpu = l.cpu;
            cs_state = l.cs_state;
            semihosting = l.semihosting;
            initialized = l.initialized;
            encoder = l.encoder;
          },
        )

    body-Logged :
        (bs : List (List ℕ)) (w : World p)
        → w.depth ≡ 1
        → (w' : World p) × (run features p w (body_events bs) ≡ some w')
          × Logged w w' (body_chunks p w.encoder bs) (body_encoder p w.encoder bs)
    unfolding run write
    body-Logged [] w h =
        let (w', ok, l) = release-Logged w h in (w', ap (λ o. o >>= λ w'. some w') ok, l)
    body-Logged (b ∷ bs) w h =
        let w1 : World p = record w { encoder = (p.encode w.encoder b).0 } in
        let (w2, ok, e) = output-Emitted features p ends w1 (p.encode w.encoder b).1 in
        let (w3, ok', l) = body-Logged bs w2 (e.depth ∙ h) in
        (
          w3,
          rw (at_one w h) (ap (λ o. o >>= λ w'. run features p w' (body_events bs)) ok ∙ ok'),
          record {
            ring =
                l.ring
                ∙ ((λ i.
                      if e.initialized i
                      then ring_after features.ecc (e.ring i) (body_chunks p (e.encoder i) bs)
                      else e.ring i)
                    ∙ emitted_twice w.initialized features.ecc w.ring (p.encode w.encoder b).1
                        (body_chunks p (p.encode w.encoder b).0 bs));
            depth = l.depth;
            cpu = l.cpu ∙ ap₂ p.cs_release e.cs_state e.cpu;
            cs_state = l.cs_state ∙ e.cs_state;
            semihosting =
                l.semihosting
                ∙ ((λ i. said_after features p (e.semihosting i) (body_chunks p (e.encoder i) bs))
                    ∙ sym (
                        said_after-append features p w.semihosting (p.encode w.encoder b).1
                          (body_chunks p (p.encode w.encoder b).0 bs)));
            initialized = l.initialized ∙ e.initialized;
            encoder = l.encoder ∙ ap (λ n. body_encoder p n bs) e.encoder;
          },
        )

    at_zero : (w : World p) → w.depth ≡ 0 → ltb 0 w.depth ≡ false
    at_zero w h = ground arith

    pub frame-Logged :
        (bs : List (List ℕ)) (w : World p)
        → w.depth ≡ 0
        → p.cs_release (p.cs_acquire w.cpu).0 (p.cs_acquire w.cpu).1 ≡ w.cpu
        → (w' : World p) × (run features p w (frame_events bs) ≡ some w')
          × (w'.depth ≡ 0)
          × (w'.cpu ≡ w.cpu)
          × (w'.cs_state ≡ (p.cs_acquire w.cpu).0)
          × (w'.ring ≡ (
              if w.initialized
              then ring_after features.ecc w.ring (frame_chunks p w.encoder bs)
              else w.ring))
          × (w'.semihosting ≡ said_after features p w.semihosting (frame_chunks p w.encoder bs))
          × (w'.initialized ≡ w.initialized)
          × (w'.encoder ≡ frame_encoder p w.encoder bs)
    unfolding run acquire
    frame-Logged bs w h law =
        let w1 : World p = record w {
          depth = add_usize w.depth 1;
          cs_state = (p.cs_acquire w.cpu).0;
          cpu = (p.cs_acquire w.cpu).1;
          encoder = (p.start_frame w.encoder).0;
        } in
        let (w2, ok, e) = output-Emitted features p ends w1 (p.start_frame w.encoder).1 in
        let (w3, ok', l) = body-Logged bs w2 (e.depth ∙ omega arith) in
        (
          w3,
          rw (at_zero w h) (ap (λ o. o >>= λ w'. run features p w' (body_events bs)) ok ∙ ok'),
          l.depth,
          l.cpu ∙ (ap₂ p.cs_release e.cs_state e.cpu ∙ law),
          l.cs_state ∙ e.cs_state,
          l.ring
              ∙ ((λ i.
                    if e.initialized i
                    then ring_after features.ecc (e.ring i) (body_chunks p (e.encoder i) bs)
                    else e.ring i)
                  ∙ emitted_twice w.initialized features.ecc w.ring (p.start_frame w.encoder).1
                      (body_chunks p (p.start_frame w.encoder).0 bs)),
          l.semihosting
              ∙ ((λ i. said_after features p (e.semihosting i) (body_chunks p (e.encoder i) bs))
                  ∙ sym (
                      said_after-append features p w.semihosting (p.start_frame w.encoder).1
                        (body_chunks p (p.start_frame w.encoder).0 bs))),
          l.initialized ∙ e.initialized,
          l.encoder ∙ ap (λ n. body_encoder p n bs) e.encoder,
        )

    -- A whole frame of an initialised logger, at depth 0 and with a valid ring, comes to an end
    -- where RTT writes do, is back at depth 0 with the CPU as before where cs_release undoes
    -- cs_acquire, and adds to the ring what fits of each chunk of the encoder, in order.
    pub frame_lem :
        (bs : List (List ℕ)) (w : World p)
        → w.depth ≡ 0
        → w.initialized ≡ true
        → IsValid w.ring
        → p.cs_release (p.cs_acquire w.cpu).0 (p.cs_acquire w.cpu).1 ≡ w.cpu
        → (w' : World p) × (run features p w (frame_events bs) ≡ some w')
          × (w'.depth ≡ 0)
          × (w'.cpu ≡ w.cpu)
          × IsValid w'.ring
          × (contents w'.ring
              ≡ queue_after (length w.ring.buf - 1) (contents w.ring) (frame_chunks p w.encoder bs))
    frame_lem bs w h on v law =
        let (w', ok, d, c, _, r, _, _, _) = frame-Logged bs w h law in
        let (v', e) = ring_after_lem features.ecc w.ring (frame_chunks p w.encoder bs) v in
        let r' : w'.ring ≡ ring_after features.ecc w.ring (frame_chunks p w.encoder bs) =
          r
          ∙ ap
              (λ b.
                if b then ring_after features.ecc w.ring (frame_chunks p w.encoder bs) else w.ring)
              on in
        (w', ok, d, c, subst IsValid (sym r') v', ap contents r' ∙ e)

    -- A whole frame at depth 0 before init comes to an end where RTT writes do, leaves the ring
    -- alone, and is back at depth 0 with the CPU as before where cs_release undoes cs_acquire.
    frame_before_init :
        (bs : List (List ℕ)) (w : World p)
        → w.depth ≡ 0
        → w.initialized ≡ false
        → p.cs_release (p.cs_acquire w.cpu).0 (p.cs_acquire w.cpu).1 ≡ w.cpu
        → (w' : World p) × (run features p w (frame_events bs) ≡ some w')
          × (w'.depth ≡ 0)
          × (w'.cpu ≡ w.cpu)
          × (w'.ring ≡ w.ring)
    frame_before_init bs w h off law =
        let (w', ok, d, c, _, r, _, _, _) = frame-Logged bs w h law in
        (
          w',
          ok,
          d,
          c,
          r
              ∙ ap
                  (λ b.
                    if b
                    then ring_after features.ecc w.ring (frame_chunks p w.encoder bs)
                    else w.ring)
                  off,
        )
