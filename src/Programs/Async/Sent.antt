-- ===== src/Programs/Async/Sent.antt =====
-- What testsuite/examples/async_test.rs sends.
use defmt_persist.Common.{
  ℕ, suc, ◌+◌, ◌-◌, ◌≤◌, ◌≡◌, ◌≢◌, sym, ap, ap₂, subst, ◌∙◌, true, false, List, [], ◌∷◌, ◌++◌,
  append_assoc, append-nil, length, length-append, none, some, if◌then◌else◌, arith,
}
use defmt_persist.Ring.Consumer.{is_empty}
use defmt_persist.Ring.Window.{contents}
use defmt_persist.Layout.{Target}
use defmt_persist.Logger.{Features, Platform}
use defmt_persist.Logger.Emitted.{queue_after, frame_chunks, frame_encoder}
use defmt_persist.Testsuite.Drain.{free}
use defmt_persist.Testsuite.Futures.{pending}
use defmt_persist.Programs.{Machine, log, drain}
use defmt_persist.Programs.Steps.{not_empty, Running, log-AfterLog, drain-AfterDrain}
use defmt_persist.Programs.Async.Rounds.{
  poll_at, from_yield, last_round, next_round, first_round, waits,
}
use defmt_persist.Programs.Async.{registered, poll_reader, finished, async_test}

module _ (features : Features) (p : Platform) (target : Target) (rest : List ℕ) (start end : ℕ)
    (cx : p.Waker) (len : ℕ) where
  -- What each message leaves in an empty ring.
  abbrev pub logged : p.Encoder → List (List ℕ) → List ℕ
  logged e message = queue_after (len - 1) [] (frame_chunks p e message)

  abbrev pub all_logged : p.Encoder → List (List (List ℕ)) → List ℕ
  all_logged e [] = []
  all_logged e (message ∷ messages) =
      logged e message ++ all_logged (frame_encoder p e message) messages

  -- Each leaves something.
  abbrev pub AllSome : p.Encoder → List (List (List ℕ)) → Type 0
  AllSome e [] = Unit
  AllSome e (message ∷ messages) =
      (logged e message ≢ []) × AllSome (frame_encoder p e message) messages

  abbrev pub Up : Machine p → Type 0
  Up m = Running features p target rest start end len m

  reader_drains :
      (m m1 m2 : Machine p) (message : List (List ℕ)) (k : ℕ)
      → log features p target rest start end m message ≡ some m1
      → is_empty m1.world.ring ≡ false
      → drain features p target rest start end (registered features p target rest start end cx m1)
        ≡ some m2
      → poll_at features p target rest start end cx
          (suc k)
          (log features p target rest start end m message)
        ≡ poll_at features p target rest start end cx k (some m2)
  unfolding poll_reader
  reader_drains m m1 m2 message k logs some_there drains =
      ap (poll_at features p target rest start end cx (suc k)) logs
      ∙ (ap
            (λ b.
              if b
              then (pending, suc k, some (registered features p target rest start end cx m1))
              else poll_at features p target rest start end cx k (
                  drain features p target rest start end
                    (registered features p target rest start end cx m1)))
            some_there
          ∙ ap (poll_at features p target rest start end cx k) drains)

  registered-Running :
      (m : Machine p) → Up m → Up (registered features p target rest start end cx m)
  registered-Running m i = record {
    depth = i.depth;
    initialized = i.initialized;
    valid = i.valid;
    header = i.header;
    buf = i.buf;
    restores = i.restores;
  }

  module _ (ends : (rtt : p.Rtt) (bytes : List ℕ) → p.rtt_write rtt bytes ≢ none) where
    -- A log call, and the round of the reader that finds what was logged.
    round_lem :
        (m : Machine p) (message : List (List ℕ)) (n : ℕ)
        → Up m
        → contents m.world.ring ≡ []
        → logged m.world.encoder message ≢ []
        → length (logged m.world.encoder message) + n ≤ free m.uart0.flags
        → (m' : Machine p) × ((k : ℕ)
            → poll_at features p target rest start end cx
                (suc k)
                (log features p target rest start end m message)
              ≡ poll_at features p target rest start end cx k (some m'))
          × Up m'
          × (contents m'.world.ring ≡ [])
          × (m'.uart0.sent ≡ m.uart0.sent ++ logged m.world.encoder message)
          × (m'.world.encoder ≡ frame_encoder p m.world.encoder message)
          × (n ≤ free m'.uart0.flags)
    round_lem m message n i empty some_logged room =
        let (m1, logs, l) = log-AfterLog features p target rest start end len ends m message i in
        let held : contents m1.world.ring ≡ logged m.world.encoder message =
          l.holds
          ∙ ap (λ q. queue_after (len - 1) q (frame_chunks p m.world.encoder message)) empty in
        let (m2, drains, d) =
          drain-AfterDrain features p target rest start end len
            (registered features p target rest start end cx m1) n (registered-Running m1 l.running)
            (omega (arith, ap length held, ap (λ u. free u.flags) l.uart0, room)) in
        (
          m2,
          λ k.
              reader_drains m m1 m2 message k logs
                (not_empty m1.world.ring l.running.valid
                  (λ none_there. some_logged (sym held ∙ none_there)))
                drains,
          d.running,
          d.empty,
          d.sent ∙ ap₂ (λ u l. u.sent ++ l) l.uart0 held,
          d.encoder ∙ l.encoder,
          d.room,
        )

    rounds_lem :
        (m : Machine p) (message : List (List ℕ)) (messages : List (List (List ℕ)))
        → Up m
        → contents m.world.ring ≡ []
        → AllSome m.world.encoder (message ∷ messages)
        → length (all_logged m.world.encoder (message ∷ messages)) ≤ free m.uart0.flags
        → (m' : Machine p) × (from_yield features p target rest start end cx
              (message ∷ messages)
              (suc (length messages))
              m
            ≡ some ((tt, tt), some m'))
          × (m'.uart0.sent ≡ m.uart0.sent ++ all_logged m.world.encoder (message ∷ messages))
    rounds_lem m message [] i empty (some_logged, _) room =
        let first = logged m.world.encoder message in
        let (m1, drained, _, _, sent, _, _) =
          round_lem m message 0 i empty some_logged (omega (arith, length-append first [])) in
        (
          m1,
          last_round features p target rest start end cx m m1 message 0 (drained 0),
          sent ∙ ap (λ l. m.uart0.sent ++ l) (sym (append-nil first)),
        )
    rounds_lem m message (next ∷ messages) i empty (some_logged, all_some) room =
        let first = logged m.world.encoder message in
        let later = all_logged (frame_encoder p m.world.encoder message) (next ∷ messages) in
        let (m1, drained, i1, empty1, sent, enc, room1) =
          round_lem m message (length later) i empty some_logged
            (omega (arith, room, length-append first later)) in
        let m2 = registered features p target rest start end cx m1 in
        let (m', ends_well, sent') =
          rounds_lem m2 next messages (registered-Running m1 i1) empty1
            (subst (λ e. AllSome e (next ∷ messages)) (sym enc) all_some)
            (subst (λ e. length (all_logged e (next ∷ messages)) ≤ free m1.uart0.flags) (sym enc)
              room1) in
        (
          m',
          next_round features p target rest start end cx m m2 message next messages
                (suc (length messages))
                (drained (suc (length messages))
                  ∙ waits features p target rest start end cx (length messages) m1 i1.valid empty1)
              ∙ ends_well,
          sent'
              ∙ (ap₂ (λ l e. l ++ all_logged e (next ∷ messages)) sent enc
                  ∙ append_assoc m.uart0.sent first later),
        )

    -- With an empty ring and room for all of it in the FIFO.
    pub async_test_lem :
        (m : Machine p) (message : List (List ℕ)) (messages : List (List (List ℕ)))
        → Up m
        → contents m.world.ring ≡ []
        → AllSome m.world.encoder (message ∷ messages)
        → length (all_logged m.world.encoder (message ∷ messages)) ≤ free m.uart0.flags
        → (m' : Machine p) × (async_test features p target rest start end cx (message ∷ messages) m
            ≡ some (record { success = true; machine = m' }))
          × (m'.uart0.sent ≡ m.uart0.sent ++ all_logged m.world.encoder (message ∷ messages))
    unfolding async_test
    async_test_lem m message messages i empty all_some room =
        let m0 = registered features p target rest start end cx m in
        let (m', ends_well, sent) =
          rounds_lem m0 message messages (registered-Running m i) empty all_some room in
        (
          m',
          ap (finished features p target rest start end cx) (
              first_round features p target rest start end cx m m0 (message ∷ messages)
                (suc (length messages))
                (waits features p target rest start end cx (length messages) m i.valid empty)
              ∙ ends_well),
          sent,
        )
