-- ===== src/Programs/Wraparound.antt =====
-- testsuite/examples/wraparound_test.rs: what is drained every twenty messages.
pub mod Started
use defmt_persist.Common.{
  ℕ, suc, ◌+◌, ◌-◌, ◌*◌, ◌%◌, ◌==◌, ◌≤◌, ◌≡◌, ◌≢◌, refl, sym, ap, ap₂, subst, ◌∙◌, true, false,
  List, [], ◌∷◌, ◌++◌, append_assoc, append-nil, Option, some, none, ◌>>=◌, if◌then◌else◌, length,
  length-append, take_all, arith, Bool-cases, inl, inr,
}
use native.Mathlib.Nat.{suc-mul, mul-le-mul_right}
use defmt_persist.Ring.Window.{contents}
use defmt_persist.Ring.Queue
use defmt_persist.Layout.{Target}
use defmt_persist.Logger.{Features, Platform}
use defmt_persist.Logger.Emitted.{queue_after, frame_chunks, frame_encoder}
use defmt_persist.Testsuite.Drain.{free}
use defmt_persist.Programs.{Machine, Exit, log, drain, log_and_drain, wraparound_test}
use defmt_persist.Programs.Steps.{some_next, Running, log-AfterLog, drain-AfterDrain}

abbrev pub joined : List (List ℕ) → List ℕ
joined [] = []
joined (chunk ∷ chunks) = chunk ++ joined chunks

-- Chunks that a queue has room for.
queue_after-joined :
    (capacity : ℕ) (q : List ℕ) (chunks : List (List ℕ))
    → length q + length (joined chunks) ≤ capacity
    → queue_after capacity q chunks ≡ q ++ joined chunks
queue_after-joined capacity q [] h = sym (append-nil q)
queue_after-joined capacity q (chunk ∷ chunks) h =
    let l = length-append chunk (joined chunks) in
    let taken : Queue.write capacity q chunk ≡ q ++ chunk =
      ap (λ t. q ++ t) (take_all (capacity - length q) chunk (omega (arith, l, h))) in
    ap (λ q. queue_after capacity q chunks) taken
    ∙ (queue_after-joined capacity (q ++ chunk) chunks (omega (arith, l, h, length-append q chunk))
        ∙ append_assoc q chunk (joined chunks))

module _ (features : Features) (p : Platform) (target : Target) (rest : List ℕ) (start end : ℕ)
    (len : ℕ) where
  abbrev Up : Machine p → Type 0
  Up m = Running features p target rest start end len m

  -- All that messages hand to the ring.
  abbrev pub all_frames : p.Encoder → List (List (List ℕ)) → List ℕ
  all_frames e [] = []
  all_frames e (message ∷ messages) =
      joined (frame_chunks p e message) ++ all_frames (frame_encoder p e message) messages

  -- None takes more than `most` bytes.
  abbrev pub AllShort : ℕ → p.Encoder → List (List (List ℕ)) → Type 0
  AllShort most e [] = Unit
  AllShort most e (message ∷ messages) =
      (length (joined (frame_chunks p e message)) ≤ most)
      × AllShort most (frame_encoder p e message) messages

  -- What is sent and what is in the ring.
  abbrev out : Machine p → List ℕ
  out m = m.uart0.sent ++ contents m.world.ring

  -- How many messages the ring may hold in front of the i-th.
  abbrev held_before : ℕ → ℕ
  held_before i = (i + 19) % 20

  later_lem : (i : ℕ) → (i % 20 == 0) ≡ false → suc (held_before i) ≡ held_before (suc i)
  later_lem i h = ground arith

  pub record Kept (m m' : Machine p) (n : ℕ) : Type 0 where
    pub running : Up m'
    pub out : out m' ≡ out m
    pub encoder : m'.world.encoder ≡ m.world.encoder
    pub room : length (contents m'.world.ring) + n ≤ free m'.uart0.flags

  -- The drain behind a message, every twenty messages.
  drains_lem :
      (i most n : ℕ) (m : Machine p)
      → Up m
      → length (contents m.world.ring) ≤ suc (held_before i) * most
      → length (contents m.world.ring) + n ≤ free m.uart0.flags
      → (m' : Machine p) × ((if i % 20 == 0
            then drain features p target rest start end m
            else some m)
          ≡ some m')
        × (length (contents m'.world.ring) ≤ held_before (suc i) * most)
        × Kept m m' n
  drains_lem i most n m up few room = elim (Bool-cases (i % 20 == 0)) [
    | inl now ↦
        let (m', e, d) = drain-AfterDrain features p target rest start end len m n up room in
        (
          m',
          ap (λ b. if b then drain features p target rest start end m else some m) now ∙ e,
          omega (arith, ap length d.empty),
          record {
            running = d.running;
            out = ap (λ q. m'.uart0.sent ++ q) d.empty ∙ (append-nil m'.uart0.sent ∙ d.sent);
            encoder = d.encoder;
            room = omega (arith, ap length d.empty, d.room);
          },
        )
    | inr later ↦
        let next : suc (held_before i) ≡ held_before (suc i) = later_lem i later in
        (
          m,
          ap (λ b. if b then drain features p target rest start end m else some m) later,
          subst (λ k. length (contents m.world.ring) ≤ k * most) next few,
          record { running = up; out = refl; encoder = refl; room = room },
        )
  ]

  module _ (ends : (rtt : p.Rtt) (bytes : List ℕ) → p.rtt_write rtt bytes ≢ none) (most : ℕ)
      (large : 20 * most ≤ len - 1) where
    -- A message that the ring has room for.
    message_lem :
        (i n : ℕ) (m : Machine p) (message : List (List ℕ))
        → Up m
        → length (joined (frame_chunks p m.world.encoder message)) ≤ most
        → length (contents m.world.ring) ≤ held_before i * most
        → length (contents m.world.ring)
            + length (joined (frame_chunks p m.world.encoder message))
            + n
          ≤ free m.uart0.flags
        → (m' : Machine p) × (log features p target rest start end m message ≡ some m')
          × Up m'
          × (out m' ≡ out m ++ joined (frame_chunks p m.world.encoder message))
          × (m'.world.encoder ≡ frame_encoder p m.world.encoder message)
          × (length (contents m'.world.ring) ≤ suc (held_before i) * most)
          × (length (contents m'.world.ring) + n ≤ free m'.uart0.flags)
    message_lem i n m message up short few room =
        let frame = joined (frame_chunks p m.world.encoder message) in
        let held = contents m.world.ring in
        let more = suc-mul (held_before i) most in
        let k : suc (held_before i) ≤ 20 = omega arith in
        let below = mul-le-mul_right most k in
        let (m', e, l) = log-AfterLog features p target rest start end len ends m message up in
        let holds : contents m'.world.ring ≡ held ++ frame =
          l.holds
          ∙ queue_after-joined (len - 1) held (frame_chunks p m.world.encoder message)
              (omega (arith, short, few, more, below, large)) in
        let total = length-append held frame in
        let flags : free m'.uart0.flags ≡ free m.uart0.flags = ap (λ u. free u.flags) l.uart0 in
        (
          m',
          e,
          l.running,
          ap₂ (λ u q. u.sent ++ q) l.uart0 holds ∙ sym (append_assoc m.uart0.sent held frame),
          l.encoder,
          omega (arith, ap length holds, total, short, few, more),
          omega (arith, ap length holds, total, flags, room),
        )

    log_and_drain_lem :
        (i : ℕ) (messages : List (List (List ℕ))) (m : Machine p)
        → Up m
        → AllShort most m.world.encoder messages
        → length (contents m.world.ring) ≤ held_before i * most
        → length (contents m.world.ring) + length (all_frames m.world.encoder messages)
          ≤ free m.uart0.flags
        → (m' : Machine p) × (log_and_drain features p target rest start end i messages m ≡ some m')
          × Up m'
          × (out m' ≡ out m ++ all_frames m.world.encoder messages)
          × (length (contents m'.world.ring) ≤ free m'.uart0.flags)
    unfolding log_and_drain
    log_and_drain_lem i [] m up short few room =
        (m, refl, up, sym (append-nil (out m)), omega arith)
    log_and_drain_lem i (message ∷ messages) m up (short, all_short) few room =
        let frame = joined (frame_chunks p m.world.encoder message) in
        let e2 = frame_encoder p m.world.encoder message in
        let later = all_frames e2 messages in
        let (m1, logs, up1, out1, enc1, few1, room1) =
          message_lem i (length later) m message up short few
            (omega (arith, room, length-append frame later)) in
        let (m2, drains, few2, k) = drains_lem i most (length later) m1 up1 few1 room1 in
        let same = k.encoder ∙ enc1 in
        let (m', done, up', out', room') =
          log_and_drain_lem (suc i) messages m2 k.running
            (subst (λ e. AllShort most e messages) (sym same) all_short) few2
            (subst
              (λ e.
                length (contents m2.world.ring) + length (all_frames e messages)
                ≤ free m2.uart0.flags)
              (sym same) k.room) in
        (
          m',
          some_next _ logs ∙ (some_next _ drains ∙ done),
          up',
          out'
              ∙ (ap₂ (λ o e. o ++ all_frames e messages) (k.out ∙ out1) same
                  ∙ append_assoc (out m) frame later),
          room',
        )

    -- From an empty ring on, with room for all in the FIFO.
    pub wraparound_test_lem :
        (messages : List (List (List ℕ))) (m : Machine p)
        → Up m
        → contents m.world.ring ≡ []
        → AllShort most m.world.encoder messages
        → length (all_frames m.world.encoder messages) ≤ free m.uart0.flags
        → (m' : Machine p) × (wraparound_test features p target rest start end messages m
            ≡ some (record { success = true; machine = m' }))
          × (m'.uart0.sent ≡ m.uart0.sent ++ all_frames m.world.encoder messages)
    unfolding wraparound_test
    wraparound_test_lem messages m up empty all_short room =
        let (m1, logs, up1, out1, room1) =
          log_and_drain_lem 0 messages m up all_short (omega (arith, ap length empty))
            (omega (arith, ap length empty, room)) in
        let (m2, drains, d) =
          drain-AfterDrain features p target rest start end len m1 0 up1 (omega (arith, room1)) in
        (
          m2,
          some_next _ logs ∙ some_next _ drains,
          d.sent
              ∙ (out1
                  ∙ ap (λ l. l ++ all_frames m.world.encoder messages)
                      (ap (λ q. m.uart0.sent ++ q) empty ∙ append-nil m.uart0.sent)),
        )
