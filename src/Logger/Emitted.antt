-- ===== src/Logger/Emitted.antt =====
-- What the logger of src/logger.rs does with the chunks that the encoder hands it.
use defmt_persist.Common.{
  ℕ, ◌-◌, ◌≡◌, ◌≢◌, refl, sym, ap, ap₂, ◌∙◌, Bool, true, false, List, [], ◌∷◌, ◌++◌, none, some,
  ◌>>=◌, if◌then◌else◌, length, Option-cases, Bool-cases, inl, inr,
}
use defmt_persist.Ring.{RingBuffer}
use defmt_persist.Ring.Producer
use defmt_persist.Ring.Window.{contents}
use defmt_persist.Ring.Bounds.{IsValid}
use defmt_persist.Ring.Queue
use defmt_persist.Ring.Write.{write-IsValid, contents-write, write_frame}
use defmt_persist.Logger.{
  Features, Platform, World, state_write, rtt_output, semihosting_output, write_all, output,
}
use defmt_persist.Logger.Reentrant.{Event, acquires, writes, releases}

-- The ring after the chunks are written, one by one, and the queue that it stands for.
abbrev pub ring_after : Bool → RingBuffer → List (List ℕ) → RingBuffer
ring_after ecc r [] = r
ring_after ecc r (chunk ∷ chunks) = ring_after ecc (Producer.write ecc r chunk) chunks

abbrev pub queue_after : ℕ → List ℕ → List (List ℕ) → List ℕ
queue_after capacity q [] = q
queue_after capacity q (chunk ∷ chunks) = queue_after capacity (Queue.write capacity q chunk) chunks

pub ring_after_lem :
    (ecc : Bool) (r : RingBuffer) (chunks : List (List ℕ))
    → IsValid r
    → IsValid (ring_after ecc r chunks)
      × (contents (ring_after ecc r chunks) ≡ queue_after (length r.buf - 1) (contents r) chunks)
ring_after_lem ecc r [] v = (v, refl)
ring_after_lem ecc r (chunk ∷ chunks) v =
    let (v', e) =
      ring_after_lem ecc (Producer.write ecc r chunk) chunks (write-IsValid ecc r chunk v) in
    (
      v',
      e
          ∙ ap₂ (λ len q. queue_after (len - 1) q chunks) (write_frame ecc r chunk v).2
              (contents-write ecc r chunk v),
    )

ring_after-append :
    (ecc : Bool) (r : RingBuffer) (xs ys : List (List ℕ))
    → ring_after ecc r (xs ++ ys) ≡ ring_after ecc (ring_after ecc r xs) ys
ring_after-append ecc r [] ys = refl
ring_after-append ecc r (x ∷ xs) ys = ring_after-append ecc (Producer.write ecc r x) xs ys

module _ (p : Platform) where
  -- The chunks that the encoder emits for the writes of a frame and its end, and for a whole frame.
  abbrev pub body_chunks : p.Encoder → List (List ℕ) → List (List ℕ)
  body_chunks e [] = (p.end_frame e).1
  body_chunks e (b ∷ bs) = (p.encode e b).1 ++ body_chunks (p.encode e b).0 bs

  abbrev pub frame_chunks : p.Encoder → List (List ℕ) → List (List ℕ)
  frame_chunks e bs = (p.start_frame e).1 ++ body_chunks (p.start_frame e).0 bs

  -- The encoder behind them.
  abbrev pub body_encoder : p.Encoder → List (List ℕ) → p.Encoder
  body_encoder e [] = (p.end_frame e).0
  body_encoder e (b ∷ bs) = body_encoder (p.encode e b).0 bs

  abbrev pub frame_encoder : p.Encoder → List (List ℕ) → p.Encoder
  frame_encoder e bs = body_encoder (p.start_frame e).0 bs

-- The calls of a frame.
abbrev pub body_events : List (List ℕ) → List Event
body_events [] = releases ∷ []
body_events (b ∷ bs) = writes b ∷ body_events bs

abbrev pub frame_events : List (List ℕ) → List Event
frame_events bs = acquires ∷ body_events bs

if-same {ℓ} : {A : Type ℓ} (b : Bool) (x : A) → (if b then x else x) ≡ x
if-same true x = refl
if-same false x = refl

pub emitted_twice :
    (b ecc : Bool) (r : RingBuffer) (xs ys : List (List ℕ))
    → (if b
        then ring_after ecc (if b then ring_after ecc r xs else r) ys
        else if b
        then ring_after ecc r xs
        else r)
      ≡ (if b then ring_after ecc r (xs ++ ys) else r)
emitted_twice true ecc r xs ys = sym (ring_after-append ecc r xs ys)
emitted_twice false ecc r xs ys = refl

module _ (features : Features) (p : Platform) where
  -- Semihosting after the chunks are written to it, where the logger does so.
  abbrev pub said_after : p.Semihosting → List (List ℕ) → p.Semihosting
  said_after s [] = s
  said_after s (chunk ∷ chunks) =
      said_after (if features.qemu_test then p.semihosting_write s chunk else s) chunks

  pub said_after-append :
      (s : p.Semihosting) (xs ys : List (List ℕ))
      → said_after s (xs ++ ys) ≡ said_after (said_after s xs) ys
  said_after-append s [] ys = refl
  said_after-append s (x ∷ xs) ys =
      said_after-append (if features.qemu_test then p.semihosting_write s x else s) xs ys

  -- Writing chunks to the ring, and `said` to semihosting, changes these and RTT alone.
  pub record Emitted (w w' : World p) (chunks said : List (List ℕ)) : Type 0 where
    pub ring : w'.ring ≡ (if w.initialized then ring_after features.ecc w.ring chunks else w.ring)
    pub initialized : w'.initialized ≡ w.initialized
    pub depth : w'.depth ≡ w.depth
    pub cs_state : w'.cs_state ≡ w.cs_state
    pub cpu : w'.cpu ≡ w.cpu
    pub encoder : w'.encoder ≡ w.encoder
    pub semihosting : w'.semihosting ≡ said_after w.semihosting said

  -- Only the outputs beside the ring change.
  Emitted-same :
      {w w' : World p} (e : w'.ring ≡ w.ring)
      → w'.initialized ≡ w.initialized
      → w'.depth ≡ w.depth
      → w'.cs_state ≡ w.cs_state
      → w'.cpu ≡ w.cpu
      → w'.encoder ≡ w.encoder
      → {said : List (List ℕ)} → w'.semihosting ≡ said_after w.semihosting said
      → Emitted w w' [] said
  Emitted-same {w} e i d s c n h = record {
    ring = e ∙ sym (if-same w.initialized w.ring);
    initialized = i;
    depth = d;
    cs_state = s;
    cpu = c;
    encoder = n;
    semihosting = h;
  }

  Emitted-append :
      {w w1 w2 : World p} (xs ys said said' : List (List ℕ))
      → Emitted w w1 xs said
      → Emitted w1 w2 ys said'
      → Emitted w w2 (xs ++ ys) (said ++ said')
  Emitted-append {w} xs ys said said' a b = record {
    ring =
        b.ring
        ∙ ((λ i. if a.initialized i then ring_after features.ecc (a.ring i) ys else a.ring i)
            ∙ emitted_twice w.initialized features.ecc w.ring xs ys);
    initialized = b.initialized ∙ a.initialized;
    depth = b.depth ∙ a.depth;
    cs_state = b.cs_state ∙ a.cs_state;
    cpu = b.cpu ∙ a.cpu;
    encoder = b.encoder ∙ a.encoder;
    semihosting =
        b.semihosting
        ∙ (ap (λ s. said_after s said') a.semihosting
            ∙ sym (said_after-append w.semihosting said said'));
  }

  Emitted-if :
      (b : Bool) {w x y : World p} {chunks said : List (List ℕ)}
      → (b ≡ true → Emitted w x chunks said)
      → (b ≡ false → Emitted w y chunks said)
      → Emitted w (if b then x else y) chunks said
  Emitted-if true f g = f refl
  Emitted-if false f g = g refl

  state_write-Emitted :
      (w : World p) (chunk : List ℕ) → Emitted w (state_write features p w chunk) (chunk ∷ []) []
  unfolding state_write
  state_write-Emitted w chunk =
      Emitted-if w.initialized
        (λ on. record {
          ring = ap (λ b. if b then Producer.write features.ecc w.ring chunk else w.ring) (sym on);
          initialized = refl;
          depth = refl;
          cs_state = refl;
          cpu = refl;
          encoder = refl;
          semihosting = refl;
        })
        (λ off. record {
          ring = ap (λ b. if b then Producer.write features.ecc w.ring chunk else w.ring) (sym off);
          initialized = refl;
          depth = refl;
          cs_state = refl;
          cpu = refl;
          encoder = refl;
          semihosting = refl;
        })

  module _ (ends : (s : p.Rtt) (bytes : List ℕ) → p.rtt_write s bytes ≢ none) where
    rtt_output-Emitted :
        (w : World p) (bytes : List ℕ)
        → (w' : World p) × (rtt_output features p w bytes ≡ some w') × Emitted w w' [] []
    rtt_output-Emitted w bytes = elim (Bool-cases features.rtt) [
      | inl on ↦ elim (Option-cases (p.rtt_write w.rtt bytes)) [
        | inl stuck ↦ absurd (ends w.rtt bytes stuck)
        | inr (rtt', ok) ↦
            (record w { rtt = rtt' }, rw (on, ok), Emitted-same refl refl refl refl refl refl refl)
      ]
      | inr off ↦ (w, rw off, Emitted-same refl refl refl refl refl refl refl)
    ]

    semihosting-Emitted :
        (w : World p) (bytes : List ℕ)
        → Emitted w (semihosting_output features p w bytes) [] (bytes ∷ [])
    semihosting-Emitted w bytes =
        Emitted-if features.qemu_test
          (λ on. Emitted-same refl refl refl refl refl refl (
            ap (λ b. if b then p.semihosting_write w.semihosting bytes else w.semihosting)
              (sym on)))
          (λ off. Emitted-same refl refl refl refl refl refl (
            ap (λ b. if b then p.semihosting_write w.semihosting bytes else w.semihosting)
              (sym off)))

    write_all-Emitted :
        (w : World p) (chunk : List ℕ)
        → (w' : World p) × (write_all features p w chunk ≡ some w')
          × Emitted w w' (chunk ∷ []) (chunk ∷ [])
    unfolding write_all
    write_all-Emitted w chunk =
        let w1 = state_write features p w chunk in
        let (w2, ok, e) = rtt_output-Emitted w1 chunk in
        (
          semihosting_output features p w2 chunk,
          ap (λ o. o >>= λ w'. some (semihosting_output features p w' chunk)) ok,
          Emitted-append (chunk ∷ []) [] [] (chunk ∷ []) (state_write-Emitted w chunk)
              (Emitted-append [] [] [] (chunk ∷ []) e (semihosting-Emitted w2 chunk)),
        )

    pub output-Emitted :
        (w : World p) (chunks : List (List ℕ))
        → (w' : World p) × (output features p w chunks ≡ some w') × Emitted w w' chunks chunks
    unfolding output
    output-Emitted w [] = (w, refl, Emitted-same refl refl refl refl refl refl refl)
    output-Emitted w (chunk ∷ chunks) =
        let (w1, ok, e) = write_all-Emitted w chunk in
        let (w2, ok', e') = output-Emitted w1 chunks in
        (
          w2,
          ap (λ o. o >>= λ w'. output features p w' chunks) ok ∙ ok',
          Emitted-append (chunk ∷ []) chunks (chunk ∷ []) chunks e e',
        )
