-- ===== src/Programs/Steps.antt =====
-- What a log macro and a drain of the programs make of a machine whose logger is on.
use defmt_persist.Common.{
  ℕ, ◌+◌, ◌-◌, ◌≤◌, ◌≡◌, ◌≢◌, refl, sym, ap, subst, ◌∙◌, true, List, [], ◌++◌, Option, some, none,
  false, Bool-cases, inl, inr, arith, ◌>>=◌, if◌then◌else◌, length,
}
use defmt_persist.Ring.{RingBuffer, magic}
use defmt_persist.Ring.Consumer.{is_empty}
use defmt_persist.Ring.Read.{is_empty_iff}
use defmt_persist.Ring.Window.{contents}
use defmt_persist.Ring.Bounds.{IsValid}
use defmt_persist.Layout.{Target}
use defmt_persist.Logger.{Features, Platform}
use defmt_persist.Logger.Emitted.{
  ring_after, ring_after_lem, queue_after, frame_chunks, frame_encoder,
}
use defmt_persist.Logger.Frame.{frame-Logged}
use defmt_persist.Init.Restart.{ring_after_frame}
use defmt_persist.Testsuite.{Uart, dump_persist_region}
use defmt_persist.Layout.Dump.{region_bytes}
use defmt_persist.Testsuite.Drain.{free, write_bytes_lem, drain_to_uart-Drained}
use defmt_persist.Programs.{Machine, log, drain, dump}

pub some_next :
    {A B : Type 0} {o : Option A} {a : A} (f : A → Option B) → o ≡ some a → (o >>= f) ≡ f a
some_next f e = ap (λ o. o >>= f) e

pub not_empty : (r : RingBuffer) → IsValid r → contents r ≢ [] → is_empty r ≡ false
not_empty r v some_there = elim (Bool-cases (is_empty r)) [
  | inl empty ↦ absurd (some_there ((is_empty_iff r v).0 empty))
  | inr h ↦ h
]

module _ (features : Features) (p : Platform) (target : Target) (rest : List ℕ)
    (start end : ℕ) where
  -- A dump sends the bytes of the region.
  pub dump_lem :
      (m : Machine p)
      → length (region_bytes rest m.world.ring) ≤ free m.uart1.flags
      → (u : Uart) × (dump features p target rest start end m ≡ some (record m { uart1 = u }))
        × (u.sent ≡ m.uart1.sent ++ region_bytes rest m.world.ring)
  unfolding dump dump_persist_region
  dump_lem m room =
      let (u, e, sent, _) =
        write_bytes_lem (region_bytes rest m.world.ring) m.uart1 0 (omega arith) in
      (u, some_next _ e, sent)

module _ (features : Features) (p : Platform) (target : Target) (rest : List ℕ) (start end : ℕ)
    (len : ℕ) where
  -- Between two log calls.
  pub record Running (m : Machine p) : Type 0 where
    pub depth : m.world.depth ≡ 0
    pub initialized : m.world.initialized ≡ true
    pub valid : IsValid m.world.ring
    pub header : m.world.ring.header ≡ magic features.ecc
    pub buf : length m.world.ring.buf ≡ len
    pub restores :
        p.cs_release (p.cs_acquire m.world.cpu).0 (p.cs_acquire m.world.cpu).1 ≡ m.world.cpu

  pub record AfterLog (m : Machine p) (message : List (List ℕ)) (m' : Machine p) : Type 0 where
    pub running : Running m'
    pub holds :
        contents m'.world.ring
        ≡ queue_after (len - 1) (contents m.world.ring) (frame_chunks p m.world.encoder message)
    pub encoder : m'.world.encoder ≡ frame_encoder p m.world.encoder message
    pub uart0 : m'.uart0 ≡ m.uart0
    pub uart1 : m'.uart1 ≡ m.uart1

  pub log-AfterLog :
      ((rtt : p.Rtt) (bytes : List ℕ) → p.rtt_write rtt bytes ≢ none)
      → (m : Machine p) (message : List (List ℕ)) → Running m
      → (m' : Machine p) × (log features p target rest start end m message ≡ some m')
        × AfterLog m message m'
  unfolding log
  log-AfterLog ends m message i =
      let w = m.world in
      let chunks = frame_chunks p w.encoder message in
      let (w', done, depth, cpu, _, r, _, init, enc) =
        frame-Logged features p ends message w i.depth i.restores in
      let (v', holds) = ring_after_lem features.ecc w.ring chunks i.valid in
      let (h', lb) = ring_after_frame features.ecc w.ring chunks i.valid in
      let same : w'.ring ≡ ring_after features.ecc w.ring chunks =
        r ∙ ap (λ b. if b then ring_after features.ecc w.ring chunks else w.ring) i.initialized in
      (
        record m { world = w' },
        some_next _ done,
        record {
          running = record {
            depth = depth;
            initialized = init ∙ i.initialized;
            valid = subst IsValid (sym same) v';
            header = ap (λ r. r.header) same ∙ (h' ∙ i.header);
            buf = ap (λ r. length r.buf) same ∙ (lb ∙ i.buf);
            restores =
                subst (λ c. p.cs_release (p.cs_acquire c).0 (p.cs_acquire c).1 ≡ c) (sym cpu)
                  i.restores;
          };
          holds =
              ap contents same
              ∙ (holds ∙ ap (λ n. queue_after (n - 1) (contents w.ring) chunks) i.buf);
          encoder = enc;
          uart0 = refl;
          uart1 = refl;
        },
      )

  pub record AfterDrain (m : Machine p) (n : ℕ) (m' : Machine p) : Type 0 where
    pub running : Running m'
    pub empty : contents m'.world.ring ≡ []
    pub sent : m'.uart0.sent ≡ m.uart0.sent ++ contents m.world.ring
    pub room : n ≤ free m'.uart0.flags
    pub encoder : m'.world.encoder ≡ m.world.encoder
    pub uart1 : m'.uart1 ≡ m.uart1

  -- In front of `n` more bytes that the FIFO has room for.
  pub drain-AfterDrain :
      (m : Machine p) (n : ℕ)
      → Running m
      → length (contents m.world.ring) + n ≤ free m.uart0.flags
      → (m' : Machine p) × (drain features p target rest start end m ≡ some m') × AfterDrain m n m'
  unfolding drain
  drain-AfterDrain m n i room =
      let (ring', u, e, d) =
        drain_to_uart-Drained features.ecc m.world.ring i.valid 0 m.uart0 n room in
      (
        record m { world = record m.world { ring = ring' }; uart0 = u },
        some_next _ e,
        record {
          running = record {
            depth = i.depth;
            initialized = i.initialized;
            valid = d.valid;
            header = d.header ∙ i.header;
            buf = ap length d.buf ∙ i.buf;
            restores = i.restores;
          };
          empty = d.empty;
          sent = d.sent;
          room = d.room;
          encoder = refl;
          uart1 = refl;
        },
      )
