-- ===== src/Programs/Booted.antt =====
-- What testsuite/examples/corrupt_test.rs puts out on a region that holds no logs, and on one that does.
use defmt_persist.Common.{
  ℕ, ◌-◌, ◌≤◌, ◌≡◌, ◌≢◌, refl, sym, ap, ap₂, subst, ◌∙◌, true, not, List, [], ◌++◌, Option, some,
  ◌>>=◌, if◌then◌else◌, length, arith,
}
use defmt_persist.Ring.{RingBuffer, magic}
use defmt_persist.Ring.Window.{contents}
use defmt_persist.Ring.Bounds.{IsValid}
use defmt_persist.Ring.Read.{is_empty_iff}
use defmt_persist.Layout.{Target}
use defmt_persist.Layout.Dump.{region_bytes, length-region_bytes}
use defmt_persist.Logger.{Features, Platform, World}
use defmt_persist.Logger.Emitted.{ring_after, ring_after_lem, queue_after, said_after, frame_chunks}
use defmt_persist.Logger.Frame.{frame-Logged}
use defmt_persist.Init.{Statics}
use defmt_persist.Init.Restart.{ring_after_frame}
use defmt_persist.Testsuite.{Uart}
use defmt_persist.Testsuite.Drain.{free, drain_to_uart_lem}
use defmt_persist.Programs.Steps.{some_next, not_empty, dump_lem}
use defmt_persist.Programs.Boot.{Starts, found, found-IsValid, started, start_main-main}
use defmt_persist.Programs.{Machine, Exit, start_main, panic, log, drain, dump, corrupt_test}

module _ (features : Features) (p : Platform) (target : Target) (rest : List ℕ) (start end : ℕ)
    (s : Statics p) (st : Starts p target rest start end s)
    (message panic_message : List (List ℕ)) where
  abbrev pub chunks : List (List ℕ)
  chunks = frame_chunks p s.world.encoder message

  -- What is in an empty ring after the message.
  abbrev pub logged : List ℕ
  logged = queue_after (end - start - target.size_of - 1) [] chunks

  abbrev pub booted : (main : Machine p → Option (Exit p)) → List ℕ → Uart → Uart → Option (Exit p)
  booted main =
      start_main features p target rest start end
        (λ m. panic features p target rest start end m panic_message) main s

  booted-main :
      (main : Machine p → Option (Exit p)) (memory : List ℕ) (uart0 uart1 : Uart)
      → length memory ≡ end - start
      → booted main memory uart0 uart1 ≡ main (started features p target s memory uart0 uart1)
  booted-main main =
      start_main-main features p target rest start end s st
        (λ m. panic features p target rest start end m panic_message) main

  -- A drain sends what the ring holds.
  drain_lem :
      (m : Machine p)
      → IsValid m.world.ring
      → length (contents m.world.ring) ≤ free m.uart0.flags
      → (ring' : RingBuffer) × (u : Uart) × (drain features p target rest start end m
          ≡ some (record m { world = record m.world { ring = ring' }; uart0 = u }))
        × (u.sent ≡ m.uart0.sent ++ contents m.world.ring)
  unfolding drain
  drain_lem m v room =
      let (ring', u, e, sent, _) = drain_to_uart_lem features.ecc m.world.ring v 0 m.uart0 room in
      (ring', u, some_next _ e, sent)

  -- What the program has put out when it has ended on an empty ring.
  pub record Fresh (e : Exit p) (uart0 uart1 : Uart) : Type 0 where
    pub ring : RingBuffer
    pub valid : IsValid ring
    pub header : ring.header ≡ magic features.ecc
    pub buf : length ring.buf ≡ end - start - target.size_of
    pub holds : contents ring ≡ logged
    pub success : e.success ≡ true
    pub drained : e.machine.uart0.sent ≡ uart0.sent ++ logged
    pub dumped : e.machine.uart1.sent ≡ uart1.sent ++ region_bytes rest ring
    pub said : e.machine.world.semihosting ≡ said_after features p s.world.semihosting chunks

  abbrev ended : Machine p → Option (Exit p)
  ended m = some (record { success = true; machine = m })

  -- The path of the program for an empty ring.
  abbrev fresh_path : Machine p → Option (Exit p)
  fresh_path m = log features p target rest start end m message >>= λ m1.
      dump features p target rest start end m1 >>= λ m2.
      drain features p target rest start end m2 >>= ended

  pub corrupt_test-Fresh :
      (memory : List ℕ) (uart0 uart1 : Uart)
      → length memory ≡ end - start
      → contents (found features target memory) ≡ []
      → length logged ≤ free uart0.flags
      → end - start ≤ free uart1.flags
      → (e : Exit p) × (booted
            (corrupt_test features p target rest start end message)
            memory
            uart0
            uart1
          ≡ some e)
        × Fresh e uart0 uart1
  unfolding corrupt_test log
  corrupt_test-Fresh memory uart0 uart1 l none_found room0 room1 =
      let (v, hm, lb) = found-IsValid features p target rest start end s st memory l in
      let w : World p = record s.world {
        ring = found features target memory;
        initialized = true;
      } in
      let (w', done, _, _, _, r, said, _, _) =
        frame-Logged features p st.ends message w st.idle st.restores in
      let (v', holds) = ring_after_lem features.ecc w.ring chunks v in
      let (h', lb') = ring_after_frame features.ecc w.ring chunks v in
      let ring : RingBuffer = ring_after features.ecc (found features target memory) chunks in
      let valid : IsValid w'.ring = subst IsValid (sym r) v' in
      let held : contents w'.ring ≡ logged =
        ap contents r ∙ (holds ∙ ap₂ (λ n q. queue_after (n - 1) q chunks) lb none_found) in
      let m0 : Machine p = record { world = w; uart0 = uart0; uart1 = uart1 } in
      let m1 : Machine p = record m0 { world = w' } in
      let (u1, dumps, sent1) = dump_lem features p target rest start end m1 (
        omega (
          arith,
          length-region_bytes rest w'.ring,
          ap (λ r. length r.buf) r,
          lb',
          lb,
          st.size,
          st.fits.large,
        )) in
      let m2 : Machine p = record m1 { uart1 = u1 } in
      let (ring', u0, drains, sent0) = drain_lem m2 valid (omega (arith, ap length held)) in
      let m3 : Machine p = record m2 { world = record w' { ring = ring' }; uart0 = u0 } in
      (
        record { success = true; machine = m3 },
        booted-main (corrupt_test features p target rest start end message) memory uart0 uart1 l
            ∙ (ap
                  (λ b.
                    if not b
                    then drain features p target rest start end m0 >>= ended
                    else fresh_path m0)
                  ((is_empty_iff (found features target memory) v).1 none_found)
                ∙ (some_next _ (some_next _ done) ∙ (some_next _ dumps ∙ some_next _ drains))),
        record {
          ring = w'.ring;
          valid = valid;
          header = ap (λ r. r.header) r ∙ (h' ∙ hm);
          buf = ap (λ r. length r.buf) r ∙ (lb' ∙ lb);
          holds = held;
          success = refl;
          drained = sent0 ∙ ap (λ l. uart0.sent ++ l) held;
          dumped = sent1;
          said = said;
        },
      )

  -- What it has put out when it has ended on logs.
  pub record Recovered (memory : List ℕ) (e : Exit p) (uart0 : Uart) : Type 0 where
    pub success : e.success ≡ true
    pub drained : e.machine.uart0.sent ≡ uart0.sent ++ contents (found features target memory)
    pub silent : e.machine.world.semihosting ≡ s.world.semihosting

  pub corrupt_test-Recovered :
      (memory : List ℕ) (uart0 uart1 : Uart)
      → length memory ≡ end - start
      → contents (found features target memory) ≢ []
      → length (contents (found features target memory)) ≤ free uart0.flags
      → (e : Exit p) × (booted
            (corrupt_test features p target rest start end message)
            memory
            uart0
            uart1
          ≡ some e)
        × Recovered memory e uart0
  unfolding corrupt_test
  corrupt_test-Recovered memory uart0 uart1 l some_found room =
      let (v, hm, lb) = found-IsValid features p target rest start end s st memory l in
      let m : Machine p = record {
        world = record s.world { ring = found features target memory; initialized = true };
        uart0 = uart0;
        uart1 = uart1;
      } in
      let (ring', u, drains, sent) = drain_lem m v room in
      (
        record {
          success = true;
          machine = record m { world = record m.world { ring = ring' }; uart0 = u };
        },
        booted-main (corrupt_test features p target rest start end message) memory uart0 uart1 l
            ∙ (ap
                  (λ b.
                    if not b
                    then drain features p target rest start end m >>= ended
                    else fresh_path m)
                  (not_empty (found features target memory) v some_found)
                ∙ some_next _ drains),
        record { success = refl; drained = sent; silent = refl },
      )
