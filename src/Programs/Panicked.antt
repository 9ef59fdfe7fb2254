-- ===== src/Programs/Panicked.antt =====
-- testsuite/examples/panic_test.rs: a run that panics, and the next run on what that has left.
pub mod Persisted
use defmt_persist.Common.{
  ℕ, ◌-◌, ◌≤◌, ◌≡◌, ◌≢◌, refl, sym, ap, ap₂, ◌∙◌, true, not, List, [], ◌++◌, Option, some, ◌>>=◌,
  if◌then◌else◌, length, arith,
}
use defmt_persist.Ring.Read.{is_empty_iff}
use defmt_persist.Ring.Window.{contents}
use defmt_persist.Layout.{Target}
use defmt_persist.Layout.Dump.{region_bytes}
use defmt_persist.Logger.{Features, Platform}
use defmt_persist.Logger.Emitted.{queue_after, frame_chunks, frame_encoder}
use defmt_persist.Init.{Statics}
use defmt_persist.Testsuite.{Uart}
use defmt_persist.Testsuite.Drain.{free}
use defmt_persist.Programs.{Machine, Exit, log, drain, start_main, panicked, panic_test}
use defmt_persist.Programs.Steps.{
  some_next, not_empty, dump_lem, Running, log-AfterLog, drain-AfterDrain,
}
use defmt_persist.Programs.Boot.{
  Starts, found, started, started-Running, start_main-main, found-region_bytes,
}

module _ (features : Features) (p : Platform) (target : Target) (rest : List ℕ) (start end : ℕ)
    (s : Statics p) (st : Starts p target rest start end s)
    (second_run drained not_drained panic_message : List (List ℕ)) where
  abbrev len : ℕ
  len = end - start - target.size_of

  abbrev Up : Machine p → Type 0
  Up m = Running features p target rest start end len m

  -- What the first message leaves in the ring.
  abbrev pub first_sent : List ℕ
  first_sent = queue_after (len - 1) [] (frame_chunks p s.world.encoder drained)

  abbrev pub encoder1 : p.Encoder
  encoder1 = frame_encoder p s.world.encoder drained

  -- What the message after the drain leaves, with that of the panic handler.
  abbrev pub left : List ℕ
  left =
      queue_after (len - 1) (queue_after (len - 1) [] (frame_chunks p encoder1 not_drained))
        (frame_chunks p (frame_encoder p encoder1 not_drained) panic_message)

  -- The run after that logs one more message.
  abbrev pub second_sent : List ℕ
  second_sent = queue_after (len - 1) left (frame_chunks p s.world.encoder second_run)

  abbrev pub boot : List ℕ → Uart → Uart → Option (Exit p)
  boot =
      start_main features p target rest start end
        (panicked features p target rest start end panic_message)
        (panic_test features p target rest start end second_run drained not_drained panic_message) s

  abbrev program : Machine p → Option (Exit p)
  program = panic_test features p target rest start end second_run drained not_drained panic_message

  abbrev succeeds : Machine p → Option (Exit p)
  succeeds m = some (record { success = true; machine = m })

  -- The panic handler.
  panicked_lem :
      (m : Machine p)
      → Up m
      → m.uart1.sent ≡ []
      → end - start ≤ free m.uart1.flags
      → (e : Exit p) × (panicked features p target rest start end panic_message m ≡ some e)
        × (e.success ≡ true)
        × (e.machine.uart0 ≡ m.uart0)
        × (length e.machine.uart1.sent ≡ end - start)
        × (contents (found features target e.machine.uart1.sent)
            ≡ queue_after
                (len - 1)
                (contents m.world.ring)
                (frame_chunks p m.world.encoder panic_message))
  unfolding panicked
  panicked_lem m up none_sent room =
      let (m1, logs, l) =
        log-AfterLog features p target rest start end len st.ends m panic_message up in
      let i = l.running in
      let (whole, again) =
        found-region_bytes features p target rest start end s st m1.world.ring i.valid i.header
          i.buf in
      let (u, dumps, sent) =
        dump_lem features p target rest start end m1
          (omega (arith, whole, ap (λ u. free u.flags) l.uart1, room)) in
      let bytes : u.sent ≡ region_bytes rest m1.world.ring =
        sent
        ∙ ap (λ l. l ++ region_bytes rest m1.world.ring) (ap (λ u. u.sent) l.uart1 ∙ none_sent) in
      (
        record { success = true; machine = record m1 { uart1 = u } },
        some_next _ logs ∙ some_next _ dumps,
        refl,
        l.uart0,
        ap length bytes ∙ whole,
        ap (λ b. contents (found features target b)) bytes ∙ (again ∙ l.holds),
      )

  -- The path of an empty ring.
  abbrev first_path : Machine p → Option (Exit p)
  first_path m = log features p target rest start end m drained >>= λ m1.
      drain features p target rest start end m1 >>= λ m2.
      log features p target rest start end m2 not_drained
      >>= panicked features p target rest start end panic_message

  -- The path of one with logs.
  abbrev second_path : Machine p → Option (Exit p)
  second_path m = log features p target rest start end m second_run >>= λ m1.
      drain features p target rest start end m1 >>= succeeds

  first_run :
      (m : Machine p)
      → Up m
      → contents m.world.ring ≡ []
      → m.world.encoder ≡ s.world.encoder
      → length first_sent ≤ free m.uart0.flags
      → m.uart1.sent ≡ []
      → end - start ≤ free m.uart1.flags
      → (e : Exit p) × (program m ≡ some e)
        × (e.success ≡ true)
        × (e.machine.uart0.sent ≡ m.uart0.sent ++ first_sent)
        × (length e.machine.uart1.sent ≡ end - start)
        × (contents (found features target e.machine.uart1.sent) ≡ left)
  unfolding panic_test
  first_run m up empty enc room0 none_sent room1 =
      let (m1, logs1, l1) =
        log-AfterLog features p target rest start end len st.ends m drained up in
      let holds1 : contents m1.world.ring ≡ first_sent =
        l1.holds ∙ ap₂ (λ q e. queue_after (len - 1) q (frame_chunks p e drained)) empty enc in
      let (m2, drains, d) =
        drain-AfterDrain features p target rest start end len m1 0 l1.running
          (omega (arith, ap length holds1, ap (λ u. free u.flags) l1.uart0, room0)) in
      let enc2 : m2.world.encoder ≡ encoder1 =
        d.encoder ∙ (l1.encoder ∙ ap (λ e. frame_encoder p e drained) enc) in
      let (m3, logs3, l3) =
        log-AfterLog features p target rest start end len st.ends m2 not_drained d.running in
      let same1 = l3.uart1 ∙ (d.uart1 ∙ l1.uart1) in
      let (e, ends_well, success, same0, whole, again) =
        panicked_lem m3 l3.running (ap (λ u. u.sent) same1 ∙ none_sent)
          (omega (arith, ap (λ u. free u.flags) same1, room1)) in
      (
        e,
        ap (λ b. if not b then second_path m else first_path m)
              ((is_empty_iff m.world.ring up.valid).1 empty)
            ∙ (some_next _ logs1 ∙ (some_next _ drains ∙ (some_next _ logs3 ∙ ends_well))),
        success,
        ap (λ u. u.sent) (same0 ∙ l3.uart0) ∙ (d.sent ∙ ap₂ (λ u q. u.sent ++ q) l1.uart0 holds1),
        whole,
        again
            ∙ ap₂ (λ q e. queue_after (len - 1) q (frame_chunks p e panic_message))
                (l3.holds
                  ∙ ap₂ (λ q e. queue_after (len - 1) q (frame_chunks p e not_drained)) d.empty
                      enc2)
                (l3.encoder ∙ ap (λ e. frame_encoder p e not_drained) enc2),
      )

  second_run_lem :
      (m : Machine p)
      → Up m
      → contents m.world.ring ≡ left
      → left ≢ []
      → m.world.encoder ≡ s.world.encoder
      → length second_sent ≤ free m.uart0.flags
      → (e : Exit p) × (program m ≡ some e)
        × (e.success ≡ true)
        × (e.machine.uart0.sent ≡ m.uart0.sent ++ second_sent)
  unfolding panic_test
  second_run_lem m up held some_left enc room =
      let (m1, logs, l) =
        log-AfterLog features p target rest start end len st.ends m second_run up in
      let holds : contents m1.world.ring ≡ second_sent =
        l.holds ∙ ap₂ (λ q e. queue_after (len - 1) q (frame_chunks p e second_run)) held enc in
      let (m2, drains, d) =
        drain-AfterDrain features p target rest start end len m1 0 l.running
          (omega (arith, ap length holds, ap (λ u. free u.flags) l.uart0, room)) in
      (
        record { success = true; machine = m2 },
        ap (λ b. if not b then second_path m else first_path m)
              (not_empty m.world.ring up.valid (λ none_there. some_left (sym held ∙ none_there)))
            ∙ (some_next _ logs ∙ some_next _ drains),
        refl,
        d.sent ∙ ap₂ (λ u q. u.sent ++ q) l.uart0 holds,
      )

  -- panic_test, from a reset on memory without logs, sends the message that it has drained and
  -- ends in its panic handler, and the next run, on the region that this has dumped whole, sends
  -- what the ring had room for of the message before the panic, of that of the panic and of its
  -- own, in order: where init accepts the region, RTT writes end, the critical section is undone,
  -- something is left, and the UARTs take what is sent.
  pub start_main-panic_test :
      (memory : List ℕ) (uart0 uart0' uart1' : Uart) (flags1 : List ℕ)
      → length memory ≡ end - start
      → contents (found features target memory) ≡ []
      → left ≢ []
      → length first_sent ≤ free uart0.flags
      → end - start ≤ free flags1
      → length second_sent ≤ free uart0'.flags
      → (e : Exit p) × (boot memory uart0 (record { flags = flags1; sent = [] }) ≡ some e)
        × (e.success ≡ true)
        × (e.machine.uart0.sent ≡ uart0.sent ++ first_sent)
        × (length e.machine.uart1.sent ≡ end - start)
        × (e' : Exit p) × (boot e.machine.uart1.sent uart0' uart1' ≡ some e')
        × (e'.success ≡ true)
        × (e'.machine.uart0.sent ≡ uart0'.sent ++ second_sent)
  start_main-panic_test memory uart0 uart0' uart1' flags1 l none_found some_left room0 room1
        room0' =
      let on_panic = panicked features p target rest start end panic_message in
      let uart1 : Uart = record { flags = flags1; sent = [] } in
      let (e, ran, success, sent, whole, again) =
        first_run (started features p target s memory uart0 uart1)
          (started-Running features p target rest start end s st memory uart0 uart1 l) none_found
          refl room0 refl room1 in
      let snapshot = e.machine.uart1.sent in
      let (e', ran', success', sent') =
        second_run_lem (started features p target s snapshot uart0' uart1')
          (started-Running features p target rest start end s st snapshot uart0' uart1' whole) again
          some_left refl room0' in
      (
        e,
        start_main-main features p target rest start end s st on_panic program memory uart0 uart1 l
            ∙ ran,
        success,
        sent,
        whole,
        e',
        start_main-main features p target rest start end s st on_panic program snapshot uart0'
              uart1' whole
            ∙ ran',
        success',
        sent',
      )
