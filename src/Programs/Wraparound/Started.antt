-- ===== src/Programs/Wraparound/Started.antt =====
-- testsuite/examples/wraparound_test.rs from the reset on.
use defmt_persist.Common.{ℕ, ◌-◌, ◌*◌, ◌≤◌, ◌≡◌, refl, ◌∙◌, true, List, [], ◌++◌, length, some}
use defmt_persist.Ring.Window.{contents}
use defmt_persist.Layout.{Target}
use defmt_persist.Logger.{Features, Platform}
use defmt_persist.Init.{Statics}
use defmt_persist.Testsuite.{Uart}
use defmt_persist.Testsuite.Drain.{free}
use defmt_persist.Programs.{Exit, panic, start_main, wraparound_test}
use defmt_persist.Programs.Boot.{Starts, found, started, started-Running, start_main-main}
use defmt_persist.Programs.Wraparound.{all_frames, AllShort, wraparound_test_lem}

-- wraparound_test, from a reset on memory without logs, ends with success and loses no byte: it
-- sends the frames of all its messages, any number of them, in order, where the ring has room for
-- twenty frames of the longest kind, init accepts the region, RTT writes end, the critical section
-- is undone, and the UART takes what is sent.
pub start_main-wraparound_test :
    (features : Features) (p : Platform) (target : Target) (rest : List ℕ) (start end : ℕ)
    (s : Statics p) (st : Starts p target rest start end s) (most : ℕ)
    (messages : List (List (List ℕ))) (panic_message : List (List ℕ)) (memory : List ℕ)
    (uart0 uart1 : Uart)
    → length memory ≡ end - start
    → contents (found features target memory) ≡ []
    → 20 * most ≤ end - start - target.size_of - 1
    → AllShort features p target rest start end
        (end - start - target.size_of)
        most
        s.world.encoder
        messages
    → length (
        all_frames features p target rest start end
          (end - start - target.size_of)
          s.world.encoder
          messages)
      ≤ free uart0.flags
    → (e : Exit p) × (start_main features p target rest start end
          (λ m. panic features p target rest start end m panic_message)
          (wraparound_test features p target rest start end messages)
          s
          memory
          uart0
          uart1
        ≡ some e)
      × (e.success ≡ true)
      × (e.machine.uart0.sent
          ≡ uart0.sent
            ++ all_frames features p target rest start end
                (end - start - target.size_of)
                s.world.encoder
                messages)
start_main-wraparound_test features p target rest start end s st most messages panic_message memory
      uart0 uart1 l none_found large all_short room =
    let (m', ran, sent) =
      wraparound_test_lem features p target rest start end (end - start - target.size_of) st.ends
        most large messages (started features p target s memory uart0 uart1)
        (started-Running features p target rest start end s st memory uart0 uart1 l) none_found
        all_short room in
    (
      record { success = true; machine = m' },
      start_main-main features p target rest start end s st
            (λ m. panic features p target rest start end m panic_message)
            (wraparound_test features p target rest start end messages) memory uart0 uart1 l
          ∙ ran,
      refl,
      sent,
    )
