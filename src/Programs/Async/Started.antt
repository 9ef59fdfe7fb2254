-- ===== src/Programs/Async/Started.antt =====
-- testsuite/examples/async_test.rs from the reset on.
use defmt_persist.Common.{ℕ, ◌-◌, ◌≤◌, ◌≡◌, refl, ◌∙◌, true, List, [], ◌∷◌, ◌++◌, length, some}
use defmt_persist.Ring.Window.{contents}
use defmt_persist.Layout.{Target}
use defmt_persist.Logger.{Features, Platform}
use defmt_persist.Init.{Statics}
use defmt_persist.Testsuite.{Uart}
use defmt_persist.Testsuite.Drain.{free}
use defmt_persist.Programs.{Exit, panic, start_main}
use defmt_persist.Programs.Boot.{Starts, found, started-Running, start_main-main}
use defmt_persist.Programs.Async.{async_test}
use defmt_persist.Programs.Async.Sent.{all_logged, AllSome, async_test_lem}

-- async_test, from a reset on memory without logs, returns after as many rounds of block_on as
-- there are messages and one more, with success, and has sent what an empty ring has room for of
-- each message, in order: where there is a message, each leaves something, init accepts the
-- region, RTT writes end, the critical section is undone, and the UART takes what is sent.
pub start_main-async_test :
    (features : Features) (p : Platform) (target : Target) (rest : List ℕ) (start end : ℕ)
    (s : Statics p) (st : Starts p target rest start end s) (cx : p.Waker) (message : List (List ℕ))
    (messages : List (List (List ℕ))) (panic_message : List (List ℕ)) (memory : List ℕ)
    (uart0 uart1 : Uart)
    → length memory ≡ end - start
    → contents (found features target memory) ≡ []
    → AllSome features p target rest start end cx
        (end - start - target.size_of)
        s.world.encoder
        (message ∷ messages)
    → length (
        all_logged features p target rest start end cx
          (end - start - target.size_of)
          s.world.encoder
          (message ∷ messages))
      ≤ free uart0.flags
    → (e : Exit p) × (start_main features p target rest start end
          (λ m. panic features p target rest start end m panic_message)
          (async_test features p target rest start end cx (message ∷ messages))
          s
          memory
          uart0
          uart1
        ≡ some e)
      × (e.success ≡ true)
      × (e.machine.uart0.sent
          ≡ uart0.sent
            ++ all_logged features p target rest start end cx
                (end - start - target.size_of)
                s.world.encoder
                (message ∷ messages))
start_main-async_test features p target rest start end s st cx message messages panic_message memory
      uart0 uart1 l none_found all_some room =
    let main = async_test features p target rest start end cx (message ∷ messages) in
    let (m', ran, sent) =
      async_test_lem features p target rest start end cx (end - start - target.size_of) st.ends _
        message messages
        (started-Running features p target rest start end s st memory uart0 uart1 l) none_found
        all_some room in
    (
      record { success = true; machine = m' },
      start_main-main features p target rest start end s st
            (λ m. panic features p target rest start end m panic_message) main memory uart0 uart1 l
          ∙ ran,
      refl,
      sent,
    )
