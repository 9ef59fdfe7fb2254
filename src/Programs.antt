-- ===== src/Programs.antt =====
-- testsuite/examples: the programs that the test runner runs in QEMU. What a log call hands to the
-- encoder is a parameter, since the macros of defmt make it. A program that does not end is `none`.
pub mod Output
pub mod Steps
pub mod Boot
pub mod Booted
pub mod Passes
pub mod Async
pub mod Wraparound
pub mod Panicked
pub mod Board
mod Tests
mod Examples
use defmt_persist.Common.{
  ℕ, suc, ◌%◌, ◌==◌, Bool, true, false, not, List, [], ◌∷◌, Option, none, some, ◌>>=◌,
  if◌then◌else◌,
}
use defmt_persist.Ring.Consumer.{is_empty}
use defmt_persist.Layout.{Target}
use defmt_persist.Logger.{Features, Platform, World}
use defmt_persist.Logger.Reentrant.{run}
use defmt_persist.Logger.Emitted.{frame_events}
use defmt_persist.Init.{Result, ok, err, Statics, init}
use defmt_persist.Testsuite.{Uart, drain_to_uart, dump_persist_region}

-- What a program acts on.
pub record Machine (p : Platform) : Type 0 where
  pub world : World p
  pub uart0 : Uart
  pub uart1 : Uart

-- How a program ends: `exit_success` or `exit_failure`.
pub record Exit (p : Platform) : Type 0 where
  pub success : Bool
  pub machine : Machine p

-- The region, what lies between the indices and the buffer, and the linker symbols.
module _ (features : Features) (p : Platform) (target : Target) (rest : List ℕ)
    (start end : ℕ) where
  -- A log macro of defmt.
  unfoldable pub log : Machine p → List (List ℕ) → Option (Machine p)
  log m message = do
    w ← run features p m.world (frame_events message)
    some (record m { world = w })

  unfoldable pub log_all : Machine p → List (List (List ℕ)) → Option (Machine p)
  log_all m [] = some m
  log_all m (message ∷ messages) = do m' ← log m message; log_all m' messages

  -- `drain_to_uart`, whose loop ends after a round.
  unfoldable pub drain : Machine p → Option (Machine p)
  drain m = do
    (ring', uart0') ← drain_to_uart 1 features.ecc m.world.ring m.uart0
    some (record m { world = record m.world { ring = ring' }; uart0 = uart0' })

  unfoldable pub dump : Machine p → Option (Machine p)
  dump m = do
    uart1' ← dump_persist_region rest m.world.ring m.uart1
    some (record m { uart1 = uart1' })

  -- The panic handler of all but panic_test.
  unfoldable pub panic : Machine p → List (List ℕ) → Option (Exit p)
  panic m message = do m' ← log m message; some (record { success = false; machine = m' })

  -- `unwrap` of what `init` returned, and `main` behind it.
  abbrev pub after_init :
      (on_panic : Machine p → Option (Exit p))
      → (Machine p → Option (Exit p))
      → Uart
      → Uart
      → Statics p × Result
      → Option (Exit p)
  after_init on_panic main uart0 uart1 (s, err _) =
      on_panic (record { world = s.world; uart0 = uart0; uart1 = uart1 })
  after_init on_panic main uart0 uart1 (s, ok _) =
      main (record { world = s.world; uart0 = uart0; uart1 = uart1 })

  unfoldable pub start_main :
      (on_panic : Machine p → Option (Exit p))
      → (Machine p → Option (Exit p))
      → Statics p
      → List ℕ
      → Uart
      → Uart
      → Option (Exit p)
  start_main on_panic main s memory uart0 uart1 =
      after_init on_panic main uart0 uart1 (init p features target s start end memory)

  abbrev exit_success : Machine p → Option (Exit p)
  exit_success m = some (record { success = true; machine = m })

  -- basic.rs
  unfoldable pub basic : List (List (List ℕ)) → Machine p → Option (Exit p)
  basic messages m = do m1 ← log_all m messages; m2 ← drain m1; exit_success m2

  -- persist_test.rs
  unfoldable pub persist_test :
      (first : List (List (List ℕ))) (only_first only_second : List (List ℕ))
      → Machine p
      → Option (Exit p)
  persist_test first only_first only_second m =
      if not (is_empty m.world.ring)
      then (do m1 ← log m only_second; m2 ← drain m1; exit_success m2)
      else (do
        m1 ← log_all m first
        m2 ← dump m1
        m3 ← log m2 only_first
        m4 ← drain m3
        exit_success m4)

  -- corrupt_test.rs
  unfoldable pub corrupt_test : List (List ℕ) → Machine p → Option (Exit p)
  corrupt_test message m =
      if not (is_empty m.world.ring)
      then (do m1 ← drain m; exit_success m1)
      else (do m1 ← log m message; m2 ← dump m1; m3 ← drain m2; exit_success m3)

  -- panic_test.rs; `panic_message` is what its handler logs.
  unfoldable pub panicked : (panic_message : List (List ℕ)) → Machine p → Option (Exit p)
  panicked panic_message m = do m1 ← log m panic_message; m2 ← dump m1; exit_success m2

  unfoldable pub panic_test :
      (second_run drained not_drained panic_message : List (List ℕ)) → Machine p → Option (Exit p)
  panic_test second_run drained not_drained panic_message m =
      if not (is_empty m.world.ring)
      then (do m1 ← log m second_run; m2 ← drain m1; exit_success m2)
      else (do
        m1 ← log m drained
        m2 ← drain m1
        m3 ← log m2 not_drained
        panicked panic_message m3)

  -- wraparound_test.rs; `i` counts the messages.
  unfoldable pub log_and_drain : (i : ℕ) → List (List (List ℕ)) → Machine p → Option (Machine p)
  log_and_drain i [] m = some m
  log_and_drain i (message ∷ messages) m = do
    m1 ← log m message
    m2 ← if i % 20 == 0 then drain m1 else some m1
    log_and_drain (suc i) messages m2

  unfoldable pub wraparound_test : List (List (List ℕ)) → Machine p → Option (Exit p)
  wraparound_test messages m = do m1 ← log_and_drain 0 messages m; m2 ← drain m1; exit_success m2
