-- ===== src/Programs/Examples.antt =====
-- The programs of testsuite/examples that are run from a reset on, at a region of 36 bytes.
use Prim.Native.String.{String}
use defmt_persist.Common.{
  ℕ, zero, suc, ◌-◌, ◌≤◌, length, ◌≡◌, ◌≢◌, refl, true, List, [], ◌∷◌, Option, some, replicate,
  arith,
}
use defmt_persist.Logger.Board.{board}
use defmt_persist.Init.Board.{cortex_m, at_start, start, end, rest}
use defmt_persist.Recover.{recover_or_reinitialize}
use defmt_persist.Layout.{view, load}
use defmt_persist.Testsuite.Drain.{free}
use defmt_persist.Testsuite.{Uart}
use defmt_persist.Programs.{Exit, panic, start_main}
use defmt_persist.Programs.Async.{async_test}
use defmt_persist.Programs.Async.Sent.{AllSome, all_logged}
use defmt_persist.Programs.Async.Started.{start_main-async_test}
use defmt_persist.Programs.Board.{in_qemu, starts, message, zeros, large_end, large_end-Starts}
use defmt_persist.Ring.Window.{contents}
use defmt_persist.Programs.{wraparound_test}
use defmt_persist.Programs.Boot.{found}
use defmt_persist.Programs.Wraparound.{joined, all_frames, AllShort}
use defmt_persist.Programs.Wraparound.Started.{start_main-wraparound_test}
use defmt_persist.Programs.Panicked.{start_main-panic_test, boot}
use defmt_persist.Xtask.Exec.{Result, ok}
use defmt_persist.Xtask.Qemu.{QemuOutput}
use defmt_persist.Xtask.Simulated.{shown}
use defmt_persist.Programs.Panicked.Persisted.{boot_panic}

abbrev three : List (List (List ℕ))
three = ((5 ∷ []) ∷ []) ∷ ((6 ∷ []) ∷ []) ∷ []

abbrev fifo : ℕ → Uart
fifo n = record { flags = zeros n; sent = [] }

some_bytes : {b : ℕ} {bytes : List ℕ} → b ∷ bytes ≢ []
some_bytes = ground arith

all_some :
    AllSome in_qemu board cortex_m rest start end 7 4 at_start.world.encoder (message ∷ three)
all_some = (some_bytes, (some_bytes, (some_bytes, tt)))

none_found : contents (found in_qemu cortex_m (zeros 36)) ≡ []
unfolding recover_or_reinitialize view load
none_found = refl

room :
    length (
      all_logged in_qemu board cortex_m rest start end 7
        (end - start - cortex_m.size_of)
        at_start.world.encoder
        (message ∷ three))
    ≤ free (fifo 6).flags
unfolding free
room = omega arith

start_main-async_test_example :
    (e : Exit board) × (start_main in_qemu board cortex_m rest start end
        (λ m. panic in_qemu board cortex_m rest start end m message)
        (async_test in_qemu board cortex_m rest start end 7 (message ∷ three))
        at_start
        (zeros 36)
        (fifo 6)
        (fifo 6)
      ≡ some e)
    × (e.success ≡ true)
    × (e.machine.uart0.sent ≡ 4 ∷ 0 ∷ 5 ∷ 0 ∷ 6 ∷ 0 ∷ [])
start_main-async_test_example =
    start_main-async_test in_qemu board cortex_m rest start end at_start starts 7 message three
      message (zeros 36) (fifo 6) (fifo 6) refl none_found all_some room

abbrev many : ℕ → List (List (List ℕ))
many n = replicate n message

many-AllShort :
    (n : ℕ)
    → AllShort in_qemu board cortex_m rest start large_end 41 2 at_start.world.encoder (many n)
many-AllShort zero = tt
many-AllShort (suc n) = (omega arith, many-AllShort n)

large_none_found : contents (found in_qemu cortex_m (zeros 73)) ≡ []
unfolding recover_or_reinitialize view load
large_none_found = refl

large_room :
    length (
      all_frames in_qemu board cortex_m rest start large_end
        (large_end - start - cortex_m.size_of)
        at_start.world.encoder
        (many 22))
    ≤ free (fifo 44).flags
unfolding free
large_room = omega arith

start_main-wraparound_test_example :
    (e : Exit board) × (start_main in_qemu board cortex_m rest start large_end
        (λ m. panic in_qemu board cortex_m rest start large_end m message)
        (wraparound_test in_qemu board cortex_m rest start large_end (many 22))
        at_start
        (zeros 73)
        (fifo 44)
        (fifo 0)
      ≡ some e)
    × (e.success ≡ true)
    × (e.machine.uart0.sent ≡ joined (replicate 22 (4 ∷ 0 ∷ [])))
start_main-wraparound_test_example =
    start_main-wraparound_test in_qemu board cortex_m rest start large_end at_start large_end-Starts
      2 (many 22) message (zeros 73) (fifo 44) (fifo 0) refl large_none_found (omega arith)
      (many-AllShort 22) large_room

large_fifo : 73 ≤ free (zeros 73)
unfolding free
large_fifo = omega arith

two_drained : 2 ≤ free (fifo 2).flags
unfolding free
two_drained = omega arith

six_sent : 6 ≤ free (fifo 6).flags
unfolding free
six_sent = omega arith

start_main-panic_test_example :
    (e : Exit board) × (boot in_qemu board cortex_m rest start large_end at_start large_end-Starts
        ((7 ∷ []) ∷ [])
        message
        ((5 ∷ []) ∷ [])
        ((6 ∷ []) ∷ [])
        (zeros 73)
        (fifo 2)
        (fifo 73)
      ≡ some e)
    × (e.success ≡ true)
    × (e.machine.uart0.sent ≡ 4 ∷ 0 ∷ [])
    × (length e.machine.uart1.sent ≡ 73)
    × (e' : Exit board) × (boot in_qemu board cortex_m rest start large_end at_start
          large_end-Starts
          ((7 ∷ []) ∷ [])
          message
          ((5 ∷ []) ∷ [])
          ((6 ∷ []) ∷ [])
          e.machine.uart1.sent
          (fifo 6)
          (fifo 0)
        ≡ some e')
    × (e'.success ≡ true)
    × (e'.machine.uart0.sent ≡ 5 ∷ 0 ∷ 6 ∷ 0 ∷ 7 ∷ 0 ∷ [])
start_main-panic_test_example =
    start_main-panic_test in_qemu board cortex_m rest start large_end at_start large_end-Starts
      ((7 ∷ []) ∷ []) message ((5 ∷ []) ∷ []) ((6 ∷ []) ∷ []) (zeros 73) (fifo 2) (fifo 6) (fifo 0)
      (zeros 73) refl large_none_found some_bytes two_drained large_fifo six_sent

abbrev panicking : Option (List ℕ) → QemuOutput
panicking =
    boot_panic in_qemu board cortex_m rest start large_end at_start large_end-Starts ((7 ∷ []) ∷ [])
      message ((5 ∷ []) ∷ []) ((6 ∷ []) ∷ []) (zeros 73) (zeros 6) (zeros 73) (λ s. s)

abbrev decoded : List ℕ → Result String
decoded bytes = ok (shown bytes)
