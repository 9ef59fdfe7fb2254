-- ===== src/Testsuite.antt =====
-- testsuite/src/uart.rs, and testsuite/src/lib.rs: what the test programs do with the consumer. The
-- loads of the flag register of a UART see a list of values; `none` stands for a loop that is not
-- over when it has run out.
pub mod Drain
pub mod Snapshot
pub mod Futures
mod Tests
use defmt_persist.Common.{
  ℕ, ◌/◌, ◌%◌, zero, suc, Bool, List, [], ◌∷◌, ◌++◌, Option, none, some, ◌>>=◌, if◌then◌else◌, ◌==◌,
  not,
}
use defmt_persist.Ring.{RingBuffer}
use defmt_persist.Ring.Consumer.{is_empty, read, bufs, release_all}
use defmt_persist.Layout.Dump.{region_bytes}

-- A UART: the values of its flag register to come, and the bytes that it was given.
pub record Uart : Type 0 where
  pub flags : List ℕ
  pub sent : List ℕ

-- `UART_FR_TXFF`: the transmit FIFO is full.
abbrev pub is_full : ℕ → Bool
is_full fr = fr / 0x20 % 2 == 1

unfoldable pub wait_and_send : List ℕ → List ℕ → ℕ → Option Uart
wait_and_send [] sent byte = none
wait_and_send (fr ∷ flags) sent byte =
    let waited = wait_and_send flags sent byte in
    if is_full fr then waited else some (record { flags = flags; sent = sent ++ byte ∷ [] })

abbrev pub uart_write_byte : Uart → ℕ → Option Uart
uart_write_byte u byte = wait_and_send u.flags u.sent byte

unfoldable pub write_bytes : Uart → List ℕ → Option Uart
write_bytes u [] = some u
write_bytes u (byte ∷ bytes) = do u' ← uart_write_byte u byte; write_bytes u' bytes

-- One round of the loop of `drain_to_uart`.
unfoldable pub drain_round : Bool → RingBuffer → Uart → Option (RingBuffer × Uart)
drain_round ecc r u =
    let grant = read r in
    let (buf1, buf2) = bufs grant in
    do u1 ← write_bytes u buf1; u2 ← write_bytes u1 buf2; some (release_all ecc r grant, u2)

-- `drain_to_uart`, with a bound on the rounds of its loop.
unfoldable pub drain_to_uart : ℕ → Bool → RingBuffer → Uart → Option (RingBuffer × Uart)
drain_to_uart zero ecc r u = if is_empty r then some (r, u) else none
drain_to_uart (suc rounds) ecc r u =
    if is_empty r
    then some (r, u)
    else (do (r', u') ← drain_round ecc r u; drain_to_uart rounds ecc r' u')

-- `dump_persist_region`: the bytes of the region to the other UART.
unfoldable pub dump_persist_region : List ℕ → RingBuffer → Uart → Option Uart
dump_persist_region rest r u = write_bytes u (region_bytes rest r)
