-- ===== src/Logger/Board.antt =====
-- A concrete platform for the logger of src/logger.rs: a CPU with one mask bit for interrupts, an
-- encoder that ends a frame with a zero, and RTT with room for all.
use defmt_persist.Common.{ℕ, ◌≢◌, Bool, true, false, List, [], ◌∷◌, ◌++◌, some, none, arith}
use defmt_persist.Logger.{Features, Platform}

abbrev pub features : Features
features = record { ecc = true; rtt = true; async_await = true; qemu_test = false }

abbrev pub board : Platform
board = record {
  Encoder = ℕ;
  start_frame = λ e. (e, []);
  encode = λ e bytes. (e, bytes ∷ []);
  end_frame = λ e. (e, (0 ∷ []) ∷ []);
  RestoreState = Bool;
  Cpu = Bool;
  cs_acquire = λ cpu. (cpu, true);
  cs_release = λ restore cpu. restore;
  Rtt = List ℕ;
  rtt_write = λ s bytes. some (s ++ bytes);
  rtt_flush = λ s. some s;
  Semihosting = List ℕ;
  semihosting_write = λ s bytes. s ++ bytes;
  Waker = ℕ;
}

pub ends : (s : List ℕ) (bytes : List ℕ) → board.rtt_write s bytes ≢ none
ends s bytes = ground arith
