-- ===== src/Programs/Board.antt =====
-- A region of 36 bytes for the programs of testsuite/examples, on the board of Init/Board.antt.

use defmt_persist.Common.{ℕ, ◌+◌, refl, true, List, [], ◌∷◌, replicate, arith}
use defmt_persist.Logger.{Features}
use defmt_persist.Logger.Board.{board, ends}
use defmt_persist.Init.Board.{cortex_m, at_start, start, end, fits, rest}
use defmt_persist.Init.Outcome.{Fits}
use defmt_persist.Programs.Boot.{Starts}

abbrev pub in_qemu : Features
in_qemu = record { ecc = true; rtt = true; async_await = true; qemu_test = true }

pub starts : Starts board cortex_m rest start end at_start
starts = record {
  ends = ends;
  restores = refl;
  idle = refl;
  first = refl;
  fits = fits;
  size = refl;
}

abbrev pub message : List (List ℕ)
message = (4 ∷ []) ∷ []

abbrev pub zeros : ℕ → List ℕ
zeros n = replicate n 0

-- A region with room for twenty frames of two bytes.
abbrev pub large_end : ℕ
large_end = start + 73

large_end-Fits : Fits cortex_m start large_end
large_end-Fits = record { aligned = refl; large = omega arith; small = omega arith }

pub large_end-Starts : Starts board cortex_m rest start large_end at_start
large_end-Starts = record {
  ends = ends;
  restores = refl;
  idle = refl;
  first = refl;
  fits = large_end-Fits;
  size = refl;
}
