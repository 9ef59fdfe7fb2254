-- ===== src/Programs/Tests.antt =====
-- `run_corrupt` on corrupt_test.rs at a region of 36 bytes, on the system of Xtask/Simulated.antt.
use Prim.Native.String.{String}
use text.Mathlib.Text.{◌==◌ as str_eq}
use defmt_persist.Common.{
  ℕ, ◌≡◌, ◌≢◌, refl, sym, ◌∙◌, ap, true, false, List, [], ◌∷◌, Option, arith,
}
use mathlib.Core.Bool.{false≢true}
use defmt_persist.Xtask.Qemu.{QemuOutput}
use defmt_persist.Logger.Board.{board}
use defmt_persist.Init.Board.{cortex_m, at_start, start, end, rest}
use defmt_persist.Xtask.Exec.{Result, ok}
use defmt_persist.Xtask.Defmt.{format_frame}
use defmt_persist.Xtask.Scenarios.{run_corrupt}
use defmt_persist.Xtask.Simulated.{per_byte, shown, elf, system, system-Emulates}
use defmt_persist.Recover.{recover_or_reinitialize}
use defmt_persist.Layout.{view, load}
use defmt_persist.Testsuite.Drain.{free}
use defmt_persist.Programs.Board.{in_qemu, starts, message, zeros}
use defmt_persist.Programs.Passes.{boot, Shows, Ample, run_corrupt-corrupt_test}

abbrev booted : Option (List ℕ) → QemuOutput
booted =
    boot in_qemu board cortex_m rest start end at_start message [] (zeros 36) (zeros 2) (zeros 36)
      (λ s. s) starts

some_text : (s : String) → str_eq s "" ≡ false → s ≢ ""
some_text s h e = false≢true (sym h ∙ ap (λ s. str_eq s "") e)

abbrev decoded : List ℕ → Result String
decoded bytes = ok (shown bytes)

shows :
    Shows in_qemu board cortex_m rest start end at_start message []
      (zeros 36)
      (zeros 2)
      (zeros 36)
      (λ s. s)
      starts
      decoded
unfolding format_frame
shows = record {
  said_text = shown (4 ∷ 0 ∷ []);
  sent_text = shown (4 ∷ 0 ∷ []);
  nothing = refl;
  silent = refl;
  on_stdout = refl;
  on_uart = refl;
  some_said = some_text _ refl;
  some_sent = some_text _ refl;
}

ample :
    Ample in_qemu board cortex_m rest start end at_start message []
      (zeros 36)
      (zeros 2)
      (zeros 36)
      (λ s. s)
      starts
unfolding recover_or_reinitialize view load free
ample = record { length_cold = refl; cold_empty = refl; room0 = omega arith; room1 = omega arith }

run_corrupt-corrupt_test_example :
    (run_corrupt
      (system booted)
      per_byte
      elf
      (record { verbose = false; bless = false; release = false })
      []).0
    ≡ ok true
run_corrupt-corrupt_test_example =
    run_corrupt-corrupt_test in_qemu board cortex_m rest start end at_start message [] (zeros 36)
      (zeros 2) (zeros 36) (λ s. s) starts ample decoded shows (system booted) per_byte elf
      (record { verbose = false; bless = false; release = false }) (system-Emulates booted) [] tt
