-- ===== src/Programs/Panicked/Persisted.antt =====
-- `run_persist` of xtask/src/runner.rs on testsuite/examples/panic_test.rs: the library, the program and
-- the test that is run on it, together.
use Prim.Native.String.{String}
use text.Mathlib.Text.{◌==◌ as str_eq}
use defmt_persist.Common.{Bool, ℕ, List, [], Option, none, some}
use defmt_persist.Layout.{Target}
use defmt_persist.Logger.{Features, Platform}
use defmt_persist.Init.{Statics}
use defmt_persist.Xtask.Exec.{Result, ok, and_then}
use defmt_persist.Xtask.Os.{Os}
use defmt_persist.Xtask.Qemu.{QemuOutput}
use defmt_persist.Xtask.Runner.{combined}
use defmt_persist.Xtask.Verdict.{printed}
use defmt_persist.Programs.Output.{output_of, memory_of}
use defmt_persist.Programs.Boot.{Starts}
use defmt_persist.Programs.Panicked.{first_sent, second_sent}
use defmt_persist.Programs.Panicked.{boot as boot_program}

module _ (features : Features) (p : Platform) (target : Target) (rest : List ℕ) (start end : ℕ)
    (s : Statics p) (st : Starts p target rest start end s)
    (second_run drained not_drained panic_message : List (List ℕ)) (cold flags0 flags1 : List ℕ)
    (stdout : p.Semihosting → List ℕ) where
  -- What the program puts out, when the loads of the flag registers of the UARTs see `flags0` and `flags1`.
  abbrev pub boot_panic : Option (List ℕ) → QemuOutput
  boot_panic load = output_of p stdout (
      boot_program features p target rest start end s st second_run drained not_drained
        panic_message (memory_of cold load) (record { flags = flags0; sent = [] })
        (record { flags = flags1; sent = [] }))

  abbrev first : List ℕ
  first =
      first_sent features p target rest start end s st second_run drained not_drained panic_message

  abbrev second : List ℕ
  second =
      second_sent features p target rest start end s st second_run drained not_drained panic_message

  -- The texts of both runs, and the comparison with what is expected.
  abbrev pub panic_verdict :
      (decoded : List ℕ → Result String) → (verbose : Bool) → String → Result Bool
  panic_verdict decoded verbose text = and_then (decoded first) λ text1.
      and_then (printed boot_panic decoded verbose (boot_panic none).semihosting) λ _.
        and_then (decoded second) λ text2.
          and_then
            (printed boot_panic decoded verbose
              (boot_panic (some (boot_panic none).uart1)).semihosting)
            λ _. ok (str_eq (combined text1 text2) text)
