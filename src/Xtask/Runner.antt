-- ===== src/Xtask/Runner.antt =====
-- xtask/src/runner.rs: `run_example`, `run_single` and `run_persist`.
use Prim.Native.String.{String, ◌++◌}
use text.Mathlib.Text.{◌==◌ as str_eq}
use defmt_persist.Common.{Bool, true, false, not, none, some, if◌then◌else◌}
use defmt_persist.Xtask.Exec.{Exec, pure, ◌>>=◌, ◌>>◌}
use defmt_persist.Xtask.Os.{Os, with_temp_file}
use defmt_persist.Xtask.Text.{join}
use defmt_persist.Xtask.Qemu.{run_qemu}
use defmt_persist.Xtask.Defmt.{Decoder, decode_output}
use defmt_persist.Xtask.Build.{project_root, build_example}
use defmt_persist.Xtask.Config.{single, persist, expected, corrupt, parse_test_config}
use defmt_persist.Xtask.Expected.{RunOptions, compare_expected}
use defmt_persist.Xtask.Scenarios.{persist_addr, no_bytes, decode_if, run_corrupt}

abbrev pub combined : String → String → String
combined phase1_uart0 phase2_uart0 =
    "=== Run 1 ===\n" ++ (phase1_uart0 ++ ("\n=== Run 2 ===\n" ++ phase2_uart0))

module _ (os : Os) (d : Decoder) where
  unfoldable pub run_single : String → String → RunOptions → Exec os.State Bool
  run_single example elf_path opts = do
    output ← run_qemu os elf_path none
    semihosting ← decode_output d os elf_path output.semihosting
    uart0 ← decode_output d os elf_path output.uart0
    if opts.verbose
        then pure true
        else if not (str_eq semihosting uart0)
        then pure false
        else compare_expected os example semihosting opts

  unfoldable pub run_persist : String → String → RunOptions → Exec os.State Bool
  run_persist example elf_path opts = do
    phase1 ← run_qemu os elf_path none
    phase1_uart0 ← decode_output d os elf_path phase1.uart0
    decode_if os d elf_path opts.verbose phase1.semihosting
    if no_bytes phase1.uart1
        then pure false
        else with_temp_file os "Failed to create snapshot file" λ snapshot_file. do
          os.write snapshot_file phase1.uart1
          phase2 ←
              run_qemu os elf_path (some (record { file = snapshot_file; addr = persist_addr }))
          phase2_uart0 ← decode_output d os elf_path phase2.uart0
          decode_if os d elf_path opts.verbose phase2.semihosting
          compare_expected os example (combined phase1_uart0 phase2_uart0) opts

  unfoldable pub run_example : String → RunOptions → Exec os.State Bool
  run_example example opts = do
    root ← project_root os
    config ← λ s.
        pure
          (parse_test_config (
            os.read_to_string s
              (join (join (join root "testsuite") "examples") (example ++ ".rs"))))
          s
    elf_path ← build_example os example opts.release
    elim config.validate_mode [
      | corrupt ↦ run_corrupt os d elf_path opts
      | expected ↦ elim config.run_mode [
        | single ↦ run_single example elf_path opts
        | persist ↦ run_persist example elf_path opts
      ]
    ]
