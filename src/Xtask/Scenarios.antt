-- ===== src/Xtask/Scenarios.antt =====
-- xtask/src/corrupt.rs: `run_corrupt`.
use Prim.Native.String.{String}
use text.Mathlib.Text.{◌==◌ as str_eq}
use defmt_persist.Common.{
  ℕ, Bool, true, false, not, ◌&&◌, List, [], ◌∷◌, Option, none, some, if◌then◌else◌,
}
use defmt_persist.Corrupt.{CorruptFlags, any, all_combinations, apply_corruption}
use defmt_persist.Xtask.Exec.{Result, ok, panic, Exec, pure, lift, ◌>>=◌, ◌>>◌}
use defmt_persist.Xtask.Os.{Os, with_temp_file}
use defmt_persist.Xtask.Qemu.{run_qemu}
use defmt_persist.Xtask.Defmt.{Decoder, decode_output}
use defmt_persist.Xtask.Expected.{RunOptions}

abbrev pub persist_addr : ℕ
persist_addr = 0x2000_fc00

abbrev pub no_bytes : List ℕ → Bool
no_bytes [] = true
no_bytes (_ ∷ _) = false

-- Whether a scenario passes, from its decoded output and that of phase 1.
unfoldable pub judge : CorruptFlags → (semihosting uart0 phase1_uart0 : String) → Bool
judge flags semihosting uart0 phase1_uart0 =
    if any flags
    then not (str_eq semihosting "") && str_eq uart0 phase1_uart0
    else str_eq semihosting "" && not (str_eq uart0 "")

abbrev or_panic : Option (List ℕ) → Result (List ℕ)
or_panic none = panic
or_panic (some bytes) = ok bytes

module _ (os : Os) (d : Decoder) (elf_path : String) where
  unfoldable pub run_scenario :
      (snapshot : List ℕ) (phase1_uart0 snapshot_file : String) → CorruptFlags → Exec os.State Bool
  run_scenario snapshot phase1_uart0 snapshot_file flags = do
    corrupted ← lift (or_panic (apply_corruption snapshot flags))
    os.write snapshot_file corrupted
    result ← run_qemu os elf_path (some (record { file = snapshot_file; addr = persist_addr }))
    result_semihosting ← decode_output d os elf_path result.semihosting
    result_uart0 ← decode_output d os elf_path result.uart0
    pure (judge flags result_semihosting result_uart0 phase1_uart0)

  -- The loop over the scenarios, with `all_passed`.
  unfoldable pub run_scenarios :
      (snapshot : List ℕ) (phase1_uart0 snapshot_file : String)
      → List CorruptFlags
      → (all_passed : Bool) → Exec os.State Bool
  run_scenarios snapshot phase1_uart0 snapshot_file [] all_passed = pure all_passed
  run_scenarios snapshot phase1_uart0 snapshot_file (flags ∷ scenarios) all_passed = do
    passed ← run_scenario snapshot phase1_uart0 snapshot_file flags
    run_scenarios snapshot phase1_uart0 snapshot_file scenarios
        (if not passed then false else all_passed)

  -- What is printed with `verbose` is decoded first.
  abbrev pub decode_if : Bool → List ℕ → Exec os.State (Unit {0})
  decode_if verbose bytes =
      if verbose then (do decode_output d os elf_path bytes; pure tt) else pure tt

  unfoldable pub run_corrupt : RunOptions → Exec os.State Bool
  run_corrupt opts = do
    phase1 ← run_qemu os elf_path none
    phase1_uart0 ← decode_output d os elf_path phase1.uart0
    decode_if opts.verbose phase1.semihosting
    if no_bytes phase1.uart1
        then pure false
        else with_temp_file os "Failed to create snapshot file" λ snapshot_file.
          run_scenarios phase1.uart1 phase1_uart0 snapshot_file all_combinations true
