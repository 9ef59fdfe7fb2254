-- ===== src/Xtask/Persisted.antt =====
-- What `run_persist` of xtask/src/runner.rs finds out about a program, whose runs in QEMU and whose
-- decoded output are given.
use Prim.Native.String.{String}
use text.Mathlib.Text.{◌==◌ as str_eq}
use defmt_persist.Common.{
  ℕ, ◌≡◌, refl, sym, ap, ◌∙◌, Bool, true, false, List, Option, none, some, if◌then◌else◌,
  Bool-cases, inl, inr,
}
use defmt_persist.Xtask.Exec.{
  Result, ok, and_then, continue_result, Exec, pure, ◌>>=◌, ◌>>◌, with_context, continue_ok,
}
use defmt_persist.Xtask.Os.{Os, with_temp_file}
use defmt_persist.Xtask.Qemu.{QemuOutput, run_qemu}
use defmt_persist.Xtask.Defmt.{Decoder, decode_output}
use defmt_persist.Xtask.Build.{project_root}
use defmt_persist.Xtask.Expected.{
  RunOptions, path_of, check_expected, bless_expected, compare_expected,
}
use defmt_persist.Xtask.Scenarios.{persist_addr, no_bytes, decode_if}
use defmt_persist.Xtask.Runner.{combined, run_persist}
use defmt_persist.Xtask.Verdict.{Emulates, printed, decode_if-printed}

module _ (os : Os) (d : Decoder) (elf_path : String) (boot : Option (List ℕ) → QemuOutput)
    (decoded : List ℕ → Result String) (e : Emulates os d elf_path boot decoded)
    (example root text : String) where
  -- Runs leave the file of the expected output alone.
  pub record Expects : Type 0 where
    pub located :
        (file : String) (s : os.State) → e.Ready (some file) s → project_root os s ≡ (ok root, s)
    pub there :
        (file : String) (s : os.State)
        → e.Ready (some file) s
        → os.exists s (path_of root example) ≡ true
    pub holds :
        (file : String) (s : os.State)
        → e.Ready (some file) s
        → os.read_to_string s (path_of root example) ≡ ok text

  compare_expected-same :
      Expects
      → (output file : String) (opts : RunOptions) (s : os.State) → opts.bless ≡ false
      → e.Ready (some file) s
      → compare_expected os example output opts s ≡ (ok (str_eq output text), s)
  unfolding compare_expected check_expected
  compare_expected-same x output file opts s off ready =
      let path = path_of root example in
      continue_ok _ (x.located file s ready)
      ∙ (ap (λ b. (if b then bless_expected os path output else check_expected os path output) s)
            off
          ∙ rw (x.there file s ready, check_expected, x.holds file s ready) refl)

  -- The text of the second run, then the comparison.
  abbrev pub second_verdict : Bool → String → Result Bool
  second_verdict verbose text1 =
      let second : QemuOutput = boot (some (boot none).uart1) in
      and_then (decoded second.uart0) λ text2.
        and_then (printed boot decoded verbose second.semihosting)
          λ _. ok (str_eq (combined text1 text2) text)

  -- Behind phase 1.
  abbrev phase2 : RunOptions → String → String → Exec os.State Bool
  phase2 opts text1 snapshot_file = do
    os.write snapshot_file (boot none).uart1
    phase2 ← run_qemu os elf_path (some (record { file = snapshot_file; addr = persist_addr }))
    phase2_uart0 ← decode_output d os elf_path phase2.uart0
    decode_if os d elf_path opts.verbose phase2.semihosting
    compare_expected os example (combined text1 phase2_uart0) opts

  phase2-verdict :
      Expects
      → (opts : RunOptions) (text1 file : String) (s : os.State) → opts.bless ≡ false
      → e.Ready (some file) s
      → (phase2 opts text1 file s).0 ≡ second_verdict opts.verbose text1
  phase2-verdict x opts text1 file s off ready =
      let snapshot = (boot none).uart1 in
      let (s1, written, found, ready1) = e.writes s file snapshot ready in
      let (s2, ran, ready2) = e.loaded s1 file snapshot ready1 found in
      let second = boot (some snapshot) in
      ap (λ r. r.0) (continue_ok _ written ∙ continue_ok _ ran)
      ∙ continue_result _ s2 (decoded second.uart0) (e.decodes s2 (some file) second.uart0 ready2)
          λ text2.
            continue_result _ s2 (printed boot decoded opts.verbose second.semihosting)
              (decode_if-printed os d elf_path boot decoded e (some file) opts.verbose
                second.semihosting s2 ready2)
              λ _.
                ap (λ r. r.0)
                  (compare_expected-same x (combined text1 text2) file opts s2 off ready2)

  abbrev after_phase1 : RunOptions → String → Bool → Exec os.State Bool
  after_phase1 opts text1 missing =
      if missing
      then pure false
      else with_temp_file os "Failed to create snapshot file" (phase2 opts text1)

  -- The text of the first run, then the second run where the first has dumped something.
  abbrev pub persist_verdict : Bool → Result Bool
  persist_verdict verbose = and_then (decoded (boot none).uart0) λ text1.
      and_then (printed boot decoded verbose (boot none).semihosting)
        λ _. if no_bytes (boot none).uart1 then ok false else second_verdict verbose text1

  -- It returns what decoding the outputs and comparing the texts gives.
  pub run_persist-verdict :
      (opts : RunOptions) (s : os.State)
      → opts.bless ≡ false
      → Expects
      → e.Ready none s
      → (run_persist os d example elf_path opts s).0 ≡ persist_verdict opts.verbose
  unfolding run_persist
  run_persist-verdict opts s off x ready =
      let (s1, ran, ready1) = e.cold s ready in
      let (file, s2, created, ready2) = e.new_temp s1 ready1 in
      ap (λ r. r.0) (continue_ok _ ran)
      ∙ continue_result _ s1 (decoded (boot none).uart0)
          (e.decodes s1 none (boot none).uart0 ready1)
          λ text1.
            continue_result _ s1 (printed boot decoded opts.verbose (boot none).semihosting)
              (decode_if-printed os d elf_path boot decoded e none opts.verbose
                (boot none).semihosting s1 ready1)
              λ _. elim (Bool-cases (no_bytes (boot none).uart1)) [
                | inl missing ↦
                    ap (λ b. (after_phase1 opts text1 b s1).0) missing
                    ∙ ap (λ b. if b then ok false else second_verdict opts.verbose text1)
                        (sym missing)
                | inr there ↦
                    ap (λ b. (after_phase1 opts text1 b s1).0) there
                    ∙ (ap (λ r. r.0)
                          (continue_ok _ (
                            ap (λ r. (with_context "Failed to create snapshot file" r.0, r.1))
                              created))
                        ∙ (phase2-verdict x opts text1 file s2 off ready2
                            ∙ ap (λ b. if b then ok false else second_verdict opts.verbose text1)
                                (sym there)))
              ]
