-- ===== src/Xtask/Verdict.antt =====
-- What `run_corrupt` of xtask/src/corrupt.rs finds out about a program, whose runs in QEMU and whose
-- decoded output are given.
use Prim.Native.String.{String}
use defmt_persist.Common.{
  ℕ, ◌≤◌, ◌≡◌, refl, ap, ◌∙◌, Bool, true, false, ◌&&◌, not, List, [], ◌∷◌, length, Option, none,
  some, if◌then◌else◌, arith,
}
use defmt_persist.Corrupt.{CorruptFlags, all_combinations}
use defmt_persist.Corrupt.Fresh.{corrupted, apply_corruption-fits}
use defmt_persist.Xtask.Exec.{
  Result, ok, err, panic, unfinished, Exec, pure, with_context, continue_ok, and_then,
  continue_result, continue_pure,
}
use defmt_persist.Xtask.Os.{Os, with_temp_file}
use defmt_persist.Xtask.Qemu.{QemuOutput, run_qemu}
use defmt_persist.Xtask.Defmt.{Decoder, decode_output}
use defmt_persist.Xtask.Expected.{RunOptions}
use defmt_persist.Xtask.Scenarios.{
  persist_addr, no_bytes, judge, decode_if, run_scenario, run_scenarios, run_corrupt,
}

-- A system on which QEMU runs the program: `boot` is its output for what was loaded to the region, and
-- `decoded` is what `decode_output` returns for bytes, an error for those that are malformed included.
pub record Emulates (os : Os) (d : Decoder) (elf_path : String)
    (boot : Option (List ℕ) → QemuOutput) (decoded : List ℕ → Result String) : Type 1 where
  -- The ELF file is there, and the temporary file of the snapshot if it is given.
  pub Ready : Option String → os.State → Type 0
  pub cold :
      (s : os.State)
      → Ready none s
      → (s' : os.State) × (run_qemu os elf_path none s ≡ (ok (boot none), s')) × Ready none s'
  pub loaded :
      (s : os.State) (file : String) (memory : List ℕ)
      → Ready (some file) s
      → os.read s file ≡ ok memory
      → (s' : os.State) × (run_qemu os elf_path
            (some (record { file = file; addr = persist_addr }))
            s
          ≡ (ok (boot (some memory)), s'))
        × Ready (some file) s'
  pub decodes :
      (s : os.State) (file : Option String) (bytes : List ℕ)
      → Ready file s
      → decode_output d os elf_path bytes s ≡ (decoded bytes, s)
  pub new_temp :
      (s : os.State)
      → Ready none s
      → (file : String) × (s' : os.State) × (os.new_temp_file s ≡ (ok file, s'))
        × Ready (some file) s'
  pub writes :
      (s : os.State) (file : String) (bytes : List ℕ)
      → Ready (some file) s
      → (s' : os.State) × (os.write file bytes s ≡ (ok tt, s'))
        × (os.read s' file ≡ ok bytes)
        × Ready (some file) s'

module _ (boot : Option (List ℕ) → QemuOutput) (decoded : List ℕ → Result String) where
  -- Whether the run on a corrupted snapshot is as it should be, from the text of the first run.
  abbrev pub is_right : String → CorruptFlags → Result Bool
  is_right text flags =
      let output : QemuOutput = boot (some (corrupted (boot none).uart1 flags)) in
      and_then (decoded output.semihosting) λ semihosting.
        and_then (decoded output.uart0) λ uart0. ok (judge flags semihosting uart0 text)

  abbrev pub all_right : String → List CorruptFlags → Result Bool
  all_right text [] = ok true
  all_right text (flags ∷ rest) =
      and_then (is_right text flags)
        λ passed. and_then (all_right text rest) λ others. ok (passed && others)

  -- What is decoded to be printed with `verbose`.
  abbrev pub printed : Bool → List ℕ → Result (Unit {0})
  printed verbose bytes = if verbose then and_then (decoded bytes) (λ _. ok tt) else ok tt

  -- The text of the first run, then all scenarios.
  abbrev pub verdict : Bool → Result Bool
  verdict verbose = and_then (decoded (boot none).uart0) λ text.
      and_then (printed verbose (boot none).semihosting) λ _. all_right text all_combinations

tally :
    (passed all rest : Bool) → (if not passed then false else all) && rest ≡ all && (passed && rest)
tally passed all rest = ground arith

tally_results :
    (all : Bool) (r q : Result Bool)
    → and_then r (λ passed. and_then q λ rest. ok ((if not passed then false else all) && rest))
      ≡ and_then
          (and_then r (λ passed. and_then q λ rest. ok (passed && rest)))
          λ right. ok (all && right)
tally_results all (ok passed) (ok rest) = ap ok (tally passed all rest)
tally_results all (ok passed) (err message) = refl
tally_results all (ok passed) panic = refl
tally_results all (ok passed) unfinished = refl
tally_results all (err message) q = refl
tally_results all panic q = refl
tally_results all unfinished q = refl

and_true : (r : Result Bool) → and_then r (λ right. ok (true && right)) ≡ r
and_true (ok right) = refl
and_true (err message) = refl
and_true panic = refl
and_true unfinished = refl

module _ (os : Os) (d : Decoder) (elf_path : String) (boot : Option (List ℕ) → QemuOutput)
    (decoded : List ℕ → Result String) (e : Emulates os d elf_path boot decoded) where
  pub decode_if-printed :
      (file : Option String) (verbose : Bool) (bytes : List ℕ) (s : os.State)
      → e.Ready file s
      → decode_if os d elf_path verbose bytes s ≡ (printed boot decoded verbose bytes, s)
  decode_if-printed file true bytes s ready =
      continue_pure _ s (decoded bytes) (e.decodes s file bytes ready) (λ _. refl)
  decode_if-printed file false bytes s ready = refl

module _ (os : Os) (d : Decoder) (elf_path : String) (boot : Option (List ℕ) → QemuOutput)
    (decoded : List ℕ → Result String) (e : Emulates os d elf_path boot decoded)
    (fits : 24 ≤ length (boot none).uart1) where
  abbrev snapshot : List ℕ
  snapshot = (boot none).uart1

  run_scenario-is_right :
      (text file : String) (flags : CorruptFlags) (s : os.State)
      → e.Ready (some file) s
      → (s' : os.State) × (run_scenario os d elf_path snapshot text file flags s
          ≡ (is_right boot decoded text flags, s'))
        × e.Ready (some file) s'
  unfolding run_scenario
  run_scenario-is_right text file flags s ready =
      let (s1, written, found, ready1) = e.writes s file (corrupted snapshot flags) ready in
      let (s2, ran, ready2) = e.loaded s1 file (corrupted snapshot flags) ready1 found in
      let output : QemuOutput = boot (some (corrupted snapshot flags)) in
      (
        s2,
        rw (apply_corruption-fits snapshot flags fits) (
            continue_ok _ written
            ∙ (continue_ok _ ran
                ∙ continue_pure _ s2 (decoded output.semihosting)
                    (e.decodes s2 (some file) output.semihosting ready2)
                    λ semihosting.
                      continue_pure _ s2 (decoded output.uart0)
                        (e.decodes s2 (some file) output.uart0 ready2) λ _. refl)),
        ready2,
      )

  run_scenarios-all_right :
      (text file : String) (scenarios : List CorruptFlags) (all_passed : Bool) (s : os.State)
      → e.Ready (some file) s
      → (run_scenarios os d elf_path snapshot text file scenarios all_passed s).0
        ≡ and_then (all_right boot decoded text scenarios) (λ right. ok (all_passed && right))
  unfolding run_scenarios
  run_scenarios-all_right text file [] all_passed s ready = ap ok (ground arith)
  run_scenarios-all_right text file (flags ∷ scenarios) all_passed s ready =
      let (s1, ran, ready1) = run_scenario-is_right text file flags s ready in
      continue_result _ s1 (is_right boot decoded text flags) ran (λ passed.
        run_scenarios-all_right text file scenarios (if not passed then false else all_passed) s1
          ready1)
      ∙ tally_results all_passed (is_right boot decoded text flags)
          (all_right boot decoded text scenarios)

  first_not_empty : no_bytes snapshot ≡ false
  first_not_empty = ground arith

  -- What is left behind phase 1.
  abbrev all_scenarios : String → Bool → Exec os.State Bool
  all_scenarios text missing =
      if missing
      then pure false
      else with_temp_file os "Failed to create snapshot file" λ snapshot_file.
        run_scenarios os d elf_path snapshot text snapshot_file all_combinations true

  pub run_corrupt-all_right :
      (opts : RunOptions) (s : os.State)
      → e.Ready none s
      → (run_corrupt os d elf_path opts s).0 ≡ verdict boot decoded opts.verbose
  unfolding run_corrupt
  run_corrupt-all_right opts s ready =
      let (s1, ran, ready1) = e.cold s ready in
      let (file, s2, created, ready2) = e.new_temp s1 ready1 in
      ap (λ r. r.0) (continue_ok _ ran)
      ∙ continue_result _ s1 (decoded (boot none).uart0)
          (e.decodes s1 none (boot none).uart0 ready1)
          λ text.
            continue_result _ s1 (printed boot decoded opts.verbose (boot none).semihosting)
              (decode_if-printed os d elf_path boot decoded e none opts.verbose
                (boot none).semihosting s1 ready1)
              λ _.
                ap (λ b. (all_scenarios text b s1).0) first_not_empty
                ∙ (ap (λ r. r.0)
                      (continue_ok _ (
                        ap (λ r. (with_context "Failed to create snapshot file" r.0, r.1)) created))
                    ∙ (run_scenarios-all_right text file all_combinations true s2 ready2
                        ∙ and_true (all_right boot decoded text all_combinations)))
