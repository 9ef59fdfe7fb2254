-- ===== src/Xtask/Main.antt =====
-- xtask/src/main.rs: the two commands.
use Prim.Native.String.{String, len, find}
use defmt_persist.Common.{
  ℕ, ◌+◌, Bool, true, false, List, [], ◌∷◌, Option, none, some, if◌then◌else◌, leb, ltb,
}
use defmt_persist.Xtask.Exec.{Result, ok, err, panic, unfinished, Exec, pure, bail_if, ◌>>=◌, ◌>>◌}
use defmt_persist.Xtask.Os.{Os}
use defmt_persist.Xtask.Defmt.{Decoder}
use defmt_persist.Xtask.Build.{discover_examples}
use defmt_persist.Xtask.Expected.{RunOptions}
use defmt_persist.Xtask.Runner.{run_example}

-- `Commands`
pub data Commands : Type 0 where
  qemu : (example : String) (release : Bool) → Commands
  test : (filter : Option String) (bless release : Bool) → Commands

-- `str::contains`
abbrev contains : String → String → Bool
contains s t = leb (find s t) (len s)

-- The examples whose names contain the filter.
unfoldable pub select : Option String → List String → List String
select none examples = examples
select (some f) [] = []
select (some f) (e ∷ examples) =
    let rest = select (some f) examples in if contains e f then e ∷ rest else rest

-- `passed` and `failed`
pub record Summary : Type 0 where
  pub passed : ℕ
  pub failed : ℕ

module _ (os : Os) (d : Decoder) where
  -- What the loop does with the result of a test.
  abbrev pub count : Result Bool → Summary → Result Summary
  count (ok true) n = ok (record n { passed = n.passed + 1 })
  count (ok false) n = ok (record n { failed = n.failed + 1 })
  count (err _) n = ok (record n { failed = n.failed + 1 })
  count panic n = panic
  count unfinished n = unfinished

  unfoldable pub run_tests : RunOptions → List String → Summary → Exec os.State Summary
  run_tests opts [] n = pure n
  run_tests opts (example ∷ examples) n = do
    n' ← λ s. let (r, s') = run_example os d example opts s in (count r n, s')
    run_tests opts examples n'

  unfoldable pub run_test_command : Option String → Bool → Bool → Exec os.State Summary
  run_test_command filter bless release = do
    examples ← discover_examples os
    let selected = select filter examples
    bail_if (elim selected [ [] ↦ true | _ ∷ _ ↦ false ]) "No tests found"
    n ←
        run_tests (record { verbose = false; bless = bless; release = release }) selected
          (record { passed = 0; failed = 0 })
    bail_if (ltb 0 n.failed) "test(s) failed"
    pure n

  unfoldable pub main : Commands → Exec os.State (Unit {0})
  main (qemu example release) = do
    run_example os d example (record { verbose = true; bless = false; release = release })
    pure tt
  main (test filter bless release) = do run_test_command filter bless release; pure tt
