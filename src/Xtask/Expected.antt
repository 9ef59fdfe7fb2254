-- ===== src/Xtask/Expected.antt =====
-- xtask/src/runner.rs: `compare_expected`.
use Prim.Native.String.{String, ◌++◌}
use text.Mathlib.Text.{◌==◌ as str_eq}
use defmt_persist.Common.{Bool, true, false, if◌then◌else◌}
use defmt_persist.Xtask.Exec.{Exec, pure, ◌>>=◌, ◌>>◌}
use defmt_persist.Xtask.Os.{Os}
use defmt_persist.Xtask.Text.{join, parent_and_name}
use defmt_persist.Xtask.Build.{project_root}

pub record RunOptions : Type 0 where
  pub verbose : Bool
  pub bless : Bool
  pub release : Bool

abbrev pub path_of : String → String → String
path_of root example = join (join (join root "testsuite") "expected") (example ++ ".expected")

module _ (os : Os) where
  unfoldable pub bless_expected : String → String → Exec os.State Bool
  bless_expected expected_path output s =
      (if os.exists s expected_path
          then (do
            existing ← λ s. (os.read_to_string s expected_path, s)
            if str_eq existing output
                then pure true
                else (do os.write_string expected_path output; pure true))
          else (do
            os.create_dir_all (parent_and_name expected_path).0
            os.write_string expected_path output
            pure true))
        s

  unfoldable pub check_expected : String → String → Exec os.State Bool
  check_expected expected_path output s =
      (if os.exists s expected_path
          then (do
            expected ← λ s. (os.read_to_string s expected_path, s)
            pure (str_eq output expected))
          else pure false)
        s

  unfoldable pub compare_expected : String → String → RunOptions → Exec os.State Bool
  compare_expected example output opts = do
    root ← project_root os
    if opts.bless
        then bless_expected (path_of root example) output
        else check_expected (path_of root example) output
