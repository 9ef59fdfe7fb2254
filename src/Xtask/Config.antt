-- ===== src/Xtask/Config.antt =====
-- xtask/src/runner.rs: what the markers in front of an example say about its test.
use Prim.Native.String.{String}
use defmt_persist.Common.{ℕ, List, [], ◌∷◌, none, some, take, if◌then◌else◌}
use defmt_persist.Xtask.Exec.{Result, ok}
use defmt_persist.Xtask.Text.{codes, codes_eq, lines, strip_prefix, trim}

pub data RunMode : Type 0 where
  single persist : RunMode

pub data ValidateMode : Type 0 where
  expected corrupt : ValidateMode

pub record TestConfig : Type 0 where
  pub run_mode : RunMode
  pub validate_mode : ValidateMode

-- `RunMode::default` and `ValidateMode::default`
abbrev pub default_config : TestConfig
default_config = record { run_mode = single; validate_mode = expected }

unfoldable pub run_mode_of : List ℕ → RunMode
run_mode_of mode =
    let name = trim mode in
    if codes_eq name (codes "single")
    then single
    else if codes_eq name (codes "persist")
    then persist
    else single

unfoldable pub validate_mode_of : List ℕ → ValidateMode
validate_mode_of mode =
    let name = trim mode in
    if codes_eq name (codes "expected")
    then expected
    else if codes_eq name (codes "corrupt")
    then corrupt
    else expected

abbrev pub run_marker : List ℕ
run_marker = codes "//! @test-run:"

abbrev pub validate_marker : List ℕ
validate_marker = codes "//! @test-validate:"

-- What a line does to the configuration.
unfoldable pub read_line : TestConfig → List ℕ → TestConfig
read_line config line =
    let config1 : TestConfig = elim (strip_prefix run_marker line) [
      | none ↦ config
      | some mode ↦ record config { run_mode = run_mode_of mode }
    ] in
    elim (strip_prefix validate_marker line) [
      | none ↦ config1
      | some mode ↦ record config1 { validate_mode = validate_mode_of mode }
    ]

unfoldable pub read_lines : TestConfig → List (List ℕ) → TestConfig
read_lines config [] = config
read_lines config (line ∷ rest) = read_lines (read_line config line) rest

-- `parse_test_config`, on what `fs::read_to_string` returned.
unfoldable pub parse_test_config : Result String → TestConfig
parse_test_config (ok content) = read_lines default_config (take 15 (lines (codes content)))
parse_test_config _ = default_config
