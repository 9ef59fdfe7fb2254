-- ===== src/Xtask/Markers.antt =====
-- The markers that `parse_test_config` of xtask/src/runner.rs goes by.
use Prim.Native.String.{String}
use defmt_persist.Common.{
  ℕ, ◌≡◌, refl, ap, ap₂, ◌∙◌, List, [], ◌∷◌, Option, none, some, take, arith,
}
use defmt_persist.Xtask.Exec.{ok}
use defmt_persist.Xtask.Text.{codes, lines, strip_prefix}
use defmt_persist.Xtask.Config.{
  single, expected, TestConfig, run_mode_of, validate_mode_of, run_marker, validate_marker,
  read_line, read_lines, parse_test_config,
}

-- What follows the marker on the last of the lines that has it.
abbrev pub last_marked : List ℕ → List (List ℕ) → Option (List ℕ)
last_marked marker [] = none
last_marked marker (line ∷ rest) = elim (last_marked marker rest) [
  | some mode ↦ some mode
  | none ↦ strip_prefix marker line
]

abbrev pub chosen : {A : Type 0} → (List ℕ → A) → A → Option (List ℕ) → A
chosen f default none = default
chosen f default (some mode) = f mode

read_line_lem :
    (config : TestConfig) (line : List ℕ)
    → read_line config line ≡ record {
      run_mode = chosen run_mode_of config.run_mode (strip_prefix run_marker line);
      validate_mode =
          chosen validate_mode_of config.validate_mode (strip_prefix validate_marker line);
    }
unfolding read_line
read_line_lem config line = ground arith

chosen_later :
    {A : Type 0} (f : List ℕ → A) (default : A) (marker line : List ℕ) (rest : List (List ℕ))
    → chosen f (chosen f default (strip_prefix marker line)) (last_marked marker rest)
      ≡ chosen f default (last_marked marker (line ∷ rest))
chosen_later f default marker line rest = ground arith

read_lines_lem :
    (config : TestConfig) (rest : List (List ℕ))
    → read_lines config rest ≡ record {
      run_mode = chosen run_mode_of config.run_mode (last_marked run_marker rest);
      validate_mode =
          chosen validate_mode_of config.validate_mode (last_marked validate_marker rest);
    }
unfolding read_lines
read_lines_lem config [] = refl
read_lines_lem config (line ∷ rest) =
    read_lines_lem (read_line config line) rest
    ∙ (ap
          (λ (c : TestConfig). record {
            run_mode = chosen run_mode_of c.run_mode (last_marked run_marker rest);
            validate_mode =
                chosen validate_mode_of c.validate_mode (last_marked validate_marker rest);
          })
          (read_line_lem config line)
        ∙ ap₂ (λ r v. record { run_mode = r; validate_mode = v })
            (chosen_later run_mode_of config.run_mode run_marker line rest)
            (chosen_later validate_mode_of config.validate_mode validate_marker line rest))

-- parse_test_config on a file that can be read goes by the last of its first fifteen lines that
-- starts with a marker, for each of the two, and by the default where none does.
pub parse_test_config-last_marked :
    (content : String)
    → let first = take 15 (lines (codes content)) in
      parse_test_config (ok content) ≡ record {
        run_mode = chosen run_mode_of single (last_marked run_marker first);
        validate_mode = chosen validate_mode_of expected (last_marked validate_marker first);
      }
unfolding parse_test_config
parse_test_config-last_marked content =
    read_lines_lem (record { run_mode = single; validate_mode = expected })
      (take 15 (lines (codes content)))
