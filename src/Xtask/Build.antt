-- ===== src/Xtask/Build.antt =====
-- xtask/src/build.rs: the examples of the testsuite, and how one is built.
use Prim.Native.String.{String, compare}
use text.Mathlib.Text.{◌==◌ as str_eq, is_le}
use defmt_persist.Common.{Bool, not, List, [], ◌∷◌, ◌++◌, none, some, if◌then◌else◌}
use defmt_persist.Xtask.Exec.{
  Result, ok, err, panic, unfinished, Exec, pure, lift, context, with_context, bail_if, ◌>>=◌, ◌>>◌,
}
use defmt_persist.Xtask.Os.{Os, Command}
use defmt_persist.Xtask.Text.{join, parent_and_name, stem_and_extension}

unfoldable pub build_command : String → String → Bool → Command
build_command testsuite_dir example release = record {
  program = "cargo";
  args =
      ("build" ∷ "--example" ∷ example ∷ "--target" ∷ "thumbv7m-none-eabi" ∷ [])
      ++ (if release then "--release" ∷ [] else []);
  current_dir = some testsuite_dir;
  envs = ("DEFMT_LOG", "trace") ∷ [];
}

unfoldable pub elf_path : String → String → Bool → String
elf_path root example release =
    join
      (join
        (join (join (join root "target") "thumbv7m-none-eabi")
          (if release then "release" else "debug"))
        "examples")
      example

-- What `discover_examples` makes of an entry of the directory.
unfoldable pub example_of : String → List String
example_of name =
    let (stem, extension) = stem_and_extension name in
    elim extension [ none ↦ [] | some ext ↦ if str_eq ext "rs" then stem ∷ [] else [] ]

unfoldable pub examples_of : List (Result String) → Result (List String)
examples_of [] = ok []
examples_of (ok name ∷ entries) = elim (examples_of entries) [
  | ok examples ↦ ok (example_of name ++ examples)
  | err message ↦ err message
  | panic ↦ panic
  | unfinished ↦ unfinished
]
examples_of (err message ∷ entries) = err message
examples_of (panic ∷ entries) = panic
examples_of (unfinished ∷ entries) = unfinished

-- `Vec::sort`
abbrev pub le : String → String → Bool
le s t = is_le (compare s t)

unfoldable pub insert : String → List String → List String
insert s [] = s ∷ []
insert s (t ∷ ts) = let rest = insert s ts in if le s t then s ∷ t ∷ ts else t ∷ rest

unfoldable pub sort : List String → List String
sort [] = []
sort (s ∷ ss) = insert s (sort ss)

module _ (os : Os) where
  abbrev pub unwrap : Result String → Result String
  unwrap (ok dir) = ok dir
  unwrap (err _) = panic
  unwrap panic = panic
  unwrap unfinished = unfinished

  unfoldable pub project_root : Exec os.State String
  project_root = do
    manifest_dir ← λ s. (
      elim (os.env_var s "CARGO_MANIFEST_DIR") [
        | some dir ↦ ok dir
        | none ↦ unwrap (os.current_dir s)
      ],
      s,
    )
    let (parent, name) = parent_and_name manifest_dir
    pure (if str_eq name "xtask" then parent else manifest_dir)

  unfoldable pub build_example : String → Bool → Exec os.State String
  build_example example release = do
    root ← project_root
    output ←
        context "Failed to run cargo build"
          (os.output (build_command (join root "testsuite") example release))
    bail_if (not output.success) "cargo build failed"
    pure (elf_path root example release)

  unfoldable pub discover_examples : Exec os.State (List String)
  discover_examples = do
    root ← project_root
    entries ← λ s. (
      with_context "Failed to read examples directory"
          (os.read_dir s (join (join root "testsuite") "examples")),
      s,
    )
    examples ← lift (examples_of entries)
    pure (sort examples)
