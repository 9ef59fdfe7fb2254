-- ===== src/Xtask/Blessed.antt =====
-- `compare_expected` of xtask/src/runner.rs after a run with `--bless`.
use Prim.Native.String.{String}
use text.Mathlib.Text.{◌==◌ as str_eq}
use text.Mathlib.TextEquality.{eq_iff}
use text.Mathlib.TextPositions.{eq_refl}
use defmt_persist.Common.{
  Option, none, some, ◌≡◌, refl, ap, ◌∙◌, Bool, true, false, if◌then◌else◌, Bool-cases, inl, inr,
}
use defmt_persist.Xtask.Exec.{Result, ok, err, panic, unfinished, Exec, pure, continue, continue_ok}
use defmt_persist.Xtask.Os.{Os}
use defmt_persist.Xtask.Text.{parent_and_name}
use defmt_persist.Xtask.Build.{unwrap, project_root}
use defmt_persist.Xtask.Expected.{
  RunOptions, path_of, bless_expected, check_expected, compare_expected,
}

-- Files that can be written, and that hold what was written to them. The project is where it is.
pub record IsWritable (os : Os) : Type 0 where
  pub writes :
      (path text : String) (s : os.State)
      → (s' : os.State) × (os.write_string path text s ≡ (ok tt, s'))
        × (os.exists s' path ≡ true)
        × (os.read_to_string s' path ≡ ok text)
        × (os.env_var s' ≡ os.env_var s)
        × (os.current_dir s' ≡ os.current_dir s)
  pub creates :
      (path : String) (s : os.State)
      → (s' : os.State) × (os.create_dir_all path s ≡ (ok tt, s'))
        × (os.env_var s' ≡ os.env_var s)
        × (os.current_dir s' ≡ os.current_dir s)
  -- A file that is there can be read as a text.
  pub reads :
      (path : String) (s : os.State)
      → os.exists s path ≡ true
      → (text : String) × (os.read_to_string s path ≡ ok text)

module _ (os : Os) (w : IsWritable os) where
  -- The file is there with the output.
  record Holds (path output : String) (s s' : os.State) : Type 0 where
    there : os.exists s' path ≡ true
    holds : os.read_to_string s' path ≡ ok output
    env : os.env_var s' ≡ os.env_var s
    dir : os.current_dir s' ≡ os.current_dir s

  bless-Holds :
      (path output : String) (s : os.State)
      → (s' : os.State) × (bless_expected os path output s ≡ (ok true, s')) × Holds path output s s'
  unfolding bless_expected
  bless-Holds path output s = elim (Bool-cases (os.exists s path)) [
    | inl there ↦
        let (existing, read) = w.reads path s there in
        elim (Bool-cases (str_eq existing output)) [
          | inl same ↦ (
            s,
            rw (there, bless_expected, read, same) refl,
            record {
              there = there;
              holds = read ∙ ap ok ((eq_iff existing output).0 same);
              env = refl;
              dir = refl;
            },
          )
          | inr other ↦
              let (s', written, now_there, holds, env, dir) = w.writes path output s in
              (
                s',
                rw (there, bless_expected, read, other) (continue_ok _ written),
                record { there = now_there; holds = holds; env = env; dir = dir },
              )
        ]
    | inr missing ↦
        let (s1, created, env1, dir1) = w.creates (parent_and_name path).0 s in
        let (s', written, now_there, holds, env, dir) = w.writes path output s1 in
        (
          s',
          rw (missing, bless_expected) (continue_ok _ created ∙ continue_ok _ written),
          record { there = now_there; holds = holds; env = env ∙ env1; dir = dir ∙ dir1 },
        )
  ]

  check-holds :
      (path output : String) (s : os.State)
      → os.exists s path ≡ true
      → os.read_to_string s path ≡ ok output
      → check_expected os path output s ≡ (ok true, s)
  unfolding check_expected
  check-holds path output s there holds =
      rw (there, check_expected, holds) (ap (λ b. (ok b, s)) (eq_refl output))

  bless-holds :
      (path output : String) (s : os.State)
      → os.exists s path ≡ true
      → os.read_to_string s path ≡ ok output
      → bless_expected os path output s ≡ (ok true, s)
  unfolding bless_expected
  bless-holds path output s there holds = rw (there, bless_expected, holds, eq_refl output) refl

  -- Where the project is depends on the environment alone.
  project_root_kept :
      (s s' : os.State) (root : String)
      → os.env_var s' ≡ os.env_var s
      → os.current_dir s' ≡ os.current_dir s
      → project_root os s ≡ (ok root, s)
      → project_root os s' ≡ (ok root, s')
  unfolding project_root
  project_root_kept s s' root env dir e =
      (λ i. located (env i) (dir i) s') ∙ elsewhere (env_of (os.env_var s) (os.current_dir s)) e
    where
      env_of : (String → Option String) → Result String → Result String
      env_of env dir = elim (env "CARGO_MANIFEST_DIR") [ some dir ↦ ok dir | none ↦ unwrap os dir ]

      found : String → Exec os.State String
      found manifest_dir =
          let (parent, name) = parent_and_name manifest_dir in
          pure (if str_eq name "xtask" then parent else manifest_dir)

      located : (String → Option String) → Result String → Exec os.State String
      located env dir s = continue (env_of env dir) found s

      elsewhere :
          (r : Result String)
          → continue r found s ≡ (ok root, s)
          → continue r found s' ≡ (ok root, s')
      elsewhere (ok dir) e = λ i. ((e i).0, s')
      elsewhere (err _) e = λ i. ((e i).0, s')
      elsewhere panic e = λ i. ((e i).0, s')
      elsewhere unfinished e = λ i. ((e i).0, s')

  -- compare_expected with bless succeeds where files can be written, created and read, and after
  -- it compare_expected on the same output passes without bless, and with it changes nothing.
  pub compare_expected-blessed :
      (example output : String) (opts : RunOptions) (s : os.State) (root : String)
      → opts.bless ≡ true
      → project_root os s ≡ (ok root, s)
      → (s' : os.State) × (compare_expected os example output opts s ≡ (ok true, s'))
        × (compare_expected os example output (record opts { bless = false }) s' ≡ (ok true, s'))
        × (compare_expected os example output opts s' ≡ (ok true, s'))
  unfolding compare_expected
  compare_expected-blessed example output opts s root on located =
      let path = path_of root example in
      let (s', blessed, h) = bless-Holds path output s in
      let again = project_root_kept s s' root h.env h.dir located in
      let choose : os.State → Bool → Result Bool × os.State =
        λ s b. (if b then bless_expected os path output else check_expected os path output) s in
      (
        s',
        continue_ok _ located ∙ (ap (choose s) on ∙ blessed),
        continue_ok _ again ∙ check-holds path output s' h.there h.holds,
        continue_ok _ again ∙ (ap (choose s') on ∙ bless-holds path output s' h.there h.holds),
      )
