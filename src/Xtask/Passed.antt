-- ===== src/Xtask/Passed.antt =====
-- When the command `test` of xtask/src/main.rs succeeds.
use Prim.Native.String.{String}
use defmt_persist.Common.{
  ◌+◌, ◌≤◌, ◌≡◌, ◌≢◌, ◌↔◌, refl, sym, ap, subst, ◌∙◌, Bool, true, false, List, [], ◌∷◌, Option,
  length, ltb, arith,
}
use defmt_persist.Xtask.Exec.{
  Result, ok, err, panic, unfinished, Exec, continue, continue_ok, bail_if, pure, ◌>>=◌, ◌>>◌,
}
use defmt_persist.Xtask.Os.{Os}
use defmt_persist.Xtask.Defmt.{Decoder}
use defmt_persist.Xtask.Build.{discover_examples}
use defmt_persist.Xtask.Expected.{RunOptions}
use defmt_persist.Xtask.Runner.{run_example}
use defmt_persist.Xtask.Main.{select, Summary, count, run_tests, run_test_command}

module _ (os : Os) (d : Decoder) (opts : RunOptions) where
  -- Each example, run behind those in front of it, passes.
  abbrev pub AllPass : List String → os.State → Type 0
  AllPass [] s = Unit
  AllPass (example ∷ examples) s =
      let (r, s') = run_example os d example opts s in (r ≡ ok true) × AllPass examples s'

  -- A count of failures does not go down.
  abbrev Grows : Summary → Result Summary → Type 0
  Grows n (ok n') = n.failed ≤ n'.failed
  Grows n _ = Unit

  run_tests-Grows :
      (examples : List String) (n : Summary) (s : os.State)
      → Grows n (run_tests os d opts examples n s).0
  unfolding run_tests
  run_tests-Grows [] n s = omega arith
  run_tests-Grows (example ∷ examples) n s =
      after (λ m s'. run_tests-Grows examples m s') (run_example os d example opts s)
    where
      weaken : (m : Summary) (r : Result Summary) → n.failed ≤ m.failed → Grows m r → Grows n r
      weaken m (ok n') h g = omega arith
      weaken m (err _) h g = tt
      weaken m panic h g = tt
      weaken m unfinished h g = tt

      after :
          ((m : Summary) (s' : os.State) → Grows m (run_tests os d opts examples m s').0)
          → (x : Result Bool × os.State)
          → Grows n (continue (count os d x.0 n) (λ n'. run_tests os d opts examples n') x.1).0
      after more (ok true, s') =
          let m : Summary = record n { passed = n.passed + 1 } in
          weaken m (run_tests os d opts examples m s').0 (omega arith) (more m s')
      after more (ok false, s') =
          let m : Summary = record n { failed = n.failed + 1 } in
          weaken m (run_tests os d opts examples m s').0 (omega arith) (more m s')
      after more (err _, s') =
          let m : Summary = record n { failed = n.failed + 1 } in
          weaken m (run_tests os d opts examples m s').0 (omega arith) (more m s')
      after more (panic, s') = tt
      after more (unfinished, s') = tt

  run_tests-AllPass :
      (examples : List String) (n n' : Summary) (s : os.State)
      → (run_tests os d opts examples n s).0 ≡ ok n'
      → n'.failed ≡ n.failed
      → AllPass examples s
  unfolding run_tests
  run_tests-AllPass [] n n' s h f = tt
  run_tests-AllPass (example ∷ examples) n n' s h f =
      after (λ m s' h e. run_tests-AllPass examples m n' s' h e) (run_example os d example opts s) h
    where
      failing :
          (s' : os.State)
          → (run_tests os d opts examples (record n { failed = n.failed + 1 }) s').0 ≡ ok n'
          → ⊥
      failing s' h =
          let m : Summary = record n { failed = n.failed + 1 } in
          let more : m.failed ≤ n'.failed = subst (Grows m) h (run_tests-Grows examples m s') in
          omega arith

      after :
          ((m : Summary) (s' : os.State)
            → (run_tests os d opts examples m s').0 ≡ ok n'
            → n'.failed ≡ m.failed
            → AllPass examples s')
          → (x : Result Bool × os.State)
          → (continue (count os d x.0 n) (λ n'. run_tests os d opts examples n') x.1).0 ≡ ok n'
          → (x.0 ≡ ok true) × AllPass examples x.1
      after rest (ok true, s') h = (refl, rest (record n { passed = n.passed + 1 }) s' h f)
      after rest (ok false, s') h = absurd (failing s' h)
      after rest (err _, s') h = absurd (failing s' h)
      after rest (panic, s') h = absurd (ground arith)
      after rest (unfinished, s') h = absurd (ground arith)

  AllPass-run_tests :
      (examples : List String) (n : Summary) (s : os.State)
      → AllPass examples s
      → (run_tests os d opts examples n s).0 ≡ ok (record n { passed = n.passed + length examples })
  unfolding run_tests
  AllPass-run_tests [] n s h = ap (λ k. ok (record n { passed = k })) (omega arith)
  AllPass-run_tests (example ∷ examples) n s h =
      let s' = (run_example os d example opts s).1 in
      let m : Summary = record n { passed = n.passed + 1 } in
      ap (λ r. (continue (count os d r n) (λ n'. run_tests os d opts examples n') s').0) h.0
      ∙ (AllPass-run_tests examples m s' h.1 ∙ ap (λ k. ok (record n { passed = k })) (omega arith))

-- The options of the tests.
abbrev pub test_options : Bool → Bool → RunOptions
test_options bless release = record { verbose = false; bless = bless; release = release }

module _ (os : Os) (d : Decoder) (filter : Option String) (bless release : Bool) (s s1 : os.State)
    (examples : List String) (discovers : discover_examples os s ≡ (ok examples, s1)) where
  abbrev none_run : Summary
  none_run = record { passed = 0; failed = 0 }

  abbrev finish : Summary → Exec os.State Summary
  finish n = bail_if (ltb 0 n.failed) "test(s) failed" >> pure n

  -- What follows the selection.
  abbrev run_selected : List String → Result Summary × os.State
  run_selected chosen =
      (bail_if (elim chosen [ [] ↦ true | _ ∷ _ ↦ false ]) "No tests found"
          >> (run_tests os d (test_options bless release) chosen none_run >>= finish))
        s1

  finish-ok :
      (r : Result Summary) (s2 : os.State) (n : Summary)
      → (continue r finish s2).0 ≡ ok n
      → (r ≡ ok n) × (n.failed ≡ 0)
  finish-ok (ok m) s2 n h = ground arith
  finish-ok (err _) s2 n h = absurd (ground arith)
  finish-ok panic s2 n h = absurd (ground arith)
  finish-ok unfinished s2 n h = absurd (ground arith)

  run_selected_iff :
      (chosen : List String)
      → ((n : Summary) × ((run_selected chosen).0 ≡ ok n))
        ↔ ((chosen ≢ []) × AllPass os d (test_options bless release) chosen s1)
  run_selected_iff [] = ((λ h. absurd (no_tests h.0 h.1)), (λ h. absurd (h.0 refl)))
    where
      no_tests : (n : Summary) → Result.err "No tests found" ≢ ok n
      no_tests n e = ground arith
  run_selected_iff (e ∷ es) = (
    λ h.
        let ran = run_tests os d (test_options bless release) (e ∷ es) none_run s1 in
        let (done, none_failed) = finish-ok ran.0 ran.1 h.0 h.1 in
        (
          λ e. ground arith,
          run_tests-AllPass os d (test_options bless release) (e ∷ es) none_run h.0 s1 done
              none_failed,
        ),
    λ h.
        let n : Summary = record { passed = length (e ∷ es); failed = 0 } in
        (
          n,
          ap
              (λ r.
                (continue r finish
                  (run_tests os d (test_options bless release) (e ∷ es) none_run s1).1).0)
              (AllPass-run_tests os d (test_options bless release) (e ∷ es) none_run s1 h.1
                ∙ ap (λ k. ok (record { passed = k; failed = 0 })) (omega arith)),
        ),
  )

  -- The command test, where it finds the examples, succeeds exactly when the filter leaves at
  -- least one, and each of these, run after those in front of it, passes.
  pub run_test_command_iff :
      ((n : Summary) × ((run_test_command os d filter bless release s).0 ≡ ok n)) ↔ (
        (select filter examples ≢ [])
        × AllPass os d (test_options bless release) (select filter examples) s1)
  unfolding run_test_command
  run_test_command_iff =
      let step : run_test_command os d filter bless release s
          ≡ run_selected (select filter examples) =
        continue_ok _ discovers in
      subst
        (λ (x : Result Summary × os.State). ((n : Summary) × (x.0 ≡ ok n)) ↔ (
          (select filter examples ≢ [])
          × AllPass os d (test_options bless release) (select filter examples) s1))
        (sym step) (run_selected_iff (select filter examples))
