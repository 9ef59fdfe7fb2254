-- ===== src/Programs/Passes.antt =====
-- `run_corrupt` of xtask/src/corrupt.rs on testsuite/examples/corrupt_test.rs: the library, the program
-- and the test that is run on it, together.
use Prim.Native.String.{String}
use text.Mathlib.Text.{◌==◌ as str_eq}
use text.Mathlib.TextEquality.{eq_iff}
use text.Mathlib.TextPositions.{eq_refl}
use defmt_persist.Common.{
  Bool, ℕ, ◌-◌, ◌≤◌, ◌≡◌, ◌≢◌, refl, sym, ap, ap₂, ◌∙◌, true, false, not, ◌&&◌, List, [], ◌∷◌,
  Option, none, some, if◌then◌else◌, length, arith, Bool-cases, inl, inr,
}
use defmt_persist.Ring.{RingBuffer}
use defmt_persist.Ring.Window.{contents}
use defmt_persist.Recover.Outcome.{contents-recover}
use defmt_persist.Layout.{Target, view}
use defmt_persist.Layout.Patch.{length-view_buf}
use defmt_persist.Layout.Dump.{region_bytes}
use defmt_persist.Logger.{Features, Platform}
use defmt_persist.Logger.Emitted.{said_after}
use defmt_persist.Init.{Statics}
use defmt_persist.Corrupt.{CorruptFlags, any, all_combinations}
use defmt_persist.Corrupt.Fresh.{corrupted, length-corrupted, corrupted-lost, corrupted-untouched}
use defmt_persist.Testsuite.{Uart}
use defmt_persist.Testsuite.Drain.{free}
use defmt_persist.Programs.{Machine, Exit, corrupt_test}
use defmt_persist.Programs.Output.{output_of, memory_of}
use defmt_persist.Programs.Boot.{Starts, found, found-region_bytes}
use defmt_persist.Programs.Booted.{
  chunks, logged, booted, Fresh, corrupt_test-Fresh, corrupt_test-Recovered,
}
use defmt_persist.Xtask.Exec.{Result, ok, and_then}
use defmt_persist.Xtask.Os.{Os}
use defmt_persist.Xtask.Qemu.{QemuOutput}
use defmt_persist.Xtask.Defmt.{Decoder}
use defmt_persist.Xtask.Expected.{RunOptions}
use defmt_persist.Xtask.Scenarios.{judge, run_corrupt}
use defmt_persist.Xtask.Verdict.{
  Emulates, is_right, all_right, printed, verdict, run_corrupt-all_right,
}

not_empty_text : (s : String) → s ≢ "" → str_eq s "" ≡ false
not_empty_text s h = elim (Bool-cases (str_eq s "")) [
  | inl e ↦ absurd (h ((eq_iff s "").0 e))
  | inr e ↦ e
]

module _ (features : Features) (p : Platform) (target : Target) (rest : List ℕ) (start end : ℕ)
    (s : Statics p) (message panic_message : List (List ℕ)) (cold flags0 flags1 : List ℕ)
    (stdout : p.Semihosting → List ℕ) where
  -- `cold` is what the region holds when nothing is loaded, `flags0` and `flags1` what the loads of the
  -- flag registers of the UARTs see, and `stdout` what has come out of semihosting.
  abbrev uart0 : Uart
  uart0 = record { flags = flags0; sent = [] }

  abbrev uart1 : Uart
  uart1 = record { flags = flags1; sent = [] }

  abbrev main : Machine p → Option (Exit p)
  main = corrupt_test features p target rest start end message

  module _ (st : Starts p target rest start end s) where
    abbrev pub boot : Option (List ℕ) → QemuOutput
    boot load = output_of p stdout (
        booted features p target rest start end s st message panic_message main
          (memory_of cold load) uart0 uart1)

    -- What goes to semihosting, and what is in the ring, after the message on an empty ring.
    abbrev pub spoken : List ℕ
    spoken = stdout (
        said_after features p s.world.semihosting
          (chunks features p target rest start end s st message panic_message))

    abbrev pub kept : List ℕ
    kept = logged features p target rest start end s st message panic_message

    -- What the decoder shows of them.
    pub record Shows (decoded : List ℕ → Result String) : Type 0 where
      pub said_text : String
      pub sent_text : String
      pub nothing : decoded [] ≡ ok ""
      pub silent : stdout s.world.semihosting ≡ []
      pub on_stdout : decoded spoken ≡ ok said_text
      pub on_uart : decoded kept ≡ ok sent_text
      pub some_said : said_text ≢ ""
      pub some_sent : sent_text ≢ ""

    -- The memory before the first run holds no logs, and the UARTs take what is sent.
    pub record Ample : Type 0 where
      pub length_cold : length cold ≡ end - start
      pub cold_empty : contents (found features target cold) ≡ []
      pub room0 : length kept ≤ free flags0
      pub room1 : end - start ≤ free flags1

    module _ (a : Ample) where
      abbrev found_in : List ℕ → RingBuffer
      found_in = found features target

      abbrev snapshot : List ℕ
      snapshot = (boot none).uart1

      -- A run on memory without logs.
      run-Fresh :
          (load : Option (List ℕ))
          → length (memory_of cold load) ≡ end - start
          → contents (found_in (memory_of cold load)) ≡ []
          → (e : Exit p) × (output_of p stdout (some e) ≡ boot load)
            × Fresh features p target rest start end s st message panic_message e uart0 uart1
      run-Fresh load l none_found =
          let (e, ran, fresh) =
            corrupt_test-Fresh features p target rest start end s st message panic_message
              (memory_of cold load) uart0 uart1 l none_found a.room0 a.room1 in
          (e, ap (output_of p stdout) (sym ran), fresh)

      fresh_output :
          (load : Option (List ℕ))
          → length (memory_of cold load) ≡ end - start
          → contents (found_in (memory_of cold load)) ≡ []
          → ((boot load).semihosting ≡ spoken) × ((boot load).uart0 ≡ kept)
      fresh_output load l none_found =
          let (e, out, fresh) = run-Fresh load l none_found in
          (
            ap (λ o. o.semihosting) (sym out) ∙ ap stdout fresh.said,
            ap (λ o. o.uart0) (sym out) ∙ fresh.drained,
          )

      -- The first run leaves a snapshot of the region with its logs.
      snapshot_lem : (length snapshot ≡ end - start) × (contents (found_in snapshot) ≡ kept)
      snapshot_lem =
          let (e, out, fresh) = run-Fresh none a.length_cold a.cold_empty in
          let bytes : region_bytes rest fresh.ring ≡ snapshot =
            sym fresh.dumped ∙ ap (λ o. o.uart1) out in
          let (l, again) =
            found-region_bytes features p target rest start end s st fresh.ring fresh.valid
              fresh.header fresh.buf in
          (
            ap length (sym bytes) ∙ l,
            ap (λ m. contents (found_in m)) (sym bytes) ∙ (again ∙ fresh.holds),
          )

      -- A corrupted snapshot holds no logs.
      corrupted_found :
          (flags : CorruptFlags)
          → any flags ≡ true
          → (length (corrupted snapshot flags) ≡ end - start)
            × (contents (found_in (corrupted snapshot flags)) ≡ [])
      corrupted_found flags on =
          let l = length-corrupted snapshot flags in
          let l' = snapshot_lem.0 in
          let buf = length-view_buf target (corrupted snapshot flags) in
          (
            l ∙ l',
            contents-recover features.ecc (view target (corrupted snapshot flags))
                  (omega (arith, buf, l, l', st.fits.large))
                  (omega (arith, buf, l, l', st.fits.small))
                ∙ ap (λ b. if b then contents (view target (corrupted snapshot flags)) else [])
                    (corrupted-lost target features.ecc snapshot flags
                      (omega (arith, l', st.size, st.fits.large)) (omega (arith, l', st.fits.small))
                      on),
          )

      module _ (decoded : List ℕ → Result String) (shows : Shows decoded) where
        text_of : Result String → String
        text_of (ok text) = text
        text_of _ = ""

        kept_some : kept ≢ []
        unfolding text_of
        kept_some e =
            shows.some_sent (ap text_of (sym shows.on_uart ∙ (ap decoded e ∙ shows.nothing)))

        first_output : (boot none).semihosting ≡ spoken × ((boot none).uart0 ≡ kept)
        first_output = fresh_output none a.length_cold a.cold_empty

        -- How a scenario is judged by the texts of its output.
        judged :
            (flags : CorruptFlags) (said sent : List ℕ) (text text0 : String)
            → (boot (some (corrupted snapshot flags))).semihosting ≡ said
            → decoded said ≡ ok text
            → (boot (some (corrupted snapshot flags))).uart0 ≡ sent
            → decoded sent ≡ ok text0
            → is_right boot decoded shows.sent_text flags
              ≡ ok (judge flags text text0 shows.sent_text)
        judged flags said sent text text0 semi shown same shown0 =
            ap₂ (λ x y. and_then x λ a. and_then y λ b. ok (judge flags a b shows.sent_text))
              (ap decoded semi ∙ shown) (ap decoded same ∙ shown0)

        corrupted-is_right :
            (flags : CorruptFlags)
            → any flags ≡ true
            → is_right boot decoded shows.sent_text flags ≡ ok true
        unfolding judge
        corrupted-is_right flags on =
            let (l, none_found) = corrupted_found flags on in
            let (semi, sent) = fresh_output (some (corrupted snapshot flags)) l none_found in
            judged flags spoken kept shows.said_text shows.sent_text semi shows.on_stdout sent
              shows.on_uart
            ∙ ap ok (
                ap
                  (λ b.
                    if b
                    then not (str_eq shows.said_text "") && str_eq shows.sent_text shows.sent_text
                    else str_eq shows.said_text "" && not (str_eq shows.sent_text ""))
                  on
                ∙ ap₂ (λ x y. not x && y) (not_empty_text shows.said_text shows.some_said)
                    (eq_refl shows.sent_text))

        untouched-is_right :
            (flags : CorruptFlags)
            → any flags ≡ false
            → is_right boot decoded shows.sent_text flags ≡ ok true
        unfolding judge
        untouched-is_right flags off =
            let (l, again) = snapshot_lem in
            let (e, ran, r) =
              corrupt_test-Recovered features p target rest start end s st message panic_message
                snapshot uart0 uart1 l (λ none_there. kept_some (sym again ∙ none_there))
                (omega (arith, ap length again, a.room0)) in
            let out : output_of p stdout (some e) ≡ boot (some (corrupted snapshot flags)) =
              ap (output_of p stdout) (sym ran)
              ∙ ap (λ m. boot (some m))
                  (sym (corrupted-untouched target features.ecc snapshot flags off)) in
            let semi : (boot (some (corrupted snapshot flags))).semihosting ≡ [] =
              ap (λ o. o.semihosting) (sym out) ∙ (ap stdout r.silent ∙ shows.silent) in
            let sent : (boot (some (corrupted snapshot flags))).uart0 ≡ kept =
              ap (λ o. o.uart0) (sym out) ∙ (r.drained ∙ again) in
            judged flags [] kept "" shows.sent_text semi shows.nothing sent shows.on_uart
            ∙ ap ok (
                ap
                  (λ b.
                    if b
                    then not (str_eq "" "") && str_eq shows.sent_text shows.sent_text
                    else str_eq "" "" && not (str_eq shows.sent_text ""))
                  off
                ∙ ap not (not_empty_text shows.sent_text shows.some_sent))

        every-is_right :
            (flags : CorruptFlags) → is_right boot decoded shows.sent_text flags ≡ ok true
        every-is_right flags = elim (Bool-cases (any flags)) [
          | inl on ↦ corrupted-is_right flags on
          | inr off ↦ untouched-is_right flags off
        ]

        all-all_right :
            (scenarios : List CorruptFlags)
            → all_right boot decoded shows.sent_text scenarios ≡ ok true
        all-all_right [] = refl
        all-all_right (flags ∷ rest) =
            ap₂ (λ r q. and_then r λ passed. and_then q λ others. ok (passed && others))
              (every-is_right flags) (all-all_right rest)

        first_printed :
            (verbose : Bool) → printed boot decoded verbose (boot none).semihosting ≡ ok tt
        first_printed true =
            ap (λ r. and_then r λ _. ok tt) (ap decoded first_output.0 ∙ shows.on_stdout)
        first_printed false = refl

        verdict_lem : (verbose : Bool) → verdict boot decoded verbose ≡ ok true
        verdict_lem verbose =
            ap₂
              (λ r q.
                and_then r λ text. and_then q λ _. all_right boot decoded text all_combinations)
              (ap decoded first_output.1 ∙ shows.on_uart) (first_printed verbose)
            ∙ all-all_right all_combinations

        -- run_corrupt passes on corrupt_test, on a system that runs the program in QEMU as the
        -- model of it runs, where temporary files can be made and written: where RTT writes end,
        -- the critical section is undone, init accepts the region, the memory at first holds no
        -- logs, the UARTs take what is sent, the decoder decodes what semihosting and the ring
        -- take of the message to some text each, and no bytes to none. Nothing is asked of it on
        -- other bytes.
        pub run_corrupt-corrupt_test :
            (os : Os) (d : Decoder) (elf_path : String) (opts : RunOptions)
            → (e : Emulates os d elf_path boot decoded) → (now : os.State) → e.Ready none now
            → (run_corrupt os d elf_path opts now).0 ≡ ok true
        run_corrupt-corrupt_test os d elf_path opts e now ready =
            run_corrupt-all_right os d elf_path boot decoded e
              (omega (arith, snapshot_lem.0, st.size, st.fits.large)) opts now ready
            ∙ verdict_lem opts.verbose
