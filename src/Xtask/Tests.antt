-- ===== src/Xtask/Tests.antt =====
-- xtask/src at concrete files and programs.
use Prim.Native.String.{String}
use text.Mathlib.Text.{◌==◌ as str_eq}
use text.Mathlib.TextPositions.{eq_refl}
use defmt_persist.Common.{
  ℕ, ◌≡◌, ◌≢◌, ◌↔◌, refl, ap, Bool, true, false, List, [], ◌∷◌, Option, none, some, if◌then◌else◌,
  arith,
}
use defmt_persist.Xtask.Exec.{Result, ok, err, unfinished}
use defmt_persist.Xtask.Os.{Os}
use defmt_persist.Xtask.Qemu.{QemuOutput}
use defmt_persist.Xtask.Defmt.{decode_bytes, format_frame}
use defmt_persist.Xtask.Decoded.{decode_bytes-ends, decode_bytes-encode_all}
use defmt_persist.Xtask.Build.{
  discover_examples, project_root, examples_of, example_of, sort, insert,
}
use defmt_persist.Xtask.Config.{persist, corrupt, run_mode_of, validate_mode_of, parse_test_config}
use defmt_persist.Xtask.Markers.{parse_test_config-last_marked}
use defmt_persist.Xtask.Expected.{RunOptions, compare_expected}
use defmt_persist.Xtask.Blessed.{IsWritable, compare_expected-blessed}
use defmt_persist.Xtask.Main.{Summary, select, run_test_command}
use defmt_persist.Xtask.Passed.{AllPass, test_options, run_test_command_iff}
use defmt_persist.Xtask.Simulated.{
  per_byte, per_byte-IsStream, per_byte-IsEncoding, one, nothing_left, system, shown,
}

decode_bytes-ends_example : decode_bytes per_byte tt (1 ∷ 2 ∷ []) ≢ unfinished
decode_bytes-ends_example = decode_bytes-ends per_byte per_byte-IsStream tt (1 ∷ 2 ∷ [])

decode_bytes-encode_all_example :
    decode_bytes per_byte tt (1 ∷ 2 ∷ []) ≡ ok "[INFO ] a byte\n[INFO ] a byte\n"
unfolding format_frame
decode_bytes-encode_all_example =
    decode_bytes-encode_all per_byte per_byte-IsStream one per_byte-IsEncoding tt (1 ∷ 2 ∷ []) []
      nothing_left

parse_test_config-last_marked_example :
    parse_test_config (
      ok
        "//! @test-run: single\n//! @test-run: persist\r\n//! @test-validate:corrupt \n\nfn main() {}")
    ≡ record { run_mode = persist; validate_mode = corrupt }
unfolding run_mode_of validate_mode_of
parse_test_config-last_marked_example =
    parse_test_config-last_marked
      "//! @test-run: single\n//! @test-run: persist\r\n//! @test-validate:corrupt \n\nfn main() {}"

-- Text files by their names.
abbrev Notes : Type 0
Notes = List (String × String)

abbrev lookup : Notes → String → Option String
lookup [] path = none
lookup ((name, text) ∷ notes) path =
    let rest = lookup notes path in if str_eq name path then some text else rest

abbrev there : Option String → Bool
there none = false
there (some _) = true

abbrev text_of : Option String → Result String
text_of none = err "No such file"
text_of (some text) = ok text

abbrev notebook : Os
notebook = record {
  State = Notes;
  exists = λ notes path. there (lookup notes path);
  read = λ notes path. err "Not bytes";
  read_to_string = λ notes path. text_of (lookup notes path);
  write = λ path bytes notes. (ok tt, notes);
  write_string = λ path text notes. (ok tt, (path, text) ∷ notes);
  create_dir_all = λ path notes. (ok tt, notes);
  read_dir = λ notes path. ok [];
  new_temp_file = λ notes. (err "Full", notes);
  remove_temp_file = λ path notes. notes;
  output = λ command notes. (err "No programs", notes);
  env_var = λ notes var. some "/project/xtask";
  current_dir = λ notes. ok "/";
}

found : (path text : String) (notes : Notes) → lookup ((path, text) ∷ notes) path ≡ some text
found path text notes = rw (eq_refl path) refl

readable : (o : Option String) → there o ≡ true → (text : String) × (text_of o ≡ ok text)
readable none h = absurd (ground arith)
readable (some text) h = (text, refl)

notebook-IsWritable : IsWritable notebook
notebook-IsWritable = record {
  writes = λ path text notes. (
    (path, text) ∷ notes,
    refl,
    ap there (found path text notes),
    ap text_of (found path text notes),
    refl,
    refl,
  );
  creates = λ path notes. (notes, refl, refl, refl);
  reads = λ path notes h. readable (lookup notes path) h;
}

abbrev blessing : RunOptions
blessing = record { verbose = false; bless = true; release = false }

located : project_root notebook [] ≡ (ok "/project", [])
unfolding project_root
located = refl

compare_expected-blessed_example :
    (s' : Notes) × (compare_expected notebook "basic" "[INFO ] Hello\n" blessing [] ≡ (ok true, s'))
    × (compare_expected notebook "basic" "[INFO ] Hello\n" (record blessing { bless = false }) s'
        ≡ (ok true, s'))
    × (compare_expected notebook "basic" "[INFO ] Hello\n" blessing s' ≡ (ok true, s'))
compare_expected-blessed_example =
    compare_expected-blessed notebook notebook-IsWritable "basic" "[INFO ] Hello\n" blessing []
      "/project" refl located

-- A program that dumps the bytes 1 to 24 at first, and logs a byte.
abbrev program : Option (List ℕ) → QemuOutput
program load = record {
  semihosting = [];
  uart0 = 7 ∷ [];
  uart1 =
      1 ∷ 2 ∷ 3 ∷ 4 ∷ 5 ∷ 6 ∷ 7 ∷ 8 ∷ 9 ∷ 10 ∷ 11 ∷ 12 ∷ 13 ∷ 14 ∷ 15 ∷ 16 ∷ 17 ∷ 18 ∷ 19 ∷ 20 ∷ 21
      ∷ 22 ∷ 23 ∷ 24 ∷ [];
}

discovers : discover_examples (system program) [] ≡ (ok ("corrupt_test" ∷ []), [])
unfolding discover_examples project_root examples_of example_of sort insert
discovers = refl

run_test_command_iff_example :
    ((n : Summary) × ((run_test_command (system program) per_byte none false false []).0 ≡ ok n))
    ↔ ((select none ("corrupt_test" ∷ []) ≢ [])
        × AllPass
            (system program)
            per_byte
            (test_options false false)
            (select none ("corrupt_test" ∷ []))
            [])
run_test_command_iff_example =
    run_test_command_iff (system program) per_byte none false false [] [] ("corrupt_test" ∷ [])
      discovers

abbrev shows : List ℕ → Result String
shows bytes = ok (shown bytes)
