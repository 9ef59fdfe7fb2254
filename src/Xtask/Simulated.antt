-- ===== src/Xtask/Simulated.antt =====
-- A concrete system for the tests of xtask/src: temporary files on a stack, an ELF file that is there, a
-- QEMU that puts out what it is given, and a decoder that takes each byte for a frame.
use Prim.Native.String.{String}
use text.Mathlib.Text.{◌==◌ as str_eq}
use defmt_persist.Common.{
  ℕ, zero, suc, ◌<◌, ◌≡◌, refl, sym, ap, ◌∙◌, true, List, [], ◌∷◌, ◌++◌ as ◌<>◌, append-nil, Option,
  none, some, if◌then◌else◌, length, arith,
}
use defmt_persist.Xtask.Exec.{Result, ok, err, Exec}
use defmt_persist.Xtask.Os.{Os, Command, Output}
use defmt_persist.Xtask.Qemu.{QemuOutput, run_qemu, qemu_command}
use defmt_persist.Xtask.Defmt.{Decoder, frame, unexpected_eof, decode_output, decode_bytes}
use defmt_persist.Xtask.Decoded.{
  IsStream, IsEncoding, encode_all, show_all, decode_bytes-encode_all,
}
use defmt_persist.Xtask.Runner.{combined}
use defmt_persist.Xtask.Scenarios.{persist_addr}
use defmt_persist.Xtask.Verdict.{Emulates}

abbrev pub per_byte : Decoder
per_byte = record {
  Table = Unit;
  Stream = List ℕ;
  Frame = ℕ;
  parse = λ elf. ok (some tt);
  new_stream_decoder = λ table. [];
  received = λ s bytes. s <> bytes;
  decode = λ s. elim s [ [] ↦ unexpected_eof | b ∷ bs ↦ frame b bs ];
  level = λ f. some "info";
  display_message = λ f. "a byte";
}

pub per_byte-shrinks :
    (s s' : List ℕ) (f : ℕ) → per_byte.decode s ≡ frame f s' → length s' < length s
per_byte-shrinks [] s' f e = ground arith
per_byte-shrinks (b ∷ bs) s' f e = ground arith

abbrev pub per_byte-IsStream : IsStream per_byte
per_byte-IsStream = record {
  buffered = λ s. s;
  buffered-new = λ table. refl;
  buffered-received = λ s bytes. refl;
  shrinks = per_byte-shrinks;
}

abbrev pub one : ℕ → List ℕ
one b = b ∷ []

pub per_byte-IsEncoding : IsEncoding per_byte per_byte-IsStream one
per_byte-IsEncoding = record { decode-encode = λ s f rest e. (rest, ap per_byte.decode e, refl) }

pub nothing_left : (s : List ℕ) → s ≡ [] → per_byte.decode s ≡ unexpected_eof
nothing_left s e = ap per_byte.decode e

abbrev pub shown : List ℕ → String
shown bytes = show_all per_byte per_byte-IsStream one per_byte-IsEncoding bytes

encode_all-one :
    (bytes : List ℕ) → encode_all per_byte per_byte-IsStream one per_byte-IsEncoding bytes ≡ bytes
encode_all-one [] = refl
encode_all-one (b ∷ bs) = ap (λ l. b ∷ l) (encode_all-one bs)

-- The names of the temporary files, by the number of those that are open.
abbrev name : ℕ → String
name zero = "t0"
name (suc zero) = "t1"
name (suc (suc zero)) = "t2"
name _ = "t3"

abbrev pub elf : String
elf = "elf"

-- The open temporary files, latest first.
abbrev Files : Type 0
Files = List (List ℕ)

-- The snapshot, which is the file that is open beside those of the UARTs.
abbrev first_file : Files → Option (List ℕ)
first_file [] = none
first_file (file ∷ _) = some file

abbrev read_file : Files → String → Result (List ℕ)
read_file [] path = if str_eq path elf then ok [] else err "No such file"
read_file (file ∷ files) path =
    let below = read_file files path in if str_eq path (name (length files)) then ok file else below

abbrev write_file : String → List ℕ → Files → Files
write_file path bytes [] = []
write_file path bytes (file ∷ files) =
    let below = write_file path bytes files in
    if str_eq path (name (length files)) then bytes ∷ files else file ∷ below

-- A file that nothing changes.
abbrev pub expected_path : String
expected_path = "/testsuite/expected/panic_test.expected"

-- Two bytes, and six.
abbrev pub expected_text : String
expected_text = combined (shown (0 ∷ 0 ∷ [])) (shown (0 ∷ 0 ∷ 0 ∷ 0 ∷ 0 ∷ 0 ∷ []))

module _ (boot : Option (List ℕ) → QemuOutput) where
  -- The two latest files take what goes to the UARTs.
  abbrev emulate : Command → Exec Files Output
  emulate command (file1 ∷ file0 ∷ files) =
      let output : QemuOutput = boot (first_file files) in
      (
        ok (record { success = true; stdout = output.semihosting; stderr = [] }),
        output.uart1 ∷ output.uart0 ∷ files,
      )
  emulate command files = (err "No files", files)

  abbrev pub system : Os
  system = record {
    State = Files;
    exists =
        λ files path. elim (read_file files path) [ ok _ ↦ true | _ ↦ str_eq path expected_path ];
    read = read_file;
    read_to_string =
        λ files path. if str_eq path expected_path then ok expected_text else err "Not a text";
    write = λ path bytes files. (ok tt, write_file path bytes files);
    write_string = λ path text files. (err "Read-only", files);
    create_dir_all = λ path files. (ok tt, files);
    read_dir = λ files path. ok (ok "corrupt_test.rs" ∷ ok "notes.txt" ∷ []);
    new_temp_file = λ files. (ok (name (length files)), [] ∷ files);
    remove_temp_file = λ path files. elim files [ [] ↦ [] | _ ∷ rest ↦ rest ];
    output = emulate;
    env_var = λ files var. none;
    current_dir = λ files. ok "/";
  }

  -- No file is open, or that of the snapshot.
  abbrev Few : Option String → Files → Type 0
  Few none [] = Unit
  Few (some file) (_ ∷ []) = file ≡ name 0
  Few _ _ = ⊥

  pub runs_cold :
      (files : Files)
      → Few none files
      → (files' : Files) × (run_qemu system elf none files ≡ (ok (boot none), files'))
        × Few none files'
  unfolding run_qemu qemu_command
  runs_cold [] few = ([], refl, tt)
  runs_cold (_ ∷ _) few = absurd few

  pub runs_loaded :
      (files : Files) (file : String) (memory : List ℕ)
      → Few (some file) files
      → read_file files file ≡ ok memory
      → (files' : Files) × (run_qemu system elf
            (some (record { file = file; addr = persist_addr }))
            files
          ≡ (ok (boot (some memory)), files'))
        × Few (some file) files'
  unfolding run_qemu qemu_command
  runs_loaded [] file memory few e = absurd few
  runs_loaded (snapshot ∷ []) file memory few e = (
    snapshot ∷ [],
    ap (λ m. (ok (boot (some m)), snapshot ∷ []))
        (same (ap (read_file (snapshot ∷ [])) (sym few) ∙ e)),
    few,
  )
    where
      same : Result.ok snapshot ≡ ok memory → snapshot ≡ memory
      same e = ground arith
  runs_loaded (_ ∷ _ ∷ _) file memory few e = absurd few

  elf_there : (files : Files) (file : Option String) → Few file files → read_file files elf ≡ ok []
  elf_there [] file few = refl
  elf_there (_ ∷ []) file few = refl
  elf_there (_ ∷ _ ∷ _) none few = absurd few
  elf_there (_ ∷ _ ∷ _) (some _) few = absurd few

  pub decodes_shown :
      (files : Files) (file : Option String) (bytes : List ℕ)
      → Few file files
      → decode_output per_byte system elf bytes files ≡ (ok (shown bytes), files)
  unfolding decode_output
  decodes_shown files file bytes few = rw (elf_there files file few) (
      ap (λ r. (r, files))
        (ap (decode_bytes per_byte tt)
            (sym (append-nil bytes) ∙ ap (λ l. l <> []) (sym (encode_all-one bytes)))
          ∙ decode_bytes-encode_all per_byte per_byte-IsStream one per_byte-IsEncoding tt bytes []
              nothing_left))

  pub opens :
      (files : Files)
      → Few none files
      → (file : String) × (files' : Files) × (system.new_temp_file files ≡ (ok file, files'))
        × Few (some file) files'
  opens [] few = (name 0, [] ∷ [], refl, refl)
  opens (_ ∷ _) few = absurd few

  pub overwrites :
      (files : Files) (file : String) (bytes : List ℕ)
      → Few (some file) files
      → (files' : Files) × (system.write file bytes files ≡ (ok tt, files'))
        × (read_file files' file ≡ ok bytes)
        × Few (some file) files'
  overwrites [] file bytes few = absurd few
  overwrites (old ∷ []) file bytes few = (
    bytes ∷ [],
    ap (λ f. (ok tt, write_file f bytes (old ∷ []))) few,
    ap (read_file (bytes ∷ [])) few,
    few,
  )
  overwrites (_ ∷ _ ∷ _) file bytes few = absurd few

  -- What is run on it runs as `boot` says.
  abbrev pub system-Emulates : Emulates system per_byte elf boot (λ bytes. ok (shown bytes))
  system-Emulates = record {
    Ready = Few;
    cold = runs_cold;
    loaded = runs_loaded;
    decodes = decodes_shown;
    new_temp = opens;
    writes = overwrites;
  }
