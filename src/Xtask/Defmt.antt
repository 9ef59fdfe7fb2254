-- ===== src/Xtask/Defmt.antt =====
-- xtask/src/defmt.rs: the output of a program, decoded by defmt_decoder.
use Prim.Native.String.{String, ◌++◌}
use defmt_persist.Common.{ℕ, zero, suc, List, length, Option, none, some}
use defmt_persist.Xtask.Exec.{Result, ok, err, unfinished, Exec, lift, with_context, ◌>>=◌}
use defmt_persist.Xtask.Os.{Os}
use defmt_persist.Xtask.Text.{to_uppercase, pad}

-- What a stream decoder answers: a frame, with the decoder behind it, or a `DecodeError`.
pub data Decoded (D F : Type 0) : Type 0 where
  frame : F → D → Decoded D F
  unexpected_eof malformed : Decoded D F

-- defmt_decoder
pub record Decoder : Type 1 where
  pub Table : Type 0
  pub Stream : Type 0
  pub Frame : Type 0
  pub parse : List ℕ → Result (Option Table)
  pub new_stream_decoder : Table → Stream
  pub received : Stream → List ℕ → Stream
  pub decode : Stream → Decoded Stream Frame
  pub level : Frame → Option String
  pub display_message : Frame → String

module _ (d : Decoder) where
  unfoldable pub format_frame : d.Frame → String
  format_frame f =
      let level = to_uppercase (elim (d.level f) [ none ↦ "print" | some l ↦ l ]) in
      "[" ++ (pad 5 level ++ ("] " ++ d.display_message f))

  -- The loop of `decode_output`, with a bound on its rounds.
  unfoldable pub decode_loop : ℕ → d.Stream → String → Result String
  decode_loop zero stream output = unfinished
  decode_loop (suc rounds) stream output = elim (d.decode stream) [
    | frame f stream' ↦ decode_loop rounds stream' (output ++ (format_frame f ++ "\n"))
    | unexpected_eof ↦ ok output
    | malformed ↦ err "Malformed defmt frame"
  ]

  -- The bound is one more than the number of the bytes: a frame takes one at least.
  unfoldable pub decode_bytes : d.Table → List ℕ → Result String
  decode_bytes table raw_output =
      decode_loop (suc (length raw_output)) (d.received (d.new_stream_decoder table) raw_output) ""

  abbrev some_table : Option d.Table → Result d.Table
  some_table none = err "No defmt data found in ELF"
  some_table (some table) = ok table

  unfoldable pub decode_output : (os : Os) → String → List ℕ → Exec os.State String
  decode_output os elf_path raw_output = do
    elf_data ← λ s. (with_context "Failed to read ELF file" (os.read s elf_path), s)
    parsed ← lift (with_context "Failed to parse defmt table from ELF" (d.parse elf_data))
    table ← lift (some_table parsed)
    lift (decode_bytes table raw_output)
