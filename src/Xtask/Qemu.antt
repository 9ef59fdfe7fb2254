-- ===== src/Xtask/Qemu.antt =====
-- xtask/src/qemu.rs: a run of a program in QEMU.
use Prim.Native.String.{String, ◌++◌}
use defmt_persist.Common.{ℕ, not, List, [], ◌∷◌, ◌++◌ as ◌<>◌, Option, none, some}
use defmt_persist.Xtask.Exec.{Exec, pure, context, or_else, bail_if, ◌>>=◌, ◌>>◌}
use defmt_persist.Xtask.Os.{Os, Command, with_temp_file}
use defmt_persist.Xtask.Text.{hex}

pub record QemuOutput : Type 0 where
  pub semihosting : List ℕ
  pub uart0 : List ℕ
  pub uart1 : List ℕ

pub record MemoryLoad : Type 0 where
  pub file : String
  pub addr : ℕ

-- The arguments that load a file into memory.
unfoldable pub load_args : Option MemoryLoad → List String
load_args none = []
load_args (some load) =
    "-device"
    ∷ ("loader,file=" ++ (load.file ++ (",addr=" ++ (hex load.addr ++ ",force-raw=on"))))
    ∷ []

unfoldable pub qemu_command :
    String → Option MemoryLoad → (uart0_path uart1_path : String) → Command
qemu_command elf_path memory_load uart0_path uart1_path = record {
  program = "qemu-system-arm";
  args =
      ("-cpu"
        ∷ "cortex-m3"
        ∷ "-machine"
        ∷ "lm3s6965evb"
        ∷ "-nographic"
        ∷ "-monitor"
        ∷ "none"
        ∷ "-semihosting-config"
        ∷ "enable=on,target=native"
        ∷ "-serial"
        ∷ ("file:" ++ uart0_path)
        ∷ "-serial"
        ∷ ("file:" ++ uart1_path)
        ∷ [])
      <> (load_args memory_load <> ("-kernel" ∷ elf_path ∷ []));
  current_dir = none;
  envs = [];
}

module _ (os : Os) where
  -- `fs::read(path).unwrap_or_default()`
  abbrev read_or_default : String → Exec os.State (List ℕ)
  read_or_default path s = (or_else [] (os.read s path), s)

  unfoldable pub run_qemu : String → Option MemoryLoad → Exec os.State QemuOutput
  run_qemu elf_path memory_load =
      with_temp_file os "Failed to create temp file for UART0" λ uart0_path.
        with_temp_file os "Failed to create temp file for UART1" λ uart1_path. do
          output ←
              context "Failed to run QEMU"
                (os.output (qemu_command elf_path memory_load uart0_path uart1_path))
          bail_if (not output.success) "QEMU exited with error"
          uart0 ← read_or_default uart0_path
          uart1 ← read_or_default uart1_path
          pure (record { semihosting = output.stdout; uart0 = uart0; uart1 = uart1 })
