-- ===== src/Programs/Output.antt =====
-- What QEMU puts out when a program of testsuite/examples has run.
use defmt_persist.Common.{ℕ, List, [], Option, none, some}
use defmt_persist.Logger.{Platform}
use defmt_persist.Xtask.Qemu.{QemuOutput}
use defmt_persist.Programs.{Exit}

module _ (p : Platform) (stdout : p.Semihosting → List ℕ) where
  -- `stdout` is what has come out of semihosting.
  abbrev pub output_of : Option (Exit p) → QemuOutput
  output_of none = record { semihosting = []; uart0 = []; uart1 = [] }
  output_of (some e) = record {
    semihosting = stdout e.machine.world.semihosting;
    uart0 = e.machine.uart0.sent;
    uart1 = e.machine.uart1.sent;
  }

-- The region at a start, where `cold` is what it holds when nothing is loaded.
abbrev pub memory_of : List ℕ → Option (List ℕ) → List ℕ
memory_of cold none = cold
memory_of cold (some memory) = memory
