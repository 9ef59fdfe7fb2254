-- ===== src/Semihosting.antt =====
-- src/logger/semihosting.rs: the lazily opened stream to the host. `hio::hstdout` and `write_all` of
-- cortex-m-semihosting are parameters, which act on the host.
pub mod Opened
mod Tests
use defmt_persist.Common.{ℕ, List, [], ◌∷◌, Option, none, some}

-- What the crate offers; `hstdout` gives no stream where it fails, and the result of `write_all` is
-- dropped.
pub record Hio : Type 1 where
  pub Host : Type 0
  pub HostStream : Type 0
  pub hstdout : Host → Host × Option HostStream
  pub write_all : HostStream → List ℕ → Host → Host

-- `STDOUT`, and the host.
pub record Stdout (hio : Hio) : Type 0 where
  pub handle : Option hio.HostStream
  pub host : hio.Host

module _ (hio : Hio) where
  unfoldable pub opened : Stdout hio → Stdout hio
  opened s = elim s.handle [
    | none ↦ (let (host', stream) = hio.hstdout s.host in record { handle = stream; host = host' })
    | some _ ↦ s
  ]

  unfoldable pub send : Stdout hio → List ℕ → Stdout hio
  send s bytes = elim s.handle [
    | none ↦ s
    | some stdout ↦ record s { host = hio.write_all stdout bytes s.host }
  ]

  unfoldable pub write : Stdout hio → List ℕ → Stdout hio
  write s bytes = send (opened s) bytes

  -- Writes one after the other.
  abbrev pub writes : Stdout hio → List (List ℕ) → Stdout hio
  writes s [] = s
  writes s (bytes ∷ more) = writes (write s bytes) more
