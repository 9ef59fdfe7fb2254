-- ===== src/Semihosting/Opened.antt =====
-- How often src/logger/semihosting.rs opens its stream.
use defmt_persist.Common.{ℕ, ◌≡◌, refl, ap, ◌∙◌, List, [], ◌∷◌, none, some}
use defmt_persist.Semihosting.{Hio, opened, send, write, writes}

module _ (hio : Hio) where
  -- All chunks to one stream.
  abbrev pub sent : hio.HostStream → List (List ℕ) → hio.Host → hio.Host
  sent stream [] host = host
  sent stream (bytes ∷ more) host = sent stream more (hio.write_all stream bytes host)

  writes-sent :
      (stream : hio.HostStream) (chunks : List (List ℕ)) (host : hio.Host)
      → writes hio (record { handle = some stream; host = host }) chunks
        ≡ record { handle = some stream; host = sent stream chunks host }
  unfolding write opened send
  writes-sent stream [] host = refl
  writes-sent stream (bytes ∷ more) host = writes-sent stream more (hio.write_all stream bytes host)

  -- Where hstdout gives a stream, a sequence of writes to an unopened STDOUT opens it once, with
  -- the first, and sends all chunks to that one stream, in order.
  pub writes_lem :
      (bytes : List ℕ) (chunks : List (List ℕ)) (host host' : hio.Host) (stream : hio.HostStream)
      → hio.hstdout host ≡ (host', some stream)
      → writes hio (record { handle = none; host = host }) (bytes ∷ chunks)
        ≡ record { handle = some stream; host = sent stream (bytes ∷ chunks) host' }
  unfolding write opened send
  writes_lem bytes chunks host host' stream h =
      ap (λ o. writes hio (send hio (record { handle = o.1; host = o.0 }) bytes) chunks) h
      ∙ writes-sent stream chunks (hio.write_all stream bytes host')
