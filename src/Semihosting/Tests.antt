-- ===== src/Semihosting/Tests.antt =====
-- The stream of src/logger/semihosting.rs on a host that counts its openings.
use defmt_persist.Common.{ℕ, ◌+◌, ◌≡◌, refl, List, [], ◌∷◌, ◌++◌, none, some}
use defmt_persist.Semihosting.{Hio, writes}
use defmt_persist.Semihosting.Opened.{writes_lem}

-- The host has the number of openings and the bytes.
abbrev counting : Hio
counting = record {
  Host = ℕ × List ℕ;
  HostStream = ℕ;
  hstdout = λ host. ((host.0 + 1, host.1), some 1);
  write_all = λ stream bytes host. (host.0, host.1 ++ bytes);
}

writes_lem_example :
    writes counting (record { handle = none; host = (0, []) }) ((1 ∷ 2 ∷ []) ∷ (3 ∷ []) ∷ [])
    ≡ record { handle = some 1; host = (1, 1 ∷ 2 ∷ 3 ∷ []) }
writes_lem_example = writes_lem counting (1 ∷ 2 ∷ []) ((3 ∷ []) ∷ []) (0, []) (1, []) 1 refl
