-- ===== src/Init/Board.antt =====
-- A concrete region for the `init` of src/lib.rs, on the platform of Logger/Board.antt.
use defmt_persist.Common.{ℕ, refl, false, List, [], ◌∷◌, none, arith}
use defmt_persist.Layout.{Target}
use defmt_persist.Logger.Board.{board}
use defmt_persist.Init.{Statics}
use defmt_persist.Init.Outcome.{Fits}

abbrev pub cortex_m : Target
cortex_m = record { size_of = 32; align_of = 8 }

-- Before the first call.
abbrev pub at_start : Statics board
at_start = record {
  called = false;
  world = record {
    ring = record { header = 0; read = 0; write = 0; ecc_flush = 0; buf = [] };
    initialized = false;
    depth = 0;
    cs_state = false;
    encoder = 0;
    cpu = false;
    rtt = [];
    semihosting = [];
    waker = record { waker = none };
    woken = [];
  };
}

abbrev pub start : ℕ
start = 0x2000_fc00

abbrev pub end : ℕ
end = 0x2000_fc24

pub fits : Fits cortex_m start end
fits = record { aligned = refl; large = omega arith; small = omega arith }

-- What lies between the indices and the buffer.
abbrev pub rest : List ℕ
rest = 0 ∷ 0 ∷ 0 ∷ 0 ∷ 0 ∷ 0 ∷ 0 ∷ 0 ∷ []
