-- ===== src/Init/Tests.antt =====
-- `init` of src/lib.rs at a concrete region of 36 bytes, on the platform of Logger/Board.antt.
use defmt_persist.Common.{
  ℕ, ◌-◌, ◌≡◌, refl, true, false, List, [], ◌∷◌, some, arith, length, if◌then◌else◌,
}
use defmt_persist.Ring.{magic}
use defmt_persist.Ring.Window.{contents}
use defmt_persist.Ring.Bounds.{IsValid}
use defmt_persist.Recover.{recover_or_reinitialize}
use defmt_persist.Recover.Outcome.{is_intact}
use defmt_persist.Layout.{load, view}
use defmt_persist.Layout.Dump.{region_bytes}
use defmt_persist.Logger.{World}
use defmt_persist.Logger.Reentrant.{run}
use defmt_persist.Logger.Board.{features, board, ends}
use defmt_persist.Logger.Emitted.{queue_after, frame_chunks, frame_events}
use defmt_persist.Init.Board.{cortex_m, at_start, start, end, fits, rest}
use defmt_persist.Init.{ok, err, already_initialized, bad_alignment, init, init_start, validate}
use defmt_persist.Init.Outcome.{Reason, init-Reason, init-once, init_lem}
use defmt_persist.Init.Restart.{frame-init}
use defmt_persist.Init.Interrupted.{interrupted_init, interrupted_init_lem}

-- A ring of the feature `ecc`, whose four bytes hold 7 and 8.
abbrev memory : List ℕ
memory =
    0x6c ∷ 0x3c ∷ 0xcd ∷ 0x69 ∷ 0x13 ∷ 0x10 ∷ 0x94 ∷ 0xa1 ∷ 0xb4 ∷ 0xf2 ∷ 0xb9 ∷ 0x27 ∷ 0x60 ∷ 0x20
    ∷ 0xff ∷ 0x1d ∷ 3 ∷ 0 ∷ 0 ∷ 0 ∷ 1 ∷ 0 ∷ 0 ∷ 0 ∷ 0 ∷ 0 ∷ 0 ∷ 0 ∷ 0 ∷ 0 ∷ 0 ∷ 0 ∷ 8 ∷ 5 ∷ 6 ∷ 7
    ∷ []

init_lem_example :
    let found = view cortex_m memory in
    let ring = recover_or_reinitialize true found in
    (init board features cortex_m at_start start end memory ≡ (
      record { called = true; world = record at_start.world { ring = ring; initialized = true } },
      ok (record { recovered_logs_len = length (contents ring) }),
    ))
    × IsValid ring
    × (contents ring ≡ (if is_intact true found then contents found else []))
init_lem_example = init_lem board features cortex_m at_start start end memory refl fits refl

misaligned : (init board features cortex_m at_start 0x2000_fc01 end memory).1 ≡ err bad_alignment
unfolding init init_start validate
misaligned = refl

init-Reason_example :
    Reason cortex_m false 0x2000_fc01 end bad_alignment
    × ((init board features cortex_m at_start 0x2000_fc01 end memory).0.world ≡ at_start.world)
init-Reason_example =
    init-Reason board features cortex_m at_start 0x2000_fc01 end memory bad_alignment misaligned

init-once_example :
    let s' = (init board features cortex_m at_start 0x2000_fc01 end memory).0 in
    init board features cortex_m s' start end memory ≡ (s', err already_initialized)
init-once_example =
    init-once board features cortex_m at_start 0x2000_fc01 end start end memory memory

interrupted_init_lem_example :
    let ring = recover_or_reinitialize true (view cortex_m memory) in
    (w : World board) × (interrupted_init board features cortex_m at_start start end memory
        ((4 ∷ []) ∷ [])
      ≡ some (
        record { called = true; world = w },
        ok (record {
          recovered_logs_len = length (
              queue_after
                (length ring.buf - 1)
                (contents ring)
                (frame_chunks board 0 ((4 ∷ []) ∷ [])));
        }),
      ))
interrupted_init_lem_example =
    interrupted_init_lem board features cortex_m ends at_start start end memory ((4 ∷ []) ∷ []) refl
      fits refl refl refl

counts_the_current_run :
    let ring = recover_or_reinitialize true (view cortex_m memory) in
    length
      (queue_after (length ring.buf - 1) (contents ring) (frame_chunks board 0 ((4 ∷ []) ∷ [])))
    ≡ 3
unfolding recover_or_reinitialize view load
counts_the_current_run = refl

-- A run that has 7 and 8 in its ring.
abbrev running : World board
running = record at_start.world {
  ring = record {
    header = magic true;
    read = 3;
    write = 1;
    ecc_flush = 0;
    buf = 8 ∷ 5 ∷ 6 ∷ 7 ∷ [];
  };
  initialized = true;
}

running-IsValid : IsValid running.ring
running-IsValid = omega arith

frame-init_example :
    let logged = queue_after 3 (7 ∷ 8 ∷ []) (frame_chunks board 0 ((4 ∷ []) ∷ [])) in
    (w' : World board) × (run features board running (frame_events ((4 ∷ []) ∷ [])) ≡ some w')
    × (let (s', result) =
          init board features cortex_m at_start start end (region_bytes rest w'.ring) in
        (result ≡ ok (record { recovered_logs_len = length logged }))
        × (contents s'.world.ring ≡ logged))
frame-init_example =
    frame-init board features cortex_m rest start end refl fits ends ((4 ∷ []) ∷ []) running
      at_start refl refl running-IsValid refl refl refl refl
