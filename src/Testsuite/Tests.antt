-- ===== src/Testsuite/Tests.antt =====
-- The calls of testsuite/src/lib.rs at a concrete ring and UARTs.
use defmt_persist.Common.{ℕ, ◌≡◌, false, none, some}
use defmt_persist.Testsuite.Futures.{yield_once, join, block_on}
use defmt_persist.Testsuite.Futures.Bounded.{yield_once-IsBounded, block_on-join}

-- Two futures that yield once, polled in turn.
block_on-join_example :
    (val : Unit {0} × Unit {0}) × (w : ℕ) × (block_on 5
        (join (yield_once {World = ℕ}) yield_once)
        ((false, none), (false, none))
        7
      ≡ some (val, w))
block_on-join_example =
    block_on-join yield_once yield_once yield_once-IsBounded yield_once-IsBounded false false 7
