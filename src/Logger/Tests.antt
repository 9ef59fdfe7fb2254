-- ===== src/Logger/Tests.antt =====
-- The logger of src/logger.rs on the platform of Logger/Board.antt.
use defmt_persist.Common.{◌≡◌, refl, true, false, [], ◌∷◌, ◌++◌, some, none, arith, replicate}
use defmt_persist.Ring.{RingBuffer}
use defmt_persist.Ring.Window.{contents}
use defmt_persist.Ring.Bounds.{IsValid}
use defmt_persist.Ring.Producer
use defmt_persist.Rtt.{Channel, new, host_is_connected}
use defmt_persist.Rtt.Bounds
use defmt_persist.Logger.Unattended.{with_channel, frame-with_channel}
use defmt_persist.Waker.{wake}
use defmt_persist.Logger.Board.{features, board, ends}
use defmt_persist.Logger.{
  World, acquire, release, release_start, release_finish, write, output, write_all, state_write,
  leave, wake_waker,
}
use defmt_persist.Logger.Reentrant.{
  acquires, writes, flushes, releases, run, nothing, write_call, flush_call, frame,
  reentrant_frame-dropped,
}
use defmt_persist.Logger.Emitted.{queue_after, frame_chunks, frame_events}
use defmt_persist.Logger.Frame.{frame_lem}
use defmt_persist.Logger.Preempted.{preempted_release, preempted_release_lem}

abbrev ring : RingBuffer
ring = record { header = 0; read = 0; write = 0; ecc_flush = 0; buf = 0 ∷ 0 ∷ 0 ∷ 0 ∷ 0 ∷ 0 ∷ [] }

ring-IsValid : IsValid ring
ring-IsValid = omega arith

-- Interrupts are on, and a task waits.
abbrev idle : World board
idle = record {
  ring = ring;
  initialized = true;
  depth = 0;
  cs_state = false;
  encoder = 0;
  cpu = false;
  rtt = [];
  semihosting = [];
  waker = record { waker = some 9 };
  woken = [];
}

-- In a frame.
abbrev logging : World board
logging = record idle { depth = 1; cpu = true }

logs_a_frame :
    run features board idle (frame_events ((4 ∷ 5 ∷ []) ∷ []))
    ≡ some (record idle {
      ring = record ring { write = 3; buf = 4 ∷ 5 ∷ 0 ∷ 0 ∷ 0 ∷ 0 ∷ [] };
      rtt = 4 ∷ 5 ∷ 0 ∷ [];
      waker = record { waker = none };
      woken = 9 ∷ [];
    })
unfolding run acquire release release_start release_finish write output write_all state_write leave
    wake_waker wake Producer.write Producer.write_stores Producer.available Producer.copy_stores
    Producer.copy
logs_a_frame = refl

reentrant_frame-dropped_example :
    run features board logging
      (acquires ∷ ((writes (1 ∷ []) ∷ flushes ∷ acquires ∷ releases ∷ []) ++ releases ∷ []))
    ≡ some logging
reentrant_frame-dropped_example =
    reentrant_frame-dropped features board logging
      (write_call (1 ∷ []) (flush_call (frame nothing nothing))) refl (omega arith)

frame_lem_example :
    (w' : World board) × (run features board idle
        (frame_events ((4 ∷ 5 ∷ []) ∷ (6 ∷ 7 ∷ 8 ∷ []) ∷ []))
      ≡ some w')
    × (w'.depth ≡ 0)
    × (w'.cpu ≡ false)
    × IsValid w'.ring
    × (contents w'.ring
        ≡ queue_after 5 [] (frame_chunks board 0 ((4 ∷ 5 ∷ []) ∷ (6 ∷ 7 ∷ 8 ∷ []) ∷ [])))
frame_lem_example =
    frame_lem features board ends ((4 ∷ 5 ∷ []) ∷ (6 ∷ 7 ∷ 8 ∷ []) ∷ []) idle refl refl ring-IsValid
      refl

preempted_release_lem_example :
    (w' : World board) × (preempted_release features board logging ((3 ∷ []) ∷ []) ≡ some w')
    × (w'.cpu ≡ true)
preempted_release_lem_example =
    preempted_release_lem features board ends ((3 ∷ []) ∷ []) logging refl refl refl

abbrev channel : Channel
channel = new 32 (replicate 32 5)

channel-IsValid : Bounds.IsValid 32 channel
channel-IsValid = omega arith

channel_detached : host_is_connected channel ≡ false
unfolding host_is_connected
channel_detached = refl

-- As `idle`, with the channel of src/logger/rtt.rs.
abbrev idle_channel : World (with_channel 32 board)
idle_channel = record {
  ring = ring;
  initialized = true;
  depth = 0;
  cs_state = false;
  encoder = 0;
  cpu = false;
  rtt = record { rtt = channel; valid = channel-IsValid; detached = channel_detached };
  semihosting = [];
  waker = record { waker = none };
  woken = [];
}

frame-with_channel_example :
    (w' : World (with_channel 32 board)) × (run features
        (with_channel 32 board)
        idle_channel
        (frame_events ((4 ∷ 5 ∷ []) ∷ []))
      ≡ some w')
    × (contents w'.ring
        ≡ queue_after 5 [] (frame_chunks (with_channel 32 board) 0 ((4 ∷ 5 ∷ []) ∷ [])))
frame-with_channel_example =
    frame-with_channel features board 32 ((4 ∷ 5 ∷ []) ∷ []) idle_channel refl refl ring-IsValid
      refl
