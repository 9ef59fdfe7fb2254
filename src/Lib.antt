-- ===== src/Lib.antt =====
-- defmt-persist: a defmt logger whose ring buffer survives resets.
--
-- The program. A region of memory that a reset leaves alone holds a structure (a header, a read
-- index, a write index, and a byte to flush an ECC write cache with) and a ring of bytes behind it.
-- At a start `init` (src/lib.rs) takes the region over: it keeps what an earlier run left, or resets
-- the structure. It gives the producer to the logger (src/logger.rs) and the consumer to the
-- program. The logger is what the macros of defmt call: `acquire`, `write`, `flush` and `release`;
-- it encodes a frame and sends its bytes to the ring, to an RTT channel (src/logger/rtt.rs) and, in
-- tests, to semihosting. The consumer reads the ring in grants and can wait for data, for which
-- `release` wakes it (src/atomic_waker.rs). The test runner (xtask/src) builds the test programs
-- (testsuite/examples), runs them in QEMU, and compares what they put out; it also starts one with
-- regions that it has corrupted (xtask/src/corrupt.rs).
--
-- The files.
-- - Common and its children: lists, Boolean tests and words over the native numbers.
-- - Ring: src/ring_buffer.rs. The structure and the bytes behind it are the record `RingBuffer`. An
--   operation of the producer (Ring/Producer) or of a grant (Ring/Consumer) is the list of the stores
--   to memory that it makes, in program order: `Producer::write` is `write_stores` and `write`,
--   `Consumer::read` is `read`, `GrantR::release` is `release_stores` and `release`. A reset in an
--   operation leaves what some of its first stores make of the memory. Ring/Window says which bytes
--   a ring holds, Ring/Bounds when it is valid, Ring/Queue what it stands for: a bounded queue.
--   Ring/Client has sequences of calls, Ring/Cut and Ring/Safety single stores.
-- - Concurrent: the two ends at work at once, as a step relation. Each step is a load, the store that
--   comes next, or a call or return; a `write` may go on with a `read` index that is out of date.
--   Concurrent/Invariant says where the bytes on their way lie, Concurrent/Start,
--   Concurrent/Produce and Concurrent/Consume have the steps of either end.
-- - Recover: `RingBuffer::recover_or_reinitialize` and `split`, as stores again. `split` gives out two
--   references to one region, so that the region is the result. Recover/Survive, Recover/Released and
--   Recover/Reset are about resets in `write`, in `release` and in the recovery itself.
-- - Layout: the structure in memory as bytes (`repr(C)`, and the module `offsets`), little-endian;
--   Layout/Dump has the bytes of a structure. `size_of` and `align_of` are the target's.
-- - Rtt: src/logger/rtt.rs. `Channel`, and its loops `write_all` and `flush`.
-- - Semihosting: src/logger/semihosting.rs, with the stream of cortex-m-semihosting as a parameter.
-- - Waker: src/atomic_waker.rs.
-- - Logger: src/logger.rs. `LOGGER_STATE`, and what the logger acts on, is the record `World`. The
--   calls of defmt are functions, and Logger/Reentrant has sequences of them. `release` is also split
--   at its `fetch_sub`, for Logger/Preempted.
-- - Init: src/lib.rs. `init` is split where the logger gets the producer, for Init/Interrupted.
--   Init/Restart is about a run, a reset and the next run.
-- - Wait: `Consumer::wait_for_data`, as a step relation with a logger that writes and then wakes.
-- - Ecc: RAM with ECC, whose write cache holds the stores to one word until a store to another word. A
--   store that fills a word, as that of an index does a word of 32 bits, the hardware may also commit at
--   once, with older stores still in the cache; when it does so is a parameter. It stands for hardware,
--   as Cargo.toml describes it at the feature `ecc` and ring_buffer.rs in `write`; a store goes where
--   `offsets` says. Ecc/Cache is about stores of bytes, Ecc/Settled about an index between two flushes,
--   Ecc/Stored about the stores of the operations of the ring.
-- - Corrupt: xtask/src/corrupt.rs, the flags and `apply_corruption`.
-- - Testsuite: testsuite/src/lib.rs and testsuite/src/uart.rs: `drain_to_uart` and
--   `dump_persist_region`, with the writes to a UART that they make. Testsuite/Futures has
--   `yield_once`, `join` and `block_on`, with futures as states that are polled.
-- - Programs: testsuite/examples, the six programs, on the library, the logger and the UARTs of the
--   other modules; Programs/Async has async_test.rs, whose rounds are in Programs/Async/Rounds.
--   Programs/Boot takes them from a reset to `main`, Programs/Steps has the steps they share.
--   Programs/Panicked, Programs/Wraparound and Programs/Async are about runs of three of them,
--   Programs/Booted about corrupt_test. Programs/Passes is about what `run_corrupt` makes of
--   corrupt_test, and Programs/Panicked/Persisted about what `run_persist` makes of panic_test.
-- - Xtask: xtask/src. Xtask/Exec has functions that return `anyhow::Result` and change the system around
--   them, Xtask/Os what they ask of it, Xtask/Text what they use of `str`, `Path` and formatting.
--   Xtask/Qemu, Xtask/Defmt, Xtask/Build and Xtask/Main are the files of these names, Xtask/Config,
--   Xtask/Expected and Xtask/Runner are parts of runner.rs, Xtask/Scenarios is `run_corrupt`.
--   Xtask/Verdict, Xtask/Persisted, Xtask/Decoded, Xtask/Markers, Xtask/Blessed and Xtask/Passed are
--   about them, and Xtask/Simulated is a concrete system.
--
-- Numbers. usize is 32 bits wide, as on the Cortex-M cores that the crate is for; sums and
-- differences on usize wrap at 2 ^ 32, and a cast to u32 is a remainder. The lemmas on the ring ask
-- for a buffer below `i32::MAX / 4`, the limit that `init` enforces, so that no sum of two indices
-- reaches 2 ^ 32. Bytes are numbers; no operation of the ring looks at one.
--
-- Loops. The loops over bytes are recursion on lists. The loops of the RTT channel run on the list of
-- the values that their loads of `read` see, one for each round, and report when it has run out: a
-- round takes a byte or ends the loop, unless the host blocks it, so that one value for each byte is
-- enough. The loop on the flag register of a UART runs on the list of the values that its loads see.
-- That of `drain_to_uart` runs on a bound for its rounds: a round takes all that the ring holds, so
-- that one is enough, and the programs give it one. The loop of `decode_output` runs on one round more
-- than there are bytes, since a frame takes a byte at least. That of `block_on` runs on a bound that is
-- enough for futures that are pending a bounded number of times; async_test gives it one
-- round more than it has messages.
--
-- What is a parameter. The encoder of defmt, the critical section, and the wakers of core::task are
-- the `Platform` of Logger. The lemmas on frames ask that leaving a critical section undoes entering
-- it. In Logger the writes to RTT and semihosting are fields of the platform too, and the lemmas
-- ask that those to RTT come to an end, which Rtt/Finish is about; Logger/Unattended puts the channel
-- of Rtt in their place. What a log macro hands to the encoder is an argument of the programs. The
-- operating system and its programs are the record `Os` of Xtask, and defmt_decoder is the record
-- `Decoder`; what is about `run_corrupt` and `run_persist` asks in `Emulates` that QEMU runs a program
-- as given, and that `decode_output` returns what is given for bytes, which may be an error.
--
-- What is not modelled. Orderings of atomic accesses and compiler fences: stores happen in program
-- order. Outside Ecc a store has happened when it is made, and a flush is a store like the others. In
-- Ecc a store to the header is one store to one word. Outside Concurrent and Wait, the producer and the
-- consumer run one call after the other. What the test runner prints is left out, with
-- `CorruptFlags::name`, and its errors keep one message. The build scripts, which write a constant
-- and linker arguments, are left out.
pub mod Common
pub mod Ring
pub mod Concurrent
pub mod Recover
pub mod Rtt
pub mod Semihosting
pub mod Waker
pub mod Logger
pub mod Layout
pub mod Corrupt
pub mod Init
pub mod Wait
pub mod Ecc
pub mod Testsuite
pub mod Programs
pub mod Xtask
