-- ===== src/Concurrent.antt =====
-- The two ends of src/ring_buffer.rs at work at the same time, one load or store after the other:
-- `Producer::write`, `Consumer::read` and `GrantR::release`. Orderings of the accesses are those of
-- the steps; the index that a load has seen may be out of date when it is used.
pub mod Invariant
pub mod Produce
pub mod Start
pub mod Consume
pub mod Fifo
mod Tests
use defmt_persist.Common.{ℕ, ◌≤◌, Bool, List, [], ◌∷◌, ◌++◌, ◌≡◌, length, min, take, add_usize}
use defmt_persist.Ring.{
  RingBuffer, Store, set_header, set_read, set_write, set_flush, set_byte, apply,
}
use defmt_persist.Ring.Producer.{available, write_stores}
use defmt_persist.Ring.Consumer.{GrantR, read, bufs, release_stores}

-- Where the producer is: outside `write`, behind its load of `read`, or before the stores that are
-- left. It goes with the bytes that it takes and has not made part of the ring.
pub data Producing : Type 0 where
  resting : Producing
  loaded : (read : ℕ) (bytes : List ℕ) → Producing
  storing : List Store → (unpublished : List ℕ) → Producing

-- Where the consumer is: without a grant, with one that it got at the given `write`, or before the
-- stores of `release` that are left. It goes with what it saw in the grant at first, and with the
-- number of bytes that it is about to release.
pub data Consuming : Type 0 where
  resting : Consuming
  granted : (write : ℕ) (seen : List ℕ) → Consuming
  storing : List Store → (releasing : ℕ) → Consuming

-- `sent` are all bytes that the calls of `write` took, `received` those that the consumer found in
-- its grants and released.
pub record Ends : Type 0 where
  pub ring : RingBuffer
  pub producing : Producing
  pub consuming : Consuming
  pub sent : List ℕ
  pub received : List ℕ

-- The bytes in the slices of a grant that was got at the given `write`, as they are now.
abbrev pub offered : RingBuffer → ℕ → List ℕ
offered r write = let (buf1, buf2) = bufs (read (record r { write = write })) in buf1 ++ buf2

-- The bytes that a `write` takes that has loaded the given `read`.
abbrev pub fitting : RingBuffer → ℕ → List ℕ → List ℕ
fitting r read bytes = take (min (length bytes) (available (length r.buf) read r.write)) bytes

-- What is left of either number after a store.
abbrev pub unpublished_after : Store → List ℕ → List ℕ
unpublished_after (set_write _) acc = []
unpublished_after _ acc = acc

abbrev pub releasing_after : Store → ℕ → ℕ
releasing_after (set_read _) k = 0
releasing_after _ k = k

module _ (ecc : Bool) where
  abbrev pub after_start : Ends → ℕ → List ℕ → Ends
  after_start s ρ bytes = record s {
    producing =
        Producing.storing (write_stores ecc (record s.ring { read = ρ }) bytes)
          (fitting s.ring ρ bytes);
    sent = s.sent ++ fitting s.ring ρ bytes;
  }

  abbrev pub after_release : Ends → ℕ → ℕ → Ends
  after_release s w used = record s {
    consuming =
        Consuming.storing (release_stores ecc s.ring (read (record s.ring { write = w })) used)
          (min used (length (offered s.ring w)));
    received = s.received ++ take used (offered s.ring w);
  }

abbrev pub after_grant : Ends → Ends
after_grant s = record s { consuming = granted s.ring.write (offered s.ring s.ring.write) }

abbrev pub after_produce : Ends → Store → List Store → List ℕ → Ends
after_produce s st ss acc = record s {
  ring = apply s.ring st;
  producing = Producing.storing ss (unpublished_after st acc);
}

abbrev pub after_consume : Ends → Store → List Store → ℕ → Ends
after_consume s st ss k = record s {
  ring = apply s.ring st;
  consuming = Consuming.storing ss (releasing_after st k);
}

-- One step of either end.
pub data Step (ecc : Bool) : Ends → Ends → Type 0 where
  call_write :
      {s : Ends} (bytes : List ℕ)
      → s.producing ≡ Producing.resting
      → Step ecc s (record s { producing = loaded s.ring.read bytes })
  start_write :
      {s : Ends} (ρ : ℕ) (bytes : List ℕ)
      → s.producing ≡ loaded ρ bytes
      → Step ecc s (after_start ecc s ρ bytes)
  produce :
      {s : Ends} (st : Store) (ss : List Store) (acc : List ℕ)
      → s.producing ≡ Producing.storing (st ∷ ss) acc
      → Step ecc s (after_produce s st ss acc)
  end_write :
      {s : Ends} (acc : List ℕ)
      → s.producing ≡ Producing.storing [] acc
      → Step ecc s (record s { producing = Producing.resting })
  call_read : {s : Ends} → s.consuming ≡ Consuming.resting → Step ecc s (after_grant s)
  drop_grant :
      {s : Ends} (w : ℕ) (seen : List ℕ)
      → s.consuming ≡ granted w seen
      → Step ecc s (record s { consuming = Consuming.resting })
  call_release :
      {s : Ends} (w : ℕ) (seen : List ℕ) (used : ℕ)
      → s.consuming ≡ granted w seen
      → Step ecc s (after_release ecc s w used)
  consume :
      {s : Ends} (st : Store) (ss : List Store) (k : ℕ)
      → s.consuming ≡ Consuming.storing (st ∷ ss) k
      → Step ecc s (after_consume s st ss k)
  end_release :
      {s : Ends} (k : ℕ)
      → s.consuming ≡ Consuming.storing [] k
      → Step ecc s (record s { consuming = Consuming.resting })

infixr 30 ◌⟶◌
pub data Steps (ecc : Bool) : Ends → Ends → Type 0 where
  stay : {s : Ends} → Steps ecc s s
  ◌⟶◌ : {s t u : Ends} → Step ecc s t → Steps ecc t u → Steps ecc s u
