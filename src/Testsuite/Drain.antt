-- ===== src/Testsuite/Drain.antt =====
-- What testsuite/src/lib.rs sends to a UART.
use defmt_persist.Common.{
  ℕ, ◌+◌, ◌≤◌, zero, suc, ◌≡◌, refl, sym, ap, ◌∙◌, Bool, true, false, List, [], ◌∷◌, ◌++◌,
  append_assoc, append-nil, Option, some, ◌>>=◌, if◌then◌else◌, length, length-append, usize_max,
  Bool-cases, inl, inr, arith,
}
use defmt_persist.Ring.{RingBuffer}
use defmt_persist.Ring.Consumer.{is_empty, read, bufs, release_stores, release, release_all}
use defmt_persist.Ring.Window.{contents}
use defmt_persist.Ring.Bounds.{IsValid}
use defmt_persist.Ring.Read.{bufs-read, is_empty_iff}
use defmt_persist.Ring.Release.{release-IsValid, contents-release_all}
use defmt_persist.Testsuite.{Uart, is_full, wait_and_send, write_bytes, drain_round, drain_to_uart}

-- How often the loads find room in the FIFO.
unfoldable pub free : List ℕ → ℕ
free [] = 0
free (fr ∷ flags) = let more = free flags in if is_full fr then more else suc more

wait_and_send_lem :
    (flags sent : List ℕ) (byte n : ℕ)
    → suc n ≤ free flags
    → (flags' : List ℕ) × (n ≤ free flags')
      × (wait_and_send flags sent byte ≡ some (record { flags = flags'; sent = sent ++ byte ∷ [] }))
unfolding wait_and_send free
wait_and_send_lem [] sent byte n h = absurd (omega arith)
wait_and_send_lem (fr ∷ flags) sent byte n h = elim (Bool-cases (is_full fr)) [
  | inl full ↦
      let (flags', room, e) = wait_and_send_lem flags sent byte n (ground arith) in
      (flags', room, rw full e)
  | inr not_full ↦ (flags, ground arith, rw not_full refl)
]

-- Bytes are sent in order where there is room for each.
pub write_bytes_lem :
    (bytes : List ℕ) (u : Uart) (n : ℕ)
    → length bytes + n ≤ free u.flags
    → (u' : Uart) × (write_bytes u bytes ≡ some u')
      × (u'.sent ≡ u.sent ++ bytes)
      × (n ≤ free u'.flags)
unfolding write_bytes
write_bytes_lem [] u n h = (u, refl, sym (append-nil u.sent), omega arith)
write_bytes_lem (byte ∷ bytes) u n h =
    let (flags, room, e) = wait_and_send_lem u.flags u.sent byte (length bytes + n) (omega arith) in
    let u1 : Uart = record { flags = flags; sent = u.sent ++ byte ∷ [] } in
    let (u', e', s, room') = write_bytes_lem bytes u1 n room in
    (
      u',
      ap (λ o. o >>= λ u'. write_bytes u' bytes) e ∙ e',
      s ∙ append_assoc u.sent (byte ∷ []) bytes,
      room',
    )

drain_empty :
    (rounds : ℕ) (ecc : Bool) (r : RingBuffer) (u : Uart)
    → is_empty r ≡ true
    → drain_to_uart rounds ecc r u ≡ some (r, u)
unfolding drain_to_uart
drain_empty zero ecc r u empty = rw empty refl
drain_empty (suc rounds) ecc r u empty = rw empty refl

release_all_frame :
    (ecc : Bool) (r : RingBuffer)
    → ((release_all ecc r (read r)).buf ≡ r.buf) × ((release_all ecc r (read r)).header ≡ r.header)
unfolding release_all release release_stores
release_all_frame true r = (refl, refl)
release_all_frame false r = (refl, refl)

module _ (ecc : Bool) (r : RingBuffer) (v : IsValid r) where
  drain_round_lem :
      (u : Uart) (n : ℕ)
      → length (contents r) + n ≤ free u.flags
      → (u' : Uart) × (drain_round ecc r u ≡ some (release_all ecc r (read r), u'))
        × (u'.sent ≡ u.sent ++ contents r)
        × (n ≤ free u'.flags)
  unfolding drain_round
  drain_round_lem u n h =
      let b1 = (bufs (read r)).0 in
      let b2 = (bufs (read r)).1 in
      let whole = bufs-read r v in
      let (u1, e1, s1, room1) =
        write_bytes_lem b1 u (length b2 + n)
          (omega (arith, length-append b1 b2, ap length whole, h)) in
      let (u2, e2, s2, room2) = write_bytes_lem b2 u1 n room1 in
      let finish : Uart → Option (RingBuffer × Uart) = λ u. some (release_all ecc r (read r), u) in
      (
        u2,
        ap (λ o. o >>= λ u1. write_bytes u1 b2 >>= finish) e1 ∙ ap (λ o. o >>= finish) e2,
        s2 ∙ (ap (λ l. l ++ b2) s1 ∙ (append_assoc u.sent b1 b2 ∙ ap (λ l. u.sent ++ l) whole)),
        room2,
      )

  drained : is_empty (release_all ecc r (read r)) ≡ true
  unfolding release_all release
  drained =
      (is_empty_iff (release_all ecc r (read r)) (release-IsValid ecc r v usize_max)).1
        (contents-release_all ecc r v)

  -- What a drain has done: the ring is empty, and the bytes are sent.
  pub record Drained (u : Uart) (n : ℕ) (r' : RingBuffer) (u' : Uart) : Type 0 where
    pub valid : IsValid r'
    pub buf : r'.buf ≡ r.buf
    pub header : r'.header ≡ r.header
    pub empty : contents r' ≡ []
    pub sent : u'.sent ≡ u.sent ++ contents r
    pub room : n ≤ free u'.flags

  pub drain_to_uart-Drained :
      (rounds : ℕ) (u : Uart) (n : ℕ)
      → length (contents r) + n ≤ free u.flags
      → (r' : RingBuffer) × (u' : Uart) × (drain_to_uart (suc rounds) ecc r u ≡ some (r', u'))
        × Drained u n r' u'
  unfolding drain_to_uart release_all
  drain_to_uart-Drained rounds u n h = elim (Bool-cases (is_empty r)) [
    | inl empty ↦
        let none_there = (is_empty_iff r v).0 empty in
        (
          r,
          u,
          drain_empty (suc rounds) ecc r u empty,
          record {
            valid = v;
            buf = refl;
            header = refl;
            empty = none_there;
            sent = sym (append-nil u.sent) ∙ ap (λ l. u.sent ++ l) (sym none_there);
            room = omega arith;
          },
        )
    | inr some_there ↦
        let (u', e, s, room) = drain_round_lem u n h in
        let r' : RingBuffer = release_all ecc r (read r) in
        (
          r',
          u',
          rw some_there (
              ap (λ o. o >>= λ t. drain_to_uart rounds ecc t.0 t.1) e
              ∙ drain_empty rounds ecc r' u' drained),
          record {
            valid = release-IsValid ecc r v usize_max;
            buf = (release_all_frame ecc r).0;
            header = (release_all_frame ecc r).1;
            empty = contents-release_all ecc r v;
            sent = s;
            room = room;
          },
        )
  ]

  -- drain_to_uart on a valid ring ends after at most one round where the FIFO of the UART has room
  -- as often as the ring holds bytes: it sends all contents, in order, and leaves the ring empty.
  pub drain_to_uart_lem :
      (rounds : ℕ) (u : Uart)
      → length (contents r) ≤ free u.flags
      → (r' : RingBuffer) × (u' : Uart) × (drain_to_uart (suc rounds) ecc r u ≡ some (r', u'))
        × (u'.sent ≡ u.sent ++ contents r)
        × (contents r' ≡ [])
  drain_to_uart_lem rounds u h =
      let (r', u', e, d) = drain_to_uart-Drained rounds u 0 (omega arith) in
      (r', u', e, d.sent, d.empty)
