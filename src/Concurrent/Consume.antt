-- ===== src/Concurrent/Consume.antt =====
-- The steps of `Consumer::read` and `GrantR::release` of src/ring_buffer.rs keep the invariant,
-- whatever the producer does.
use defmt_persist.Common.{
  ℕ, suc, zero, ◌-◌, ◌*◌, ◌/◌, ◌≤◌, ◌<◌, ◌≡◌, ap, ap₂, refl, sym, ◌∙◌, subst, Bool, List, [], ◌∷◌,
  ◌++◌, append_assoc, length, drop, take, take-min, take-append-drop, drop-append_length, get_or,
  min, All, arith, inl, inr,
}
use defmt_persist.Ring.{RingBuffer, Store, set_read, set_flush, flush_ecc}
use defmt_persist.Ring.Consumer.{read, release_stores}
use defmt_persist.Ring.Window.{next, ahead, distance, window, length-window, window-append}
use defmt_persist.Ring.Bounds.{distance-lt}
use defmt_persist.Ring.Release.{release_stores_lem}
use defmt_persist.Concurrent.{
  Ends, Producing, loaded, Consuming, granted, offered, after_grant, after_release, after_consume,
}
use defmt_persist.Concurrent.Invariant.{
  unpublished, releasing, IsRing, amount, held, Left, copying, moving, over, Produces, Releases,
  Consumes, Inv, IsRing-IsValid, offered_lem,
}
use defmt_persist.Concurrent.Produce.{flushes}

take-window :
    (len : ℕ) (buf : List ℕ) (i k n : ℕ) → k ≤ n → take k (window len buf i n) ≡ window len buf i k
take-window len buf i zero n h = refl
take-window len buf i (suc k) zero h = absurd (omega arith)
take-window len buf i (suc k) (suc n) h =
    ap (λ l. get_or buf i 0 ∷ l) (take-window len buf (next len i) k n (omega arith))

drop-window :
    (len : ℕ) (buf : List ℕ) (i k n : ℕ)
    → i < len
    → k < len
    → k ≤ n
    → drop k (window len buf i n) ≡ window len buf (ahead len i k) (n - k)
drop-window len buf i k n hi hk h =
    ap₂ drop (sym (length-window len buf i k))
      (window-append len buf i k (n - k) n hi hk (omega arith))
    ∙ drop-append_length (window len buf i k) (window len buf (ahead len i k) (n - k))

module _ (len : ℕ) (ecc : Bool) where
  -- The producer does not mind more room.
  Produces-shrinks :
      (r : RingBuffer) (read' flush' : ℕ) (p : Producing)
      → distance len read' r.write ≤ amount len r
      → Produces len ecc r p
      → Produces len ecc (record r { read = read'; ecc_flush = flush' }) p
  Produces-shrinks r read' flush' Producing.resting less h = tt
  Produces-shrinks r read' flush' (loaded ρ bytes) less (hρ, old) = (hρ, omega arith)
  Produces-shrinks r read' flush' (Producing.storing ss acc) less (room, left) =
      (omega arith, same left)
    where
      same :
          Left len ecc r ss acc
          → Left len ecc (record r { read = read'; ecc_flush = flush' }) ss acc
      same (copying n bs e l w) = copying n bs e l w
      same (moving e w) = moving e w
      same (over a hs) = over a hs

module _ (len : ℕ) (ecc : Bool) (s : Ends) (v : Inv len ecc s) where
  abbrev r : RingBuffer
  r = s.ring

  -- What the invariant says of the bytes, with the consumer where it is known to be.
  fifo_at :
      (c : Consuming)
      → s.consuming ≡ c
      → s.sent ≡ s.received ++ (drop (releasing c) (held len r) ++ unpublished s.producing)
  fifo_at c h =
      v.fifo
      ∙ ap (λ c. s.received ++ (drop (releasing c) (held len r) ++ unpublished s.producing)) h

  pub call_read-Inv : s.consuming ≡ Consuming.resting → Inv len ecc (after_grant s)
  call_read-Inv h = record {
    is_ring = v.is_ring;
    produces = v.produces;
    consumes = (
      v.is_ring.write_in,
      omega arith,
      sym (offered_lem len r r.write v.is_ring v.is_ring.write_in),
    );
    fifo = fifo_at Consuming.resting h;
  }

  pub drop_grant-Inv :
      (w : ℕ) (seen : List ℕ)
      → s.consuming ≡ granted w seen
      → Inv len ecc (record s { consuming = Consuming.resting })
  drop_grant-Inv w seen h = record {
    is_ring = v.is_ring;
    produces = v.produces;
    consumes = tt;
    fifo = fifo_at (granted w seen) h;
  }

  -- A grant offers a first part of what the ring holds.
  module _ (w used : ℕ) (hw : w < len) (inside : distance len r.read w ≤ amount len r) where
    abbrev released : ℕ
    released = min used (length (offered r w))

    length-offered : length (offered r w) ≡ distance len r.read w
    length-offered =
        ap length (offered_lem len r w v.is_ring hw)
        ∙ length-window len r.buf r.read (distance len r.read w)

    take-offered : take used (offered r w) ≡ take released (held len r)
    take-offered =
        sym (take-min used (offered r w))
        ∙ (ap₂ take turned (offered_lem len r w v.is_ring hw)
            ∙ (take-window len r.buf r.read released (distance len r.read w)
                  (omega (arith, length-offered))
                ∙ sym (
                    take-window len r.buf r.read released (amount len r)
                      (omega (arith, length-offered)))))
      where
        turned : min (length (offered r w)) used ≡ released
        turned = omega arith

    stored :
        release_stores ecc r (read (record r { write = w })) used
        ≡ set_read (ahead len r.read released) ∷ flush_ecc ecc
    unfolding release_stores
    stored =
        let r' : RingBuffer = record r { write = w } in
        let i' : IsRing len r' =
          omega (arith, v.is_ring.storage, v.is_ring.read_in, v.is_ring.small) in
        release_stores_lem ecc r' (IsRing-IsValid len r' i') used
        ∙ ap₂ (λ l k. set_read (ahead l r.read k) ∷ flush_ecc ecc) v.is_ring.storage
            (omega (arith, length-offered, ap (λ l. distance l r.read w) v.is_ring.storage))

  pub call_release-Inv :
      (w : ℕ) (seen : List ℕ) (used : ℕ)
      → s.consuming ≡ granted w seen
      → Inv len ecc (after_release ecc s w used)
  call_release-Inv w seen used h =
      let c : Consumes len ecc r (granted w seen) = subst (Consumes len ecc r) h v.consumes in
      let hw : w < len = c.0 in
      let inside : distance len r.read w ≤ amount len r = c.1 in
      let k = released w used hw inside in
      let rest = drop k (held len r) in
      let u = unpublished s.producing in
      let found : held len r ≡ take used (offered r w) ++ rest =
        sym (take-append-drop k (held len r))
        ∙ ap (λ l. l ++ rest) (sym (take-offered w used hw inside)) in
      record {
        is_ring = v.is_ring;
        produces = v.produces;
        consumes = (omega (arith, length-offered w used hw inside), inl (stored w used hw inside));
        fifo =
            fifo_at (granted w seen) h
            ∙ (ap (λ l. s.received ++ (l ++ u)) found
                ∙ (ap (λ l. s.received ++ l) (append_assoc (take used (offered r w)) rest u)
                    ∙ sym (append_assoc s.received (take used (offered r w)) (rest ++ u))));
      }

  consume-flush :
      (ss : List Store) (k : ℕ)
      → s.consuming ≡ Consuming.storing (set_flush ∷ ss) k
      → k ≡ 0
      → All (λ s. s ≡ set_flush) ss
      → Inv len ecc (after_consume s set_flush ss k)
  consume-flush ss k h none hs = record {
    is_ring =
        omega (arith, v.is_ring.storage, v.is_ring.read_in, v.is_ring.write_in, v.is_ring.small);
    produces =
        Produces-shrinks len ecc r r.read (r.ecc_flush / 256 * 256) s.producing (omega arith)
          v.produces;
    consumes = (omega arith, inr (none, hs));
    fifo = fifo_at (Consuming.storing (set_flush ∷ ss) k) h;
  }

  -- The index: what was released leaves the ring.
  consume-move :
      (ss : List Store) (k : ℕ)
      → s.consuming ≡ Consuming.storing (set_read (ahead len r.read k) ∷ ss) k
      → k ≤ amount len r
      → All (λ s. s ≡ set_flush) ss
      → Inv len ecc (after_consume s (set_read (ahead len r.read k)) ss k)
  consume-move ss k h few hs = record {
    is_ring = record {
      storage = v.is_ring.storage;
      read_in = inside;
      write_in = v.is_ring.write_in;
      small = v.is_ring.small;
    };
    produces =
        Produces-shrinks len ecc r (ahead len r.read k) r.ecc_flush s.producing
          (omega (arith, left)) v.produces;
    consumes = (omega arith, inr (refl, hs));
    fifo =
        fifo_at (Consuming.storing (set_read (ahead len r.read k) ∷ ss) k) h
        ∙ ap (λ l. s.received ++ (l ++ unpublished s.producing))
            (drop-window len r.buf r.read k (amount len r) v.is_ring.read_in
                (omega (arith, in_buffer)) few
              ∙ ap (window len r.buf (ahead len r.read k)) (sym left));
  }
    where
      in_buffer : amount len r < len
      in_buffer =
          distance-lt len r.read r.write v.is_ring.read_in v.is_ring.write_in v.is_ring.small

      inside : ahead len r.read k < len
      inside = ground (arith, v.is_ring.read_in, in_buffer, few)

      left : distance len (ahead len r.read k) r.write ≡ amount len r - k
      left = ground (arith, v.is_ring.read_in, v.is_ring.write_in, in_buffer, few)

  pub consume-Inv :
      (st : Store) (ss : List Store) (k : ℕ)
      → s.consuming ≡ Consuming.storing (st ∷ ss) k
      → Inv len ecc (after_consume s st ss k)
  consume-Inv st ss k h =
      let c : Consumes len ecc r (Consuming.storing (st ∷ ss) k) =
        subst (Consumes len ecc r) h v.consumes in
      step c.0 c.1
    where
      after : List Store → Type 0
      after [] = Unit
      after (st ∷ ss) =
          s.consuming ≡ Consuming.storing (st ∷ ss) k → Inv len ecc (after_consume s st ss k)

      step :
          k ≤ amount len r → Releases len ecc r (st ∷ ss) k → Inv len ecc (after_consume s st ss k)
      step few (inl e) =
          subst after (sym e) (λ h. consume-move (flush_ecc ecc) k h few (flushes ecc)) h
      step few (inr (none, (e, hs))) =
          subst after (ap (λ st. st ∷ ss) (sym e)) (λ h. consume-flush ss k h none hs) h

  -- A `release` that returns has moved the index.
  pub end_release-Inv :
      (k : ℕ)
      → s.consuming ≡ Consuming.storing [] k
      → Inv len ecc (record s { consuming = Consuming.resting })
  end_release-Inv k h =
      let c : Consumes len ecc r (Consuming.storing [] k) =
        subst (Consumes len ecc r) h v.consumes in
      record {
        is_ring = v.is_ring;
        produces = v.produces;
        consumes = tt;
        fifo =
            fifo_at (Consuming.storing [] k) h
            ∙ ap (λ k. s.received ++ (drop k (held len r) ++ unpublished s.producing))
                (none_left c.1);
      }
    where
      none_left : Releases len ecc r [] k → k ≡ 0
      none_left (inl e) = ground arith
      none_left (inr (e, _)) = e
