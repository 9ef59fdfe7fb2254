-- ===== src/Concurrent/Produce.antt =====
-- The steps of `Producer::write` of src/ring_buffer.rs keep the invariant, whatever the consumer does.
use defmt_persist.Common.{
  ℕ, suc, zero, ◌+◌, ◌*◌, ◌/◌, ◌≤◌, ◌<◌, ◌≡◌, ap, refl, sym, ◌∙◌, subst, Bool, true, false, List,
  [], ◌∷◌, ◌++◌, append_assoc, append-nil, length, drop, All, set, length-set, arith,
}
use defmt_persist.Ring.{RingBuffer, Store, set_write, set_flush, set_byte, apply, flush_ecc}
use defmt_persist.Ring.Window.{
  next, ahead, distance, window, length-window, window-set_behind, window-set, window-append,
}
use defmt_persist.Ring.Bounds.{ahead-distance}
use defmt_persist.Ring.Copy.{ring_copy, next-ahead}
use defmt_persist.Ring.Write.{commit}
use defmt_persist.Concurrent.{Ends, Producing, Consuming, granted, after_produce}
use defmt_persist.Concurrent.Invariant.{
  unpublished, releasing, IsRing, amount, held, Left, copying, moving, over, Produces, Consumes,
  Inv,
}

drop-append_le :
    {A : Type 0} (k : ℕ) (xs ys : List A) → k ≤ length xs → drop k (xs ++ ys) ≡ drop k xs ++ ys
drop-append_le zero xs ys h = refl
drop-append_le (suc k) [] ys h = absurd (omega arith)
drop-append_le (suc k) (x ∷ xs) ys h = drop-append_le k xs ys (omega arith)

pub flushes : (ecc : Bool) → All (λ s. s ≡ set_flush) (flush_ecc ecc)
flushes true = (refl, tt)
flushes false = tt

module _ (len : ℕ) (ecc : Bool) where
  -- The consumer does not mind more data, nor stores behind the ring.
  Consumes-grows :
      (r : RingBuffer) (buf' : List ℕ) (write' flush' : ℕ) (c : Consuming)
      → amount len r ≤ distance len r.read write'
      → ((m : ℕ) → m ≤ amount len r → window len buf' r.read m ≡ window len r.buf r.read m)
      → Consumes len ecc r c
      → Consumes len ecc (record r { buf = buf'; write = write'; ecc_flush = flush' }) c
  Consumes-grows r buf' write' flush' Consuming.resting more same h = tt
  Consumes-grows r buf' write' flush' (granted w seen) more same (hw, inside, e) =
      (hw, omega arith, same (distance len r.read w) inside ∙ e)
  Consumes-grows r buf' write' flush' (Consuming.storing ss k) more same (hk, h) = (omega arith, h)

  releasing-le :
      (r : RingBuffer) (c : Consuming) → Consumes len ecc r c → releasing c ≤ amount len r
  releasing-le r Consuming.resting h = omega arith
  releasing-le r (granted w seen) h = omega arith
  releasing-le r (Consuming.storing ss k) h = h.0

  module _ (s : Ends) (acc : List ℕ) (i : IsRing len s.ring)
      (c : Consumes len ecc s.ring s.consuming) (room : amount len s.ring + length acc < len)
      (fifo : s.sent ≡ s.received ++ (drop (releasing s.consuming) (held len s.ring) ++ acc)) where
    abbrev r : RingBuffer
    r = s.ring

    produce-flush :
        (ss : List Store)
        → Left len ecc (apply r set_flush) ss acc
        → Inv len ecc (after_produce s set_flush ss acc)
    produce-flush ss left = record {
      is_ring = omega (arith, i.storage, i.read_in, i.write_in, i.small);
      produces = (room, left);
      consumes =
          Consumes-grows r r.buf r.write (r.ecc_flush / 256 * 256) s.consuming (omega arith)
            (λ m h. refl) c;
      fifo = fifo;
    }

    -- A byte behind the ring.
    produce-byte :
        (n b : ℕ) (bs : List ℕ)
        → n + suc (length bs) ≡ length acc
        → window len r.buf r.write n ++ b ∷ bs ≡ acc
        → Inv len ecc (
            after_produce s
              (set_byte (ahead len r.write n) b)
              (ring_copy len (next len (ahead len r.write n)) bs
                ++ commit ecc (ahead len r.write (length acc)))
              acc)
    produce-byte n b bs e w =
        let behind : ahead len r.write n ≡ ahead len r.read (amount len r + n) = place in
        let buf' = set r.buf (ahead len r.write n) b in
        let same : (m : ℕ)
            → m ≤ amount len r
            → window len buf' r.read m ≡ window len r.buf r.read m =
          λ m h.
            ap (λ j. window len (set r.buf j b) r.read m) behind
            ∙ window-set_behind len r.buf r.read m (amount len r + n) b i.read_in (omega arith)
                (omega arith) in
        let there = next-ahead len r.write n i.write_in (omega arith) in
        record {
          is_ring = omega (
            arith,
            i.storage,
            i.read_in,
            i.write_in,
            i.small,
            length-set r.buf (ahead len r.write n) b,
          );
          produces = (
            room,
            copying (suc n) bs
                (ap (λ j. ring_copy len j bs ++ commit ecc (ahead len r.write (length acc))) there)
                (omega arith)
                (ap (λ l. l ++ bs)
                    (window-set len r.buf r.write n b (omega (arith, i.storage)) i.write_in
                      (omega arith))
                  ∙ (append_assoc (window len r.buf r.write n) (b ∷ []) bs ∙ w)),
          );
          consumes = Consumes-grows r buf' r.write r.ecc_flush s.consuming (omega arith) same c;
          fifo =
              fifo
              ∙ ap (λ q. s.received ++ (drop (releasing s.consuming) q ++ acc))
                  (sym (same (amount len r) (omega arith)));
        }
      where
        place : ahead len r.write n ≡ ahead len r.read (amount len r + n)
        place = ground (arith, i.read_in, i.write_in, e, room)

    moved_amount : distance len r.read (ahead len r.write (length acc)) ≡ amount len r + length acc
    moved_amount = ground (arith, i.read_in, i.write_in, room)

    moved_in : ahead len r.write (length acc) < len
    moved_in = ground (arith, i.read_in, i.write_in, room)

    -- The index: the bytes that were copied become part of the ring.
    produce-move :
        window len r.buf r.write (length acc) ≡ acc
        → Inv len ecc
            (after_produce s (set_write (ahead len r.write (length acc))) (flush_ecc ecc) acc)
    produce-move w =
        let write' = ahead len r.write (length acc) in
        let k = releasing s.consuming in
        let q = held len r in
        let grown : window len r.buf r.read (distance len r.read write') ≡ q ++ acc =
          window-append len r.buf r.read (amount len r) (length acc) (distance len r.read write')
            i.read_in (omega arith) moved_amount
          ∙ ap (λ l. q ++ l)
              (ap (λ j. window len r.buf j (length acc))
                  (ahead-distance len r.read r.write i.read_in i.write_in i.small)
                ∙ w) in
        record {
          is_ring = record {
            storage = i.storage;
            read_in = i.read_in;
            write_in = moved_in;
            small = i.small;
          };
          produces = (omega (arith, moved_amount, room), over refl (flushes ecc));
          consumes =
              Consumes-grows r r.buf write' r.ecc_flush s.consuming (omega (arith, moved_amount))
                (λ m h. refl) c;
          fifo =
              fifo
              ∙ ap (λ l. s.received ++ l)
                  (sym (
                    append-nil (drop k (window len r.buf r.read (distance len r.read write')))
                    ∙ (ap (drop k) grown
                        ∙ drop-append_le k q acc (
                            omega (
                              arith,
                              releasing-le r s.consuming c,
                              length-window len r.buf r.read (amount len r),
                            )))));
        }

    -- What is left after the first store of a list.
    abbrev NextHolds : List Store → Type 0
    NextHolds [] = Unit
    NextHolds (st ∷ ss) = Inv len ecc (after_produce s st ss acc)

-- The copies are over: a flush, with the feature `ecc`, and then the index.
commit_holds :
    (len : ℕ) (ecc : Bool) (s : Ends) (acc : List ℕ) (i : IsRing len s.ring)
    (c : Consumes len ecc s.ring s.consuming) (room : amount len s.ring + length acc < len)
    (fifo : s.sent ≡ s.received ++ (drop (releasing s.consuming) (held len s.ring) ++ acc))
    → window len s.ring.buf s.ring.write (length acc) ≡ acc
    → NextHolds len ecc s acc i c room fifo (commit ecc (ahead len s.ring.write (length acc)))
commit_holds len true s acc i c room fifo w =
    produce-flush len true s acc i c room fifo
      (set_write (ahead len s.ring.write (length acc)) ∷ set_flush ∷ []) (moving refl w)
commit_holds len false s acc i c room fifo w = produce-move len false s acc i c room fifo w

left_holds :
    (len : ℕ) (ecc : Bool) (s : Ends) (acc : List ℕ) (i : IsRing len s.ring)
    (c : Consumes len ecc s.ring s.consuming) (room : amount len s.ring + length acc < len)
    (fifo : s.sent ≡ s.received ++ (drop (releasing s.consuming) (held len s.ring) ++ acc))
    (st : Store) (ss : List Store)
    → Left len ecc s.ring (st ∷ ss) acc
    → Inv len ecc (after_produce s st ss acc)
left_holds len ecc s acc i c room fifo st ss (copying n [] e l w) =
    subst (NextHolds len ecc s acc i c room fifo) (sym e) (
      commit_holds len ecc s acc i c room fifo (
        ap (window len s.ring.buf s.ring.write) (omega arith)
        ∙ (sym (append-nil (window len s.ring.buf s.ring.write n)) ∙ w)))
left_holds len ecc s acc i c room fifo st ss (copying n (b ∷ bs) e l w) =
    subst (NextHolds len ecc s acc i c room fifo) (sym e)
      (produce-byte len ecc s acc i c room fifo n b bs l w)
left_holds len ecc s acc i c room fifo st ss (moving e w) =
    subst (NextHolds len ecc s acc i c room fifo) (sym e)
      (produce-move len ecc s acc i c room fifo w)
left_holds len ecc s acc i c room fifo st ss (over a (h, hs)) =
    subst (λ st. Inv len ecc (after_produce s st ss acc)) (sym h)
      (produce-flush len ecc s acc i c room fifo ss (over a hs))

module _ (len : ℕ) (ecc : Bool) (s : Ends) (v : Inv len ecc s) where
  pub produce-Inv :
      (st : Store) (ss : List Store) (acc : List ℕ)
      → s.producing ≡ Producing.storing (st ∷ ss) acc
      → Inv len ecc (after_produce s st ss acc)
  produce-Inv st ss acc h =
      let p : Produces len ecc s.ring (Producing.storing (st ∷ ss) acc) =
        subst (Produces len ecc s.ring) h v.produces in
      left_holds len ecc s acc v.is_ring v.consumes p.0
        (v.fifo
          ∙ ap
              (λ q. s.received ++ (drop (releasing s.consuming) (held len s.ring) ++ unpublished q))
              h)
        st ss p.1
