-- ===== src/Concurrent/Fifo.antt =====
-- Whatever the order in which the steps of the two ends of src/ring_buffer.rs fall: no byte is lost,
-- doubled or reordered, and no grant changes under its holder.
use defmt_persist.Common.{
  ℕ, ◌≡◌, sym, ap, ◌∙◌, Bool, List, [], ◌++◌, length, drop, append-nil, arith, subst,
}
use defmt_persist.Ring.{RingBuffer}
use defmt_persist.Ring.Window.{contents}
use defmt_persist.Ring.Bounds.{IsValid}
use defmt_persist.Concurrent.{
  Ends, Producing, Consuming, granted, offered, Step, call_write, start_write, produce, end_write,
  call_read, drop_grant, call_release, consume, end_release, Steps, stay, ◌⟶◌,
}
use defmt_persist.Concurrent.Invariant.{
  unpublished, releasing, Consumes, Inv, IsRing-IsValid, contents-held, offered_lem,
}
use defmt_persist.Concurrent.Produce.{produce-Inv}
use defmt_persist.Concurrent.Start.{start-Inv, call_write-Inv, end_write-Inv}
use defmt_persist.Concurrent.Consume.{
  call_read-Inv, drop_grant-Inv, call_release-Inv, consume-Inv, end_release-Inv,
}

-- Both ends idle on a ring.
abbrev pub begin : RingBuffer → Ends
begin r = record {
  ring = r;
  producing = Producing.resting;
  consuming = Consuming.resting;
  sent = contents r;
  received = [];
}

-- Where the bytes are that were taken: received, in the ring, or copied behind it.
abbrev pub on_the_way : Ends → List ℕ
on_the_way s = drop (releasing s.consuming) (contents s.ring) ++ unpublished s.producing

Step-Inv : (len : ℕ) (ecc : Bool) {s t : Ends} → Step ecc s t → Inv len ecc s → Inv len ecc t
Step-Inv len ecc (call_write bytes h) v = call_write-Inv len ecc _ v bytes h
Step-Inv len ecc (start_write ρ bytes h) v = start-Inv len ecc _ v ρ bytes h
Step-Inv len ecc (produce st ss acc h) v = produce-Inv len ecc _ v st ss acc h
Step-Inv len ecc (end_write acc h) v = end_write-Inv len ecc _ v acc h
Step-Inv len ecc (call_read h) v = call_read-Inv len ecc _ v h
Step-Inv len ecc (drop_grant w seen h) v = drop_grant-Inv len ecc _ v w seen h
Step-Inv len ecc (call_release w seen used h) v = call_release-Inv len ecc _ v w seen used h
Step-Inv len ecc (consume st ss k h) v = consume-Inv len ecc _ v st ss k h
Step-Inv len ecc (end_release k h) v = end_release-Inv len ecc _ v k h

Steps-Inv : (len : ℕ) (ecc : Bool) {s t : Ends} → Steps ecc s t → Inv len ecc s → Inv len ecc t
Steps-Inv len ecc stay v = v
Steps-Inv len ecc (p ⟶ ps) v = Steps-Inv len ecc ps (Step-Inv len ecc p v)

begin-Inv : (ecc : Bool) (r : RingBuffer) → IsValid r → Inv (length r.buf) ecc (begin r)
begin-Inv ecc r v = record {
  is_ring = omega (arith, v.read_in, v.write_in, v.small);
  produces = tt;
  consumes = tt;
  fifo = sym (append-nil (contents r));
}

-- However the steps of one producer and one consumer interleave, store by store, from a valid ring
-- on: the ring stays valid, and the bytes that the writes took are, in order and each once, those
-- that the consumer released, those in the ring that it is not about to release, and those that
-- are copied behind the ring and not published.
pub Steps-fifo :
    (ecc : Bool) (r : RingBuffer) (t : Ends)
    → IsValid r
    → Steps ecc (begin r) t
    → IsValid t.ring × (t.sent ≡ t.received ++ on_the_way t)
Steps-fifo ecc r t valid steps =
    let v : Inv (length r.buf) ecc t = Steps-Inv (length r.buf) ecc steps (begin-Inv ecc r valid) in
    (
      IsRing-IsValid (length r.buf) t.ring v.is_ring,
      v.fifo
          ∙ ap (λ l. t.received ++ (drop (releasing t.consuming) l ++ unpublished t.producing))
              (sym (contents-held (length r.buf) t.ring v.is_ring)),
    )

-- However the steps of one producer and one consumer interleave, store by store, from a valid ring
-- on: while the consumer holds a grant, the bytes in its slices are those that it saw when it got
-- it.
pub Steps-offered :
    (ecc : Bool) (r : RingBuffer) (t : Ends) (w : ℕ) (seen : List ℕ)
    → IsValid r
    → Steps ecc (begin r) t
    → t.consuming ≡ granted w seen
    → offered t.ring w ≡ seen
Steps-offered ecc r t w seen valid steps h =
    let v : Inv (length r.buf) ecc t = Steps-Inv (length r.buf) ecc steps (begin-Inv ecc r valid) in
    let c : Consumes (length r.buf) ecc t.ring (granted w seen) =
      subst (Consumes (length r.buf) ecc t.ring) h v.consumes in
    offered_lem (length r.buf) t.ring w v.is_ring c.0 ∙ c.2
