-- ===== src/Ring/Client.antt =====
-- A client of src/ring_buffer.rs: a sequence of calls at the two ends, and what they show.
use defmt_persist.Common.{
  ℕ, ◌-◌, ◌≡◌, ◌↔◌, refl, ap, ap₂, ◌∙◌, List, [], ◌∷◌, ◌++◌, Bool, true, false, length,
}
use defmt_persist.Ring.{RingBuffer}
use defmt_persist.Ring.Producer.{write}
use defmt_persist.Ring.Consumer.{GrantR, is_empty, read, bufs, release}
use defmt_persist.Ring.Window.{contents}
use defmt_persist.Ring.Bounds.{IsValid}
use defmt_persist.Ring.Queue
use defmt_persist.Ring.Queue.{Queue, Call, put, poll, get, Reply, done, found_empty, offered}
use defmt_persist.Ring.Write.{write-IsValid, write_frame, contents-write}
use defmt_persist.Ring.Read.{bufs-read, is_empty_iff}
use defmt_persist.Ring.Release.{release_lem, release-IsValid, contents-release}

-- The bytes that a grant offers.
abbrev offer : GrantR → List ℕ
offer g = (bufs g).0 ++ (bufs g).1

pub calls : Bool → RingBuffer → List Call → List Reply
calls ecc r [] = []
calls ecc r (put bytes ∷ cs) = done ∷ calls ecc (write ecc r bytes) cs
calls ecc r (poll ∷ cs) = found_empty (is_empty r) ∷ calls ecc r cs
calls ecc r (get used ∷ cs) = offered (offer (read r)) ∷ calls ecc (release ecc r (read r) used) cs

length-write :
    (ecc : Bool) (r : RingBuffer) (bytes : List ℕ)
    → IsValid r
    → length (write ecc r bytes).buf ≡ length r.buf
length-write ecc r bytes v = (write_frame ecc r bytes v).2

length-release :
    (ecc : Bool) (r : RingBuffer) (used : ℕ)
    → IsValid r
    → length (release ecc r (read r) used).buf ≡ length r.buf
length-release true r used v = ap (λ s. length s.buf) (release_lem true r v used)
length-release false r used v = ap (λ s. length s.buf) (release_lem false r v used)

same_test : (b : Bool) (q : Queue) → (b ≡ true) ↔ (q ≡ []) → b ≡ Queue.is_empty q
same_test true [] h = refl
same_test true (x ∷ q) h = cc (h.0 refl)
same_test false [] h = h.1 refl
same_test false (x ∷ q) h = refl

is_empty-contents : (r : RingBuffer) → IsValid r → is_empty r ≡ Queue.is_empty (contents r)
is_empty-contents r v = same_test (is_empty r) (contents r) (is_empty_iff r v)

-- No sequence of writes, emptiness tests, grants and releases tells a valid ring from a queue of
-- at most one byte less than its buffer: all replies agree.
pub calls_refine :
    (ecc : Bool) (cs : List Call) (r : RingBuffer)
    → IsValid r
    → calls ecc r cs ≡ Queue.run (length r.buf - 1) (contents r) cs
unfolding calls Queue.run
calls_refine ecc [] r v = refl
calls_refine ecc (put bytes ∷ cs) r v =
    ap (λ t. done ∷ t)
      (calls_refine ecc cs (write ecc r bytes) (write-IsValid ecc r bytes v)
        ∙ ap₂ (λ len q. Queue.run (len - 1) q cs) (length-write ecc r bytes v)
            (contents-write ecc r bytes v))
calls_refine ecc (poll ∷ cs) r v =
    ap₂ (λ e t. found_empty e ∷ t) (is_empty-contents r v) (calls_refine ecc cs r v)
calls_refine ecc (get used ∷ cs) r v =
    ap₂ (λ o t. offered o ∷ t) (bufs-read r v)
      (calls_refine ecc cs (release ecc r (read r) used) (release-IsValid ecc r v used)
        ∙ ap₂ (λ len q. Queue.run (len - 1) q cs) (length-release ecc r used v)
            (contents-release ecc r v used))
