-- ===== src/Concurrent/Invariant.antt =====
-- The invariant of the two ends of src/ring_buffer.rs: where each stands in its call, and how the
-- bytes on their way lie in the buffer.
use defmt_persist.Common.{
  ℕ, ◌+◌, ◌/◌, ◌≤◌, ◌<◌, ◌≡◌, ◌⊎◌, ap, ◌∙◌, Bool, List, [], ◌∷◌, ◌++◌, length, drop, All, i32_max,
  arith,
}
use defmt_persist.Ring.{RingBuffer, Store, set_read, set_write, set_flush, flush_ecc}
use defmt_persist.Ring.Window.{ahead, distance, window, contents}
use defmt_persist.Ring.Bounds.{IsValid}
use defmt_persist.Ring.Read.{bufs-read}
use defmt_persist.Ring.Copy.{ring_copy}
use defmt_persist.Ring.Write.{commit}
use defmt_persist.Concurrent.{Ends, Producing, loaded, Consuming, granted, offered}

abbrev pub unpublished : Producing → List ℕ
unpublished Producing.resting = []
unpublished (loaded _ _) = []
unpublished (Producing.storing _ acc) = acc

abbrev pub releasing : Consuming → ℕ
releasing Consuming.resting = 0
releasing (granted _ _) = 0
releasing (Consuming.storing _ k) = k

module _ (len : ℕ) where
  -- The ring, in a buffer of `len` bytes.
  pub record IsRing (r : RingBuffer) : Type 0 where
    pub storage : length r.buf ≡ len
    pub read_in : r.read < len
    pub write_in : r.write < len
    pub small : len < i32_max / 4

  abbrev pub amount : RingBuffer → ℕ
  amount r = distance len r.read r.write

  abbrev pub held : RingBuffer → List ℕ
  held r = window len r.buf r.read (amount r)

  -- How far the stores of a `write` that takes `acc` have come.
  pub data Left (ecc : Bool) (r : RingBuffer) (ss : List Store) (acc : List ℕ) : Type 0 where
    copying :
        (n : ℕ) (bs : List ℕ)
        → ss ≡ ring_copy len (ahead len r.write n) bs ++ commit ecc (ahead len r.write (length acc))
        → n + length bs ≡ length acc
        → window len r.buf r.write n ++ bs ≡ acc
        → Left ecc r ss acc
    moving :
        ss ≡ set_write (ahead len r.write (length acc)) ∷ flush_ecc ecc
        → window len r.buf r.write (length acc) ≡ acc
        → Left ecc r ss acc
    over : acc ≡ [] → All (λ s. s ≡ set_flush) ss → Left ecc r ss acc

  abbrev pub Produces : Bool → RingBuffer → Producing → Type 0
  Produces ecc r Producing.resting = Unit
  Produces ecc r (loaded ρ bytes) = (ρ < len) × (amount r ≤ distance len ρ r.write)
  Produces ecc r (Producing.storing ss acc) = (amount r + length acc < len) × Left ecc r ss acc

  abbrev pub Releases : Bool → RingBuffer → List Store → ℕ → Type 0
  Releases ecc r ss k =
      (ss ≡ set_read (ahead len r.read k) ∷ flush_ecc ecc) ⊎ ((k ≡ 0) × All (λ s. s ≡ set_flush) ss)

  abbrev pub Consumes : Bool → RingBuffer → Consuming → Type 0
  Consumes ecc r Consuming.resting = Unit
  Consumes ecc r (granted w seen) =
      (w < len)
      × (distance len r.read w ≤ amount r)
      × (window len r.buf r.read (distance len r.read w) ≡ seen)
  Consumes ecc r (Consuming.storing ss k) = (k ≤ amount r) × Releases ecc r ss k

  pub record Inv (ecc : Bool) (s : Ends) : Type 0 where
    pub is_ring : IsRing s.ring
    pub produces : Produces ecc s.ring s.producing
    pub consumes : Consumes ecc s.ring s.consuming
    pub fifo :
        s.sent
        ≡ s.received ++ (drop (releasing s.consuming) (held s.ring) ++ unpublished s.producing)

  pub IsRing-IsValid : (r : RingBuffer) → IsRing r → IsValid r
  IsRing-IsValid r i = omega (arith, i.storage, i.read_in, i.write_in, i.small)

  pub contents-held : (r : RingBuffer) → IsRing r → contents r ≡ held r
  contents-held r i = ap (λ n. window n r.buf r.read (distance n r.read r.write)) i.storage

  -- What a grant offers lies from the read index up to the write index that it was got at.
  pub offered_lem :
      (r : RingBuffer) (w : ℕ)
      → IsRing r
      → w < len
      → offered r w ≡ window len r.buf r.read (distance len r.read w)
  offered_lem r w i hw =
      let r' : RingBuffer = record r { write = w } in
      let i' : IsRing r' = omega (arith, i.storage, i.read_in, i.small) in
      bufs-read r' (IsRing-IsValid r' i') ∙ contents-held r' i'
