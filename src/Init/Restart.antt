-- ===== src/Init/Restart.antt =====
-- `init` of src/lib.rs on the memory that an earlier run has left.
use defmt_persist.Common.{
  ℕ, ◌+◌, ◌-◌, ◌^◌, ◌<◌, ◌≡◌, ◌≢◌, refl, sym, ap, subst, ◌∙◌, Bool, true, false, List, [], ◌∷◌,
  some, none, if◌then◌else◌, length, arith,
}
use defmt_persist.Ring.{RingBuffer, magic}
use defmt_persist.Ring.Producer
use defmt_persist.Ring.Window.{contents, contents_of_fields}
use defmt_persist.Ring.Bounds.{IsValid}
use defmt_persist.Ring.Write.{write-IsValid, write_frame}
use defmt_persist.Recover.Outcome.{is_intact}
use defmt_persist.Layout.{Target, view}
use defmt_persist.Layout.Dump.{region_bytes, view-region_bytes, length-region_bytes}
use defmt_persist.Logger.{Features, Platform, World}
use defmt_persist.Logger.Reentrant.{run}
use defmt_persist.Logger.Emitted.{
  ring_after, queue_after, ring_after_lem, frame_chunks, frame_events,
}
use defmt_persist.Logger.Frame.{frame-Logged}
use defmt_persist.Init.{ok, Statics, init}
use defmt_persist.Init.Outcome.{Fits, init_lem}

magic_small : (ecc : Bool) → magic ecc < 2 ^ 128
magic_small true = omega arith
magic_small false = omega arith

pub ring_after_frame :
    (ecc : Bool) (r : RingBuffer) (chunks : List (List ℕ))
    → IsValid r
    → ((ring_after ecc r chunks).header ≡ r.header)
      × (length (ring_after ecc r chunks).buf ≡ length r.buf)
ring_after_frame ecc r [] v = (refl, refl)
ring_after_frame ecc r (chunk ∷ chunks) v =
    let (h, l) =
      ring_after_frame ecc (Producer.write ecc r chunk) chunks (write-IsValid ecc r chunk v) in
    let (h', _, l') = write_frame ecc r chunk v in (h ∙ h', l ∙ l')

module _ (p : Platform) (features : Features) (target : Target) where
  module _ (rest : List ℕ) (start end : ℕ) (size : 24 + length rest ≡ target.size_of)
      (f : Fits target start end) where
    -- A first init on the bytes of a valid ring with the right header, in a region that it
    -- accepts, succeeds, and hands out a ring with the same contents, which it counts as
    -- recovered, to an initialised logger.
    pub init-region_bytes :
        (s : Statics p) (r : RingBuffer)
        → s.called ≡ false
        → IsValid r
        → r.header ≡ magic features.ecc
        → length r.buf ≡ end - start - target.size_of
        → let (s', result) = init p features target s start end (region_bytes rest r) in
          (result ≡ ok (record { recovered_logs_len = length (contents r) }))
          × (contents s'.world.ring ≡ contents r)
          × (s'.world.initialized ≡ true)
    init-region_bytes s r first v hm l =
        let memory : List ℕ = region_bytes rest r in
        let m = magic_small features.ecc in
        let (h, rd, wr, b) =
          view-region_bytes target rest r size (omega (arith, hm, m))
            (omega (arith, v.read_in, v.small)) (omega (arith, v.write_in, v.small)) in
        let intact : is_intact features.ecc (view target memory) ≡ true =
          ground (arith, h, rd, wr, ap length b, hm, v.read_in, v.write_in) in
        let (done, valid, c) =
          init_lem p features target s start end memory first f
            (omega (arith, length-region_bytes rest r, f.large)) in
        let kept =
          c
          ∙ (ap (λ i. if i then contents (view target memory) else []) intact
              ∙ contents_of_fields (view target memory) r (rd, wr, b)) in
        (
          ap (λ o. o.1) done ∙ ap (λ q. ok (record { recovered_logs_len = length q })) kept,
          ap (λ o. contents o.0.world.ring) done ∙ kept,
          ap (λ o. o.0.world.initialized) done,
        )

    -- A run that logs a frame at depth 0 to a valid ring with the right header, and after that a
    -- reset and the first init of the next run on the bytes of the region: init succeeds, where it
    -- accepts the region, and its ring holds and counts the old contents with what fits of each
    -- chunk of the frame, in order, where RTT writes end and cs_release undoes cs_acquire.
    pub frame-init :
        ((s : p.Rtt) (bytes : List ℕ) → p.rtt_write s bytes ≢ none)
        → (bs : List (List ℕ)) (w : World p) (s : Statics p) → w.depth ≡ 0
        → w.initialized ≡ true
        → IsValid w.ring
        → w.ring.header ≡ magic features.ecc
        → length w.ring.buf ≡ end - start - target.size_of
        → p.cs_release (p.cs_acquire w.cpu).0 (p.cs_acquire w.cpu).1 ≡ w.cpu
        → s.called ≡ false
        → let logged =
            queue_after (length w.ring.buf - 1) (contents w.ring) (frame_chunks p w.encoder bs) in
          (w' : World p) × (run features p w (frame_events bs) ≡ some w')
          × (let (s', result) = init p features target s start end (region_bytes rest w'.ring) in
              (result ≡ ok (record { recovered_logs_len = length logged }))
              × (contents s'.world.ring ≡ logged))
    frame-init ends bs w s idle on v hm l law first =
        let (w', done, _, _, _, r, _, _, _) = frame-Logged features p ends bs w idle law in
        let chunks = frame_chunks p w.encoder bs in
        let after : RingBuffer = ring_after features.ecc w.ring chunks in
        let same : w'.ring ≡ after = r ∙ ap (λ b. if b then after else w.ring) on in
        let (v', c) = ring_after_lem features.ecc w.ring chunks v in
        let (h, len) = ring_after_frame features.ecc w.ring chunks v in
        let (result, kept, _) =
          init-region_bytes s w'.ring first (subst IsValid (sym same) v')
            (ap (λ r. r.header) same ∙ (h ∙ hm)) (ap (λ r. length r.buf) same ∙ (len ∙ l)) in
        let held = ap contents same ∙ c in
        (
          w',
          done,
          (result ∙ ap (λ q. ok (record { recovered_logs_len = length q })) held, kept ∙ held),
        )
