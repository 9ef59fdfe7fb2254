-- ===== src/Concurrent/Start.antt =====
-- The calls of `Producer::write` of src/ring_buffer.rs, their loads and their returns keep the
-- invariant, whatever the consumer does.
use defmt_persist.Common.{
  ℕ, ◌+◌, ◌≤◌, ◌<◌, ◌≡◌, ◌≢◌, ap, refl, sym, ◌∙◌, subst, Bool, true, false, List, [], ◌∷◌, ◌++◌,
  append_assoc, append-nil, length, length-take, drop, take, min, arith, inl, inr, Bool-cases, ◌==◌,
  ==→eq, if◌then◌else◌,
}
use defmt_persist.Ring.{RingBuffer, Store}
use defmt_persist.Ring.Producer.{write_stores}
use defmt_persist.Ring.Window.{ahead, distance}
use defmt_persist.Ring.Bounds.{IsValid, available_lem, distance-lt}
use defmt_persist.Ring.Copy.{ring_copy}
use defmt_persist.Ring.Write.{commit, accepted, write_stores_lem}
use defmt_persist.Concurrent.{Ends, Producing, loaded, fitting, after_start}
use defmt_persist.Concurrent.Invariant.{
  unpublished, releasing, amount, held, Left, copying, moving, over, Produces, Inv,
}

commit_left : (xs : List Store) (ecc : Bool) (w : ℕ) → [] ≢ xs ++ commit ecc w
commit_left [] true w e = ground arith
commit_left [] false w e = ground arith
commit_left (x ∷ xs) ecc w e = ground arith

module _ (len : ℕ) (ecc : Bool) (s : Ends) (v : Inv len ecc s) where
  -- The stores of a write whose load of `read` may be out of date.
  start-Left :
      (ρ : ℕ) (bytes : List ℕ)
      → ρ < len
      → amount len s.ring ≤ distance len ρ s.ring.write
      → (amount len s.ring + length (fitting s.ring ρ bytes) < len)
        × Left len ecc s.ring
            (write_stores ecc (record s.ring { read = ρ }) bytes)
            (fitting s.ring ρ bytes)
  start-Left ρ bytes hρ old =
      subst (λ acc. (amount len s.ring + length acc < len) × Left len ecc s.ring ss acc) (sym fit)
        (
          omega (arith, few, size_taken),
          elim (Bool-cases (n == 0)) [
            | inl none_taken ↦
                subst (λ ss. Left len ecc s.ring ss taken)
                  (sym (write_stores_lem ecc r₀ bytes valid ∙ ap choose none_taken))
                  (over (ap (λ k. take k bytes) (==→eq n 0 none_taken)) tt)
            | inr some_taken ↦
                copying 0 taken
                  (write_stores_lem ecc r₀ bytes valid ∙ (ap choose some_taken ∙ in_place))
                  (omega arith) refl
          ],
        )
    where
      r₀ : RingBuffer
      r₀ = record s.ring { read = ρ }

      ss : List Store
      ss = write_stores ecc r₀ bytes

      n : ℕ
      n = accepted r₀ bytes

      taken : List ℕ
      taken = take n bytes

      valid : IsValid r₀
      valid = omega (arith, v.is_ring.storage, v.is_ring.write_in, v.is_ring.small, hρ)

      fit : fitting s.ring ρ bytes ≡ taken
      fit =
          ap (λ room. take (min (length bytes) room) bytes)
            (available_lem (length s.ring.buf) ρ s.ring.write valid.read_in valid.write_in
              valid.small)

      size_taken : length taken ≡ n
      size_taken = omega (arith, length-take n bytes)

      few : amount len s.ring + n < len
      few = omega (
        arith,
        ap (λ l. distance l ρ s.ring.write) v.is_ring.storage,
        v.is_ring.storage,
        old,
        distance-lt len ρ s.ring.write hρ v.is_ring.write_in v.is_ring.small,
      )

      here : s.ring.write ≡ ahead len s.ring.write 0
      here = ground (arith, v.is_ring.write_in)

      -- The stores, by whether a byte is taken.
      choose : Bool → List Store
      choose b =
          if b
          then []
          else ring_copy (length s.ring.buf) s.ring.write taken
            ++ commit ecc (ahead (length s.ring.buf) s.ring.write n)

      in_place :
          ring_copy (length s.ring.buf) s.ring.write taken
            ++ commit ecc (ahead (length s.ring.buf) s.ring.write n)
          ≡ ring_copy len (ahead len s.ring.write 0) taken
            ++ commit ecc (ahead len s.ring.write (length taken))
      in_place =
          ap (λ l. ring_copy l s.ring.write taken ++ commit ecc (ahead l s.ring.write n))
            v.is_ring.storage
          ∙ (ap (λ j. ring_copy len j taken ++ commit ecc (ahead len s.ring.write n)) here
              ∙ ap
                  (λ k.
                    ring_copy len (ahead len s.ring.write 0) taken
                    ++ commit ecc (ahead len s.ring.write k))
                  (sym size_taken))

  pub start-Inv :
      (ρ : ℕ) (bytes : List ℕ)
      → s.producing ≡ loaded ρ bytes
      → Inv len ecc (after_start ecc s ρ bytes)
  start-Inv ρ bytes h =
      let p : Produces len ecc s.ring (loaded ρ bytes) =
        subst (Produces len ecc s.ring) h v.produces in
      let q = drop (releasing s.consuming) (held len s.ring) in
      let acc = fitting s.ring ρ bytes in
      record {
        is_ring = v.is_ring;
        produces = start-Left ρ bytes p.0 p.1;
        consumes = v.consumes;
        fifo =
            ap (λ l. l ++ acc)
              (v.fifo
                ∙ (ap (λ p. s.received ++ (q ++ unpublished p)) h
                    ∙ ap (λ l. s.received ++ l) (append-nil q)))
            ∙ append_assoc s.received q acc;
      }

  pub call_write-Inv :
      (bytes : List ℕ)
      → s.producing ≡ Producing.resting
      → Inv len ecc (record s { producing = loaded s.ring.read bytes })
  call_write-Inv bytes h = record {
    is_ring = v.is_ring;
    produces = (v.is_ring.read_in, omega arith);
    consumes = v.consumes;
    fifo =
        v.fifo
        ∙ ap (λ p. s.received ++ (drop (releasing s.consuming) (held len s.ring) ++ unpublished p))
            h;
  }

  -- A `write` that returns has published all that it took.
  pub end_write-Inv :
      (acc : List ℕ)
      → s.producing ≡ Producing.storing [] acc
      → Inv len ecc (record s { producing = Producing.resting })
  end_write-Inv acc h =
      let p : Produces len ecc s.ring (Producing.storing [] acc) =
        subst (Produces len ecc s.ring) h v.produces in
      let none_left : acc ≡ [] = nothing_left p.1 in
      record {
        is_ring = v.is_ring;
        produces = tt;
        consumes = v.consumes;
        fifo =
            v.fifo
            ∙ ap (λ l. s.received ++ (drop (releasing s.consuming) (held len s.ring) ++ l))
                (ap unpublished h ∙ none_left);
      }
    where
      nothing_left : {acc : List ℕ} → Left len ecc s.ring [] acc → acc ≡ []
      nothing_left (copying n bs e l w) =
          absurd (commit_left (ring_copy len (ahead len s.ring.write n) bs) ecc _ e)
      nothing_left (moving e w) = ground arith
      nothing_left (over a hs) = a
