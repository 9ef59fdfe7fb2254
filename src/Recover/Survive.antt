-- ===== src/Recover/Survive.antt =====
-- A reset in the middle of `Producer::write` or `GrantR::release` of src/ring_buffer.rs: what the
-- next start recovers.
use defmt_persist.Common.{
  ℕ, suc, ◌+◌, ◌-◌, ◌≤◌, ◌<◌, ◌≡◌, ◌⊎◌, inl, inr, refl, subst, Bool, true, false, List, [], ◌∷◌,
  ◌++◌, if◌then◌else◌, ◌==◌, length, length-set, length-take, take, arith, ap, ◌∙◌, sym, Bool-cases,
}
use defmt_persist.Ring.{RingBuffer, set_byte, set_flush, run, apply, magic}
use defmt_persist.Ring.Producer.{write_stores}
use defmt_persist.Ring.Window.{ahead, distance, size, window, contents, window-set_behind}
use defmt_persist.Ring.Bounds.{IsValid, ahead-distance}
use defmt_persist.Ring.Queue
use defmt_persist.Ring.Copy.{ring_copy, run-ring_copy, next-ahead}
use defmt_persist.Ring.Write.{
  accepted, copied, commit, write_stores_lem, copied_ring, moved-lt, contents-moved,
  length-copied_ring, taken_lem, n-lt,
}
use defmt_persist.Ring.Cut.{
  Throughout, Throughout-take, Throughout-end, Throughout-append, Throughout-map,
}
use defmt_persist.Recover.{recover_or_reinitialize}
use defmt_persist.Recover.Outcome.{is_intact, contents-recover}

-- The state is as before the call, up to bytes that the ring does not hold.
pub record Before (r s : RingBuffer) : Type 0 where
  pub header : s.header ≡ r.header
  pub read : s.read ≡ r.read
  pub write : s.write ≡ r.write
  pub room : length s.buf ≡ length r.buf
  pub held : window (length r.buf) s.buf r.read (size r) ≡ contents r

-- The call has taken effect: the ring holds `q`.
pub record After (r : RingBuffer) (q : List ℕ) (s : RingBuffer) : Type 0 where
  pub header : s.header ≡ r.header
  pub valid : IsValid s
  pub held : contents s ≡ q

abbrev pub Outcome : RingBuffer → List ℕ → RingBuffer → Type 0
Outcome r q s = Before r s ⊎ After r q s

Before-set_byte :
    (r s : RingBuffer) (m x : ℕ)
    → IsValid r
    → size r ≤ m
    → m < length r.buf
    → Before r s
    → Before r (apply s (set_byte (ahead (length r.buf) r.read m) x))
Before-set_byte r s m x v hm hb b = record {
  header = b.header;
  read = b.read;
  write = b.write;
  room = length-set s.buf (ahead (length r.buf) r.read m) x ∙ b.room;
  held = window-set_behind (length r.buf) s.buf r.read (size r) m x v.read_in hm hb ∙ b.held;
}

pub Before-flush : {r s : RingBuffer} → Before r s → Before r (apply s set_flush)
Before-flush b = record {
  header = b.header;
  read = b.read;
  write = b.write;
  room = b.room;
  held = b.held;
}

pub After-flush : {r s : RingBuffer} {q : List ℕ} → After r q s → After r q (apply s set_flush)
After-flush a = record { header = a.header; valid = omega (arith, a.valid); held = a.held }

module _ (r : RingBuffer) (v : IsValid r) where
  -- Copying behind what the ring holds changes nothing that counts.
  ring_copy-Before :
      (m : ℕ) (bs : List ℕ) (s : RingBuffer)
      → size r ≤ m
      → m + length bs ≤ length r.buf
      → Before r s
      → Throughout (Before r) s (ring_copy (length r.buf) (ahead (length r.buf) r.read m) bs)
  ring_copy-Before m [] s hm hb b = b
  ring_copy-Before m (x ∷ bs) s hm hb b =
      let s' = apply s (set_byte (ahead (length r.buf) r.read m) x) in
      (
        b,
        subst (λ j. Throughout (Before r) s' (ring_copy (length r.buf) j bs))
            (sym (next-ahead (length r.buf) r.read m v.read_in (omega arith)))
            (ring_copy-Before (suc m) bs s' (omega arith) (omega arith)
              (Before-set_byte r s m x v hm (omega arith) b)),
      )

  pub Before-start : Before r r
  Before-start = record { header = refl; read = refl; write = refl; room = refl; held = refl }

  Before-IsValid : {s : RingBuffer} → Before r s → IsValid s × (contents s ≡ contents r)
  Before-IsValid {s} b = (
    ground (arith, v.read_in, v.write_in, v.small, b.read, b.write, b.room),
    (λ i. window (b.room i) s.buf (b.read i) (distance (b.room i) (b.read i) (b.write i))) ∙ b.held,
  )

commit-Outcome :
    (ecc : Bool) {r s : RingBuffer} {q : List ℕ} (w : ℕ)
    → Before r s
    → After r q (record s { write = w })
    → Throughout (Outcome r q) s (commit ecc w)
commit-Outcome true w b a =
    (inl b, (inl (Before-flush b), (inr (After-flush a), inr (After-flush (After-flush a)))))
commit-Outcome false w b a = (inl b, inr a)

pub recover-valid :
    (ecc : Bool) (s : RingBuffer)
    → IsValid s
    → s.header ≡ magic ecc
    → contents (recover_or_reinitialize ecc s) ≡ contents s
recover-valid ecc s v hm =
    contents-recover ecc s (omega (arith, v.read_in)) v.small
    ∙ ap (λ c. if c then contents s else []) intact
  where
    intact : is_intact ecc s ≡ true
    intact = ground (arith, v.read_in, v.write_in, hm)

pub found-Outcome :
    (ecc : Bool) (r : RingBuffer)
    → IsValid r
    → (q : List ℕ) (s : RingBuffer) → r.header ≡ magic ecc
    → Outcome r q s
    → let found = contents (recover_or_reinitialize ecc s) in (found ≡ contents r) ⊎ (found ≡ q)
found-Outcome ecc r v q s hm (inl b) =
    let (valid, same) = Before-IsValid r v b in
    inl (recover-valid ecc s valid (b.header ∙ hm) ∙ same)
found-Outcome ecc r v q s hm (inr a) = inr (recover-valid ecc s a.valid (a.header ∙ hm) ∙ a.held)

module _ (ecc : Bool) (r : RingBuffer) (bytes : List ℕ) (v : IsValid r) where
  abbrev written : List ℕ
  written = Queue.write (length r.buf - 1) (contents r) bytes

  abbrev moved : ℕ
  moved = ahead (length r.buf) r.write (accepted r bytes)

  copied-Before : Throughout (Before r) r (copied r bytes)
  copied-Before =
      subst
        (λ j. Throughout (Before r) r (ring_copy (length r.buf) j (take (accepted r bytes) bytes)))
        (ahead-distance (length r.buf) r.read r.write v.read_in v.write_in v.small)
        (ring_copy-Before r v (size r) (take (accepted r bytes) bytes) r (omega arith)
          (omega (arith, length-take (accepted r bytes) bytes, n-lt ecc r bytes v, v.read_in))
          (Before-start r v))

  copied_ring-Before : Before r (copied_ring ecc r bytes v)
  copied_ring-Before =
      subst (Before r) (run-ring_copy (length r.buf) r r.write (take (accepted r bytes) bytes))
        (Throughout-end (Before r) r (copied r bytes) copied-Before)

  written-After : After r written (record (copied_ring ecc r bytes v) { write = moved })
  written-After = record {
    header = refl;
    valid =
        omega (arith, length-copied_ring ecc r bytes v, moved-lt ecc r bytes v, v.read_in, v.small);
    held = contents-moved ecc r bytes v ∙ ap (λ t. contents r ++ t) (taken_lem ecc r bytes v);
  }

  write-Outcome : Throughout (Outcome r written) r (write_stores ecc r bytes)
  write-Outcome = elim (Bool-cases (accepted r bytes == 0)) [
    | inl none_taken ↦ rw (write_stores_lem ecc r bytes v, none_taken) (inl (Before-start r v))
    | inr some_taken ↦
        rw (write_stores_lem ecc r bytes v, some_taken)
          (Throughout-append (Outcome r written) r (copied r bytes) (commit ecc moved)
            (Throughout-map (Before r) (Outcome r written) (λ _ b. inl b) r (copied r bytes)
              copied-Before)
            (subst (λ s. Throughout (Outcome r written) s (commit ecc moved))
              (sym (run-ring_copy (length r.buf) r r.write (take (accepted r bytes) bytes)))
              (commit-Outcome ecc moved copied_ring-Before written-After)))
  ]

  -- A reset after any store of a write to a valid ring with the right header leaves memory from
  -- which the next start recovers the old contents, or those with the whole of what the write
  -- takes.
  pub write_cut :
      r.header ≡ magic ecc
      → (k : ℕ)
      → let found =
          contents (recover_or_reinitialize ecc (run r (take k (write_stores ecc r bytes)))) in
        (found ≡ contents r) ⊎ (found ≡ Queue.write (length r.buf - 1) (contents r) bytes)
  write_cut hm k =
      found-Outcome ecc r v written _ hm (Throughout-take (Outcome r written) k r _ write-Outcome)
