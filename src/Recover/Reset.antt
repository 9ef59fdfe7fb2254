-- ===== src/Recover/Reset.antt =====
-- A reset in the middle of `recover_or_reinitialize` of src/ring_buffer.rs.
use defmt_persist.Common.{
  ℕ, ◌/◌, ◌<◌, ◌≡◌, refl, Bool, true, false, not, ◌||◌, List, [], ◌∷◌, ◌++◌, if◌then◌else◌, ltb,
  ◌==◌, length, take, i32_max, arith, inl, inr, Bool-cases, ap, ◌∙◌, sym,
}
use defmt_persist.Ring.{RingBuffer, Store, set_read, set_write, set_header, run, flush_ecc, magic}
use defmt_persist.Ring.Window.{contents, contents-empty, contents_of_fields}
use defmt_persist.Ring.Cut.{Throughout, Throughout-take}
use defmt_persist.Recover.{repair, recover_stores, recover_or_reinitialize}
use defmt_persist.Recover.Outcome.{is_intact, contents-recover}

-- The next start finds nothing in this memory.
abbrev is_blank : Bool → RingBuffer → Bool
is_blank ecc r = not (is_intact ecc r) || r.read == r.write

-- What the start that is cut off may have changed, where the memory is not intact.
record Blanked (ecc : Bool) (r s : RingBuffer) : Type 0 where
  blank : is_blank ecc s ≡ true
  bytes : s.buf ≡ r.buf

-- Nothing that counts has changed.
record Kept (r s : RingBuffer) : Type 0 where
  header : s.header ≡ r.header
  read : s.read ≡ r.read
  write : s.write ≡ r.write
  bytes : s.buf ≡ r.buf

-- The branches of `recover_or_reinitialize`.
module _ (ecc : Bool) (r : RingBuffer) (P : List Store → Type 0) where
  abbrev read_ok : Bool
  read_ok = ltb r.read (length r.buf)

  abbrev write_ok : Bool
  write_ok = ltb r.write (length r.buf)

  recover_cases :
      ((r.header == magic ecc) ≡ false
        → P (set_read 0 ∷ set_write 0 ∷ (flush_ecc ecc ++ set_header (magic ecc) ∷ [])))
      → ((r.header == magic ecc) ≡ true
          → (read_ok' write_ok' : Bool) → read_ok ≡ read_ok'
          → write_ok ≡ write_ok'
          → P (repair read_ok' write_ok' r.read r.write ++ flush_ecc ecc))
      → P (recover_stores ecc r)
  unfolding recover_stores
  recover_cases other magical = elim (Bool-cases (r.header == magic ecc)) [
    | inl good ↦ rw good (magical good read_ok write_ok refl refl)
    | inr bad ↦ rw bad (other bad)
  ]

module _ (r : RingBuffer) (h : 0 < length r.buf) (hs : length r.buf < i32_max / 4) where
  repair-Blanked :
      (ecc : Bool)
      → is_intact ecc r ≡ false
      → (r.header == magic ecc) ≡ true
      → (read_ok' write_ok' : Bool) → ltb r.read (length r.buf) ≡ read_ok'
      → ltb r.write (length r.buf) ≡ write_ok'
      → Throughout (Blanked ecc r) r (repair read_ok' write_ok' r.read r.write ++ flush_ecc ecc)
  unfolding repair
  repair-Blanked true e good true true p q = ground arith
  repair-Blanked true e good true false p q = ground arith
  repair-Blanked true e good false true p q = ground arith
  repair-Blanked true e good false false p q = ground arith
  repair-Blanked false e good true true p q = ground arith
  repair-Blanked false e good true false p q = ground arith
  repair-Blanked false e good false true p q = ground arith
  repair-Blanked false e good false false p q = ground arith

  stores-Blanked :
      (ecc : Bool) → is_intact ecc r ≡ false → Throughout (Blanked ecc r) r (recover_stores ecc r)
  stores-Blanked true e =
      recover_cases true r (Throughout (Blanked true r) r) (λ bad. ground arith)
        (repair-Blanked true e)
  stores-Blanked false e =
      recover_cases false r (Throughout (Blanked false r) r) (λ bad. ground arith)
        (repair-Blanked false e)

  repair-Kept :
      (ecc : Bool)
      → is_intact ecc r ≡ true
      → (read_ok' write_ok' : Bool) → ltb r.read (length r.buf) ≡ read_ok'
      → ltb r.write (length r.buf) ≡ write_ok'
      → Throughout (Kept r) r (repair read_ok' write_ok' r.read r.write ++ flush_ecc ecc)
  unfolding repair
  repair-Kept true e true true p q = ground arith
  repair-Kept true e true false p q = ground arith
  repair-Kept true e false write_ok' p q = ground arith
  repair-Kept false e true true p q = ground arith
  repair-Kept false e true false p q = ground arith
  repair-Kept false e false write_ok' p q = ground arith

  stores-Kept : (ecc : Bool) → is_intact ecc r ≡ true → Throughout (Kept r) r (recover_stores ecc r)
  stores-Kept ecc e =
      recover_cases ecc r (Throughout (Kept r) r) (λ bad. absurd (ground arith))
        (λ _. repair-Kept ecc e)

  recovered :
      (ecc : Bool) (s : RingBuffer)
      → length s.buf ≡ length r.buf
      → contents (recover_or_reinitialize ecc s) ≡ (if is_intact ecc s then contents s else [])
  recovered ecc s l = contents-recover ecc s (omega arith) (omega arith)

  Blanked-nothing :
      (ecc : Bool) (s : RingBuffer)
      → Blanked ecc r s
      → (if is_intact ecc s then contents s else []) ≡ []
  Blanked-nothing ecc s b = elim (Bool-cases (is_intact ecc s)) [
    | inl i ↦ rw i (contents-empty s (ground (arith, b.blank, i)))
    | inr i ↦ rw i
  ]

  contents-Blanked :
      (ecc : Bool) (s : RingBuffer)
      → is_intact ecc r ≡ false
      → Blanked ecc r s
      → contents (recover_or_reinitialize ecc s) ≡ contents (recover_or_reinitialize ecc r)
  contents-Blanked ecc s e b =
      recovered ecc s (ap length b.bytes)
      ∙ (Blanked-nothing ecc s b
          ∙ sym (recovered ecc r refl ∙ ap (λ c. if c then contents r else []) e))

  Kept-intact :
      (ecc : Bool) (s : RingBuffer) → is_intact ecc r ≡ true → Kept r s → is_intact ecc s ≡ true
  Kept-intact ecc s e k = rw (k.header, k.read, k.write, k.bytes) e

  contents-Kept :
      (ecc : Bool) (s : RingBuffer)
      → is_intact ecc r ≡ true
      → Kept r s
      → contents (recover_or_reinitialize ecc s) ≡ contents (recover_or_reinitialize ecc r)
  contents-Kept ecc s e k =
      recovered ecc s (ap length k.bytes)
      ∙ (ap (λ c. if c then contents s else []) (Kept-intact ecc s e k)
          ∙ (contents_of_fields s r (k.read, k.write, k.bytes)
              ∙ sym (recovered ecc r refl ∙ ap (λ c. if c then contents r else []) e)))

  -- A start that a reset cuts off after any of its stores leaves memory from which the next start
  -- recovers the same bytes, for a buffer that is not empty and below the limit.
  pub recover_cut :
      (ecc : Bool) (k : ℕ)
      → contents (recover_or_reinitialize ecc (run r (take k (recover_stores ecc r))))
        ≡ contents (recover_or_reinitialize ecc r)
  recover_cut ecc k = elim (Bool-cases (is_intact ecc r)) [
    | inl e ↦ contents-Kept ecc _ e (Throughout-take (Kept r) k r _ (stores-Kept ecc e))
    | inr e ↦
        contents-Blanked ecc _ e (Throughout-take (Blanked ecc r) k r _ (stores-Blanked ecc e))
  ]
