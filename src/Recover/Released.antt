-- ===== src/Recover/Released.antt =====
-- A reset in the middle of `GrantR::release` of src/ring_buffer.rs.
use defmt_persist.Common.{ℕ, ◌≡◌, ◌⊎◌, inl, inr, refl, Bool, true, false, List, ◌∷◌, take}
use defmt_persist.Ring.{RingBuffer, set_read, run, flush_ecc, magic}
use defmt_persist.Ring.Consumer.{read, release_stores}
use defmt_persist.Ring.Window.{contents}
use defmt_persist.Ring.Bounds.{IsValid}
use defmt_persist.Ring.Queue
use defmt_persist.Ring.Release.{release_stores_lem, moved, moved-IsValid, contents-moved}
use defmt_persist.Ring.Cut.{Throughout, Throughout-take}
use defmt_persist.Recover.{recover_or_reinitialize}
use defmt_persist.Recover.Survive.{Before-start, After, After-flush, Outcome, found-Outcome}

set_read-Outcome :
    (ecc : Bool) {r : RingBuffer} {q : List ℕ} (i : ℕ)
    → IsValid r
    → After r q (record r { read = i })
    → Throughout (Outcome r q) r (set_read i ∷ flush_ecc ecc)
set_read-Outcome true {r} i v a = (inl (Before-start r v), (inr a, inr (After-flush a)))
set_read-Outcome false {r} i v a = (inl (Before-start r v), inr a)

module _ (ecc : Bool) (r : RingBuffer) (v : IsValid r) (used : ℕ) where
  abbrev released : List ℕ
  released = Queue.release (contents r) used

  moved-After : After r released (moved ecc r v used)
  moved-After = record {
    header = refl;
    valid = moved-IsValid ecc r v used;
    held = contents-moved ecc r v used;
  }

  release-Outcome : Throughout (Outcome r released) r (release_stores ecc r (read r) used)
  release-Outcome = rw (release_stores_lem ecc r v used) (set_read-Outcome ecc _ v moved-After)

  -- A reset after any store of a release on a valid ring with the right header leaves memory from
  -- which the next start recovers the old contents, or those without all of the released bytes.
  pub release_cut :
      r.header ≡ magic ecc
      → (k : ℕ)
      → let found =
          contents
            (recover_or_reinitialize ecc (run r (take k (release_stores ecc r (read r) used)))) in
        (found ≡ contents r) ⊎ (found ≡ Queue.release (contents r) used)
  release_cut hm k =
      found-Outcome ecc r v released _ hm
        (Throughout-take (Outcome r released) k r _ release-Outcome)
