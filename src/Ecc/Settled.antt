-- ===== src/Ecc/Settled.antt =====
-- The write cache of Ecc.antt behind a flush, and behind an index that is stored between two flushes.
use defmt_persist.Common.{
  ℕ, zero, suc, ◌≡◌, refl, sym, ap, ◌∙◌, ◌⊎◌, inl, inr, Bool, false, List, [], ◌∷◌, All, take,
  take_all, ◌==◌, Bool-cases, arith,
}
use defmt_persist.Ring.{RingBuffer, Store, set_flush, set_read, set_write, run, apply}
use defmt_persist.Layout.{Target}
use defmt_persist.Ecc.{Ram, visible, word, hits, at_once, store, feed}
use defmt_persist.Ecc.Cache.{
  IsWordSize, HasFlush, IsFlush, IsSettled, hits_settled, store_byte_lem, step-IsSettled,
  visible-step,
}

pub flushes_lem :
    (r : RingBuffer) (ss : List Store)
    → All IsFlush ss
    → (x : ℕ) × (run r ss ≡ record r { ecc_flush = x })
flushes_lem r [] h = (r.ecc_flush, refl)
flushes_lem r (s ∷ ss) (h, hs) =
    let (x, e) = flushes_lem (apply r s) ss hs in
    (x, e ∙ ap (λ t. record (apply r t) { ecc_flush = x }) h)

-- What a settled RAM has committed is what a load sees, but for the byte that flushes.
pub settled_lem :
    (m : Ram) → IsSettled m → (x : ℕ) × (m.committed ≡ record (visible m) { ecc_flush = x })
settled_lem m settled =
    let (y, e) = flushes_lem m.committed m.cached settled in
    (
      m.committed.ecc_flush,
      ap {A = RingBuffer} (λ r. record r { ecc_flush = m.committed.ecc_flush }) (sym e),
    )

-- A store that has nothing to do with the byte that flushes.
pub record IsIndex (target : Target) (word_size : ℕ) (immediate : Ram → Store → Bool) (s : Store)
    : Type 0 where
  pub flush_behind : (r : RingBuffer) → apply (apply r s) set_flush ≡ apply (apply r set_flush) s
  pub any_flush :
      (r : RingBuffer) (x : ℕ)
      → apply (record r { ecc_flush = x }) s ≡ record (apply r s) { ecc_flush = x }
  pub behind_flush :
      (word target word_size immediate set_flush == word target word_size immediate s) ≡ false
  pub before_flush :
      (word target word_size immediate s == word target word_size immediate set_flush) ≡ false

module _ (target : Target) (word_size : ℕ) (immediate : Ram → Store → Bool)
    (h : IsWordSize word_size) where
  pub set_write-IsIndex : (v : ℕ) → IsIndex target word_size immediate (set_write v)
  set_write-IsIndex v = record {
    flush_behind = λ r. refl;
    any_flush = λ r x. refl;
    behind_flush = elim h [ inl e ↦ rw e refl | inr e ↦ rw e refl ];
    before_flush = elim h [ inl e ↦ rw e refl | inr e ↦ rw e refl ];
  }

  pub set_read-IsIndex : (v : ℕ) → IsIndex target word_size immediate (set_read v)
  set_read-IsIndex v = record {
    flush_behind = λ r. refl;
    any_flush = λ r x. refl;
    behind_flush = elim h [ inl e ↦ rw e refl | inr e ↦ rw e refl ];
    before_flush = elim h [ inl e ↦ rw e refl | inr e ↦ rw e refl ];
  }

  module _ (room : HasFlush target) (m : Ram) (settled : IsSettled m) (s : Store)
      (index : IsIndex target word_size immediate s) where
    abbrev put : Ram → Store → Ram
    put = store target word_size immediate

    behind_flushes :
        (r : RingBuffer) (cs : List Store)
        → All IsFlush cs
        → run (apply r s) cs ≡ apply (run r cs) s
    behind_flushes r [] flushes = refl
    behind_flushes r (c ∷ cs) (e, flushes) =
        ap (λ r. run r cs)
          (ap (apply (apply r s)) e
            ∙ (index.flush_behind r ∙ ap (λ c. apply (apply r c) s) (sym e)))
        ∙ behind_flushes (apply r c) cs flushes

    no_hit : hits target word_size immediate m.cached s ≡ false
    no_hit = hits_settled target word_size immediate h room m.cached s settled index.behind_flush

    -- The index on its own: it is committed, or what was there before it is.
    record Stored (m' : Ram) : Type 0 where
      seen : visible m' ≡ apply (visible m) s
      flushed : IsSettled (put m' set_flush)
      left :
          ((x : ℕ) × (m'.committed ≡ record (visible m) { ecc_flush = x }))
          ⊎ ((x : ℕ) × (m'.committed ≡ record (apply (visible m) s) { ecc_flush = x }))

    store-Stored : Stored (put m s)
    unfolding store
    store-Stored = elim (Bool-cases (at_once target word_size immediate m s)) [
      | inl now ↦
          let (x, e) = settled_lem m settled in
          let m' : Ram = record m { committed = apply m.committed s } in
          rw (now, no_hit)
            (record {
              seen = behind_flushes m.committed m.cached settled;
              flushed = step-IsSettled target word_size immediate h room m' (inl settled);
              left = inr (x, ap (λ r. apply r s) e ∙ index.any_flush (visible m) x);
            })
      | inr later ↦
          let m' : Ram = record { committed = visible m; cached = s ∷ [] } in
          rw (later, no_hit)
            (record {
              seen = refl;
              flushed =
                  rw
                    (
                      store_byte_lem target word_size immediate h room m' set_flush refl,
                      index.before_flush,
                    )
                    (refl, tt);
              left = inl ((visible m).ecc_flush, refl);
            })
    ]

    -- The index with a flush behind it.
    pub index_flush :
        IsSettled (feed target word_size immediate m (s ∷ set_flush ∷ []))
        × (visible (feed target word_size immediate m (s ∷ set_flush ∷ []))
            ≡ run (visible m) (s ∷ set_flush ∷ []))
    unfolding feed
    index_flush = (
      store-Stored.flushed,
      visible-step target word_size immediate h room (put m s) set_flush refl
          ∙ ap (λ r. apply r set_flush) store-Stored.seen,
    )

    -- What a reset leaves of the two stores.
    pub index_cut :
        (k : ℕ)
        → (j x : ℕ) × ((feed target word_size immediate m (take k (s ∷ set_flush ∷ []))).committed
            ≡ record (run (visible m) (take j (s ∷ set_flush ∷ []))) { ecc_flush = x })
    unfolding feed
    index_cut zero = let (x, e) = settled_lem m settled in (0, x, e)
    index_cut (suc zero) = elim store-Stored.left [
      | inl (x, e) ↦ (0, x, e)
      | inr (x, e) ↦ (1, x, e)
    ]
    index_cut (suc (suc k)) =
        let m2 : Ram = put (put m s) set_flush in
        let (settled2, seen) = index_flush in
        let (x, e) = settled_lem m2 settled2 in
        (
          2,
          x,
          ap (λ ss. (feed target word_size immediate m2 ss).committed) (take_all k [] (omega arith))
              ∙ e
              ∙ ap {A = RingBuffer} (λ r. record r { ecc_flush = x }) seen,
        )
