-- ===== src/Ecc/Cache.antt =====
-- What the write cache of Ecc.antt keeps and commits of stores of single bytes.
use defmt_persist.Common.{
  ℕ, ◌+◌, ◌≤◌, ◌≡◌, refl, sym, ap, subst, ◌∙◌, Bool, false, List, [], ◌∷◌, ◌++◌, append_assoc, All,
  ◌⊎◌, length, take, take-suc, ◌==◌, leb, Bool-cases, if◌then◌else◌, inl, inr, arith,
}
use defmt_persist.Ring.{Store, set_flush, set_byte, apply, run, run-append}
use defmt_persist.Layout.{Target, offset_ecc_flush}
use defmt_persist.Ecc.{Ram, visible, word, hits, size, store, feed}

pub take-length_append :
    {A : Type 0} (xs ys : List A) (j : ℕ) → take (length xs + j) (xs ++ ys) ≡ xs ++ take j ys
take-length_append [] ys j = ap (λ n. take n ys) (omega arith)
take-length_append (x ∷ xs) ys j =
    take-suc x (xs ++ ys) (omega arith) ∙ ap (λ l. x ∷ l) (take-length_append xs ys j)

-- A word of the RAM holds 32 or 64 bits.
abbrev pub IsWordSize : ℕ → Type 0
IsWordSize word_size = (word_size ≡ 4) ⊎ (word_size ≡ 8)

-- The structure has room for the field that is stored to for a flush.
abbrev pub HasFlush : Target → Type 0
HasFlush target = offset_ecc_flush + 8 ≤ target.size_of

abbrev pub IsFlush : Store → Type 0
IsFlush s = s ≡ set_flush

abbrev pub IsByte : Store → Type 0
IsByte s = (i : ℕ) × (b : ℕ) × (s ≡ set_byte i b)

-- Only the byte that flushes is still in the cache.
abbrev pub IsSettled : Ram → Type 0
IsSettled m = All IsFlush m.cached

pub All-snoc :
    (P : Store → Type 0) (ss : List Store) (s : Store) → All P ss → P s → All P (ss ++ s ∷ [])
All-snoc P [] s h p = (p, tt)
All-snoc P (x ∷ xs) s (h, hs) p = (h, All-snoc P xs s hs p)

module _ (target : Target) (word_size : ℕ) (immediate : Ram → Store → Bool)
    (h : IsWordSize word_size) (room : HasFlush target) where
  abbrev put : Ram → Store → Ram
  put = store target word_size immediate

  abbrev cached_put : Ram → Store → Ram
  cached_put m s =
      if hits target word_size immediate m.cached s
      then record m { cached = m.cached ++ s ∷ [] }
      else record { committed = visible m; cached = s ∷ [] }

  not_filled : (s : Store) → size s ≡ 1 → leb word_size (size s) ≡ false
  not_filled s one = elim h [ inl e ↦ rw (one, e) refl | inr e ↦ rw (one, e) refl ]

  -- A store of a byte goes to the cache.
  pub store_byte_lem : (m : Ram) (s : Store) → size s ≡ 1 → put m s ≡ cached_put m s
  unfolding store
  store_byte_lem m s one = rw (not_filled s one) refl

  pub byte_flush_differ :
      (i b : ℕ)
      → (word target word_size immediate (set_byte i b)
          == word target word_size immediate set_flush)
        ≡ false
  byte_flush_differ i b = elim h [ inl e ↦ rw e (ground arith) | inr e ↦ rw e (ground arith) ]

  pub flush_byte_differ :
      (i b : ℕ)
      → (word target word_size immediate set_flush
          == word target word_size immediate (set_byte i b))
        ≡ false
  flush_byte_differ i b = elim h [ inl e ↦ rw e (ground arith) | inr e ↦ rw e (ground arith) ]

  pub hits_settled :
      (cs : List Store) (s : Store)
      → All IsFlush cs
      → (word target word_size immediate set_flush == word target word_size immediate s) ≡ false
      → hits target word_size immediate cs s ≡ false
  hits_settled [] s flushes differ = refl
  hits_settled (c ∷ cs) s (e, _) differ =
      ap (λ c. word target word_size immediate c == word target word_size immediate s) e ∙ differ

  hits_bytes :
      (cs : List Store) → All IsByte cs → hits target word_size immediate cs set_flush ≡ false
  hits_bytes [] bytes = refl
  hits_bytes (c ∷ cs) ((i, b, e), _) =
      ap (λ c. word target word_size immediate c == word target word_size immediate set_flush) e
      ∙ byte_flush_differ i b

  -- What the cache holds after a store of a byte.
  step_lem :
      (P : Store → Type 0) (m : Ram) (s : Store)
      → size s ≡ 1
      → All P m.cached ⊎ (hits target word_size immediate m.cached s ≡ false)
      → P s
      → All P (put m s).cached
  step_lem P m s one before here = elim (Bool-cases (hits target word_size immediate m.cached s)) [
    | inl same ↦ elim before [
      | inl all ↦ rw (store_byte_lem m s one, same) (All-snoc P m.cached s all here)
      | inr other ↦ absurd (ground arith)
    ]
    | inr other ↦ rw (store_byte_lem m s one, other) (here, tt)
  ]

  -- Between the copies of a write.
  abbrev pub OfOneKind : Ram → Type 0
  OfOneKind m = IsSettled m ⊎ All IsByte m.cached

  pub step-IsByte : (m : Ram) (i b : ℕ) → OfOneKind m → All IsByte (put m (set_byte i b)).cached
  step-IsByte m i b kind =
      step_lem IsByte m (set_byte i b) refl
        (elim kind [
          | inl settled ↦ inr (hits_settled m.cached (set_byte i b) settled (flush_byte_differ i b))
          | inr bytes ↦ inl bytes
        ])
        (i, b, refl)

  pub step-IsSettled : (m : Ram) → OfOneKind m → IsSettled (put m set_flush)
  step-IsSettled m kind =
      step_lem IsFlush m set_flush refl
        (elim kind [ inl settled ↦ inl settled | inr bytes ↦ inr (hits_bytes m.cached bytes) ]) refl

  -- The cache is transparent.
  pub visible-step : (m : Ram) (s : Store) → size s ≡ 1 → visible (put m s) ≡ apply (visible m) s
  visible-step m s one = elim (Bool-cases (hits target word_size immediate m.cached s)) [
    | inl same ↦ rw (store_byte_lem m s one, same) (run-append m.committed m.cached (s ∷ []))
    | inr other ↦ rw (store_byte_lem m s one, other) refl
  ]

  pub feed-OfOneKind :
      (m : Ram) (ss : List Store)
      → All IsByte ss
      → OfOneKind m
      → OfOneKind (feed target word_size immediate m ss)
        × (visible (feed target word_size immediate m ss) ≡ run (visible m) ss)
  unfolding feed
  feed-OfOneKind m [] bytes kind = (kind, refl)
  feed-OfOneKind m (s ∷ ss) ((i, b, e), bytes) kind =
      let m' : Ram = put m s in
      let kind' = subst (λ t. All IsByte (put m t).cached) (sym e) (step-IsByte m i b kind) in
      let (after, seen) = feed-OfOneKind m' ss bytes (inr kind') in
      (after, seen ∙ ap (λ r. run r ss) (visible-step m s (ap size e)))

  pub feed-append :
      (m : Ram) (xs ys : List Store)
      → feed target word_size immediate m (xs ++ ys)
        ≡ feed target word_size immediate (feed target word_size immediate m xs) ys
  unfolding feed
  feed-append m [] ys = refl
  feed-append m (x ∷ xs) ys = feed-append (put m x) xs ys

  step_cut :
      (m : Ram) (s : Store) (ss : List Store) (j : ℕ)
      → size s ≡ 1
      → (i : ℕ) × (run (put m s).committed (take j ((put m s).cached ++ ss))
          ≡ run m.committed (take i (m.cached ++ s ∷ ss)))
  step_cut m s ss j one = elim (Bool-cases (hits target word_size immediate m.cached s)) [
    | inl same ↦ (
      j,
      rw (store_byte_lem m s one, same)
          (ap (λ l. run m.committed (take j l)) (append_assoc m.cached (s ∷ []) ss)),
    )
    | inr other ↦ (
      length m.cached + j,
      rw (store_byte_lem m s one, other)
          (sym (run-append m.committed m.cached (take j (s ∷ ss)))
            ∙ ap (run m.committed) (sym (take-length_append m.cached (s ∷ ss) j))),
    )
  ]

  -- What is committed of stores of bytes is what some of the first stores make.
  pub committed_cut :
      (m : Ram) (ss : List Store)
      → All (λ s. size s ≡ 1) ss
      → (j : ℕ) × ((feed target word_size immediate m ss).committed
          ≡ run m.committed (take j (m.cached ++ ss)))
  unfolding feed
  committed_cut m [] ones = (0, refl)
  committed_cut m (s ∷ ss) (one, ones) =
      let (j, e) = committed_cut (put m s) ss ones in
      let (i, c) = step_cut m s ss j one in (i, e ∙ c)
