-- ===== src/Ring/Copy.antt =====
-- The copies of `Producer::write` in src/ring_buffer.rs: the two `copy_nonoverlapping` calls make
-- the stores of one copy that goes round at the end of the buffer.
use defmt_persist.Common.{
  ℕ, suc, ◌+◌, ◌-◌, ◌/◌, ◌≤◌, ◌<◌, ◌≡◌, refl, sym, ap, ap₂, ◌∙◌, List, [], ◌∷◌, ◌++◌, ltb, length,
  set, take, drop, length-take, length-set, take-drop-append, add_usize, i32_max, arith,
  append_assoc, append-nil, Bool-cases, inl, inr,
}
use defmt_persist.Ring.{RingBuffer, Store, set_byte, run}
use defmt_persist.Ring.Producer.{copy, copy_stores}
use defmt_persist.Ring.Window.{next, ahead, next-lt, window, window-set, window-set_behind}

-- The stores of a copy that goes round at the end.
abbrev pub ring_copy : ℕ → ℕ → List ℕ → List Store
ring_copy len i [] = []
ring_copy len i (b ∷ bs) = set_byte i b ∷ ring_copy len (next len i) bs

-- The buffer after such a copy.
abbrev pub fill : ℕ → List ℕ → ℕ → List ℕ → List ℕ
fill len buf i [] = buf
fill len buf i (b ∷ bs) = fill len (set buf i b) (next len i) bs

pub run-ring_copy :
    (len : ℕ) (r : RingBuffer) (i : ℕ) (bs : List ℕ)
    → run r (ring_copy len i bs) ≡ record r { buf = fill len r.buf i bs }
run-ring_copy len r i [] = refl
run-ring_copy len r i (b ∷ bs) =
    run-ring_copy len (record r { buf = set r.buf i b }) (next len i) bs

pub length-fill :
    (len : ℕ) (buf : List ℕ) (i : ℕ) (bs : List ℕ) → length (fill len buf i bs) ≡ length buf
length-fill len buf i [] = refl
length-fill len buf i (b ∷ bs) = length-fill len (set buf i b) (next len i) bs ∙ length-set buf i b

pub next-ahead : (len i n : ℕ) → i < len → n < len → next len (ahead len i n) ≡ ahead len i (suc n)
next-ahead len i n hi hn = ground arith

-- A copy to just behind a window extends the window by what is copied.
pub window-fill :
    (len : ℕ) (buf : List ℕ) (i n k : ℕ) (bs : List ℕ)
    → len ≤ length buf
    → i < len
    → k ≡ n + length bs
    → k < len
    → window len (fill len buf (ahead len i n) bs) i k ≡ window len buf i n ++ bs
window-fill len buf i n k [] hb hi e hk =
    ap (window len buf i) (omega arith) ∙ sym (append-nil (window len buf i n))
window-fill len buf i n k (b ∷ bs) hb hi e hk =
    ap (λ j. window len (fill len (set buf (ahead len i n) b) j bs) i k)
      (next-ahead len i n hi (omega arith))
    ∙ (window-fill len (set buf (ahead len i n) b) i (suc n) k bs
          (omega (arith, length-set buf (ahead len i n) b)) hi (omega arith) hk
        ∙ (ap (λ t. t ++ bs) (window-set len buf i n b hb hi (omega arith))
            ∙ append_assoc (window len buf i n) (b ∷ []) bs))

-- A copy behind a window leaves the window alone.
pub window-fill_behind :
    (len : ℕ) (buf : List ℕ) (i n m : ℕ) (bs : List ℕ)
    → i < len
    → n ≤ m
    → m + length bs ≤ len
    → window len (fill len buf (ahead len i m) bs) i n ≡ window len buf i n
window-fill_behind len buf i n m [] hi hn hm = refl
window-fill_behind len buf i n m (b ∷ bs) hi hn hm =
    ap (λ j. window len (fill len (set buf (ahead len i m) b) j bs) i n)
      (next-ahead len i m hi (omega arith))
    ∙ (window-fill_behind len (set buf (ahead len i m) b) i n (suc m) bs hi (omega arith)
          (omega arith)
        ∙ window-set_behind len buf i n m b hi hn (omega arith))

-- A copy that stays below the end does not go round.
copy-ring_copy : (len i : ℕ) (bs : List ℕ) → i + length bs ≤ len → copy i bs ≡ ring_copy len i bs
unfolding copy
copy-ring_copy len i [] h = refl
copy-ring_copy len i (b ∷ []) h = refl
copy-ring_copy len i (b ∷ c ∷ bs) h =
    ap (λ t. set_byte i b ∷ t)
      (copy-ring_copy len (i + 1) (c ∷ bs) (omega arith)
        ∙ ap (λ j. ring_copy len j (c ∷ bs)) inside)
  where
    inside : i + 1 ≡ next len i
    inside = ground arith

-- A copy of two parts is the copy of the one, and then of the other where that ends.
ring_copy-append :
    (len i : ℕ) (xs ys : List ℕ)
    → i < len
    → length xs ≤ len
    → ring_copy len i (xs ++ ys) ≡ ring_copy len i xs ++ ring_copy len (ahead len i (length xs)) ys
ring_copy-append len i [] ys hi hx = ap (λ j. ring_copy len j ys) zero_ahead
  where
    zero_ahead : i ≡ ahead len i 0
    zero_ahead = ground arith
ring_copy-append len i (x ∷ xs) ys hi hx =
    ap (λ t. set_byte i x ∷ t)
      (ring_copy-append len (next len i) xs ys (next-lt len i hi) (omega arith)
        ∙ ap (λ j. ring_copy len (next len i) xs ++ ring_copy len j ys) moved)
  where
    moved : ahead len (next len i) (length xs) ≡ ahead len i (suc (length xs))
    moved = ground arith

-- A copy up to the end, and one of the rest to the front, are a copy that goes round.
two_copies :
    (len write p q n : ℕ) (bytes : List ℕ)
    → write < len
    → p ≡ len - write
    → p + q ≡ n
    → n ≤ length bytes
    → n < len
    → copy write (take p bytes) ++ copy 0 (take q (drop p bytes))
      ≡ ring_copy len write (take n bytes)
two_copies len write p q n bytes hw hp hq hb hn =
    ap₂ ◌++◌ (copy-ring_copy len write front (omega (arith, length-take p bytes))) (
      copy-ring_copy len 0 rest (omega (arith, length-take q (drop p bytes)))
      ∙ ap (λ j. ring_copy len j rest) end)
    ∙ (sym (ring_copy-append len write front rest hw (omega (arith, length-take p bytes)))
        ∙ ap (ring_copy len write) (take-drop-append p q bytes ∙ ap (λ k. take k bytes) hq))
  where
    front : List ℕ
    front = take p bytes

    rest : List ℕ
    rest = take q (drop p bytes)

    end : 0 ≡ ahead len write (length (take p bytes))
    end = ground (arith, length-take p bytes)

-- The two copies of write make exactly the stores of one copy that goes round at the end of the
-- buffer, where the bytes fit, the index lies in the buffer and the buffer is below the limit.
pub copy_stores-ring_copy :
    (len write n : ℕ) (bytes : List ℕ)
    → write < len
    → n < len
    → n ≤ length bytes
    → len < i32_max / 4
    → copy_stores len write n bytes ≡ ring_copy len write (take n bytes)
unfolding copy_stores
copy_stores-ring_copy len write n bytes hw hn hb hs =
    elim (Bool-cases (ltb len (add_usize write n))) [
      | inl crosses ↦
          rw crosses (two_copies len write _ _ n bytes hw (ground arith) (ground arith) hb hn)
      | inr fits ↦
          rw fits (copy-ring_copy len write (take n bytes) (ground (arith, length-take n bytes)))
    ]

-- Filling with two parts is filling with the one, and then with the other where that ends.
pub fill-append :
    (len : ℕ) (buf : List ℕ) (i : ℕ) (xs ys : List ℕ)
    → i < len
    → length xs ≤ len
    → fill len buf i (xs ++ ys) ≡ fill len (fill len buf i xs) (ahead len i (length xs)) ys
fill-append len buf i [] ys hi hx = ap (λ j. fill len buf j ys) zero_ahead
  where
    zero_ahead : i ≡ ahead len i 0
    zero_ahead = ground arith
fill-append len buf i (x ∷ xs) ys hi hx =
    fill-append len (set buf i x) (next len i) xs ys (next-lt len i hi) (omega arith)
    ∙ ap (λ j. fill len (fill len (set buf i x) (next len i) xs) j ys) moved
  where
    moved : ahead len (next len i) (length xs) ≡ ahead len i (suc (length xs))
    moved = ground arith
