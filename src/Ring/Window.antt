-- ===== src/Ring/Window.antt =====
-- What a ring holds, read off byte by byte from its indices: the specification of its contents.
use defmt_persist.Common.{
  ℕ, zero, suc, ◌+◌, ◌-◌, ◌≤◌, ◌<◌, ◌≡◌, ◌≢◌, refl, sym, ap, ap₂, ◌∙◌, List, [], ◌∷◌, ◌++◌,
  if◌then◌else◌, ltb, length, get_or, set, take, drop, drop-get_or, get_or-set_self, get_or-set_ne,
  arith,
}
use defmt_persist.Ring.{RingBuffer}

-- The index after `i`, going round at the end.
abbrev pub next : ℕ → ℕ → ℕ
next len i = if ltb (i + 1) len then i + 1 else 0

-- The index `k` places after `i`, for `k ≤ len`.
abbrev pub ahead : ℕ → ℕ → ℕ → ℕ
ahead len i k = if ltb (i + k) len then i + k else i + k - len

-- The number of places from `i` forward to `j`.
abbrev pub distance : ℕ → ℕ → ℕ → ℕ
distance len i j = if ltb j i then len - i + j else j - i

-- The `n` bytes from index `i` on, in a buffer of `len` bytes.
abbrev pub window : ℕ → List ℕ → ℕ → ℕ → List ℕ
window len buf i zero = []
window len buf i (suc n) = get_or buf i 0 ∷ window len buf (next len i) n

-- The number of bytes that a ring holds.
abbrev pub size : RingBuffer → ℕ
size r = distance (length r.buf) r.read r.write

-- The bytes that a ring holds, oldest first.
abbrev pub contents : RingBuffer → List ℕ
contents r = window (length r.buf) r.buf r.read (size r)

pub length-window : (len : ℕ) (buf : List ℕ) (i n : ℕ) → length (window len buf i n) ≡ n
length-window len buf i zero = refl
length-window len buf i (suc n) = ap suc (length-window len buf (next len i) n)

ahead-zero : (len i : ℕ) → i < len → ahead len i 0 ≡ i
ahead-zero len i hi = ground arith

-- `k + 1` places after `i` is `k` places after the next index, and is not `i`.
ahead-suc : (len i k : ℕ) → i < len → suc k < len → ahead len i (suc k) ≡ ahead len (next len i) k
ahead-suc len i k hi hk = ground arith

ahead-ne : (len i k : ℕ) → i < len → suc k < len → ahead len i (suc k) ≢ i
ahead-ne len i k hi hk = ground arith

pub next-lt : (len i : ℕ) → i < len → next len i < len
next-lt len i h = ground arith

-- A store behind a window leaves the window alone.
pub window-set_behind :
    (len : ℕ) (buf : List ℕ) (i n k x : ℕ)
    → i < len
    → n ≤ k
    → k < len
    → window len (set buf (ahead len i k) x) i n ≡ window len buf i n
window-set_behind len buf i zero k x hi hn hk = refl
window-set_behind len buf i (suc n) zero x hi hn hk = absurd (omega arith)
window-set_behind len buf i (suc n) (suc k) x hi hn hk =
    ap₂ ◌∷◌ (get_or-set_ne buf (ahead len i (suc k)) i x 0 (ahead-ne len i k hi hk)) (
      ap (λ j. window len (set buf j x) (next len i) n) (ahead-suc len i k hi hk)
      ∙ window-set_behind len buf (next len i) n k x (next-lt len i hi) (omega arith) (omega arith))

-- A store just behind a window extends it.
pub window-set :
    (len : ℕ) (buf : List ℕ) (i n x : ℕ)
    → len ≤ length buf
    → i < len
    → n < len
    → window len (set buf (ahead len i n) x) i (suc n) ≡ window len buf i n ++ x ∷ []
window-set len buf i zero x hb hi hn =
    ap (λ t. t ∷ [])
      (ap (λ j. get_or (set buf j x) i 0) (ahead-zero len i hi)
        ∙ get_or-set_self buf i x 0 (omega arith))
window-set len buf i (suc n) x hb hi hn =
    ap₂ ◌∷◌ (get_or-set_ne buf (ahead len i (suc n)) i x 0 (ahead-ne len i n hi hn)) (
      ap (λ j. window len (set buf j x) (next len i) (suc n)) (ahead-suc len i n hi hn)
      ∙ window-set len buf (next len i) n x hb (next-lt len i hi) (omega arith))

-- The first `m` bytes of a window, and what follows them.
pub window-append :
    (len : ℕ) (buf : List ℕ) (i m n k : ℕ)
    → i < len
    → m < len
    → k ≡ m + n
    → window len buf i k ≡ window len buf i m ++ window len buf (ahead len i m) n
window-append len buf i zero n k hi hm e =
    ap (window len buf i) (omega arith) ∙ ap (λ j. window len buf j n) (sym (ahead-zero len i hi))
window-append len buf i (suc m) n zero hi hm e = absurd (omega arith)
window-append len buf i (suc m) n (suc k) hi hm e =
    ap (λ t. get_or buf i 0 ∷ t)
      (window-append len buf (next len i) m n k (next-lt len i hi) (omega arith) (omega arith)
        ∙ ap (λ j. window len buf (next len i) m ++ window len buf j n)
            (sym (ahead-suc len i m hi hm)))

-- A window that stays below the end is a slice.
pub window-slice :
    (len : ℕ) (buf : List ℕ) (i n : ℕ)
    → len ≡ length buf
    → i + n ≤ len
    → window len buf i n ≡ take n (drop i buf)
window-slice len buf i zero hb h = refl
window-slice len buf i (suc zero) hb h = rw (drop-get_or i buf 0 (omega arith))
window-slice len buf i (suc (suc n)) hb h = rw (drop-get_or i buf 0 (omega arith)) (
    ap (λ t. get_or buf i 0 ∷ t)
      (ap (λ j. window len buf j (suc n)) inside
        ∙ window-slice len buf (suc i) (suc n) hb (omega arith)))
  where
    inside : next len i ≡ suc i
    inside = ground arith

-- A ring with equal indices holds nothing.
pub contents-empty : (r : RingBuffer) → r.read ≡ r.write → contents r ≡ []
contents-empty r e = ap (window (length r.buf) r.buf r.read) none
  where
    none : size r ≡ 0
    none = ground arith

-- The contents are read off the indices and the bytes.
pub contents_of_fields :
    (s r : RingBuffer)
    → (s.read ≡ r.read) × (s.write ≡ r.write) × (s.buf ≡ r.buf)
    → contents s ≡ contents r
contents_of_fields s r e = λ i. contents (record {
  header = r.header;
  read = e.0 i;
  write = e.1 i;
  ecc_flush = r.ecc_flush;
  buf = e.2 i;
})
