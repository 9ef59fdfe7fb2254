-- ===== src/Layout/Dump.antt =====
-- The bytes of the structure of src/ring_buffer.rs, and that they read as the structure.
use defmt_persist.Common.{
  ◌^◌, ℕ, ◌+◌, ◌*◌, ◌/◌, ◌%◌, ◌<◌, zero, suc, ◌≡◌, refl, sym, ap, ◌∙◌, List, [], ◌∷◌, ◌++◌, length,
  length-append, drop, drop-append_length, get_or, arith,
}
use defmt_persist.Ring.{RingBuffer}
use defmt_persist.Layout.{Target, load, view}

-- A number in so many bytes.
unfoldable pub to_bytes : ℕ → ℕ → List ℕ
to_bytes zero v = []
to_bytes (suc n) v = v % 256 ∷ to_bytes n (v / 256)

-- The region; `rest` is what lies between the indices and the buffer.
unfoldable pub region_bytes : List ℕ → RingBuffer → List ℕ
region_bytes rest r =
    to_bytes 16 r.header ++ (to_bytes 4 r.read ++ (to_bytes 4 r.write ++ (rest ++ r.buf)))

-- How many values so many bytes have.
abbrev values : ℕ → ℕ
values zero = 1
values (suc n) = 256 * values n

length-to_bytes : (n v : ℕ) → length (to_bytes n v) ≡ n
unfolding to_bytes
length-to_bytes zero v = refl
length-to_bytes (suc n) v = ap suc (length-to_bytes n (v / 256))

load-cons : (n : ℕ) (x : ℕ) (m : List ℕ) (o : ℕ) → load n (x ∷ m) (suc o) ≡ load n m o
unfolding load
load-cons zero x m o = refl
load-cons (suc n) x m o = ap (λ l. get_or m o 0 + 256 * l) (load-cons n x m (suc o))

load-append : (n : ℕ) (xs m : List ℕ) (o : ℕ) → load n (xs ++ m) (length xs + o) ≡ load n m o
load-append n [] m o = ap (load n m) (omega arith)
load-append n (x ∷ xs) m o =
    ap (load n (x ∷ (xs ++ m))) (omega arith)
    ∙ (load-cons n x (xs ++ m) (length xs + o) ∙ load-append n xs m o)

load-to_bytes : (n v : ℕ) (m : List ℕ) → v < values n → load n (to_bytes n v ++ m) 0 ≡ v
unfolding load to_bytes
load-to_bytes zero v m h = omega arith
load-to_bytes (suc n) v m h =
    let e = load-cons n (v % 256) (to_bytes n (v / 256) ++ m) 0 in
    let below : v / 256 < values n = omega arith in
    omega (arith, e, load-to_bytes n (v / 256) m below)

drop-append_more : (xs ys : List ℕ) (n : ℕ) → drop (length xs + n) (xs ++ ys) ≡ drop n ys
drop-append_more [] ys n = let e : 0 + n ≡ n = omega arith in ap (λ n. drop n ys) e
drop-append_more (x ∷ xs) ys n =
    let e : suc (length xs) + n ≡ suc (length xs + n) = omega arith in
    ap (λ n. drop n (x ∷ (xs ++ ys))) e ∙ drop-append_more xs ys n

-- Behind the bytes of a number.
load_behind : (k u n : ℕ) (m : List ℕ) (o : ℕ) → load n (to_bytes k u ++ m) (k + o) ≡ load n m o
load_behind k u n m o =
    ap (λ j. load n (to_bytes k u ++ m) (j + o)) (sym (length-to_bytes k u))
    ∙ load-append n (to_bytes k u) m o

drop_behind : (k u : ℕ) (m : List ℕ) (n : ℕ) → drop (k + n) (to_bytes k u ++ m) ≡ drop n m
drop_behind k u m n =
    ap (λ j. drop (j + n) (to_bytes k u ++ m)) (sym (length-to_bytes k u))
    ∙ drop-append_more (to_bytes k u) m n

module _ (target : Target) (rest : List ℕ) (r : RingBuffer) where
  -- The bytes of a structure whose fields fit their types, with what lies between the indices and
  -- the buffer, read as the same header, indices and buffer.
  pub view-region_bytes :
      24 + length rest ≡ target.size_of
      → r.header < 2 ^ 128
      → r.read < 2 ^ 32
      → r.write < 2 ^ 32
      → let found = view target (region_bytes rest r) in
        (found.header ≡ r.header)
        × (found.read ≡ r.read)
        × (found.write ≡ r.write)
        × (found.buf ≡ r.buf)
  unfolding view region_bytes
  view-region_bytes size hh hr hw =
      let tail = rest ++ r.buf in
      let writes = to_bytes 4 r.write ++ tail in
      let reads = to_bytes 4 r.read ++ writes in
      let split : target.size_of ≡ 16 + (4 + (4 + length rest)) = omega arith in
      (
        load-to_bytes 16 r.header reads (omega arith),
        load_behind 16 r.header 4 reads 0 ∙ load-to_bytes 4 r.read writes (omega arith),
        load_behind 16 r.header 4 reads 4
            ∙ (load_behind 4 r.read 4 writes 0 ∙ load-to_bytes 4 r.write tail (omega arith)),
        ap (λ n. drop n (to_bytes 16 r.header ++ reads)) split
            ∙ (drop_behind 16 r.header reads (4 + (4 + length rest))
                ∙ (drop_behind 4 r.read writes (4 + length rest)
                    ∙ (drop_behind 4 r.write tail (length rest) ∙ drop-append_length rest r.buf))),
      )

pub length-region_bytes :
    (rest : List ℕ) (r : RingBuffer)
    → length (region_bytes rest r) ≡ 24 + length rest + length r.buf
unfolding region_bytes to_bytes
length-region_bytes rest r = omega (arith, length-append rest r.buf)
