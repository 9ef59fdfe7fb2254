-- ===== src/Ecc.antt =====
-- The write cache of RAM with ECC, which the feature `ecc` of src/ring_buffer.rs is for: it holds the
-- stores to one word, until a store to another word commits them. A store that fills a word may be
-- committed at once, while the cache still holds older stores. A reset loses what the cache holds.
pub mod Cache
pub mod Settled
pub mod Stored
pub mod Survive
mod Tests
use defmt_persist.Common.{
  ℕ, ◌+◌, ◌/◌, Bool, true, false, List, [], ◌∷◌, ◌++◌, ◌&&◌, leb, if◌then◌else◌, ◌==◌,
}
use defmt_persist.Ring.{
  RingBuffer, Store, set_header, set_read, set_write, set_flush, set_byte, apply, run,
}
use defmt_persist.Layout.{
  Target, index_size, offset_header, offset_read, offset_write, offset_ecc_flush,
}

-- The RAM: what is committed of the region, and the stores in the cache.
pub record Ram : Type 0 where
  pub committed : RingBuffer
  pub cached : List Store

-- What a load sees.
abbrev pub visible : Ram → RingBuffer
visible m = run m.committed m.cached

-- Where a store goes in the region.
abbrev pub offset : Target → Store → ℕ
offset target (set_header _) = offset_header
offset target (set_read _) = offset_read
offset target (set_write _) = offset_write
offset target set_flush = offset_ecc_flush
offset target (set_byte i _) = target.size_of + i

-- How many bytes it stores.
abbrev pub size : Store → ℕ
size (set_header _) = 16
size (set_read _) = index_size
size (set_write _) = index_size
size set_flush = 1
size (set_byte _ _) = 1

-- The hardware decides which stores that fill a word are committed at once.
module _ (target : Target) (word_size : ℕ) (immediate : Ram → Store → Bool) where
  abbrev pub word : Store → ℕ
  word s = offset target s / word_size

  abbrev pub hits : List Store → Store → Bool
  hits [] s = false
  hits (c ∷ _) s = word c == word s

  abbrev pub at_once : Ram → Store → Bool
  at_once m s = leb word_size (size s) && immediate m s

  -- What the cache holds of the same word goes with a store that is committed at once.
  unfoldable pub store : Ram → Store → Ram
  store m s =
      if at_once m s
      then (if hits m.cached s
          then record { committed = apply (visible m) s; cached = [] }
          else record m { committed = apply m.committed s })
      else (if hits m.cached s
          then record m { cached = m.cached ++ s ∷ [] }
          else record { committed = visible m; cached = s ∷ [] })

  unfoldable pub feed : Ram → List Store → Ram
  feed m [] = m
  feed m (s ∷ ss) = feed (store m s) ss
