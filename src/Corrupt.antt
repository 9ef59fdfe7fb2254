-- ===== src/Corrupt.antt =====
-- xtask/src/corrupt.rs: the corruption scenarios that a test firmware is started with.
pub mod Fresh
use defmt_persist.Common.{
  ℕ, ◌+◌, ◌-◌, Bool, true, false, ◌||◌, List, [], ◌∷◌, Option, none, some, ◌>>=◌, if◌then◌else◌,
  ltb, length, set,
}
use defmt_persist.Layout.{offset_header, offset_read, offset_write, index_size}

pub record CorruptFlags : Type 0 where
  pub header : Bool
  pub read : Bool
  pub write : Bool

unfoldable pub any : CorruptFlags → Bool
any flags = flags.header || (flags.read || flags.write)

abbrev flags_of : Bool → Bool → Bool → CorruptFlags
flags_of h r w = record { header = h; read = r; write = w }

unfoldable pub all_combinations : List CorruptFlags
all_combinations =
    flags_of false false false
    ∷ flags_of true false false
    ∷ flags_of false true false
    ∷ flags_of false false true
    ∷ flags_of true true false
    ∷ flags_of true false true
    ∷ flags_of false true true
    ∷ flags_of true true true
    ∷ []

-- An assignment to a place of a Vec, which panics out of range.
abbrev pub assign : List ℕ → ℕ → ℕ → Option (List ℕ)
assign bytes i b = if ltb i (length bytes) then some (set bytes i b) else none

-- `None` stands for a panic.
unfoldable pub apply_corruption : List ℕ → CorruptFlags → Option (List ℕ)
apply_corruption snapshot flags = do
  a ← if flags.header then assign snapshot offset_header 0 else some snapshot
  b ← if flags.read then assign a (offset_read + index_size - 1) 0xff else some a
  if flags.write then assign b (offset_write + index_size - 1) 0xff else some b
