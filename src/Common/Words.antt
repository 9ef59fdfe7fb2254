-- ===== src/Common/Words.antt =====
-- `usize` and `u32` of the 32-bit targets: arithmetic modulo 2 ^ 32, with the wrap written out.
use Prim.Native.Nat.{ℕ, ◌+◌, ◌-◌, ◌%◌, ◌^◌}

abbrev pub usize_mod : ℕ
usize_mod = 2 ^ 32

abbrev pub usize_max : ℕ
usize_max = 2 ^ 32 - 1

-- `i32::MAX`
abbrev pub i32_max : ℕ
i32_max = 2 ^ 31 - 1

-- `a + b` and `a.wrapping_add(b)` on `usize`
abbrev pub add_usize : ℕ → ℕ → ℕ
add_usize a b = (a + b) % 2 ^ 32

-- `a - b` on `usize`
abbrev pub sub_usize : ℕ → ℕ → ℕ
sub_usize a b = (a + 2 ^ 32 - b) % 2 ^ 32

-- `x as u32`
abbrev pub as_u32 : ℕ → ℕ
as_u32 x = x % 2 ^ 32
