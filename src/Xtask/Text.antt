-- ===== src/Xtask/Text.antt =====
-- The parts of the standard library's `str`, `Path` and formatting that xtask/src uses.
use Prim.Native.Char.{code}
use Prim.Native.String.{String, ◌++◌, len, count, slice}
use text.Mathlib.Text.{◌==◌ as str_eq, starts_with}
use defmt_persist.Common.{
  ℕ, zero, suc, ◌+◌, ◌-◌, ◌/◌, ◌%◌, Bool, true, false, ◌&&◌, ◌||◌, List, [], ◌∷◌, Option, none,
  some, if◌then◌else◌, ltb, leb, ◌==◌,
}

-- The characters of a text, as numbers.
abbrev pub codes : String → List ℕ
codes String.[] = []
codes (String.◌∷◌ c s) = code c ∷ codes s

abbrev pub codes_eq : List ℕ → List ℕ → Bool
codes_eq [] [] = true
codes_eq (c ∷ cs) (d ∷ ds) = (c == d) && codes_eq cs ds
codes_eq _ _ = false

-- A character in front of the first line.
abbrev push : ℕ → List (List ℕ) → List (List ℕ)
push c [] = (c ∷ []) ∷ []
push c (line ∷ rest) = (c ∷ line) ∷ rest

abbrev at_line_feed : List ℕ → Bool
at_line_feed [] = false
at_line_feed (c ∷ _) = c == b'\n'

-- `str::lines`: a carriage return counts as part of the line feed that follows it.
abbrev pub lines : List ℕ → List (List ℕ)
lines [] = []
lines (c ∷ cs) =
    let rest = lines cs in
    if c == b'\n' then [] ∷ rest else if (c == b'\r') && at_line_feed cs then rest else push c rest

-- `str::strip_prefix`
abbrev pub strip_prefix : List ℕ → List ℕ → Option (List ℕ)
strip_prefix [] line = some line
strip_prefix (_ ∷ _) [] = none
strip_prefix (p ∷ ps) (c ∷ cs) = let rest = strip_prefix ps cs in if p == c then rest else none

-- `char::is_whitespace`
abbrev pub is_whitespace : ℕ → Bool
is_whitespace c =
    (leb 9 c && leb c 13)
    || ((c == 32)
        || ((c == 0x85)
            || ((c == 0xa0)
                || ((c == 0x1680)
                    || ((leb 0x2000 c && leb c 0x200a)
                        || ((c == 0x2028)
                            || ((c == 0x2029)
                                || ((c == 0x202f) || ((c == 0x205f) || (c == 0x3000))))))))))

abbrev trim_start : List ℕ → List ℕ
trim_start [] = []
trim_start (c ∷ cs) = let rest = trim_start cs in if is_whitespace c then rest else c ∷ cs

abbrev trim_end : List ℕ → List ℕ
trim_end [] = []
trim_end (c ∷ cs) = elim (trim_end cs) [
  | [] ↦ if is_whitespace c then [] else c ∷ []
  | k ∷ kept ↦ c ∷ k ∷ kept
]

-- `str::trim`
abbrev pub trim : List ℕ → List ℕ
trim cs = trim_end (trim_start cs)

-- `Path::join`
abbrev pub join : String → String → String
join base part =
    if starts_with part "/"
    then part
    else if str_eq base "" || str_eq (slice base (len base - 1) (len base)) "/"
    then base ++ part
    else base ++ ("/" ++ part)

-- What stands before the last place of a character in a text, and what stands after it.
abbrev split_last : ℕ → String → Option (String × String)
split_last x String.[] = none
split_last x (String.◌∷◌ c s) = elim (split_last x s) [
  | some (before, after) ↦ some (String.◌∷◌ c before, after)
  | none ↦ if code c == x then some ("", s) else none
]

-- `Path::parent` and `Path::file_name` of a path that does not end in a slash.
abbrev pub parent_and_name : String → String × String
parent_and_name path = elim (split_last b'/' path) [
  | none ↦ ("", path)
  | some (before, after) ↦ (if str_eq before "" then "/" else before, after)
]

-- `Path::file_stem` and `Path::extension` of a file name; a dot in front belongs to the stem.
abbrev pub stem_and_extension : String → String × Option String
stem_and_extension name = if str_eq name ".." then (name, none) else elim (split_last b'.' name) [
  | none ↦ (name, none)
  | some (before, after) ↦ if str_eq before "" then (name, none) else (before, some after)
]

-- `{:#x}` of a u32, which has eight digits at most
abbrev digits_of : ℕ → ℕ → String
digits_of zero n = ""
digits_of (suc left) n =
    let front = digits_of left (n / 16) in
    (if ltb n 16 then "" else front) ++ slice "0123456789abcdef" (n % 16) (n % 16 + 1)

abbrev pub hex : ℕ → String
hex n = "0x" ++ digits_of 8 n

-- `to_uppercase`, for ASCII
abbrev pub to_uppercase : String → String
to_uppercase String.[] = ""
to_uppercase (String.◌∷◌ c s) =
    (if leb b'a' (code c) && leb (code c) b'z'
      then slice "ABCDEFGHIJKLMNOPQRSTUVWXYZ" (code c - b'a') (code c - b'a' + 1)
      else String.◌∷◌ c "")
    ++ to_uppercase s

-- `{:<width}`
abbrev spaces : ℕ → String
spaces zero = ""
spaces (suc n) = " " ++ spaces n

abbrev pub pad : ℕ → String → String
pad width s = s ++ spaces (width - count s)
