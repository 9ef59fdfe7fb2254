-- ===== src/Corrupt/Fresh.antt =====
-- What a start makes of the snapshots of xtask/src/corrupt.rs.
use defmt_persist.Common.{
  ℕ, ◌-◌, ◌/◌, ◌≤◌, ◌<◌, ◌≡◌, ap, ◌∙◌, List, [], length, length-set, get_or, set, get_or-set_self,
  get_or-set_ne, arith, Bool, true, false, Bool-cases, inl, inr, if◌then◌else◌, some, i32_max,
}
use defmt_persist.Ring.Window.{contents}
use defmt_persist.Recover.{recover_or_reinitialize}
use defmt_persist.Recover.Outcome.{is_intact, contents-recover}
use defmt_persist.Layout.{Target, view, offset_header, offset_read, offset_write}
use defmt_persist.Layout.Patch.{length-view_buf, header_zero, index_high}
use defmt_persist.Corrupt.{CorruptFlags, any, apply_corruption}

-- The snapshot with its bytes changed.
abbrev corrupted_header : List ℕ → CorruptFlags → List ℕ
corrupted_header snapshot flags = if flags.header then set snapshot offset_header 0 else snapshot

abbrev corrupted_read : List ℕ → CorruptFlags → List ℕ
corrupted_read a flags = if flags.read then set a 19 0xff else a

abbrev corrupted_write : List ℕ → CorruptFlags → List ℕ
corrupted_write b flags = if flags.write then set b 23 0xff else b

abbrev pub corrupted : List ℕ → CorruptFlags → List ℕ
corrupted snapshot flags =
    corrupted_write (corrupted_read (corrupted_header snapshot flags) flags) flags

module _ (snapshot : List ℕ) (flags : CorruptFlags) where
  abbrev a : List ℕ
  a = corrupted_header snapshot flags

  abbrev b : List ℕ
  b = corrupted_read a flags

  length-corrupted_header : length a ≡ length snapshot
  length-corrupted_header = ground (arith, length-set snapshot 0 0)

  length-corrupted_read : length b ≡ length snapshot
  length-corrupted_read = ground (arith, length-set a 19 0xff, length-corrupted_header)

  pub length-corrupted : length (corrupted snapshot flags) ≡ length snapshot
  length-corrupted = ground (arith, length-set b 23 0xff, length-corrupted_read)

  pub apply_corruption-fits :
      24 ≤ length snapshot → apply_corruption snapshot flags ≡ some (corrupted snapshot flags)
  unfolding apply_corruption
  apply_corruption-fits h = ground (arith, length-corrupted_header, length-corrupted_read)

  corrupts_header :
      24 ≤ length snapshot
      → flags.header ≡ true
      → get_or (corrupted snapshot flags) offset_header 0 ≡ 0
  corrupts_header h on = ground (
    arith,
    get_or-set_self snapshot 0 0 0,
    get_or-set_ne a 19 0 0xff 0,
    get_or-set_ne b 23 0 0xff 0,
  )

  corrupts_read :
      24 ≤ length snapshot → flags.read ≡ true → get_or (corrupted snapshot flags) 19 0 ≡ 0xff
  corrupts_read h on =
      ground
        (arith, get_or-set_self a 19 0xff 0, get_or-set_ne b 23 19 0xff 0, length-corrupted_header)

  corrupts_write :
      24 ≤ length snapshot → flags.write ≡ true → get_or (corrupted snapshot flags) 23 0 ≡ 0xff
  corrupts_write h on = ground (arith, get_or-set_self b 23 0xff 0, length-corrupted_read)

module _ (target : Target) (ecc : Bool) where
  -- A snapshot that is changed at a flag is no ring of an earlier run.
  pub corrupted-lost :
      (snapshot : List ℕ) (flags : CorruptFlags)
      → 24 ≤ length snapshot
      → length snapshot - target.size_of < i32_max / 4
      → any flags ≡ true
      → is_intact ecc (view target (corrupted snapshot flags)) ≡ false
  unfolding any view
  corrupted-lost snapshot flags h s on = ground (
    arith,
    header_zero target (corrupted snapshot flags) ecc,
    index_high (corrupted snapshot flags) offset_read,
    index_high (corrupted snapshot flags) offset_write,
    corrupts_header snapshot flags h,
    corrupts_read snapshot flags h,
    corrupts_write snapshot flags h,
    length-corrupted snapshot flags,
    length-view_buf target (corrupted snapshot flags),
  )

  pub corrupted-untouched :
      (snapshot : List ℕ) (flags : CorruptFlags)
      → any flags ≡ false
      → corrupted snapshot flags ≡ snapshot
  unfolding any
  corrupted-untouched snapshot flags off = ground arith

  -- apply_corruption changes any snapshot that holds the structure and some buffer below the limit
  -- without a panic, and the next start finds an empty ring for any flag, and for no flag what it
  -- finds in the snapshot itself.
  apply_corruption-recover :
      (snapshot : List ℕ) (flags : CorruptFlags)
      → 24 ≤ target.size_of
      → target.size_of < length snapshot
      → length snapshot - target.size_of < i32_max / 4
      → (memory : List ℕ) × (apply_corruption snapshot flags ≡ some memory)
        × (contents (recover_or_reinitialize ecc (view target memory)) ≡ (
            if any flags
            then []
            else contents (recover_or_reinitialize ecc (view target snapshot))))
  apply_corruption-recover snapshot flags h l s =
      let memory : List ℕ = corrupted snapshot flags in
      (
        memory,
        apply_corruption-fits snapshot flags (omega arith),
        elim (Bool-cases (any flags)) [
          | inl on ↦ rw on (
              contents-recover ecc (view target memory)
                (omega (arith, length-view_buf target memory, length-corrupted snapshot flags))
                (omega (arith, length-view_buf target memory, length-corrupted snapshot flags))
              ∙ ap (λ b. if b then contents (view target memory) else [])
                  (corrupted-lost snapshot flags (omega arith) s on))
          | inr off ↦ rw off (
              ap (λ m. contents (recover_or_reinitialize ecc (view target m)))
                (corrupted-untouched snapshot flags off))
        ],
      )
