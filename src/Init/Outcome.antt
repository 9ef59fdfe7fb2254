-- ===== src/Init/Outcome.antt =====
-- What `init` of src/lib.rs returns and leaves.
use defmt_persist.Common.{
  ℕ, ◌-◌, ◌/◌, ◌%◌, ◌≤◌, ◌<◌, ◌≡◌, ◌≢◌, refl, sym, ap, subst, ◌∙◌, Bool, true, false, List, [],
  Option, none, some, if◌then◌else◌, length, length-append, i32_max, arith, Bool-cases,
  Option-cases, inl, inr,
}
use mathlib.Core.Option.{some-injective, some-ne-none}
use defmt_persist.Ring.Consumer.{read, bufs}
use defmt_persist.Ring.Window.{contents}
use defmt_persist.Ring.Bounds.{IsValid}
use defmt_persist.Ring.Read.{bufs-read}
use defmt_persist.Recover.{recover_or_reinitialize}
use defmt_persist.Recover.Outcome.{is_intact, recover-IsValid, contents-recover}
use defmt_persist.Layout.{Target, view}
use defmt_persist.Layout.Patch.{length-view_buf}
use defmt_persist.Logger.{Features, Platform, World}
use defmt_persist.Init.{
  InitError, already_initialized, bad_alignment, too_small, too_large, Result, ok, err, Statics,
  validate, initialize, init_start, init_finish, settle, init,
}

-- The region that `init` accepts.
pub record Fits (target : Target) (start end : ℕ) : Type 0 where
  pub aligned : start % target.align_of ≡ 0
  pub large : target.size_of < end - start
  pub small : end - start - target.size_of < i32_max / 4

-- What each error says of the call.
abbrev pub Reason : Target → Bool → (start end : ℕ) → InitError → Type 0
Reason target called start end already_initialized = called ≡ true
Reason target called start end bad_alignment = start % target.align_of ≢ 0
Reason target called start end too_small = end - start ≤ target.size_of
Reason target called start end too_large = i32_max / 4 ≤ end - start - target.size_of

module _ (target : Target) (start end : ℕ) where
  pub validate-Fits : Fits target start end → validate target start end ≡ none
  unfolding validate
  validate-Fits f = ground (arith, f.aligned, f.large, f.small)

  validate-Reason :
      (e : InitError) → validate target start end ≡ some e → Reason target false start end e
  unfolding validate
  validate-Reason already_initialized h = ground arith
  validate-Reason bad_alignment h = ground arith
  validate-Reason too_small h = ground arith
  validate-Reason too_large h = ground arith

-- The error of a result.
abbrev error : Result → Option InitError
error (ok _) = none
error (err e) = some e

module _ (p : Platform) (features : Features) (target : Target) where
  -- The bytes of a grant, counted over its two slices.
  pub init_finish-contents :
      (w : World p)
      → IsValid w.ring
      → (init_finish p w).recovered_logs_len ≡ length (contents w.ring)
  unfolding init_finish
  init_finish-contents w v =
      sym (length-append (bufs (read w.ring)).0 (bufs (read w.ring)).1)
      ∙ ap length (bufs-read w.ring v)

  -- `init_start` on each way through it.
  init_start-again :
      (s : Statics p) (start end : ℕ) (memory : List ℕ)
      → s.called ≡ true
      → init_start p features target s start end memory
        ≡ (record s { called = true }, some already_initialized)
  unfolding init_start
  init_start-again s start end memory h = rw h refl

  init_start-refused :
      (s : Statics p) (start end : ℕ) (memory : List ℕ) (e : InitError)
      → s.called ≡ false
      → validate target start end ≡ some e
      → init_start p features target s start end memory ≡ (record s { called = true }, some e)
  unfolding init_start
  init_start-refused s start end memory e h v = rw h (rw v refl)

  pub init_start-accepted :
      (s : Statics p) (start end : ℕ) (memory : List ℕ)
      → s.called ≡ false
      → validate target start end ≡ none
      → let w = initialize p s.world (recover_or_reinitialize features.ecc (view target memory)) in
        init_start p features target s start end memory
        ≡ (record { called = true; world = w }, none)
  unfolding init_start
  init_start-accepted s start end memory h v = rw h (rw v refl)

  refused :
      (s : Statics p) (start end : ℕ) (e e' : InitError)
      → Reason target s.called start end e'
      → {o : Statics p × Option InitError} → o ≡ (record s { called = true }, some e')
      → (settle p o).1 ≡ err e
      → Reason target s.called start end e × ((settle p o).0.world ≡ s.world)
  refused s start end e e' r step h = (
    subst (Reason target s.called start end)
        (some-injective e' e (sym (ap (λ o. error (settle p o).1) step) ∙ ap error h)) r,
    ap (λ o. (settle p o).0.world) step,
  )

  -- An error of init says what is wrong with the call or the region, and leaves the logger as it
  -- was.
  pub init-Reason :
      (s : Statics p) (start end : ℕ) (memory : List ℕ) (e : InitError)
      → (init p features target s start end memory).1 ≡ err e
      → Reason target s.called start end e
        × ((init p features target s start end memory).0.world ≡ s.world)
  unfolding init
  init-Reason s start end memory e h = elim (Bool-cases s.called) [
    | inl again ↦
        refused s start end e already_initialized again (init_start-again s start end memory again)
          h
    | inr first ↦ elim (Option-cases (validate target start end)) [
      | inl fits ↦ absurd (
          some-ne-none e (
            sym (ap error h)
            ∙ ap (λ o. error (settle p o).1) (init_start-accepted s start end memory first fits)))
      | inr (e', bad) ↦
          refused s start end e e' (rw first (validate-Reason target start end e' bad))
            (init_start-refused s start end memory e' first bad) h
    ]
  ]

  init-called :
      (s : Statics p) (start end : ℕ) (memory : List ℕ)
      → (init p features target s start end memory).0.called ≡ true
  unfolding init
  init-called s start end memory = elim (Bool-cases s.called) [
    | inl again ↦ ap (λ o. (settle p o).0.called) (init_start-again s start end memory again)
    | inr first ↦ elim (Option-cases (validate target start end)) [
      | inl fits ↦
          ap (λ o. (settle p o).0.called) (init_start-accepted s start end memory first fits)
      | inr (e, bad) ↦
          ap (λ o. (settle p o).0.called) (init_start-refused s start end memory e first bad)
    ]
  ]

  -- After any call of init, whether it succeeded or not, every later one returns
  -- AlreadyInitialized and changes nothing.
  pub init-once :
      (s : Statics p) (start end start' end' : ℕ) (memory memory' : List ℕ)
      → let s' = (init p features target s start end memory).0 in
        init p features target s' start' end' memory' ≡ (s', err already_initialized)
  unfolding init
  init-once s start end start' end' memory memory' =
      let s' = (init p features target s start end memory).0 in
      let marked : s'.called ≡ true = init-called s start end memory in
      ap (settle p) (init_start-again s' start' end' memory' marked)
      ∙ ap (λ b. (record s' { called = b }, err already_initialized)) (sym marked)

  -- The ring that `init` hands out when it accepts the region.
  pub accepted-ring :
      (start end : ℕ) (memory : List ℕ)
      → Fits target start end
      → length memory ≡ end - start
      → let found = view target memory in
        let ring = recover_or_reinitialize features.ecc found in
        IsValid ring
        × (contents ring ≡ (if is_intact features.ecc found then contents found else []))
  accepted-ring start end memory f l =
      let buf = length-view_buf target memory in
      let some_room : 0 < length (view target memory).buf = omega (arith, buf, f.large) in
      let below : length (view target memory).buf < i32_max / 4 = omega (arith, buf, f.small) in
      (
        (recover-IsValid features.ecc (view target memory) some_room below).0,
        contents-recover features.ecc (view target memory) some_room below,
      )

  -- A first init on an aligned region whose buffer is not empty and below the limit hands the
  -- logger and the consumer one valid ring, which keeps the bytes of intact memory and is empty
  -- for any other, and counts exactly what it holds as recovered.
  pub init_lem :
      (s : Statics p) (start end : ℕ) (memory : List ℕ)
      → s.called ≡ false
      → Fits target start end
      → length memory ≡ end - start
      → let found = view target memory in
        let ring = recover_or_reinitialize features.ecc found in
        (init p features target s start end memory ≡ (
          record { called = true; world = record s.world { ring = ring; initialized = true } },
          ok (record { recovered_logs_len = length (contents ring) }),
        ))
        × IsValid ring
        × (contents ring ≡ (if is_intact features.ecc found then contents found else []))
  unfolding init initialize
  init_lem s start end memory first f l =
      let step = init_start-accepted s start end memory first (validate-Fits target start end f) in
      let w : World p =
        initialize p s.world (recover_or_reinitialize features.ecc (view target memory)) in
      let (v, c) = accepted-ring start end memory f l in
      (
        ap (settle p) step
            ∙ ap
                (λ n. (record { called = true; world = w }, ok (record { recovered_logs_len = n })))
                (init_finish-contents w v),
        v,
        c,
      )
