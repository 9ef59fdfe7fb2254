-- ===== src/Xtask/Exec.antt =====
-- Functions of xtask/src that return `anyhow::Result` and change the state of the system around them.
-- What was changed before an error stays changed, so that the state comes back beside the error.
use Prim.Native.String.{String}
use defmt_persist.Common.{Bool, true, false, ◌≡◌, refl, ap, ◌∙◌}

pub data Result (A : Type 0) : Type 0 where
  ok : A → Result A
  err : (message : String) → Result A
  panic : Result A
  unfinished : Result A  -- a loop is not over when the bound on its rounds is

abbrev pub Exec : Type 0 → Type 0 → Type 0
Exec S A = S → Result A × S

module _ {A : Type 0} where
  -- `.context(message)`, the message that is shown
  abbrev pub with_context : String → Result A → Result A
  with_context message (ok a) = ok a
  with_context message (err _) = err message
  with_context message panic = panic
  with_context message unfinished = unfinished

  -- `.unwrap_or_default()` and `.ok()`
  abbrev pub or_else : A → Result A → Result A
  or_else d (ok a) = ok a
  or_else d (err _) = ok d
  or_else d panic = panic
  or_else d unfinished = unfinished

module _ {S A : Type 0} where
  abbrev pub pure : A → Exec S A
  pure a s = (ok a, s)

  -- `bail!`
  abbrev pub bail : String → Exec S A
  bail message s = (err message, s)

  abbrev pub lift : Result A → Exec S A
  lift r s = (r, s)

  abbrev pub gets : (S → A) → Exec S A
  gets f s = (ok (f s), s)

  abbrev pub context : String → Exec S A → Exec S A
  context message m s = let (r, s') = m s in (with_context message r, s')

module _ {S A B : Type 0} where
  abbrev pub continue : Result A → (A → Exec S B) → Exec S B
  continue (ok a) f s = f a s
  continue (err message) f s = (err message, s)
  continue panic f s = (panic, s)
  continue unfinished f s = (unfinished, s)

  infixl 5 ◌>>=◌ ◌>>◌
  abbrev pub ◌>>=◌ : Exec S A → (A → Exec S B) → Exec S B
  ◌>>=◌ m f s = let (r, s') = m s in continue r f s'

  abbrev pub ◌>>◌ : Exec S A → Exec S B → Exec S B
  m >> n = m >>= λ _. n

-- `if c { bail!(message) }`
abbrev pub bail_if : {S : Type 0} → Bool → String → Exec S (Unit {0})
bail_if true message = bail message
bail_if false message = pure tt

-- A step that succeeds goes on with what it returned.
pub continue_ok :
    {S A B : Type 0} {r : Result A × S} {s' : S} {a : A} (f : A → Exec S B)
    → r ≡ (ok a, s')
    → continue r.0 f r.1 ≡ f a s'
continue_ok {S} {A} {B} f e = ap (λ (r : Result A × S). continue r.0 f r.1) e

-- `?` on a value.
abbrev pub and_then : {A B : Type 0} → Result A → (A → Result B) → Result B
and_then (ok a) f = f a
and_then (err message) f = err message
and_then panic f = panic
and_then unfinished f = unfinished

pub and_then_same :
    {A B : Type 0} (r : Result A) {f g : A → Result B}
    → ((a : A) → f a ≡ g a)
    → and_then r f ≡ and_then r g
and_then_same (ok a) h = h a
and_then_same (err message) h = refl
and_then_same panic h = refl
and_then_same unfinished h = refl

module _ {S A B : Type 0} (f : A → Exec S B) (s : S) where
  -- What is returned behind a step that changes nothing.
  pub continue_result :
      (r : Result A) {o : Result A × S} {g : A → Result B}
      → o ≡ (r, s)
      → ((a : A) → (f a s).0 ≡ g a)
      → (continue o.0 f o.1).0 ≡ and_then r g
  continue_result r {o} {g} e h = ap (λ o. (continue o.0 f o.1).0) e ∙ go r
    where
      go : (r : Result A) → (continue r f s).0 ≡ and_then r g
      go (ok a) = h a
      go (err message) = refl
      go panic = refl
      go unfinished = refl

  -- The same, where nothing else is changed either.
  pub continue_pure :
      (r : Result A) {o : Result A × S} {g : A → Result B}
      → o ≡ (r, s)
      → ((a : A) → f a s ≡ (g a, s))
      → continue o.0 f o.1 ≡ (and_then r g, s)
  continue_pure r {o} {g} e h = ap (λ o. continue o.0 f o.1) e ∙ go r
    where
      go : (r : Result A) → continue r f s ≡ (and_then r g, s)
      go (ok a) = h a
      go (err message) = refl
      go panic = refl
      go unfinished = refl
