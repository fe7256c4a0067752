-- ===== src/Exec.antt =====
-- Service calls: they read and write a state and may raise. What was written before a raise stays
-- written, so the state comes back beside the error; `atomic` is Django's `transaction.atomic`,
-- which puts the state back when an exception leaves the block.
pub mod Ensures
use quorfix.Prelude.{◌≡◌, refl, Bool, true, false, Option, none, some}

pub data Result {ℓ} (E A : Type ℓ) : Type ℓ where
  ok : A → Result E A
  err : E → Result E A

abbrev pub Exec {ℓ} : Type ℓ → Type ℓ → Type ℓ → Type ℓ
Exec E S A = S → Result E A × S

module _ {ℓ} {E S A : Type ℓ} where
  unfoldable pub pure : A → Exec E S A
  pure a s = (ok a, s)

  -- `raise e`
  unfoldable pub raise : E → Exec E S A
  raise e s = (err e, s)

  unfoldable pub gets : (S → A) → Exec E S A
  gets f s = (ok (f s), s)

  abbrev pub found_or : S → E → Option A → Result E A × S
  found_or s e none = (err e, s)
  found_or s e (some a) = (ok a, s)

  -- `objects.get(...)`: the row that a query finds, or the exception for none
  unfoldable pub fetch : (S → Option A) → E → Exec E S A
  fetch query e s = found_or s e (query s)

  abbrev roll_back : S → Result E A × S → Result E A × S
  roll_back s (ok a, s') = (ok a, s')
  roll_back s (err e, s') = (err e, s)

  -- `with transaction.atomic():` and `@transaction.atomic`
  unfoldable pub atomic : Exec E S A → Exec E S A
  atomic m s = roll_back s (m s)

unfoldable pub modify : {E S : Type 0} → (S → S) → Exec E S Unit
modify f s = (ok tt, f s)

-- `if test: raise e`
unfoldable pub raise_if : {E S : Type 0} → Bool → E → Exec E S Unit
raise_if true e s = (err e, s)
raise_if false e s = (ok tt, s)

module _ {ℓ} {E S A B : Type ℓ} where
  abbrev pub continue : Result E A → (A → Exec E S B) → Exec E S B
  continue (ok a) f s = f a s
  continue (err e) f s = (err e, s)

  infixl 5 ◌>>=◌ ◌>>◌
  -- To open this is to open the actions above, too.
  unfoldable pub ◌>>=◌ : Exec E S A → (A → Exec E S B) → Exec E S B
  unfolding pure raise gets fetch atomic modify raise_if
  ◌>>=◌ m f s = let (r, s') = m s in continue r f s'

  abbrev pub ◌>>◌ : Exec E S A → Exec E S B → Exec E S B
  m >> k = m >>= λ _. k
