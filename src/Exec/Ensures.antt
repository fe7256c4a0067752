-- ===== src/Exec/Ensures.antt =====
-- What holds of the value and the state of a call that returns: one rule for each action that may
-- come first in a block, in the order in which the block runs.
use quorfix.Prelude.{◌≡◌, refl, Bool, true, false, Option, none, some}
use quorfix.Exec.{
  Exec, Result, ok, err, pure, raise, gets, fetch, atomic, modify, raise_if, ◌>>=◌, ◌>>◌, roll_back,
  found_or, continue,
}

abbrev pub Returned {ℓ} : {E S A : Type ℓ} → (A → S → Type ℓ) → Result E A × S → Type ℓ
Returned Q (ok a, s) = Q a s
Returned Q (err e, s) = Unit

-- `Q` holds of the value and of the state after the call, if it returns.
pub record Ensures {ℓ} {E S A : Type ℓ} (Q : A → S → Type ℓ) (m : Exec E S A) (s : S) : Type ℓ where
  pub at : Returned Q (m s)

module _ {ℓ} {E S A B : Type ℓ} where
  continue-Returned :
      (Q : B → S → Type ℓ) (f : A → Exec E S B) (r : Result E A × S)
      → Returned (λ a s'. Ensures Q (f a) s') r
      → Returned Q (continue r.0 f r.1)
  continue-Returned Q f (ok a, s') h = h.at
  continue-Returned Q f (err e, s') h = tt

  pub after :
      {Q : B → S → Type ℓ} {m : Exec E S A} {f : A → Exec E S B} {s : S}
      → Ensures (λ a s'. Ensures Q (f a) s') m s
      → Ensures Q (m >>= f) s
  unfolding ◌>>=◌
  after {Q} {m} {f} {s} h = record { at = continue-Returned Q f (m s) h.at }

  pub after_gets :
      {Q : B → S → Type ℓ} (g : S → A) (f : A → Exec E S B) {s : S}
      → Ensures Q (f (g s)) s
      → Ensures Q (gets g >>= f) s
  unfolding ◌>>=◌
  after_gets g f h = record { at = h.at }

  found-Returned :
      (Q : B → S → Type ℓ) (o : Option A) (e : E) (f : A → Exec E S B) (s : S)
      → ((a : A) → o ≡ some a → Ensures Q (f a) s)
      → Returned (λ a s'. Ensures Q (f a) s') (found_or s e o)
  found-Returned Q none e f s h = tt
  found-Returned Q (some a) e f s h = h a refl

  pub after_fetch :
      {Q : B → S → Type ℓ} (query : S → Option A) (e : E) {f : A → Exec E S B} {s : S}
      → ((a : A) → query s ≡ some a → Ensures Q (f a) s)
      → Ensures Q (fetch query e >>= f) s
  unfolding ◌>>=◌
  after_fetch {Q} query e {f} {s} h = record {
    at = continue-Returned Q f (found_or s e (query s)) (found-Returned Q (query s) e f s h);
  }

module _ {E S : Type 0} where
  -- the last action, alone
  pub when_raise_if :
      {Q : Unit → S → Type 0} {c : Bool} (e : E) {s : S}
      → (c ≡ false → Q tt s)
      → Ensures Q (raise_if c e) s
  unfolding raise_if
  when_raise_if {c = true} e h = record { at = tt }
  when_raise_if {c = false} e h = record { at = h refl }

  pub when_modify :
      {Q : Unit → S → Type 0} (g : S → S) {s : S} → Q tt (g s) → Ensures {E = E} Q (modify g) s
  unfolding modify
  when_modify g h = record { at = h }

module _ {E S B : Type 0} where
  pub after_raise_if :
      {Q : B → S → Type 0} {c : Bool} (e : E) {k : Exec E S B} {s : S}
      → (c ≡ false → Ensures Q k s)
      → Ensures Q (raise_if c e >> k) s
  unfolding ◌>>=◌
  after_raise_if {c = true} e h = record { at = tt }
  after_raise_if {c = false} e h = record { at = (h refl).at }

  pub after_modify :
      {Q : B → S → Type 0} (g : S → S) {k : Exec E S B} {s : S}
      → Ensures Q k (g s)
      → Ensures Q (modify g >> k) s
  unfolding ◌>>=◌
  after_modify g h = record { at = h.at }

  pub returns : {Q : B → S → Type 0} (b : B) {s : S} → Q b s → Ensures {E = E} Q (pure b) s
  unfolding pure
  returns b h = record { at = h }

  pub raises : {Q : B → S → Type 0} (e : E) {s : S} → Ensures Q (raise e) s
  unfolding raise
  raises e = record { at = tt }

  roll_back-cases :
      (P : Result E B × S → Type 0) (s : S) (r : Result E B × S)
      → Returned (λ b s'. P (ok b, s')) r
      → ((e : E) → P (err e, s))
      → P (roll_back s r)
  roll_back-cases P s (ok b, s') h k = h
  roll_back-cases P s (err e, s') h k = k e

  -- A block that raises is one that raised in the state before it.
  pub atomic-cases :
      (P : Result E B × S → Type 0) {m : Exec E S B} {s : S}
      → Ensures (λ b s'. P (ok b, s')) m s
      → ((e : E) → P (err e, s))
      → P (atomic m s)
  unfolding atomic
  atomic-cases P {m} {s} h k = roll_back-cases P s (m s) h.at k

  pub raise_if-cases :
      (P : Result E B × S → Type 0) (c : Bool) (e : E) (k : Exec E S B) (s : S)
      → (c ≡ true → P (err e, s))
      → (c ≡ false → P (k s))
      → P ((raise_if c e >> k) s)
  unfolding ◌>>=◌
  raise_if-cases P true e k s h g = h refl
  raise_if-cases P false e k s h g = g refl

module _ {E S A : Type 0} where
  returned_weaker :
      (P Q : A → S → Type 0) (r : Result E A × S)
      → Returned P r
      → ((a : A) (s' : S) → P a s' → Q a s')
      → Returned Q r
  returned_weaker P Q (ok a, s') h w = w a s' h
  returned_weaker P Q (err e, s') h w = tt

  pub weaker :
      {P Q : A → S → Type 0} {m : Exec E S A} {s : S}
      → Ensures P m s
      → ((a : A) (s' : S) → P a s' → Q a s')
      → Ensures Q m s
  weaker {P} {Q} {m} {s} h w = record { at = returned_weaker P Q (m s) h.at w }

module _ {E S A B : Type 0} where
  -- A part of which only the statement about it is used.
  pub after_with :
      {P : A → S → Type 0} {Q : B → S → Type 0} {m : Exec E S A} {f : A → Exec E S B} {s : S}
      → Ensures P m s
      → ((a : A) (s' : S) → P a s' → Ensures Q (f a) s')
      → Ensures Q (m >>= f) s
  after_with h k = after (weaker h k)

  returned_same :
      (Q : B → S → Type 0) (f : A → Exec E S B) (s : S) (r : Result E A × S)
      → Returned (λ _ s'. s' ≡ s) r
      → ((a : A) → Ensures Q (f a) s)
      → Returned (λ a s'. Ensures Q (f a) s') r
  returned_same Q f s (ok a, s') h k = rw h (k a)
  returned_same Q f s (err e, s') h k = tt

  -- A part that only reads.
  pub after_reads :
      {Q : B → S → Type 0} {m : Exec E S A} {f : A → Exec E S B} {s : S}
      → Ensures (λ _ s'. s' ≡ s) m s
      → ((a : A) → Ensures Q (f a) s)
      → Ensures Q (m >>= f) s
  after_reads {Q} {m} {f} {s} h k = after (record { at = returned_same Q f s (m s) h.at k })

  continue-cases :
      (P : Result E B × S → Type 0) (f : A → Exec E S B) (r : Result E A × S)
      → ((e : E) (s' : S) → r ≡ (err e, s') → P (err e, s'))
      → ((a : A) (s' : S) → r ≡ (ok a, s') → P (f a s'))
      → P (continue r.0 f r.1)
  continue-cases P f (ok a, s') h k = k a s' refl
  continue-cases P f (err e, s') h k = h e s' refl

  -- A block by the two ways in which its first part ends.
  pub bind-cases :
      (P : Result E B × S → Type 0) (m : Exec E S A) (f : A → Exec E S B) {s : S}
      → ((e : E) (s' : S) → m s ≡ (err e, s') → P (err e, s'))
      → ((a : A) (s' : S) → m s ≡ (ok a, s') → P (f a s'))
      → P ((m >>= f) s)
  unfolding ◌>>=◌
  bind-cases P m f {s} h k = continue-cases P f (m s) h k

  -- The first part of a block, by what it did.
  pub run-bind :
      (m : Exec E S A) (f : A → Exec E S B) {s s' : S} {a : A}
      → m s ≡ (ok a, s')
      → (m >>= f) s ≡ f a s'
  unfolding ◌>>=◌
  run-bind m f h = rw h
