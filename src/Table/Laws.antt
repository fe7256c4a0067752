-- ===== src/Table/Laws.antt =====
-- What each table operation does to a lookup, and what a query finds.
use quorfix.Prelude.{
  ℕ, ◌≡◌, refl, ◌≢◌, Bool, true, false, none, some, [], ◌∷◌, arith, ◌==◌, if◌then◌else◌, inl, inr,
  Option-cases, ap, sym, subst, ==_iff,
}
use quorfix.Table.{Table, lookup, insert, save, delete, update_where, exists_row, first, find_row}

module _ {R : Type 0} where
  pub lookup-insert :
      (k j : ℕ) (r : R) (t : Table R)
      → lookup j (insert k r t) ≡ (if k == j then some r else lookup j t)
  unfolding lookup insert
  lookup-insert k j r t = refl

  pub lookup-save_ne : (k j : ℕ) (r : R) (t : Table R) → k ≢ j → lookup j (save k r t) ≡ lookup j t
  unfolding lookup save
  lookup-save_ne k j r [] h = refl
  lookup-save_ne k j r ((i, q) ∷ t) h = ground (arith, lookup-save_ne k j r t h)

  pub lookup-save :
      (k j : ℕ) {old : R} (r : R) (t : Table R)
      → lookup k t ≡ some old
      → lookup j (save k r t) ≡ (if k == j then some r else lookup j t)
  unfolding lookup save
  lookup-save k j r [] h = cc
  lookup-save k j {old = o} r ((i, q) ∷ t) h =
      ground (arith, lookup-save k j {old = o} r t, lookup-save_ne k j r t)

  pub lookup-delete :
      (k j : ℕ) (t : Table R) → lookup j (delete k t) ≡ (if k == j then none else lookup j t)
  unfolding lookup delete
  lookup-delete k j [] = ground arith
  lookup-delete k j ((i, q) ∷ t) = ground (arith, lookup-delete k j t)

  -- A row is found by `exists_row` where a key leads to it.
  pub exists_row_of_lookup :
      (p : ℕ → R → Bool) (k : ℕ) {r : R} (t : Table R)
      → lookup k t ≡ some r
      → p k r ≡ true
      → exists_row p t ≡ true
  unfolding lookup exists_row
  exists_row_of_lookup p k [] h e = cc
  exists_row_of_lookup p k {r = a} ((i, q) ∷ t) h e =
      ground (arith, exists_row_of_lookup p k {r = a} t)

  -- `first` returns a row that passes the test.
  pub first_passes :
      (p : ℕ → R → Bool) (t : Table R) {k : ℕ} {r : R} → first p t ≡ some (k, r) → p k r ≡ true
  unfolding first
  first_passes p [] h = cc
  first_passes p ((i, q) ∷ t) {k = k} {r = r} h = elim (Option-cases (first p t)) [
    | inl e ↦ ground arith
    | inr (m, e) ↦ ground (arith, first_passes p t {k = m.0} {r = m.1})
  ]

  -- `first` finds nothing exactly where nothing passes.
  pub first-none : (p : ℕ → R → Bool) (t : Table R) → first p t ≡ none → exists_row p t ≡ false
  unfolding first exists_row
  first-none p [] h = refl
  first-none p ((i, q) ∷ t) h = ground (arith, first-none p t)

  pub none-first : (p : ℕ → R → Bool) (t : Table R) → exists_row p t ≡ false → first p t ≡ none
  unfolding first exists_row
  none-first p [] h = refl
  none-first p ((i, q) ∷ t) h = ground (arith, none-first p t)

  pub find_row-save :
      (p : ℕ → R → Bool) (k : ℕ) {old : R} (new : R) (t : Table R)
      → find_row p t ≡ some (k, old)
      → p k new ≡ true
      → find_row p (save k new t) ≡ some (k, new)
  unfolding find_row save
  find_row-save p k new [] h e = cc
  find_row-save p k {old = o} new ((j, q) ∷ t) h e =
      ground (arith, find_row-save p k {old = o} new t)

  pub find_row_passes :
      (p : ℕ → R → Bool) (k : ℕ) {r : R} (t : Table R) → find_row p t ≡ some (k, r) → p k r ≡ true
  unfolding find_row
  find_row_passes p k [] h = cc
  find_row_passes p k {r = o} ((j, q) ∷ t) h = ground (arith, find_row_passes p k {r = o} t)

  pub find_row-exists :
      (p : ℕ → R → Bool) (k : ℕ) {r : R} (t : Table R)
      → find_row p t ≡ some (k, r)
      → exists_row p t ≡ true
  unfolding find_row exists_row
  find_row-exists p k [] h = cc
  find_row-exists p k {r = o} ((j, q) ∷ t) h = ground (arith, find_row-exists p k {r = o} t)

same_value : {R : Type 0} {q r : R} → some q ≡ some r → q ≡ r
same_value h = cc h

-- A row after a change of those that satisfy a test.
pub lookup-update_where :
    {R : Type 0} (p : ℕ → R → Bool) (f : R → R) (k : ℕ) (r : R) (t : Table R)
    → lookup k t ≡ some r
    → lookup k (update_where p f t) ≡ some (if p k r then f r else r)
unfolding lookup update_where
lookup-update_where p f k r [] h = cc h
lookup-update_where {R} p f k r ((j, q) ∷ t) h =
    by_test (j == k) refl h (lookup-update_where p f k r t)
  where
    by_test :
        (b : Bool)
        → (j == k) ≡ b
        → (if b then some q else lookup k t) ≡ some r
        → (lookup k t ≡ some r → lookup k (update_where p f t) ≡ some (if p k r then f r else r))
        → (if b then some (if p j q then f q else q) else lookup k (update_where p f t))
          ≡ some (if p k r then f r else r)
    by_test true e g ih = ap some (
        subst (λ i. (if p i q then f q else q) ≡ (if p k r then f r else r))
          (sym ((==_iff j k).0 e)) (ap (λ x. if p k x then f x else x) (same_value g)))
    by_test false e g ih = ih g
