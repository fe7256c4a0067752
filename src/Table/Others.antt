-- ===== src/Table/Others.antt =====
-- A test that some row passes, after one row is saved or deleted.
use quorfix.Prelude.{
  ℕ, ◌≡◌, Bool, true, false, none, some, [], ◌∷◌, arith, ◌==◌, ◌&&◌, not, Bool-cases, inl, inr,
}
use quorfix.Table.{Table, lookup, save, delete, exists_row, count_rows}

module _ {R : Type 0} where
  -- No two rows have one key.
  abbrev pub IsKeyed : Table R → Type 0
  IsKeyed [] = Unit
  IsKeyed ((k, r) ∷ t) = (lookup k t ≡ none) × IsKeyed t

  abbrev pub but : ℕ → (ℕ → R → Bool) → ℕ → R → Bool
  but pk p k r = p k r && not (k == pk)

  pub exists_row-save :
      (p : ℕ → R → Bool) (pk : ℕ) (new : R) (t : Table R)
      → exists_row (but pk p) t ≡ true
      → exists_row p (save pk new t) ≡ true
  unfolding exists_row save
  exists_row-save p pk new [] h = cc
  exists_row-save p pk new ((j, q) ∷ t) h = ground (arith, exists_row-save p pk new t)

  pub exists_row-delete :
      (p : ℕ → R → Bool) (pk : ℕ) (t : Table R)
      → exists_row (but pk p) t ≡ true
      → exists_row p (delete pk t) ≡ true
  unfolding exists_row delete
  exists_row-delete p pk [] h = cc
  exists_row-delete p pk ((j, q) ∷ t) h = ground (arith, exists_row-delete p pk t)

  pub exists_saved :
      (p : ℕ → R → Bool) (pk : ℕ) {old : R} (new : R) (t : Table R)
      → lookup pk t ≡ some old
      → p pk new ≡ true
      → exists_row p (save pk new t) ≡ true
  unfolding exists_row save lookup
  exists_saved p pk new [] h e = cc
  exists_saved p pk {old = o} new ((j, q) ∷ t) h e = elim (Bool-cases (j == pk)) [
    | inl same ↦ ground arith
    | inr other ↦ ground (arith, exists_saved p pk {old = o} new t)
  ]

  -- Where the row under the key is none that passes, another one does.
  absent-but :
      (p : ℕ → R → Bool) (pk : ℕ) (t : Table R)
      → lookup pk t ≡ none
      → exists_row p t ≡ true
      → exists_row (but pk p) t ≡ true
  unfolding exists_row lookup
  absent-but p pk [] h e = cc
  absent-but p pk ((j, q) ∷ t) h e = ground (arith, absent-but p pk t)

  pub exists_but :
      (p : ℕ → R → Bool) (pk : ℕ) {old : R} (t : Table R)
      → IsKeyed t
      → lookup pk t ≡ some old
      → p pk old ≡ false
      → exists_row p t ≡ true
      → exists_row (but pk p) t ≡ true
  unfolding exists_row lookup
  exists_but p pk [] keyed h e x = cc
  exists_but p pk {old = o} ((j, q) ∷ t) (fresh, keyed) h e x = elim (Bool-cases (j == pk)) [
    | inl same ↦ ground (arith, absent-but p pk t)
    | inr other ↦ ground (arith, exists_but p pk {old = o} t keyed)
  ]

  pub counted_exists :
      (p : ℕ → R → Bool) (t : Table R) → (count_rows p t == 0) ≡ false → exists_row p t ≡ true
  unfolding exists_row count_rows
  counted_exists p [] h = cc
  counted_exists p ((j, q) ∷ t) h = ground (arith, counted_exists p t)
