-- ===== src/Table.antt =====
-- A table of the database: rows under their primary keys. Keys are 128-bit UUIDs, which both
-- PostgreSQL and `str` order as the numbers that they are, so they are natural numbers here.
use quorfix.Prelude.{
  ℕ, suc, Bool, true, false, Option, none, some, List, [], ◌∷◌, ltb, ◌==◌, if◌then◌else◌,
}
pub mod Laws
pub mod Others
pub mod Firsts

abbrev pub Table : Type 0 → Type 0
Table R = List (ℕ × R)

module _ {R : Type 0} where
  -- `objects.filter(pk=k).first()`
  unfoldable pub lookup : ℕ → Table R → Option R
  lookup k [] = none
  lookup k ((j, r) ∷ t) = if j == k then some r else lookup k t

  -- `objects.create(...)`, under a key drawn by `uuid4`
  unfoldable pub insert : ℕ → R → Table R → Table R
  insert k r t = (k, r) ∷ t

  -- `row.save()`: the row under the key is replaced
  unfoldable pub save : ℕ → R → Table R → Table R
  save k r [] = []
  save k r ((j, q) ∷ t) = (j, (if j == k then r else q)) ∷ save k r t

  -- `row.delete()`
  unfoldable pub delete : ℕ → Table R → Table R
  delete k [] = []
  delete k ((j, q) ∷ t) = let rest = delete k t in if j == k then rest else (j, q) ∷ rest

  -- `objects.filter(p).update(...)`
  unfoldable pub update_where : (ℕ → R → Bool) → (R → R) → Table R → Table R
  update_where p f [] = []
  update_where p f ((j, q) ∷ t) = (j, (if p j q then f q else q)) ∷ update_where p f t

  -- `objects.filter(p)`
  unfoldable pub filter_rows : (ℕ → R → Bool) → Table R → Table R
  filter_rows p [] = []
  filter_rows p ((j, q) ∷ t) = let rest = filter_rows p t in if p j q then (j, q) ∷ rest else rest

  -- `objects.filter(p).exists()`
  unfoldable pub exists_row : (ℕ → R → Bool) → Table R → Bool
  exists_row p [] = false
  exists_row p ((j, q) ∷ t) = if p j q then true else exists_row p t

  abbrev pub lesser : ℕ × R → Option (ℕ × R) → ℕ × R
  lesser a none = a
  lesser (j, q) (some (i, r)) = if ltb i j then (i, r) else (j, q)

  -- `objects.filter(p).first()`: without an ordering of its own, the row with the least key
  unfoldable pub first : (ℕ → R → Bool) → Table R → Option (ℕ × R)
  first p [] = none
  first p ((j, q) ∷ t) = let rest = first p t in if p j q then some (lesser (j, q) rest) else rest

  -- `objects.get(p)`, where a unique constraint leaves one row at most
  unfoldable pub find_row : (ℕ → R → Bool) → Table R → Option (ℕ × R)
  find_row p [] = none
  find_row p ((j, q) ∷ t) = if p j q then some (j, q) else find_row p t

  -- `objects.filter(p).count()`
  unfoldable pub count_rows : (ℕ → R → Bool) → Table R → ℕ
  count_rows p [] = 0
  count_rows p ((j, q) ∷ t) = let rest = count_rows p t in if p j q then suc rest else rest
