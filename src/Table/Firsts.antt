-- ===== src/Table/Firsts.antt =====
-- The first row that passes a test, after an insertion and after a row is saved.
use quorfix.Prelude.{
  ℕ, suc, ◌≡◌, refl, Bool, true, false, none, some, [], ◌∷◌, leb, arith, if◌then◌else◌,
}
use quorfix.Table.{Table, lookup, insert, save, first, find_row, count_rows}
use quorfix.Table.Others.{IsKeyed}

pub first_of_none :
    {R : Type 0} (p : ℕ → R → Bool) (t : Table R) → count_rows p t ≡ 0 → first p t ≡ none
unfolding count_rows first
first_of_none p [] h = refl
first_of_none p ((j, q) ∷ t) h = ground (arith, h, first_of_none p t)

save_absent : {R : Type 0} (k : ℕ) (new : R) (t : Table R) → lookup k t ≡ none → save k new t ≡ t
unfolding lookup save
save_absent k new [] h = refl
save_absent k new ((j, r) ∷ t) h = ground (arith, h, save_absent k new t)

pub lookup-find_row :
    {R : Type 0} (p : ℕ → R → Bool) (t : Table R) (k : ℕ) (old : R)
    → IsKeyed t
    → find_row p t ≡ some (k, old)
    → lookup k t ≡ some old
unfolding lookup find_row
lookup-find_row p [] k old keyed h = cc h
lookup-find_row p ((j, r) ∷ t) k old keyed h =
    ground (arith, h, keyed.0, lookup-find_row p t k old keyed.1)

pub first-save_miss :
    {R : Type 0} (q : ℕ → R → Bool) (k : ℕ) (old new : R) (t : Table R)
    → IsKeyed t
    → q k old ≡ false
    → q k new ≡ false
    → lookup k t ≡ some old
    → first q (save k new t) ≡ first q t
unfolding lookup save first
first-save_miss q k old new [] keyed e f h = refl
first-save_miss q k old new ((j, r) ∷ t) keyed e f h =
    ground (arith, h, e, f, keyed.0, save_absent k new t, first-save_miss q k old new t keyed.1 e f)

pub first-save_hit :
    {R : Type 0} (p : ℕ → R → Bool) (k : ℕ) (old new : R) (t : Table R)
    → IsKeyed t
    → leb (count_rows p t) 1 ≡ true
    → p k new ≡ true
    → find_row p t ≡ some (k, old)
    → first p (save k new t) ≡ some (k, new)
unfolding lookup save first find_row count_rows
first-save_hit p k old new [] keyed one e h = cc h
first-save_hit p k old new ((j, r) ∷ t) keyed one e h =
    by_test (p j r) refl one h (λ g. first-save_hit p k old new t keyed.1 g e)
  where
    saved_head : j ≡ k → count_rows p t ≡ 0 → first p (save k new ((j, r) ∷ t)) ≡ some (k, new)
    saved_head same none_left =
        ground (arith, same, e, keyed.0, save_absent k new t, first_of_none p t none_left)

    by_test :
        (b : Bool)
        → p j r ≡ b
        → leb (if b then suc (count_rows p t) else count_rows p t) 1 ≡ true
        → (if b then some (j, r) else find_row p t) ≡ some (k, old)
        → (leb (count_rows p t) 1 ≡ true
            → find_row p t ≡ some (k, old)
            → first p (save k new t) ≡ some (k, new))
        → first p (save k new ((j, r) ∷ t)) ≡ some (k, new)
    by_test true test g found ih = saved_head (cc found) (ground (arith, g))
    by_test false test g found ih =
        ground (arith, test, keyed.0, lookup-find_row p t k old keyed.1 found, ih g found)

pub count_of_none :
    {R : Type 0} (p : ℕ → R → Bool) (t : Table R) → find_row p t ≡ none → count_rows p t ≡ 0
unfolding count_rows find_row
count_of_none p [] h = refl
count_of_none p ((j, r) ∷ t) h = ground (arith, h, count_of_none p t)

pub first-insert_hit :
    {R : Type 0} (p : ℕ → R → Bool) (k : ℕ) (new : R) (t : Table R)
    → count_rows p t ≡ 0
    → p k new ≡ true
    → first p (insert k new t) ≡ some (k, new)
unfolding insert first
first-insert_hit p k new t h e = ground (arith, e, first_of_none p t h)

pub first-insert_miss :
    {R : Type 0} (p : ℕ → R → Bool) (k : ℕ) (new : R) (t : Table R)
    → p k new ≡ false
    → first p (insert k new t) ≡ first p t
unfolding insert first
first-insert_miss p k new t e = ground (arith, e)
