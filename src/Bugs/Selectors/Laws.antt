-- ===== src/Bugs/Selectors/Laws.antt =====
-- The list of bugs: which rows, and in which order.
use quorfix.Prelude.{
  ℕ, suc, ◌≡◌, refl, ◌∙◌, ap, Bool, true, false, not, ◌&&◌, Option, [], ◌∷◌, Text, leb,
  if◌then◌else◌, arith,
}
use quorfix.Table.{Table, filter_rows, count_rows}
use quorfix.Models.{Db, Bug}
use quorfix.Bugs.Selectors.{Query, is_listed, list_bugs}
use quorfix.Bugs.Selectors.Ordering.{
  SortField, first_term, second_term, less, may_precede, insert_by, sorted_by,
}

-- Each row may precede the next.
abbrev pub is_ordered : (ℕ × Bug → ℕ × Bug → Bool) → Table Bug → Bool
is_ordered le [] = true
is_ordered le (a ∷ []) = true
is_ordered le (a ∷ b ∷ rows) = le a b && is_ordered le (b ∷ rows)

less_asymmetric : (x y : ℕ × ℕ) → less x y ≡ true → less y x ≡ false
less_asymmetric (a, b) (c, d) h = ground (arith, h)

terms-total :
    (descending p q : Bool) (u v : ℕ)
    → (p ≡ true → q ≡ false)
    → (if p then not descending else if q then descending else leb v u) ≡ false
    → (if q then not descending else if p then descending else leb u v) ≡ true
terms-total descending true true u v apart h = absurd (cc (apart refl))
terms-total true true false u v apart h = refl
terms-total false true false u v apart h = absurd (cc h)
terms-total true false true u v apart h = absurd (cc h)
terms-total false false true u v apart h = refl
terms-total descending false false u v apart h = ground (arith, h)

may_precede-total :
    (ordering : Bool × SortField) (a b : ℕ × Bug)
    → may_precede ordering a b ≡ false
    → may_precede ordering b a ≡ true
unfolding may_precede
may_precede-total (descending, field) (j, a) (k, b) h =
    terms-total descending (less (first_term field a) (first_term field b))
      (less (first_term field b) (first_term field a)) (second_term field j a)
      (second_term field k b) (less_asymmetric (first_term field a) (first_term field b)) h

module _ (le : ℕ × Bug → ℕ × Bug → Bool)
    (total : (a b : ℕ × Bug) → le a b ≡ false → le b a ≡ true) where
  -- Below a row that may precede both the new one and the rest, the new one finds its place.
  insert_under :
      (first row : ℕ × Bug) (rows : Table Bug)
      → is_ordered le (first ∷ rows) ≡ true
      → le first row ≡ true
      → is_ordered le (insert_by le row rows) ≡ true
      → is_ordered le (first ∷ insert_by le row rows) ≡ true
  insert_under first row [] h under good = ground (arith, under)
  insert_under first row (second ∷ rows) h under good = by_test (le row second) good
    where
      by_test :
          (b : Bool)
          → is_ordered le (if b then row ∷ second ∷ rows else second ∷ insert_by le row rows) ≡ true
          → is_ordered le
              (first ∷ (if b then row ∷ second ∷ rows else second ∷ insert_by le row rows))
            ≡ true
      by_test true g = ground (arith, under, g)
      by_test false g = ground (arith, h, g)

  tail-is_ordered :
      (row : ℕ × Bug) (rows : Table Bug)
      → is_ordered le (row ∷ rows) ≡ true
      → is_ordered le rows ≡ true
  tail-is_ordered row [] h = refl
  tail-is_ordered row (next ∷ rows) h = ground (arith, h)

  insert_by-is_ordered :
      (row : ℕ × Bug) (rows : Table Bug)
      → is_ordered le rows ≡ true
      → is_ordered le (insert_by le row rows) ≡ true
  insert_by-is_ordered row [] h = refl
  insert_by-is_ordered row (first ∷ rows) h =
      by_test (le row first) refl (insert_by-is_ordered row rows (tail-is_ordered first rows h))
    where
      by_test :
          (b : Bool)
          → le row first ≡ b
          → is_ordered le (insert_by le row rows) ≡ true
          → is_ordered le (if b then row ∷ first ∷ rows else first ∷ insert_by le row rows) ≡ true
      by_test true e g = ground (arith, e, h)
      by_test false e g = insert_under first row rows h (total row first e) g

sorted_by-is_ordered :
    (ordering : Bool × SortField) (rows : Table Bug)
    → is_ordered (may_precede ordering) (sorted_by ordering rows) ≡ true
unfolding sorted_by
sorted_by-is_ordered ordering [] = refl
sorted_by-is_ordered ordering (row ∷ rows) =
    insert_by-is_ordered (may_precede ordering) (may_precede-total ordering) row
      (sorted_by ordering rows) (sorted_by-is_ordered ordering rows)

swapped_counts :
    (a b : Bool) (n m : ℕ)
    → m ≡ (if a then suc n else n)
    → (if b then suc m else m)
      ≡ (if a then suc (if b then suc n else n) else if b then suc n else n)
swapped_counts true true n m h = ap suc h
swapped_counts true false n m h = h
swapped_counts false true n m h = ap suc h
swapped_counts false false n m h = h

count_rows-insert_by :
    (p : ℕ → Bug → Bool) (le : ℕ × Bug → ℕ × Bug → Bool) (row : ℕ × Bug) (rows : Table Bug)
    → count_rows p (insert_by le row rows) ≡ count_rows p (row ∷ rows)
unfolding count_rows
count_rows-insert_by p le (k, r) [] = refl
count_rows-insert_by p le (k, r) ((j, q) ∷ rows) =
    by_test (le (k, r) (j, q)) (count_rows-insert_by p le (k, r) rows)
  where
    by_test :
        (b : Bool)
        → count_rows p (insert_by le (k, r) rows) ≡ count_rows p ((k, r) ∷ rows)
        → count_rows p (if b then (k, r) ∷ (j, q) ∷ rows else (j, q) ∷ insert_by le (k, r) rows)
          ≡ count_rows p ((k, r) ∷ (j, q) ∷ rows)
    by_test true h = refl
    by_test false h =
        swapped_counts (p k r) (p j q) (count_rows p rows) (count_rows p (insert_by le (k, r) rows))
          h

count_rows-sorted_by :
    (p : ℕ → Bug → Bool) (ordering : Bool × SortField) (rows : Table Bug)
    → count_rows p (sorted_by ordering rows) ≡ count_rows p rows
unfolding sorted_by count_rows
count_rows-sorted_by p ordering [] = refl
count_rows-sorted_by p ordering ((k, r) ∷ rows) =
    count_rows-insert_by p (may_precede ordering) (k, r) (sorted_by ordering rows)
    ∙ ap (λ n. if p k r then suc n else n) (count_rows-sorted_by p ordering rows)

count_rows-filter_rows :
    (p q : ℕ → Bug → Bool) (rows : Table Bug)
    → count_rows p (filter_rows q rows) ≡ count_rows (λ k r. q k r && p k r) rows
unfolding count_rows filter_rows
count_rows-filter_rows p q [] = refl
count_rows-filter_rows p q ((k, r) ∷ rows) = by_test (q k r) (count_rows-filter_rows p q rows)
  where
    both : ℕ → Bug → Bool
    both k r = q k r && p k r

    by_test :
        (b : Bool)
        → count_rows p (filter_rows q rows) ≡ count_rows both rows
        → count_rows p (if b then (k, r) ∷ filter_rows q rows else filter_rows q rows)
          ≡ (if b && p k r then suc (count_rows both rows) else count_rows both rows)
    by_test true h = ap (λ n. if p k r then suc n else n) h
    by_test false h = h

-- The rows of a list are those wanted, each as often as in the table, and in order.
record Lists (wanted : ℕ → Bug → Bool) (ordering : Bool × SortField) (table rows : Table Bug)
    : Type 0 where
  pub same_rows :
      (p : ℕ → Bug → Bool) → count_rows p rows ≡ count_rows (λ k r. wanted k r && p k r) table
  pub in_order : is_ordered (may_precede ordering) rows ≡ true

-- The list of bugs holds every row of the organization that passes the filters, as often as the
-- table does, and no other row, in an order in which each row may stand before the next.
list_bugs-Lists :
    (lower upper : Text → Text) (today : ℕ) (db : Db) (organization : ℕ) (viewer : Option ℕ)
    (q : Query)
    → Lists
        (is_listed lower upper today db organization viewer q)
        q.ordering
        db.bugs
        (list_bugs lower upper today db organization viewer q)
unfolding list_bugs
list_bugs-Lists lower upper today db organization viewer q =
    let wanted = is_listed lower upper today db organization viewer q in
    record {
      same_rows = λ p.
          count_rows-sorted_by p q.ordering (filter_rows wanted db.bugs)
          ∙ count_rows-filter_rows p wanted db.bugs;
      in_order = sorted_by-is_ordered q.ordering (filter_rows wanted db.bugs);
    }
