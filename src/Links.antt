-- ===== src/Links.antt =====
-- A many-to-many table: pairs of keys, each at most once. `add` of a pair that is there does
-- nothing, as Django's does, and neither does `remove` of one that is not.
use quorfix.Prelude.{ℕ, ◌≡◌, Bool, true, false, ◌&&◌, List, [], ◌∷◌, arith, if◌then◌else◌, ◌==◌}

abbrev pub Links : Type 0
Links = List (ℕ × ℕ)

unfoldable pub linked : ℕ → ℕ → Links → Bool
linked a b [] = false
linked a b ((x, y) ∷ l) = if x == a && y == b then true else linked a b l

unfoldable pub add_link : ℕ → ℕ → Links → Links
unfolding linked
add_link a b l = if linked a b l then l else (a, b) ∷ l

unfoldable pub remove_link : ℕ → ℕ → Links → Links
remove_link a b [] = []
remove_link a b ((x, y) ∷ l) =
    let rest = remove_link a b l in if x == a && y == b then rest else (x, y) ∷ rest

pub linked-add_link :
    (a b c d : ℕ) (l : Links)
    → linked c d (add_link a b l) ≡ (if a == c && b == d then true else linked c d l)
unfolding add_link
linked-add_link a b c d l = ground arith

pub linked-remove_link :
    (a b c d : ℕ) (l : Links)
    → linked c d (remove_link a b l) ≡ (if a == c && b == d then false else linked c d l)
unfolding linked remove_link
linked-remove_link a b c d [] = ground arith
linked-remove_link a b c d ((x, y) ∷ l) = ground (arith, linked-remove_link a b c d l)
