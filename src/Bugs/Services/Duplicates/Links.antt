-- ===== src/Bugs/Services/Duplicates/Links.antt =====
-- The `duplicate_of` rows as links between bugs, all of them, and what the bounded walk says of them.
use quorfix.Prelude.{
  ℕ, zero, suc, ◌≡◌, refl, Bool, true, false, Option, none, some, ◌&&◌, ◌==◌, leb, arith, ap, subst,
  is_some, Bool-cases, Option-cases, inl, inr, [], ◌∷◌,
}
use quorfix.Table.{Table, first, insert, exists_row, count_rows}
use quorfix.Table.Laws.{first_passes}
use quorfix.Table.Firsts.{first_of_none}
use quorfix.Models.{BugRelationship}
use quorfix.Bugs.Services.Duplicates.{
  links_from, next_duplicate, is_duplicate_of, target_of, Walk, found, not_found, unverifiable,
  duplicate_chain_reaches, max_duplicate_chain_depth,
}
use quorfix.Bugs.Services.Duplicates.Acyclic.{
  Followed, here, more, nth_duplicate, NeverReturns, FollowedVerdict,
  duplicate_chain_reaches_followed,
}

-- A row that says that `a` is a duplicate of `b`.
abbrev pub is_duplicate_row : ℕ → ℕ → ℕ → BugRelationship → Bool
is_duplicate_row a b _ rel =
    rel.from_bug == a && is_duplicate_of rel.relationship_type && rel.to_bug == b

-- Any row of the table does.
abbrev pub Linked : Table BugRelationship → ℕ → ℕ → Type 0
Linked rels a b = exists_row (is_duplicate_row a b) rels ≡ true

-- A number of links in a row.
pub data Chain (rels : Table BugRelationship) : ℕ → ℕ → ℕ → Type 0 where
  stay : (a : ℕ) → Chain rels 0 a a
  link : {n a b c : ℕ} → Linked rels a b → Chain rels n b c → Chain rels (suc n) a c

-- No bug is a duplicate of two.
abbrev pub IsSingle : Table BugRelationship → Type 0
IsSingle rels = (a : ℕ) → leb (count_rows (links_from a) rels) 1 ≡ true

-- No bug is a duplicate of two, and none is, over however many links, a duplicate of itself.
pub record IsForest (rels : Table BugRelationship) : Type 0 where
  pub single : IsSingle rels
  pub acyclic : (a b n : ℕ) → Linked rels a b → ¬ (Chain rels n b a)

first-exists :
    {R : Type 0} (p q : ℕ → R → Bool) (t : Table R) (k : ℕ) (r : R)
    → first p t ≡ some (k, r)
    → q k r ≡ true
    → exists_row q t ≡ true
unfolding first exists_row
first-exists p q [] k r h e = cc h
first-exists p q ((j, s) ∷ t) k r h e = elim (Option-cases (first p t)) [
  | inl none_left ↦ ground (arith, h, e, none_left)
  | inr (m, at) ↦ ground (arith, h, e, at, first-exists p q t k r)
]

next_duplicate-Linked :
    (rels : Table BugRelationship) (a b : ℕ) → next_duplicate rels a ≡ some b → Linked rels a b
unfolding next_duplicate
next_duplicate-Linked rels a b h = by_first (first (links_from a) rels) refl h
  where
    by_first :
        (o : Option (ℕ × BugRelationship))
        → first (links_from a) rels ≡ o
        → target_of o ≡ some b
        → Linked rels a b
    by_first none e g = cc g
    by_first (some (k, rel)) e g =
        let passes : links_from a k rel ≡ true = first_passes (links_from a) rels e in
        let to : rel.to_bug ≡ b = cc g in
        first-exists (links_from a) (is_duplicate_row a b) rels k rel e (ground (arith, passes, to))

exists-count :
    (a b : ℕ) (rels : Table BugRelationship)
    → count_rows (links_from a) rels ≡ 0
    → exists_row (is_duplicate_row a b) rels ≡ false
unfolding count_rows exists_row
exists-count a b [] h = refl
exists-count a b ((k, rel) ∷ rels) h = ground (arith, h, exists-count a b rels)

Linked-next_duplicate :
    (a b : ℕ) (rels : Table BugRelationship)
    → leb (count_rows (links_from a) rels) 1 ≡ true
    → Linked rels a b
    → next_duplicate rels a ≡ some b
unfolding next_duplicate count_rows exists_row first
Linked-next_duplicate a b [] one h = cc h
Linked-next_duplicate a b ((k, rel) ∷ rels) one h = ground (
  arith,
  one,
  h,
  exists-count a b rels,
  first_of_none (links_from a) rels,
  Linked-next_duplicate a b rels,
)

Followed-Chain :
    {rels : Table BugRelationship} {a c : ℕ} → Followed rels a c → (n : ℕ) × Chain rels n a c
Followed-Chain (here a) = (0, stay a)
Followed-Chain {rels} (more {a = a} {b = b} e rest) =
    let ih = Followed-Chain rest in (suc ih.0, link (next_duplicate-Linked rels a b e) ih.1)

nth_duplicate-Chain :
    (rels : Table BugRelationship) (n a : ℕ)
    → is_some (nth_duplicate rels n a) ≡ true
    → (c : ℕ) × Chain rels n a c
unfolding nth_duplicate
nth_duplicate-Chain rels zero a h = (a, stay a)
nth_duplicate-Chain rels (suc n) a h = elim (Option-cases (next_duplicate rels a)) [
  | inl stop ↦ absurd (ground (arith, h, stop))
  | inr (b, e) ↦
      let ih = nth_duplicate-Chain rels n b (ground (arith, h, e)) in
      (ih.0, link (next_duplicate-Linked rels a b e) ih.1)
]

module _ (rels : Table BugRelationship) (single : IsSingle rels) where
  Chain-Followed : {n a c : ℕ} → Chain rels n a c → Followed rels a c
  Chain-Followed (stay a) = here a
  Chain-Followed (link {a = a} {b = b} e rest) =
      more (Linked-next_duplicate a b rels (single a) e) (Chain-Followed rest)

  -- What each end of the walk says of the links: some lead to the bug, none do, however many are
  -- followed, or there are more in a row than the walk follows.
  abbrev pub Verdict : ℕ → ℕ → Walk → Type 0
  Verdict start needle found = (n : ℕ) × Chain rels n start needle
  Verdict start needle not_found = (n : ℕ) → ¬ (Chain rels n start needle)
  Verdict start needle unverifiable = (c : ℕ) × Chain rels max_duplicate_chain_depth start c

  -- Where no bug has two `duplicate_of` rows, the bounded walk is right about the rows: `True`
  -- comes with a chain of rows from the start to the bug, `False` means that there is none,
  -- however long, and `DuplicateChainUnverifiable` is raised only where 25 rows do lead on from
  -- the start.
  pub duplicate_chain_reaches_sound :
      (start needle : ℕ) → Verdict start needle (duplicate_chain_reaches rels start needle)
  duplicate_chain_reaches_sound start needle =
      by_end (duplicate_chain_reaches rels start needle)
        (duplicate_chain_reaches_followed rels start needle)
    where
      by_end : (w : Walk) → FollowedVerdict rels start needle w → Verdict start needle w
      by_end found followed = Followed-Chain followed
      by_end not_found apart = λ n chain. apart (Chain-Followed chain)
      by_end unverifiable on = nth_duplicate-Chain rels max_duplicate_chain_depth start on

  acyclic-NeverReturns : ((a b n : ℕ) → Linked rels a b → ¬ (Chain rels n b a)) → NeverReturns rels
  acyclic-NeverReturns acyclic a b e back =
      let chain = Followed-Chain back in
      acyclic a b chain.0 (next_duplicate-Linked rels a b e) chain.1

-- A forest, by its first rows.
pub IsForest-NeverReturns : {rels : Table BugRelationship} → IsForest rels → NeverReturns rels
IsForest-NeverReturns {rels} forest = acyclic-NeverReturns rels forest.single forest.acyclic

pub NeverReturns-IsForest :
    (rels : Table BugRelationship) → IsSingle rels → NeverReturns rels → IsForest rels
NeverReturns-IsForest rels single never = record {
  single = single;
  acyclic = λ a b n e back.
      never a b (Linked-next_duplicate a b rels (single a) e) (Chain-Followed rels single back);
}

-- A link from a bug that has none makes no second one.
pub insert-IsSingle :
    (rels : Table BugRelationship) (k : ℕ) (rel : BugRelationship)
    → count_rows (links_from rel.from_bug) rels ≡ 0
    → IsSingle rels
    → IsSingle (insert k rel rels)
unfolding count_rows insert
insert-IsSingle rels k rel free single a = elim (Bool-cases (rel.from_bug == a)) [
  | inl e ↦
      let same : rel.from_bug ≡ a = ground arith in
      let none_yet : count_rows (links_from a) rels ≡ 0 =
        subst (λ i. count_rows (links_from i) rels ≡ 0) same free in
      ground (arith, e, none_yet)
  | inr e ↦ ground (arith, e, single a)
]

pub free-next_duplicate :
    (rels : Table BugRelationship) (a : ℕ)
    → count_rows (links_from a) rels ≡ 0
    → next_duplicate rels a ≡ none
unfolding next_duplicate
free-next_duplicate rels a free = ap target_of (first_of_none (links_from a) rels free)
