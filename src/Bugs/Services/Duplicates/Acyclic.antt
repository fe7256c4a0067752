-- ===== src/Bugs/Services/Duplicates/Acyclic.antt =====
-- The walk along the first `duplicate_of` row of each bug.
use quorfix.Prelude.{
  ℕ, zero, suc, ◌≡◌, ◌⊎◌, inl, inr, refl, true, Option, none, some, arith, if◌then◌else◌, ◌==◌,
  Bool-cases, is_some, Option-cases, subst, sym,
}
use quorfix.Table.{Table, first, insert}
use quorfix.Models.{BugRelationship}
use quorfix.Bugs.Services.Duplicates.{
  links_from, next_duplicate, is_duplicate_of, target_of, Walk, found, not_found, unverifiable,
  walk, duplicate_chain_reaches, max_duplicate_chain_depth,
}

-- The first rows lead from one bug to another.
pub data Followed (rels : Table BugRelationship) : ℕ → ℕ → Type 0 where
  here : (a : ℕ) → Followed rels a a
  more : {a b c : ℕ} → next_duplicate rels a ≡ some b → Followed rels b c → Followed rels a c

-- The bug that `n` links lead to.
unfoldable pub nth_duplicate : Table BugRelationship → ℕ → ℕ → Option ℕ
nth_duplicate rels zero a = some a
nth_duplicate rels (suc n) a = elim (next_duplicate rels a) [
  | none ↦ none
  | some b ↦ nth_duplicate rels n b
]

-- No bug leads back to itself over first rows.
abbrev pub NeverReturns : Table BugRelationship → Type 0
NeverReturns rels = (a b : ℕ) → next_duplicate rels a ≡ some b → ¬ (Followed rels b a)

Followed-trans :
    {rels : Table BugRelationship} {a b c : ℕ}
    → Followed rels a b
    → Followed rels b c
    → Followed rels a c
Followed-trans (here a) q = q
Followed-trans (more e r) q = more e (Followed-trans r q)

module _ (rels : Table BugRelationship) (needle : ℕ) where
  walk-found : (n current : ℕ) → walk rels needle n current ≡ found → Followed rels current needle
  unfolding walk
  walk-found zero current h = cc
  walk-found (suc n) current h = elim (Bool-cases (current == needle)) [
    | inl e ↦ (let same : current ≡ needle = ground arith in rw same (here needle))
    | inr e ↦ elim (Option-cases (next_duplicate rels current)) [
      | inl stop ↦ absurd (ground arith)
      | inr (next, step) ↦ more step (walk-found n next (ground arith))
    ]
  ]

  walk-not_found :
      (n current : ℕ) → walk rels needle n current ≡ not_found → ¬ (Followed rels current needle)
  unfolding walk
  walk-not_found zero current h c = cc
  walk-not_found (suc n) current h (here a) = ground arith
  walk-not_found (suc n) current h (more {b = b} step rest) = walk-not_found n b (ground arith) rest

  walk-unverifiable :
      (n current : ℕ)
      → walk rels needle n current ≡ unverifiable
      → is_some (nth_duplicate rels n current) ≡ true
  unfolding walk nth_duplicate
  walk-unverifiable zero current h = refl
  walk-unverifiable (suc n) current h = elim (Option-cases (next_duplicate rels current)) [
    | inl stop ↦ absurd (ground arith)
    | inr (next, step) ↦ ground (arith, walk-unverifiable n next)
  ]

-- What each end of the walk says: a chain to the bug, no chain to it however long, or more links in
-- a row than the walk follows.
abbrev pub FollowedVerdict : Table BugRelationship → ℕ → ℕ → Walk → Type 0
FollowedVerdict rels start needle found = Followed rels start needle
FollowedVerdict rels start needle not_found = ¬ (Followed rels start needle)
FollowedVerdict rels start needle unverifiable =
    is_some (nth_duplicate rels max_duplicate_chain_depth start) ≡ true

pub duplicate_chain_reaches_followed :
    (rels : Table BugRelationship) (start needle : ℕ)
    → FollowedVerdict rels start needle (duplicate_chain_reaches rels start needle)
unfolding duplicate_chain_reaches
duplicate_chain_reaches_followed rels start needle =
    by_end (walk rels needle max_duplicate_chain_depth start) refl
  where
    by_end :
        (w : Walk)
        → walk rels needle max_duplicate_chain_depth start ≡ w
        → FollowedVerdict rels start needle w
    by_end found h = walk-found rels needle max_duplicate_chain_depth start h
    by_end not_found h = walk-not_found rels needle max_duplicate_chain_depth start h
    by_end unverifiable h = walk-unverifiable rels needle max_duplicate_chain_depth start h

target_none : (o : Option (ℕ × BugRelationship)) → target_of o ≡ none → o ≡ none
target_none none h = refl
target_none (some r) h = cc

module _ (rels : Table BugRelationship) (k : ℕ) (rel : BugRelationship) where
  -- A first link from a bug is the one that the walk follows.
  pub next_duplicate-insert :
      (j : ℕ)
      → is_duplicate_of rel.relationship_type ≡ true
      → next_duplicate rels rel.from_bug ≡ none
      → next_duplicate (insert k rel rels) j
        ≡ (if rel.from_bug == j then some rel.to_bug else next_duplicate rels j)
  unfolding next_duplicate insert
  next_duplicate-insert j kind free = elim (Bool-cases (rel.from_bug == j)) [
    | inl e ↦
        let same : rel.from_bug ≡ j = ground arith in
        let nothing : first (links_from j) rels ≡ none =
          target_none _ (subst (λ i. target_of (first (links_from i) rels) ≡ none) same free) in
        rw (e, kind, nothing) refl
    | inr e ↦ rw e refl
  ]

  abbrev Through : ℕ → ℕ → Type 0
  Through a c = Followed rels a c ⊎ (Followed rels a rel.from_bug × Followed rels rel.to_bug c)

  prefix : {a b c : ℕ} → next_duplicate rels a ≡ some b → Through b c → Through a c
  prefix step (inl r) = inl (more step r)
  prefix step (inr (r, q)) = inr (more step r, q)

  from_link : {c : ℕ} → Through rel.to_bug c → Followed rels rel.to_bug c
  from_link (inl r) = r
  from_link (inr (r, q)) = q

  -- A chain over the new links goes over old ones, before and after the new one.
  through :
      is_duplicate_of rel.relationship_type ≡ true
      → next_duplicate rels rel.from_bug ≡ none
      → {a c : ℕ} → Followed (insert k rel rels) a c
      → Through a c
  through kind free (here a) = inl (here a)
  through kind free (more {a = a} {b = b} {c = c} step rest) =
      let ih = through kind free rest in
      elim (Bool-cases (rel.from_bug == a)) [
        | inl e ↦
            let same : rel.from_bug ≡ a = ground arith in
            let to : rel.to_bug ≡ b = ground (arith, next_duplicate-insert a kind free) in
            inr (rw same (here a), from_link (subst (λ x. Through x c) (sym to) ih))
        | inr e ↦
            let old : next_duplicate rels a ≡ some b =
              ground (arith, next_duplicate-insert a kind free) in
            prefix old ih
      ]

  -- A link that the walk has cleared closes no cycle.
  pub insert-NeverReturns :
      is_duplicate_of rel.relationship_type ≡ true
      → next_duplicate rels rel.from_bug ≡ none
      → ¬ (Followed rels rel.to_bug rel.from_bug)
      → NeverReturns rels
      → NeverReturns (insert k rel rels)
  insert-NeverReturns kind free apart acyclic a b step cycle =
      let round = through kind free cycle in
      elim (Bool-cases (rel.from_bug == a)) [
        | inl e ↦
            let same : a ≡ rel.from_bug = ground arith in
            let to : b ≡ rel.to_bug = ground (arith, next_duplicate-insert a kind free) in
            closed (subst (Through _) same (subst (λ x. Through x a) to round))
        | inr e ↦
            let old : next_duplicate rels a ≡ some b =
              ground (arith, next_duplicate-insert a kind free) in
            closed_elsewhere a b old round
      ]
    where
      closed : Through rel.to_bug rel.from_bug → ⊥
      closed r = apart (from_link r)

      closed_elsewhere : (a b : ℕ) → next_duplicate rels a ≡ some b → Through b a → ⊥
      closed_elsewhere a b old (inl r) = acyclic a b old r
      closed_elsewhere a b old (inr (r, q)) = apart (Followed-trans q (more old r))
