-- ===== src/Bugs/Services/Duplicates.antt =====
-- `_validate_duplicate_target` and the walk along the `duplicate_of` links.
pub mod Acyclic
pub mod Links
use quorfix.Prelude.{
  ℕ, zero, suc, Bool, true, false, Option, none, some, ◌&&◌, if◌then◌else◌, ◌==◌, is_some,
}
use quorfix.Exec.{ok, err, pure, raise, raise_if, fetch, ◌>>=◌, ◌>>◌}
use quorfix.Table.{Table, lookup, first}
use quorfix.Models.{Db, Bug, BugRelationship, RelationshipType}
use quorfix.Bugs.Monad.{
  Action, related_bug_not_found, self_relationship_not_allowed, duplicate_target_archived,
  duplicate_cycle_detected, duplicate_chain_unverifiable,
}

abbrev pub max_duplicate_chain_depth : ℕ
max_duplicate_chain_depth = 25

abbrev pub is_duplicate_of : RelationshipType → Bool
is_duplicate_of RelationshipType.duplicate_of = true
is_duplicate_of _ = false

-- `BugRelationship.objects.filter(from_bug=current, relationship_type=DUPLICATE_OF)`
abbrev pub links_from : ℕ → ℕ → BugRelationship → Bool
links_from bug _ rel = rel.from_bug == bug && is_duplicate_of rel.relationship_type

abbrev pub target_of : Option (ℕ × BugRelationship) → Option ℕ
target_of none = none
target_of (some (_, rel)) = some rel.to_bug

-- `next_rel.to_bug`, `none` where no row leaves the bug
unfoldable pub next_duplicate : Table BugRelationship → ℕ → Option ℕ
unfolding first
next_duplicate rels bug = target_of (first (links_from bug) rels)

-- How the walk ends: with `True`, with `False`, or with `DuplicateChainUnverifiable`.
pub data Walk : Type 0 where
  found not_found unverifiable : Walk

-- The `for` loop, on the rounds that are left.
unfoldable pub walk : Table BugRelationship → ℕ → ℕ → ℕ → Walk
unfolding next_duplicate
walk rels needle zero current = unverifiable
walk rels needle (suc rounds) current = elim (current == needle) [
  | true ↦ found
  | false ↦ elim (next_duplicate rels current) [
    | none ↦ not_found
    | some next ↦ walk rels needle rounds next
  ]
]

unfoldable pub duplicate_chain_reaches : Table BugRelationship → ℕ → ℕ → Walk
unfolding walk
duplicate_chain_reaches rels start needle = walk rels needle max_duplicate_chain_depth start

unfoldable pub raise_on : Walk → Action Unit
raise_on found = raise duplicate_cycle_detected
raise_on not_found = pure tt
raise_on unverifiable = raise duplicate_chain_unverifiable

abbrev pub in_organization : ℕ → Option Bug → Option Bug
in_organization organization none = none
in_organization organization (some b) = if b.organization == organization then some b else none

-- `Bug.objects.filter(organization=..., pk=...).first()`
unfoldable pub bug_in_organization : ℕ → ℕ → Db → Option Bug
unfolding lookup
bug_in_organization organization pk db = in_organization organization (lookup pk db.bugs)

unfoldable pub validate_duplicate_target : ℕ → Bug → ℕ → Action Bug
unfolding bug_in_organization duplicate_chain_reaches raise_on
validate_duplicate_target pk bug duplicate_of = do
  target ← fetch (bug_in_organization bug.organization duplicate_of) related_bug_not_found
  raise_if (duplicate_of == pk) self_relationship_not_allowed
  raise_if (is_some target.archived_at) duplicate_target_archived
  λ db. raise_on (duplicate_chain_reaches db.relationships duplicate_of pk) db
  pure target
