-- ===== src/Bugs/Services/Relationships.antt =====
-- `create_relationship` and `remove_relationship`; the links `duplicate_of` are made by a transition.
use quorfix.Prelude.{
  ℕ, ◌+◌, Bool, true, false, not, Option, none, some, ◌&&◌, ◌||◌, ◌++◌, [], Text, codes, ltb,
  if◌then◌else◌, ◌==◌,
}
use quorfix.Exec.{pure, raise, raise_if, fetch, modify, atomic, ◌>>=◌, ◌>>◌}
use quorfix.Env.{Env}
use quorfix.Table.{lookup, delete}
use quorfix.Activities.{record_bug_activity}
use quorfix.Models.{
  Db, Bug, BugRelationship, RelationshipType, Membership, ActivityVerb, relationship_value,
}
use quorfix.Bugs.Policies.{can_manage_relationships}
use quorfix.Bugs.Monad.{
  Action, permission_denied, invalid_relationship_type, related_bug_not_found,
  self_relationship_not_allowed, duplicate_bug_relationship, relationship_not_found, does_not_exist,
  data_error, lock_bug, check_version, check_mutable, save_bug,
}
use quorfix.Bugs.Services.Duplicates.{is_duplicate_of, bug_in_organization}
use quorfix.Bugs.Services.Transition.{Made, made, activity_of, get_or_create_relationship}

abbrev is_relates_to : RelationshipType → Bool
is_relates_to RelationshipType.relates_to = true
is_relates_to _ = false

-- `from_bug, to_bug`: a symmetric link goes from the lesser key to the greater. `sorted` is stable,
-- and the two keys differ.
unfoldable pub endpoints : RelationshipType → ℕ → ℕ → ℕ × ℕ
endpoints kind bug target =
    if is_relates_to kind && ltb target bug then (target, bug) else (bug, target)

unfoldable pub raise_unless_made : Made → Action Unit
raise_unless_made made = pure tt
raise_unless_made _ = raise duplicate_bug_relationship

-- `f"{relationship_type}:{target.key}"`
unfoldable pub link_text : RelationshipType → Bug → Text
unfolding relationship_value
link_text kind target = relationship_value kind ++ (codes ":" ++ target.key)

unfoldable pub create_relationship :
    Env → ℕ → Option ℕ → Option Membership → ℕ → RelationshipType → ℕ → Action Bug
unfolding can_manage_relationships lock_bug check_version check_mutable bug_in_organization
    endpoints get_or_create_relationship raise_unless_made save_bug record_bug_activity link_text
create_relationship env pk actor membership related kind expected = do
  raise_if (is_duplicate_of kind) invalid_relationship_type
  raise_if (not (can_manage_relationships membership)) permission_denied
  atomic (do
    locked ← lock_bug pk
    check_version locked.bug expected
    check_mutable locked.bug locked.project
    target ← fetch (bug_in_organization locked.bug.organization related) related_bug_not_found
    raise_if (related == pk) self_relationship_not_allowed
    let ends = endpoints kind pk related
    outcome ← get_or_create_relationship (env.uuid 0) (record {
      organization = locked.bug.organization;
      from_bug = ends.0;
      to_bug = ends.1;
      relationship_type = kind;
      created_by = actor;
    })
    raise_unless_made outcome
    let saved = record locked.bug { version = locked.bug.version + 1 }
    save_bug pk saved
    record_bug_activity data_error (env.uuid 1)
        (activity_of env pk saved actor ActivityVerb.relationship_added [] (link_text kind target))
    pure saved)

abbrev touching : ℕ → ℕ → Option BugRelationship → Option BugRelationship
touching organization pk none = none
touching organization pk (some r) =
    if r.organization == organization && (r.from_bug == pk || r.to_bug == pk) then some r else none

-- The relationship under the key, if it is the organization's and has the bug at one end.
unfoldable pub relationship_of : ℕ → ℕ → ℕ → Db → Option BugRelationship
unfolding lookup
relationship_of organization pk relationship db =
    touching organization pk (lookup relationship db.relationships)

unfoldable pub remove_relationship : Env → ℕ → Option ℕ → Option Membership → ℕ → ℕ → Action Bug
unfolding can_manage_relationships lock_bug check_version check_mutable relationship_of lookup
    delete save_bug record_bug_activity link_text
remove_relationship env pk actor membership relationship expected = do
  raise_if (not (can_manage_relationships membership)) permission_denied
  atomic (do
    locked ← lock_bug pk
    check_version locked.bug expected
    check_mutable locked.bug locked.project
    rel ← fetch (relationship_of locked.bug.organization pk relationship) relationship_not_found
    other ←
        fetch (λ db. lookup (if rel.from_bug == pk then rel.to_bug else rel.from_bug) db.bugs)
          does_not_exist
    modify (λ db. record db { relationships = delete relationship db.relationships })
    let saved = record locked.bug { version = locked.bug.version + 1 }
    save_bug pk saved
    record_bug_activity data_error (env.uuid 0) (
        activity_of env pk saved actor ActivityVerb.relationship_removed
          (link_text rel.relationship_type other) [])
    pure saved)
