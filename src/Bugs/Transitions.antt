-- ===== src/Bugs/Transitions.antt =====
-- What a transition that succeeds has checked and done.
use quorfix.Prelude.{
  ℕ, ◌≡◌, ◌⊎◌, inl, inr, some, none, Option, Bool, true, false, arith, refl, subst, is_none, ◌&&◌,
}
use quorfix.Exec.Ensures.{
  Ensures, after_with, after_reads, after_fetch, after_raise_if, returns, raises, when_raise_if,
}
use quorfix.Env.{Env}
use quorfix.Table.{Table, insert, count_rows}
use quorfix.Models.{Db, Bug, BugStatus, BugRelationship, RelationshipType, Membership, Project}
use quorfix.Bugs.Workflow.{Workflows, status_in, assignee_required_statuses, is_valid_transition}
use quorfix.Bugs.Policies.{can_change_status}
use quorfix.Bugs.Monad.{Locked}
use quorfix.Bugs.Services.Duplicates.{
  is_duplicate_of, validate_duplicate_target, raise_on, Walk, found, not_found, unverifiable,
  duplicate_chain_reaches, links_from,
}
use quorfix.Bugs.Services.Duplicates.Acyclic.{
  Followed, FollowedVerdict, insert-NeverReturns, duplicate_chain_reaches_followed,
}
use quorfix.Bugs.Services.Duplicates.Links.{
  IsForest, insert-IsSingle, free-next_duplicate, IsForest-NeverReturns, NeverReturns-IsForest,
}
use quorfix.Bugs.Services.Transition.{
  Person, AssigneeArgument, check_transition, require_assignee, effective_assignee, link_duplicate,
  get_or_create_relationship,
}
use quorfix.Bugs.Versions.Transition.{choose_assignee-same}

-- The walk from the target has ended without meeting the bug.
raise_on-clear :
    (w : Walk) (db : Db) → Ensures (λ _ db'. (w ≡ not_found) × (db' ≡ db)) (raise_on w) db
unfolding raise_on
raise_on-clear found db = raises _
raise_on-clear not_found db = returns _ (refl, refl)
raise_on-clear unverifiable db = raises _

validate_duplicate_target-clear :
    (pk : ℕ) (bug : Bug) (target : ℕ) (db : Db)
    → Ensures
        (λ _ db'. (duplicate_chain_reaches db.relationships target pk ≡ not_found) × (db' ≡ db))
        (validate_duplicate_target pk bug target)
        db
unfolding validate_duplicate_target
validate_duplicate_target-clear pk bug target db = after_fetch _ _ λ row found.
    after_raise_if _ λ other.
      after_raise_if _ λ active.
        after_with (record { at = (raise_on-clear _ db).at }) λ _ db1 clear. returns _ clear

get_or_create_relationship-links :
    {E : Type 0} (pk : ℕ) (rel : BugRelationship) (db : Db)
    → Ensures {E = E}
        (λ m db'.
          (db'.relationships ≡ db.relationships)
          ⊎ (db'.relationships ≡ insert pk rel db.relationships))
        (get_or_create_relationship pk rel)
        db
unfolding get_or_create_relationship
get_or_create_relationship-links pk rel db = record { at = ground arith }

linked-IsForest :
    (k : ℕ) (rel : BugRelationship) (rels rels' : Table BugRelationship)
    → is_duplicate_of rel.relationship_type ≡ true
    → count_rows (links_from rel.from_bug) rels ≡ 0
    → ¬ (Followed rels rel.to_bug rel.from_bug)
    → IsForest rels
    → (rels' ≡ rels) ⊎ (rels' ≡ insert k rel rels)
    → IsForest rels'
linked-IsForest k rel rels rels' kind free apart forest (inl same) = rw same forest
linked-IsForest k rel rels rels' kind free apart forest (inr made) = rw made (
    NeverReturns-IsForest (insert k rel rels) (insert-IsSingle rels k rel free forest.single) (
      insert-NeverReturns rels k rel kind (free-next_duplicate rels rel.from_bug free) apart
        (IsForest-NeverReturns forest)))

abbrev duplicate_row : Locked → Option ℕ → ℕ → BugRelationship
duplicate_row locked actor target = record {
  organization = locked.bug.organization;
  from_bug = locked.pk;
  to_bug = target;
  relationship_type = RelationshipType.duplicate_of;
  created_by = actor;
}

linking-IsForest :
    (env : Env) (locked : Locked) (actor : Option ℕ) (target : Option ℕ) (db : Db)
    → count_rows (links_from locked.pk) db.relationships ≡ 0
    → IsForest db.relationships
    → Ensures
        (λ _ db'. IsForest db'.relationships)
        (link_duplicate env locked actor BugStatus.duplicate target)
        db
unfolding link_duplicate
linking-IsForest env locked actor none db free forest = raises _
linking-IsForest env locked actor (some target) db free forest =
    after_with (validate_duplicate_target-clear locked.pk locked.bug target db)
      λ row db1 (clear, same).
        after_with (get_or_create_relationship-links _ _ db1) λ made db2 links. returns _ (
          linked-IsForest (env.uuid 0) (duplicate_row locked actor target) db.relationships
            db2.relationships refl free
            (subst (FollowedVerdict db.relationships target locked.pk) clear
              (duplicate_chain_reaches_followed db.relationships target locked.pk))
            forest
            (subst
              (λ (d : Db).
                (db2.relationships ≡ d.relationships)
                ⊎ (db2.relationships
                    ≡ insert (env.uuid 0) (duplicate_row locked actor target) d.relationships))
              same links))

-- A link leaves the other kinds of transition alone.
pub link_duplicate-IsForest :
    (env : Env) (locked : Locked) (actor : Option ℕ) (to : BugStatus) (target : Option ℕ) (db : Db)
    → count_rows (links_from locked.pk) db.relationships ≡ 0
    → IsForest db.relationships
    → Ensures (λ _ db'. IsForest db'.relationships) (link_duplicate env locked actor to target) db
unfolding link_duplicate
link_duplicate-IsForest env locked actor BugStatus.duplicate target db free forest =
    linking-IsForest env locked actor target db free forest
link_duplicate-IsForest env locked actor _ target db free forest = returns _ forest

require_assignee-has :
    (to : BugStatus) (effective : Option ℕ) (db : Db)
    → Ensures
        (λ _ db'.
          ((status_in to assignee_required_statuses && is_none effective) ≡ false) × (db' ≡ db))
        (require_assignee to effective)
        db
unfolding require_assignee
require_assignee-has to effective db = when_raise_if _ λ e. (e, refl)

-- The facts that the checks of a transition establish.
pub record Checked (workflows : Workflows) (bug : Bug) (project : Project) (m : Option Membership)
    (to : BugStatus) (choice : Bool × Option Person) : Type 0 where
  pub permitted : can_change_status bug m to ≡ true
  pub valid : is_valid_transition workflows project bug.status to ≡ true
  pub has_assignee :
      (status_in to assignee_required_statuses && is_none (effective_assignee bug choice)) ≡ false

pub check_transition-Checked :
    (workflows : Workflows) (locked : Locked) (m : Option Membership) (to : BugStatus)
    (argument : AssigneeArgument) (db : Db)
    → Ensures
        (λ choice db'. Checked workflows locked.bug locked.project m to choice × (db' ≡ db))
        (check_transition workflows locked m to argument)
        db
unfolding check_transition
check_transition-Checked workflows locked m to argument db = after_raise_if _ λ may.
    after_raise_if _ λ valid. after_reads (choose_assignee-same locked.bug m argument db) λ choice.
      after_with (require_assignee-has to _ db) λ _ db1 (has, same).
        returns _
          (record { permitted = ground arith; valid = ground arith; has_assignee = has }, same)
