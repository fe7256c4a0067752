-- ===== src/Bugs/Services/Transition.antt =====
-- `transition_bug`: a status change, with the assignee and the duplicate link that come with it.
use quorfix.Prelude.{
  ℕ, ◌+◌, Bool, true, false, not, Option, none, some, ◌&&◌, ◌||◌, ◌++◌, [], Text, codes, same_key,
  if◌then◌else◌, ◌==◌, is_none,
}
use quorfix.Exec.{Exec, ok, pure, raise, raise_if, gets, fetch, atomic, ◌>>=◌, ◌>>◌}
use quorfix.Env.{Env}
use quorfix.Table.{lookup, exists_row, insert}
use quorfix.Activities.{record_bug_activity}
use quorfix.Notifications.Notify.{notify}
use quorfix.Models.{
  Db, Bug, BugStatus, BugRelationship, RelationshipType, Membership, User, Metadata, ActivityVerb,
  BugActivity, NotificationEventType, status_of, status_value,
}
use quorfix.Bugs.Workflow.{
  Workflows, same_status, status_in, assignee_required_statuses, is_valid_transition,
  apply_timestamp_side_effects,
}
use quorfix.Bugs.Policies.{can_change_status, in_staff_roles}
use quorfix.Bugs.Monad.{
  Action, Locked, permission_denied, ineligible_assignee, does_not_exist, data_error, value_error,
  invalid_workflow_transition, assignee_required_for_transition, duplicate_target_required,
  lock_bug, check_version, check_mutable, save_bug,
}
use quorfix.Bugs.Services.Duplicates.{validate_duplicate_target}

-- `selectors.is_eligible_assignee`
abbrev pub is_assignable : ℕ → ℕ → ℕ → Membership → Bool
is_assignable organization user _ m =
    m.organization == organization && m.user == user && in_staff_roles m.role

unfoldable pub is_eligible_assignee : ℕ → ℕ → Db → Bool
unfolding exists_row
is_eligible_assignee organization user db =
    exists_row (is_assignable organization user) db.memberships

-- A user with the key, as the services pass it on.
abbrev pub Person : Type 0
Person = ℕ × User

unfoldable pub resolve_assignee : ℕ → Option ℕ → Action (Option Person)
unfolding is_eligible_assignee lookup
resolve_assignee organization none = pure none
resolve_assignee organization (some user) = do
  eligible ← gets (is_eligible_assignee organization user)
  raise_if (not eligible) ineligible_assignee
  row ← fetch (λ db. lookup user db.users) does_not_exist
  pure (some (user, row))

unfoldable pub new_assignee_id_differs : Option ℕ → Option ℕ → Bool
new_assignee_id_differs current new = not (same_key current new)

abbrev pub is_staff_member : Option Membership → Bool
is_staff_member none = false
is_staff_member (some m) = in_staff_roles m.role

-- The assignee of the request: left alone (`UNSET`), or to be set to a user or to nobody.
pub data AssigneeArgument : Type 0 where
  unset : AssigneeArgument
  set_to : Option ℕ → AssigneeArgument

-- `(assignee_changed, assignee)` of a call that passes one.
unfoldable pub choose_assignee :
    Bug → Option Membership → AssigneeArgument → Action (Bool × Option Person)
unfolding resolve_assignee new_assignee_id_differs
choose_assignee bug membership unset = pure (false, none)
choose_assignee bug membership (set_to user) = do
  raise_if (not (is_staff_member membership)) permission_denied
  assignee ← resolve_assignee bug.organization user
  pure (new_assignee_id_differs bug.assignee user, assignee)

abbrev pub key_of : Option Person → Option ℕ
key_of none = none
key_of (some (k, _)) = some k

abbrev pub email_of : Option Person → Text
email_of none = []
email_of (some (_, u)) = u.email

-- `effective_assignee`, which is also the assignee that the row ends up with
abbrev pub effective_assignee : Bug → Bool × Option Person → Option ℕ
effective_assignee bug (changed, assignee) = if changed then key_of assignee else bug.assignee

unfoldable pub require_assignee : BugStatus → Option ℕ → Action Unit
require_assignee new_status effective =
    raise_if (status_in new_status assignee_required_statuses && is_none effective)
      assignee_required_for_transition

-- The columns that a `get_or_create` of a relationship looks for.
abbrev pub same_type : RelationshipType → RelationshipType → Bool
same_type RelationshipType.duplicate_of RelationshipType.duplicate_of = true
same_type RelationshipType.blocks RelationshipType.blocks = true
same_type RelationshipType.relates_to RelationshipType.relates_to = true
same_type _ _ = false

-- `unique_bug_relationship`
abbrev pub same_link : ℕ → ℕ → RelationshipType → ℕ → BugRelationship → Bool
same_link from to kind _ r =
    r.from_bug == from && r.to_bug == to && same_type r.relationship_type kind

abbrev pub same_relationship : BugRelationship → ℕ → BugRelationship → Bool
same_relationship rel k r =
    r.organization == rel.organization
    && same_link rel.from_bug rel.to_bug rel.relationship_type k r

-- What `get_or_create` did: the row was there, it was made, or a constraint refused it.
pub data Made : Type 0 where
  existing made refused : Made

unfoldable pub get_or_create_relationship : {E : Type 0} → ℕ → BugRelationship → Exec E Db Made
unfolding exists_row insert
get_or_create_relationship pk rel db =
    if exists_row (same_relationship rel) db.relationships
    then (ok existing, db)
    else if exists_row (same_link rel.from_bug rel.to_bug rel.relationship_type) db.relationships
        || rel.from_bug == rel.to_bug
    then (ok refused, db)
    else (ok made, record db { relationships = insert pk rel db.relationships })

-- The duplicate link of a transition to `DUPLICATE`; a constraint that refuses it is passed over.
unfoldable pub link_duplicate : Env → Locked → Option ℕ → BugStatus → Option ℕ → Action (Option Bug)
unfolding validate_duplicate_target get_or_create_relationship
link_duplicate env locked actor BugStatus.duplicate none = raise duplicate_target_required
link_duplicate env locked actor BugStatus.duplicate (some target_pk) = do
  target ← validate_duplicate_target locked.pk locked.bug target_pk
  get_or_create_relationship (env.uuid 0) (record {
    organization = locked.bug.organization;
    from_bug = locked.pk;
    to_bug = target_pk;
    relationship_type = RelationshipType.duplicate_of;
    created_by = actor;
  })
  pure (some target)
link_duplicate env locked actor _ _ = pure none

-- `_record` with its defaults.
abbrev pub activity_of : Env → ℕ → Bug → Option ℕ → ActivityVerb → Text → Text → BugActivity
activity_of env pk bug actor verb from to = record {
  organization = bug.organization;
  bug = pk;
  actor = actor;
  verb = verb;
  from_value = from;
  to_value = to;
  metadata = Metadata.empty;
  created_at = env.now;
}

abbrev assigned_verb : Option Person → ActivityVerb
assigned_verb none = ActivityVerb.unassigned
assigned_verb (some _) = ActivityVerb.assigned

-- The three activities of a transition, under the draws 1, 2 and 3.
unfoldable pub record_assignment : Env → ℕ → Bug → Option ℕ → Bool × Option Person → Action Unit
unfolding record_bug_activity
record_assignment env pk bug actor (false, assignee) = pure tt
record_assignment env pk bug actor (true, assignee) = do
  record_bug_activity data_error (env.uuid 1)
      (activity_of env pk bug actor (assigned_verb assignee) [] (email_of assignee))
  pure tt

unfoldable pub record_link : Env → ℕ → Bug → Option ℕ → Option Bug → Action Unit
unfolding record_bug_activity
record_link env pk bug actor none = pure tt
record_link env pk bug actor (some target) = do
  record_bug_activity data_error (env.uuid 2) (
      activity_of env pk bug actor ActivityVerb.relationship_added []
        (codes "duplicate_of:" ++ target.key))
  pure tt

-- The row that a transition saves: `status`, the two timestamps, `version` and, if it changed,
-- `assignee`.
unfoldable pub moved : ℕ → Bug → BugStatus → Bool × Option Person → Bug
unfolding apply_timestamp_side_effects
moved now bug new_status choice =
    let stamped =
      apply_timestamp_side_effects now (record bug { status = new_status }) new_status in
    record stamped { assignee = effective_assignee bug choice; version = bug.version + 1 }

-- What the code after the transaction needs of it.
pub record Transitioned : Type 0 where
  pub bug : Bug
  pub choice : Bool × Option Person

-- The checks of a transition, in the order of the code.
unfoldable pub check_transition :
    Workflows
    → Locked
    → Option Membership
    → BugStatus
    → AssigneeArgument
    → Action (Bool × Option Person)
unfolding can_change_status is_valid_transition choose_assignee require_assignee
check_transition workflows locked membership new_status assignee = do
  raise_if (not (can_change_status locked.bug membership new_status)) permission_denied
  raise_if (not (is_valid_transition workflows locked.project locked.bug.status new_status))
      invalid_workflow_transition
  choice ← choose_assignee locked.bug membership assignee
  require_assignee new_status (effective_assignee locked.bug choice)
  pure choice

-- The writes of a transition.
unfoldable pub write_transition :
    Env → Locked → Option ℕ → BugStatus → Bool × Option Person → Option Bug → Action Transitioned
unfolding moved save_bug record_assignment record_link record_bug_activity status_value
write_transition env locked actor new_status choice target = do
  let bug = moved env.now locked.bug new_status choice
  save_bug locked.pk bug
  record_assignment env locked.pk bug actor choice
  record_link env locked.pk bug actor target
  record_bug_activity data_error (env.uuid 3) (
      activity_of env locked.pk bug actor ActivityVerb.status_changed
        (status_value locked.bug.status) (status_value new_status))
  pure (record { bug = bug; choice = choice })

-- The `with transaction.atomic()` block.
unfoldable pub transition_block :
    Env
    → Workflows
    → ℕ
    → Option ℕ
    → Option Membership
    → BugStatus
    → ℕ
    → Option ℕ
    → AssigneeArgument
    → Action Transitioned
unfolding lock_bug check_version check_mutable check_transition link_duplicate write_transition
transition_block env workflows pk actor membership new_status expected duplicate_of assignee =
    atomic (do
      locked ← lock_bug pk
      check_version locked.bug expected
      check_mutable locked.bug locked.project
      choice ← check_transition workflows locked membership new_status assignee
      target ← link_duplicate env locked actor new_status duplicate_of
      write_transition env locked actor new_status choice target)

-- The notifications, which leave after the transaction has committed.
unfoldable pub notify_of : Env → ℕ → Option ℕ → Bug → Bool → Option Person → Action Unit
unfolding notify pure
notify_of env pk actor bug true (some assignee) = notify value_error (record {
  event_type = NotificationEventType.bug_assigned;
  organization_id = bug.organization;
  bug_id = pk;
  actor_id = actor;
  activity_id = some (env.uuid 1);
  comment_id = none;
  assignee_id = some assignee.0;
})
notify_of env pk actor bug _ _ = pure tt

unfoldable pub notify_assigned : Env → ℕ → Option ℕ → Transitioned → Action Unit
unfolding notify_of
notify_assigned env pk actor done = notify_of env pk actor done.bug done.choice.0 done.choice.1

unfoldable pub notify_status : Env → ℕ → Option ℕ → BugStatus → Transitioned → Action Unit
unfolding notify
notify_status env pk actor new_status done = notify value_error (record {
  event_type =
      if same_status new_status BugStatus.reopened
      then NotificationEventType.bug_reopened
      else NotificationEventType.status_changed;
  organization_id = done.bug.organization;
  bug_id = pk;
  actor_id = actor;
  activity_id = some (env.uuid 3);
  comment_id = none;
  assignee_id = none;
})

unfoldable pub transition_to :
    Env
    → Workflows
    → ℕ
    → Option ℕ
    → Option Membership
    → ℕ
    → Option ℕ
    → AssigneeArgument
    → BugStatus
    → Action Bug
unfolding transition_block notify_assigned notify_status
transition_to env workflows pk actor membership expected duplicate_of assignee new_status = do
  done ←
      transition_block env workflows pk actor membership new_status expected duplicate_of assignee
  notify_assigned env pk actor done
  notify_status env pk actor new_status done
  pure done.bug

abbrev pub transition_named :
    Env
    → Workflows
    → ℕ
    → Option ℕ
    → Option Membership
    → ℕ
    → Option ℕ
    → AssigneeArgument
    → Option BugStatus
    → Action Bug
transition_named env workflows pk actor membership expected duplicate_of assignee none =
    raise invalid_workflow_transition
transition_named env workflows pk actor membership expected duplicate_of assignee (some status) =
    transition_to env workflows pk actor membership expected duplicate_of assignee status

-- `transition_bug`. The target is a text, which may name no status.
unfoldable pub transition_bug :
    Env
    → Workflows
    → ℕ
    → Option ℕ
    → Option Membership
    → Text
    → ℕ
    → Option ℕ
    → AssigneeArgument
    → Action Bug
transition_bug env workflows pk actor membership new_status expected duplicate_of assignee =
    transition_named env workflows pk actor membership expected duplicate_of assignee
      (status_of new_status)
