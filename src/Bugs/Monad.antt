-- ===== src/Bugs/Monad.antt =====
-- The exceptions of backend/apps/bugs/services.py, and the steps that its services share.
pub mod Rules
use quorfix.Prelude.{
  ℕ, ◌+◌, Bool, true, false, not, Option, none, some, List, [], ◌∷◌, ◌&&◌, Text, if◌then◌else◌,
  ◌==◌, is_some,
}
use quorfix.Exec.{Exec, ok, err, pure, raise, raise_if, gets, fetch, modify, ◌>>=◌, ◌>>◌}
use quorfix.Env.{Env}
use quorfix.Table.{lookup, exists_row, save}
use quorfix.Activities.{record_bug_activity}
use quorfix.Notifications.Notify.{notify}
use quorfix.Models.{Db, Bug, Project, User, Membership, BugActivity, Metadata, ActivityVerb, Event}
use quorfix.Bugs.Policies.{is_eligible_assignee_role}

-- `BugServiceError` and its subclasses, `BugPermissionDenied`, and what the database raises.
pub data BugError : Type 0 where
  permission_denied project_archived_for_bug_creation bug_archived : BugError
  project_archived_for_bug_mutation bug_already_archived bug_not_archived : BugError
  ineligible_assignee assignee_required_for_transition invalid_tag_name : BugError
  invalid_workflow_transition duplicate_target_required duplicate_target_archived : BugError
  duplicate_cycle_detected duplicate_chain_unverifiable invalid_relationship_type : BugError
  duplicate_bug_relationship self_relationship_not_allowed related_bug_not_found : BugError
  relationship_not_found does_not_exist integrity_error data_error value_error : BugError
  bug_version_conflict : Bug → BugError

abbrev pub Action : Type 0 → Type 0
Action A = Exec BugError Db A

-- A bug as `_lock_bug` hands it out: its key, its row and the project that the join brings.
pub record Locked : Type 0 where
  pub pk : ℕ
  pub bug : Bug
  pub project : Project

unfoldable pub lock_bug : ℕ → Action Locked
unfolding lookup
lock_bug pk = do
  bug ← fetch (λ db. lookup pk db.bugs) does_not_exist
  project ← fetch (λ db. lookup bug.project db.projects) does_not_exist
  pure (record { pk = pk; bug = bug; project = project })

unfoldable pub check_version : Bug → ℕ → Action Unit
check_version bug expected = raise_if (not (bug.version == expected)) (bug_version_conflict bug)

unfoldable pub check_mutable : Bug → Project → Action Unit
check_mutable bug project = do
  raise_if (is_some bug.archived_at) bug_archived
  raise_if (is_some project.archived_at) project_archived_for_bug_mutation

-- `locked.save(...)`
unfoldable pub save_bug : ℕ → Bug → Action Unit
unfolding save
save_bug pk bug = modify (λ db. record db { bugs = save pk bug db.bugs })
