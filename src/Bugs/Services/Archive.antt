-- ===== src/Bugs/Services/Archive.antt =====
-- `archive_bug` and `restore_bug`.
use quorfix.Prelude.{ℕ, ◌+◌, not, Option, none, some, [], is_some, is_none}
use quorfix.Exec.{pure, raise_if, atomic, ◌>>=◌, ◌>>◌}
use quorfix.Env.{Env}
use quorfix.Activities.{record_bug_activity}
use quorfix.Models.{Bug, Membership, ActivityVerb}
use quorfix.Bugs.Policies.{can_archive_bug}
use quorfix.Bugs.Monad.{
  Action, permission_denied, project_archived_for_bug_mutation, bug_already_archived,
  bug_not_archived, data_error, lock_bug, check_version, save_bug,
}
use quorfix.Bugs.Services.Transition.{activity_of}

unfoldable pub archive_bug : Env → ℕ → Option ℕ → Option Membership → ℕ → Action Bug
unfolding can_archive_bug lock_bug check_version save_bug record_bug_activity
archive_bug env pk actor membership expected = do
  raise_if (not (can_archive_bug membership)) permission_denied
  atomic (do
    locked ← lock_bug pk
    check_version locked.bug expected
    raise_if (is_some locked.project.archived_at) project_archived_for_bug_mutation
    raise_if (is_some locked.bug.archived_at) bug_already_archived
    let bug = record locked.bug { archived_at = some env.now; version = locked.bug.version + 1 }
    save_bug pk bug
    record_bug_activity data_error (env.uuid 0)
        (activity_of env pk bug actor ActivityVerb.archived [] [])
    pure bug)

unfoldable pub restore_bug : Env → ℕ → Option ℕ → Option Membership → ℕ → Action Bug
unfolding can_archive_bug lock_bug check_version save_bug record_bug_activity
restore_bug env pk actor membership expected = do
  raise_if (not (can_archive_bug membership)) permission_denied
  atomic (do
    locked ← lock_bug pk
    check_version locked.bug expected
    raise_if (is_some locked.project.archived_at) project_archived_for_bug_mutation
    raise_if (is_none locked.bug.archived_at) bug_not_archived
    let bug = record locked.bug { archived_at = none; version = locked.bug.version + 1 }
    save_bug pk bug
    record_bug_activity data_error (env.uuid 0)
        (activity_of env pk bug actor ActivityVerb.restored [] [])
    pure bug)
