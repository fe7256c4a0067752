-- ===== src/Bugs/Services/Assign.antt =====
-- `assign_bug`: the assignee alone, with no status change.
use quorfix.Prelude.{ℕ, ◌+◌, Bool, true, false, not, Option, none, some, [], Text}
use quorfix.Exec.{pure, raise_if, gets, atomic, ◌>>=◌, ◌>>◌}
use quorfix.Env.{Env}
use quorfix.Table.{lookup}
use quorfix.Activities.{record_bug_activity}
use quorfix.Notifications.Notify.{notify}
use quorfix.Models.{Db, Bug, Membership, User, ActivityVerb, NotificationEventType}
use quorfix.Bugs.Policies.{can_assign_bug}
use quorfix.Bugs.Monad.{
  Action, permission_denied, data_error, value_error, lock_bug, check_version, check_mutable,
  save_bug,
}
use quorfix.Bugs.Services.Transition.{
  Person, resolve_assignee, new_assignee_id_differs, key_of, email_of, activity_of,
}

abbrev pub verb_for : Option Person → ActivityVerb
verb_for none = ActivityVerb.unassigned
verb_for (some _) = ActivityVerb.assigned

abbrev email_or_empty : Option User → Text
email_or_empty none = []
email_or_empty (some u) = u.email

-- `previous.email if previous else ""`
unfoldable pub previous_email : Option ℕ → Db → Text
unfolding lookup
previous_email none db = []
previous_email (some k) db = email_or_empty (lookup k db.users)

-- What the transaction leaves for the code after it: the bug, and the assignee to notify.
unfoldable pub write_assignment :
    Env → ℕ → Bug → Option ℕ → Option Person → Action (Bug × Option Person)
unfolding save_bug record_bug_activity previous_email
write_assignment env pk bug actor assignee = do
  previous ← gets (previous_email bug.assignee)
  let saved = record bug { assignee = key_of assignee; version = bug.version + 1 }
  save_bug pk saved
  record_bug_activity data_error (env.uuid 0)
      (activity_of env pk saved actor (verb_for assignee) previous (email_of assignee))
  pure (saved, assignee)

-- `return locked` leaves the function inside the transaction: nobody is notified.
abbrev pub assign_if :
    Env → ℕ → Bug → Option ℕ → Option Person → Bool → Action (Bug × Option Person)
assign_if env pk bug actor assignee true = write_assignment env pk bug actor assignee
assign_if env pk bug actor assignee false = pure (bug, none)

unfoldable pub assignment_block : Env → ℕ → Option ℕ → Option ℕ → ℕ → Action (Bug × Option Person)
unfolding lock_bug check_version check_mutable resolve_assignee new_assignee_id_differs
    write_assignment
assignment_block env pk actor user expected = atomic (do
  locked ← lock_bug pk
  check_version locked.bug expected
  check_mutable locked.bug locked.project
  assignee ← resolve_assignee locked.bug.organization user
  assign_if env pk locked.bug actor assignee (new_assignee_id_differs locked.bug.assignee user))

unfoldable pub notify_assignee : Env → ℕ → Option ℕ → Bug × Option Person → Action Bug
unfolding notify
notify_assignee env pk actor (bug, none) = pure bug
notify_assignee env pk actor (bug, some assignee) = do
  notify value_error (record {
    event_type = NotificationEventType.bug_assigned;
    organization_id = bug.organization;
    bug_id = pk;
    actor_id = actor;
    activity_id = some (env.uuid 0);
    comment_id = none;
    assignee_id = some assignee.0;
  })
  pure bug

unfoldable pub assign_bug : Env → ℕ → Option ℕ → Option Membership → Option ℕ → ℕ → Action Bug
unfolding can_assign_bug assignment_block notify_assignee
assign_bug env pk actor membership user expected = do
  raise_if (not (can_assign_bug membership)) permission_denied
  done ← assignment_block env pk actor user expected
  notify_assignee env pk actor done
