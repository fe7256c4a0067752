-- ===== src/Bugs/Services/Removal.antt =====
-- `clear_bug_assignments`, which runs inside the removal of a member, and the bulk write of the
-- activity trail (`record_bug_activities_bulk` of backend/apps/activities/services.py).
use quorfix.Prelude.{
  ℕ, suc, ◌+◌, Bool, none, some, ◌&&◌, List, [], ◌∷◌, Text, codes, length, contains, same_key,
  if◌then◌else◌, ◌==◌,
}
use quorfix.Exec.{Exec, ok, err}
use quorfix.Env.{Env}
use quorfix.Table.{Table, filter_rows, update_where, insert}
use quorfix.Activities.{too_long}
use quorfix.Models.{Db, Bug, BugActivity, ActivityVerb, Metadata}

abbrev pub is_assigned_to : ℕ → ℕ → ℕ → Bug → Bool
is_assigned_to organization user _ b =
    b.organization == organization && same_key b.assignee (some user)

-- `values_list("id", flat=True)`
abbrev pub ids : Table Bug → List ℕ
ids [] = []
ids ((k, _) ∷ t) = k ∷ ids t

-- `.update(assignee=None, version=F("version") + 1)`
abbrev pub clear_assignee : Bug → Bug
clear_assignee b = record b { assignee = none; version = b.version + 1 }

-- One entry for each affected bug, under the keys that `uuid4` draws from `k` on; `bulk_create`.
unfoldable pub bulk_create : Env → Text → ℕ → Table Bug → Table BugActivity → Table BugActivity
unfolding insert
bulk_create env email k [] activities = activities
bulk_create env email k ((pk, bug) ∷ rest) activities =
    insert (env.uuid k)
      (record {
        organization = bug.organization;
        bug = pk;
        actor = none;
        verb = ActivityVerb.unassigned;
        from_value = email;
        to_value = [];
        metadata = Metadata.reason (codes "membership_removed");
        created_at = env.now;
      })
      (bulk_create env email (suc k) rest activities)

abbrev chosen_in : List ℕ → ℕ → Bug → Bool
chosen_in affected pk _ = contains affected pk

unfoldable pub clear_affected : {E : Type 0} → E → Env → Text → List ℕ → Exec E Db ℕ
unfolding filter_rows update_where bulk_create too_long
clear_affected data_error env email [] db = (ok 0, db)
clear_affected data_error env email (pk ∷ pks) db =
    let cleared = update_where (chosen_in (pk ∷ pks)) clear_assignee db.bugs in
    if too_long email then (err data_error, db) else (
      ok (length (pk ∷ pks)),
      record db {
        bugs = cleared;
        activities =
            bulk_create env email 0 (filter_rows (chosen_in (pk ∷ pks)) cleared) db.activities;
      },
    )

unfoldable pub clear_bug_assignments : {E : Type 0} → E → Env → ℕ → ℕ → Text → Exec E Db ℕ
unfolding clear_affected
clear_bug_assignments data_error env organization user email db =
    clear_affected data_error env email
      (ids (filter_rows (is_assigned_to organization user) db.bugs)) db
