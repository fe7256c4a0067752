-- ===== src/Bugs/Services/Create.antt =====
-- `create_bug`.
use quorfix.Prelude.{
  ℕ, ◌+◌, Bool, not, Option, none, some, ◌&&◌, ◌||◌, ◌++◌, [], Text, codes, decimal, text_eq,
  length, ltb, ◌==◌, is_some, if◌then◌else◌,
}
use quorfix.Exec.{ok, err, pure, raise_if, fetch, modify, atomic, ◌>>=◌, ◌>>◌}
use quorfix.Env.{Env}
use quorfix.Table.{lookup, exists_row, save, insert}
use quorfix.Activities.{record_bug_activity}
use quorfix.Models.{
  Bug, BugStatus, BugPriority, BugSeverity, Project, Membership, Metadata, ActivityVerb,
}
use quorfix.Bugs.Policies.{can_create_bug}
use quorfix.Bugs.Monad.{
  Action, permission_denied, project_archived_for_bug_creation, does_not_exist, integrity_error,
  data_error,
}

-- The keyword arguments that describe the bug.
pub record NewBug : Type 0 where
  pub title : Text
  pub description : Text
  pub steps_to_reproduce : Text
  pub expected_result : Text
  pub actual_result : Text
  pub environment : Text
  pub category : Text
  pub priority : BugPriority
  pub severity : BugSeverity
  pub due_date : Option ℕ

-- `unique_bug_number_per_project` and `unique_bug_key_per_org`: does a row stand in the way?
abbrev pub same_number : Bug → ℕ → Bug → Bool
same_number b _ q = b.project == q.project && b.number == q.number

abbrev pub same_bug_key : Bug → ℕ → Bug → Bool
same_bug_key b _ q = b.organization == q.organization && text_eq b.key q.key

-- `Bug.objects.create`, with the unique constraints and the widths of the columns.
unfoldable pub insert_bug : ℕ → Bug → Action Unit
unfolding insert exists_row
insert_bug pk bug db =
    if exists_row (same_number bug) db.bugs || exists_row (same_bug_key bug) db.bugs
    then (err integrity_error, db)
    else if ltb 255 (length bug.title) || ltb 100 (length bug.category) || ltb 20 (length bug.key)
    then (err data_error, db)
    else (ok tt, record db { bugs = insert pk bug db.bugs })

-- `f"{locked_project.key}-{number}"`
unfoldable pub bug_key : Project → ℕ → Text
unfolding decimal
bug_key project number = project.key ++ (codes "-" ++ decimal number)

abbrev pub new_bug_row : ℕ → ℕ → ℕ → Project → ℕ → NewBug → ℕ → Bug
new_bug_row now organization project_pk project reporter fields number = record {
  organization = organization;
  project = project_pk;
  number = number;
  key = bug_key project number;
  title = fields.title;
  description = fields.description;
  steps_to_reproduce = fields.steps_to_reproduce;
  expected_result = fields.expected_result;
  actual_result = fields.actual_result;
  environment = fields.environment;
  category = fields.category;
  status = BugStatus.new;
  priority = fields.priority;
  severity = fields.severity;
  reporter = reporter;
  assignee = none;
  due_date = fields.due_date;
  resolved_at = none;
  closed_at = none;
  archived_at = none;
  version = 1;
  created_at = now;
  updated_at = now;
}

abbrev pub created_activity : Env → ℕ → Bug → ℕ → Action ℕ
created_activity env pk bug reporter = record_bug_activity data_error (env.uuid 1) (record {
  organization = bug.organization;
  bug = pk;
  actor = some reporter;
  verb = ActivityVerb.created;
  from_value = [];
  to_value = bug.key;
  metadata = Metadata.empty;
  created_at = env.now;
})

unfoldable pub create_bug : Env → ℕ → ℕ → ℕ → Option Membership → NewBug → Action ℕ
unfolding lookup save insert_bug record_bug_activity can_create_bug
create_bug env organization project_pk reporter membership fields = atomic (do
  raise_if (not (can_create_bug membership)) permission_denied
  locked_project ← fetch (λ db. lookup project_pk db.projects) does_not_exist
  raise_if (is_some locked_project.archived_at) project_archived_for_bug_creation
  let number = locked_project.next_bug_number
  modify (λ db. record db {
    projects = save project_pk (record locked_project { next_bug_number = number + 1 }) db.projects;
  })
  let bug = new_bug_row env.now organization project_pk locked_project reporter fields number
  insert_bug (env.uuid 0) bug
  created_activity env (env.uuid 0) bug reporter
  pure (env.uuid 0))
