-- ===== src/Bugs/Services/Update.antt =====
-- `update_bug`: the content fields.
use quorfix.Prelude.{
  ℕ, ◌+◌, Bool, true, false, not, Option, none, some, List, [], ◌∷◌, Text, codes, text_eq, same_key,
  all, any, length, ltb, if◌then◌else◌,
}
use quorfix.Exec.{pure, raise_if, atomic, ◌>>=◌, ◌>>◌}
use quorfix.Env.{Env}
use quorfix.Activities.{record_bug_activity}
use quorfix.Models.{
  Bug, BugPriority, BugSeverity, Membership, Metadata, ActivityVerb, priority_value, severity_value,
}
use quorfix.Bugs.Policies.{Field, editable_fields_for, is_editable}
use quorfix.Bugs.Monad.{
  Action, permission_denied, data_error, lock_bug, check_version, check_mutable, save_bug,
}

-- One entry of `**fields`: the name and the value that its column takes.
pub data Change : Type 0 where
  title description steps_to_reproduce expected_result actual_result : Text → Change
  environment category : Text → Change
  due_date : Option ℕ → Change
  priority : BugPriority → Change
  severity : BugSeverity → Change

abbrev pub field_of : Change → Field
field_of (Change.title _) = Field.title
field_of (Change.description _) = Field.description
field_of (Change.steps_to_reproduce _) = Field.steps_to_reproduce
field_of (Change.expected_result _) = Field.expected_result
field_of (Change.actual_result _) = Field.actual_result
field_of (Change.environment _) = Field.environment
field_of (Change.category _) = Field.category
field_of (Change.due_date _) = Field.due_date
field_of (Change.priority _) = Field.priority
field_of (Change.severity _) = Field.severity

abbrev pub field_name : Field → Text
field_name Field.title = codes "title"
field_name Field.description = codes "description"
field_name Field.steps_to_reproduce = codes "steps_to_reproduce"
field_name Field.expected_result = codes "expected_result"
field_name Field.actual_result = codes "actual_result"
field_name Field.environment = codes "environment"
field_name Field.category = codes "category"
field_name Field.due_date = codes "due_date"
field_name Field.priority = codes "priority"
field_name Field.severity = codes "severity"

-- `getattr(locked, field)`, as the change that would write it
unfoldable pub current : Bug → Field → Change
current b Field.title = Change.title b.title
current b Field.description = Change.description b.description
current b Field.steps_to_reproduce = Change.steps_to_reproduce b.steps_to_reproduce
current b Field.expected_result = Change.expected_result b.expected_result
current b Field.actual_result = Change.actual_result b.actual_result
current b Field.environment = Change.environment b.environment
current b Field.category = Change.category b.category
current b Field.due_date = Change.due_date b.due_date
current b Field.priority = Change.priority b.priority
current b Field.severity = Change.severity b.severity

-- `setattr(locked, field, value)`
unfoldable pub set_field : Change → Bug → Bug
set_field (Change.title v) b = record b { title = v }
set_field (Change.description v) b = record b { description = v }
set_field (Change.steps_to_reproduce v) b = record b { steps_to_reproduce = v }
set_field (Change.expected_result v) b = record b { expected_result = v }
set_field (Change.actual_result v) b = record b { actual_result = v }
set_field (Change.environment v) b = record b { environment = v }
set_field (Change.category v) b = record b { category = v }
set_field (Change.due_date v) b = record b { due_date = v }
set_field (Change.priority v) b = record b { priority = v }
set_field (Change.severity v) b = record b { severity = v }

-- `str(value) if value not in (None, "") else ""`
unfoldable pub shown : Env → Change → Text
unfolding priority_value severity_value
shown env (Change.title v) = v
shown env (Change.description v) = v
shown env (Change.steps_to_reproduce v) = v
shown env (Change.expected_result v) = v
shown env (Change.actual_result v) = v
shown env (Change.environment v) = v
shown env (Change.category v) = v
shown env (Change.due_date none) = []
shown env (Change.due_date (some d)) = env.iso_date d
shown env (Change.priority p) = priority_value p
shown env (Change.severity s) = severity_value s

-- `getattr(locked, field) != value`, by the stored values
unfoldable pub differs : Bug → Change → Bool
unfolding priority_value severity_value
differs b (Change.title v) = not (text_eq b.title v)
differs b (Change.description v) = not (text_eq b.description v)
differs b (Change.steps_to_reproduce v) = not (text_eq b.steps_to_reproduce v)
differs b (Change.expected_result v) = not (text_eq b.expected_result v)
differs b (Change.actual_result v) = not (text_eq b.actual_result v)
differs b (Change.environment v) = not (text_eq b.environment v)
differs b (Change.category v) = not (text_eq b.category v)
differs b (Change.due_date v) = not (same_key b.due_date v)
differs b (Change.priority v) = not (text_eq (priority_value b.priority) (priority_value v))
differs b (Change.severity v) = not (text_eq (severity_value b.severity) (severity_value v))

abbrev pub changed_verb : Field → ActivityVerb
changed_verb Field.priority = ActivityVerb.priority_changed
changed_verb Field.severity = ActivityVerb.severity_changed
changed_verb _ = ActivityVerb.field_updated

abbrev pub changed_metadata : Field → Metadata
changed_metadata Field.priority = Metadata.empty
changed_metadata Field.severity = Metadata.empty
changed_metadata f = Metadata.field (field_name f)

-- `changed`: the old and the new value of each field that the request changes, in order.
abbrev pub Changed : Type 0
Changed = List (Change × Change)

-- The first loop: the bug with the fields set, and what was changed.
unfoldable pub collect : List Change → Bug → Bug × Changed
unfolding differs current set_field
collect [] b = (b, [])
collect (c ∷ cs) b =
    let rest = collect cs (if differs b c then set_field c b else b) in
    if differs b c then (rest.0, (current b (field_of c), c) ∷ rest.1) else rest

-- The second loop: an activity for each changed field, under the keys that `uuid4` draws from `k` on.
unfoldable pub record_changes : Env → ℕ → Bug → Option ℕ → ℕ → Changed → Action Unit
unfolding record_bug_activity shown
record_changes env pk bug actor k [] = pure tt
record_changes env pk bug actor k ((old, new) ∷ rest) = do
  record_bug_activity data_error (env.uuid k) (record {
    organization = bug.organization;
    bug = pk;
    actor = actor;
    verb = changed_verb (field_of new);
    from_value = shown env old;
    to_value = shown env new;
    metadata = changed_metadata (field_of new);
    created_at = env.now;
  })
  record_changes env pk bug actor (k + 1) rest

abbrev pub is_empty : Changed → Bool
is_empty [] = true
is_empty (_ ∷ _) = false

-- A value that is longer than its column.
abbrev pub is_too_wide : Change → Bool
is_too_wide (Change.title v) = ltb 255 (length v)
is_too_wide (Change.category v) = ltb 100 (length v)
is_too_wide _ = false

-- What follows the loop over the fields; only the columns that have changed are written.
unfoldable pub finish_update : Env → ℕ → Option ℕ → Bug × Changed → Action Bug
unfolding save_bug record_changes
finish_update env pk actor (bug, []) = pure bug
finish_update env pk actor (bug, c ∷ changed) = do
  let saved = record bug { version = bug.version + 1 }
  raise_if (any (λ entry. is_too_wide entry.1) (c ∷ changed)) data_error
  save_bug pk saved
  record_changes env pk saved actor 0 (c ∷ changed)
  pure saved

unfoldable pub update_bug : Env → ℕ → Option ℕ → Option Membership → ℕ → List Change → Action Bug
unfolding lock_bug check_version check_mutable editable_fields_for collect finish_update
update_bug env pk actor membership expected fields = atomic (do
  locked ← lock_bug pk
  check_version locked.bug expected
  check_mutable locked.bug locked.project
  let allowed = editable_fields_for locked.bug membership
  raise_if (not (all (λ c. is_editable allowed (field_of c)) fields)) permission_denied
  finish_update env pk actor (collect fields locked.bug))
