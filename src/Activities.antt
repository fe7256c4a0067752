-- ===== src/Activities.antt =====
-- backend/apps/activities/services.py: the write path of the activity trail.
pub mod Rules
use quorfix.Prelude.{ℕ, ◌||◌, Bool, Text, length, ltb, if◌then◌else◌}
use quorfix.Exec.{Exec, pure, modify, raise_if, ◌>>=◌, ◌>>◌}
use quorfix.Table.{insert}
use quorfix.Models.{Db, BugActivity}

-- `CharField(max_length=255)` of `from_value` and `to_value`: PostgreSQL refuses a longer text.
unfoldable pub too_long : Text → Bool
too_long s = ltb 255 (length s)

-- `record_bug_activity`: one row, under the key `k`. `data_error` is the exception for a text that
-- does not fit its column.
unfoldable pub record_bug_activity : {E : Type 0} → E → ℕ → BugActivity → Exec E Db ℕ
record_bug_activity data_error k activity = do
  raise_if (too_long activity.from_value || too_long activity.to_value) data_error
  modify (λ db. record db { activities = insert k activity db.activities })
  pure k
