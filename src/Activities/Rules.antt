-- ===== src/Activities/Rules.antt =====
-- The rule of `Ensures` for a write to the activity trail.
use quorfix.Prelude.{ℕ, ◌≡◌, false, ◌||◌}
use quorfix.Exec.{Exec, ◌>>=◌}
use quorfix.Exec.Ensures.{Ensures, after, after_raise_if, after_modify, returns}
use quorfix.Table.{insert}
use quorfix.Activities.{record_bug_activity, too_long}
use quorfix.Models.{Db, BugActivity}

module _ {E B : Type 0} {Q : B → Db → Type 0} where
  pub after_record :
      (e : E) (k : ℕ) (a : BugActivity) (f : ℕ → Exec E Db B) {db : Db}
      → ((too_long a.from_value || too_long a.to_value) ≡ false
          → Ensures Q (f k) (record db { activities = insert k a db.activities }))
      → Ensures Q (record_bug_activity e k a >>= f) db
  unfolding record_bug_activity
  after_record e k a f h = after (after_raise_if _ λ fits. after_modify _ (returns _ (h fits)))
