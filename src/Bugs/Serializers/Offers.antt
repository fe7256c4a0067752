-- ===== src/Bugs/Serializers/Offers.antt =====
-- The transitions that are offered and those that the service makes.
use quorfix.Prelude.{ℕ, ◌≡◌, ◌&&◌, ◌∙◌, Option, some, true, false, Bool}
use quorfix.Exec.{Result, ok, err}
use quorfix.Env.{Env}
use quorfix.Table.{lookup}
use quorfix.Models.{Db, Bug, BugStatus, Membership, Project}
use quorfix.Bugs.Workflow.{Workflows, status_in}
use quorfix.Bugs.Monad.{BugError}
use quorfix.Bugs.Services.Transition.{AssigneeArgument, Transitioned, transition_block}
use quorfix.Bugs.Outcome.{Transits, transition_block-Transits}
use quorfix.Bugs.Serializers.{get_available_transitions}
use quorfix.Bugs.Serializers.Laws.{available-status_in}

both_hold : (a b : Bool) → a ≡ true → b ≡ true → (a && b) ≡ true
both_hold true true h g = h
both_hold true false h g = g
both_hold false b h g = h

-- A transition that returns was on offer for the row and the project that it found.
abbrev pub Offered :
    Workflows → ℕ → Option Membership → BugStatus → Db → Result BugError Transitioned × Db → Type 0
Offered workflows pk m to db (ok done, db') =
    (old : Bug) × (project : Project) × (lookup pk db.bugs ≡ some old)
    × (lookup old.project db.projects ≡ some project)
    × (status_in to (get_available_transitions workflows project old m) ≡ true)
    × (done.bug.status ≡ to)
Offered workflows pk m to db (err e, db') = db' ≡ db

-- A transition that returns asked for a status that the detail of the bug offers to the same
-- member, for the row and the project that it found, and the row it reports has that status. One
-- that raises changes nothing.
pub transition_block-Offered :
    (env : Env) (workflows : Workflows) (pk : ℕ) (actor : Option ℕ) (m : Option Membership)
    (to : BugStatus) (expected : ℕ) (duplicate_of : Option ℕ) (argument : AssigneeArgument)
    (db : Db)
    → Offered workflows pk m to db
        (transition_block env workflows pk actor m to expected duplicate_of argument db)
transition_block-Offered env workflows pk actor m to expected duplicate_of argument db =
    by_result (transition_block env workflows pk actor m to expected duplicate_of argument db)
      (transition_block-Transits env workflows pk actor m to expected duplicate_of argument db)
  where
    by_result :
        (r : Result BugError Transitioned × Db)
        → Transits workflows pk m to db r
        → Offered workflows pk m to db r
    by_result (ok done, db') (old, project, row, parent, accepted, there) = (
      old,
      project,
      row,
      parent,
      available-status_in workflows project old m to
          ∙ both_hold _ _ accepted.permitted accepted.valid,
      accepted.status_set,
    )
    by_result (err e, db') same = same
