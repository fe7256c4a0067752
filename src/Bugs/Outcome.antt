-- ===== src/Bugs/Outcome.antt =====
-- What the transaction of `transition_bug` leaves behind.
use quorfix.Prelude.{
  ℕ, ◌≡◌, some, none, Option, Bool, true, false, arith, refl, ◌&&◌, is_some, is_none, sym, ◌∙◌, ap,
  subst,
}
use quorfix.Exec.{Result, ok, err}
use quorfix.Exec.Ensures.{Ensures, Returned, after_with, after_reads, returns, atomic-cases, weaker}
use quorfix.Env.{Env}
use quorfix.Registry
use quorfix.Table.{lookup, save, count_rows}
use quorfix.Table.Laws.{lookup-save}
use quorfix.Activities.Rules.{after_record}
use quorfix.Bugs.Services.Duplicates.{links_from}
use quorfix.Bugs.Services.Duplicates.Links.{IsForest}
use quorfix.Models.{Db, Bug, BugStatus, Membership, Project}
use quorfix.Bugs.Workflow.{
  Workflows, status_in, assignee_required_statuses, is_valid_transition,
  apply_timestamp_side_effects, matrix_from, community_transitions, get_transition_matrix,
  workflow_provider_key,
}
use quorfix.Bugs.Workflow.Reach.{IsTimed, apply_timestamp_side_effects-IsTimed}
use quorfix.Bugs.Policies.{can_change_status}
use quorfix.Bugs.Monad.{BugError, Locked}
use quorfix.Bugs.Monad.Rules.{
  after_lock_bug, after_check_version, after_check_mutable, after_save_bug,
}
use quorfix.Bugs.Services.Transition.{
  Person, AssigneeArgument, Transitioned, moved, transition_block, write_transition,
  record_assignment, record_link,
}
use quorfix.Bugs.Versions.Transition.{
  link_duplicate-bugs, check_transition-same, write_transition-saves,
}
use quorfix.Bugs.Transitions.{Checked, check_transition-Checked, link_duplicate-IsForest}

-- What holds of a row and its successor when the move to `to` was accepted.
pub record Accepted (workflows : Workflows) (m : Option Membership) (to : BugStatus) (old : Bug)
    (project : Project) (new : Bug) : Type 0 where
  pub permitted : can_change_status old m to ≡ true
  pub valid : is_valid_transition workflows project old.status to ≡ true
  pub bug_is_active : is_some old.archived_at ≡ false
  pub project_is_active : is_some project.archived_at ≡ false
  pub status_set : new.status ≡ to
  pub staffed : (status_in to assignee_required_statuses && is_none new.assignee) ≡ false

-- A transaction that returns has accepted the move of the row it found, and the row it reports is
-- the one in the table; a transaction that raises leaves the database as it was.
abbrev pub Transits :
    Workflows → ℕ → Option Membership → BugStatus → Db → Result BugError Transitioned × Db → Type 0
Transits workflows pk m to db (ok done, db') =
    (old : Bug) × (project : Project) × (lookup pk db.bugs ≡ some old)
    × (lookup old.project db.projects ≡ some project)
    × Accepted workflows m to old project done.bug
    × (lookup pk db'.bugs ≡ some done.bug)
Transits workflows pk m to db (err e, db') = db' ≡ db

stamped-status :
    (now : ℕ) (bug : Bug) (to : BugStatus)
    → (apply_timestamp_side_effects now bug to).status ≡ bug.status
unfolding apply_timestamp_side_effects
stamped-status now bug to = ground arith

moved-Accepted :
    (workflows : Workflows) (now : ℕ) (m : Option Membership) (to : BugStatus) (old : Bug)
    (project : Project) (choice : Bool × Option Person)
    → Checked workflows old project m to choice
    → is_some old.archived_at ≡ false
    → is_some project.archived_at ≡ false
    → Accepted workflows m to old project (moved now old to choice)
unfolding moved
moved-Accepted workflows now m to old project choice checked a b = record {
  permitted = checked.permitted;
  valid = checked.valid;
  bug_is_active = a;
  project_is_active = b;
  status_set = stamped-status now (record old { status = to }) to;
  staffed = checked.has_assignee;
}

lookup-saved :
    (pk : ℕ) {old : Bug} (new : Bug) (db db' : Db)
    → lookup pk db.bugs ≡ some old
    → db'.bugs ≡ save pk new db.bugs
    → lookup pk db'.bugs ≡ some new
lookup-saved pk {old} new db db' found e =
    rw (e, lookup-save pk pk {old = old} new db.bugs found) (ground arith)

module _ (env : Env) (workflows : Workflows) (pk : ℕ) (actor : Option ℕ) (m : Option Membership)
    (to : BugStatus) where
  -- A transition that returns was permitted by the role policy and valid in the transition matrix
  -- of the project, found neither the bug nor its project archived, and put the status asked for
  -- in the row that the table then holds, with an assignee wherever that status requires one. A
  -- transition that raises leaves the database as it was.
  pub transition_block-Transits :
      (expected : ℕ) (duplicate_of : Option ℕ) (argument : AssigneeArgument) (db : Db)
      → Transits workflows pk m to db
          (transition_block env workflows pk actor m to expected duplicate_of argument db)
  unfolding transition_block
  transition_block-Transits expected duplicate_of argument db =
      atomic-cases (Transits workflows pk m to db)
        (after_lock_bug _ _ λ bug project row parent.
          let locked : Locked = record { pk = pk; bug = bug; project = project } in
          after_check_version _ _ λ v. after_check_mutable bug project λ a b.
            after_with (check_transition-Checked workflows locked m to argument db)
              λ choice db1 (checked, same).
                after_with (link_duplicate-bugs env locked actor to duplicate_of db1)
                  λ target db2 bugs.
                    weaker (write_transition-saves env locked actor to choice target db2)
                      λ done db3 (is, saved). (
                        bug,
                        project,
                        row,
                        parent,
                        rw is
                            (moved-Accepted workflows env.now m to bug project choice checked a b),
                        rw is (
                            lookup-saved pk (moved env.now bug to choice) db db3 row
                              (saved ∙ ap (save pk _) (bugs ∙ ap (λ (d : Db). d.bugs) same))),
                      ))
        (λ e. refl)

moved-IsTimed :
    (now : ℕ) (bug : Bug) (to : BugStatus) (choice : Bool × Option Person)
    → IsTimed bug
    → status_in to (community_transitions bug.status) ≡ true
    → IsTimed (moved now bug to choice)
unfolding moved
moved-IsTimed now bug to choice timed h =
    let stamped = apply_timestamp_side_effects-IsTimed now bug to timed h in
    record { resolved_exactly = stamped.resolved_exactly; closed_exactly = stamped.closed_exactly }

same_row : {o : Option Bug} {a b : Bug} → o ≡ some a → o ≡ some b → a ≡ b
same_row h e = cc

valid-community :
    (workflows : Workflows) (project : Project) (from to : BugStatus)
    → Registry.get workflows workflow_provider_key ≡ none
    → is_valid_transition workflows project from to ≡ true
    → status_in to (community_transitions from) ≡ true
unfolding is_valid_transition get_transition_matrix matrix_from
valid-community workflows project from to free h =
    subst (λ g. status_in to (matrix_from g project from) ≡ true) free h

-- Where no provider is registered, a transition that returns leaves the timestamps of its row
-- following the status, if they did before: `resolved_at` set exactly while the bug is not open,
-- `closed_at` exactly while it is closed.
pub transition_block-IsTimed :
    (env : Env) (workflows : Workflows) (pk : ℕ) (actor : Option ℕ) (m : Option Membership)
    (to : BugStatus) (expected : ℕ) (duplicate_of : Option ℕ) (argument : AssigneeArgument)
    (db : Db) (old : Bug)
    → Registry.get workflows workflow_provider_key ≡ none
    → lookup pk db.bugs ≡ some old
    → IsTimed old
    → Ensures
        (λ done _. IsTimed done.bug)
        (transition_block env workflows pk actor m to expected duplicate_of argument)
        db
unfolding transition_block
transition_block-IsTimed env workflows pk actor m to expected duplicate_of argument db old free
      found timed =
    record {
      at =
          atomic-cases (Returned λ done _. IsTimed done.bug)
            (after_lock_bug _ _ λ bug project row parent.
              let locked : Locked = record { pk = pk; bug = bug; project = project } in
              after_check_version _ _ λ v. after_check_mutable bug project λ a b.
                after_with (check_transition-Checked workflows locked m to argument db)
                  λ choice db1 (checked, same).
                    after_with (link_duplicate-bugs env locked actor to duplicate_of db1)
                      λ target db2 bugs.
                        weaker (write_transition-saves env locked actor to choice target db2)
                          λ done db3 (is, saved). rw is (
                            moved-IsTimed env.now bug to choice
                              (subst IsTimed (same_row found row) timed)
                              (valid-community workflows project bug.status to free checked.valid)))
            (λ e. tt);
    }

assignment-links :
    (env : Env) (pk : ℕ) (bug : Bug) (actor : Option ℕ) (choice : Bool × Option Person) (db : Db)
    → Ensures
        (λ _ db'. db'.relationships ≡ db.relationships)
        (record_assignment env pk bug actor choice)
        db
unfolding record_assignment
assignment-links env pk bug actor (false, assignee) db = returns _ refl
assignment-links env pk bug actor (true, assignee) db = after_record _ _ _ _ λ fits. returns _ refl

link-links :
    (env : Env) (pk : ℕ) (bug : Bug) (actor : Option ℕ) (target : Option Bug) (db : Db)
    → Ensures
        (λ _ db'. db'.relationships ≡ db.relationships)
        (record_link env pk bug actor target)
        db
unfolding record_link
link-links env pk bug actor none db = returns _ refl
link-links env pk bug actor (some target) db = after_record _ _ _ _ λ fits. returns _ refl

write_transition-links :
    (env : Env) (locked : Locked) (actor : Option ℕ) (to : BugStatus)
    (choice : Bool × Option Person) (target : Option Bug) (db : Db)
    → Ensures
        (λ _ db'. db'.relationships ≡ db.relationships)
        (write_transition env locked actor to choice target)
        db
unfolding write_transition
write_transition-links env locked actor to choice target db =
    let bug = moved env.now locked.bug to choice in
    after_save_bug _ bug (
      after_with (assignment-links env locked.pk bug actor choice _) λ _ db1 e1.
        after_with (link-links env locked.pk bug actor target db1)
          λ _ db2 e2. after_record _ _ _ _ λ fits. returns _ (e2 ∙ e1))

-- Where no bug has two `duplicate_of` rows and none is, over however many rows, a duplicate of
-- itself, the same holds after a transition of a bug that has no such row yet, whatever status it
-- asks for and whether it returns or raises.
pub transition_block-IsForest :
    (env : Env) (workflows : Workflows) (pk : ℕ) (actor : Option ℕ) (m : Option Membership)
    (to : BugStatus) (expected : ℕ) (duplicate_of : Option ℕ) (argument : AssigneeArgument)
    (db : Db)
    → count_rows (links_from pk) db.relationships ≡ 0
    → IsForest db.relationships
    → IsForest
        (transition_block env workflows pk actor m to expected duplicate_of argument
          db).1.relationships
unfolding transition_block
transition_block-IsForest env workflows pk actor m to expected duplicate_of argument db free
      forest =
    atomic-cases (λ r. IsForest r.1.relationships)
      (after_lock_bug _ _ λ bug project row parent.
        let locked : Locked = record { pk = pk; bug = bug; project = project } in
        after_check_version _ _ λ v. after_check_mutable bug project λ a b.
          after_reads (check_transition-same workflows locked m to argument db) λ choice.
            after_with (link_duplicate-IsForest env locked actor to duplicate_of db free forest)
              λ target db2 kept.
                weaker (write_transition-links env locked actor to choice target db2)
                  λ done db3 same. subst IsForest (sym same) kept)
      (λ e. forest)
