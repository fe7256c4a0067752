-- ===== src/Bugs/Versions/Transition.antt =====
-- `transition_bug` and `assign_bug`.
use quorfix.Prelude.{
  ℕ, ◌≡◌, some, none, Option, refl, Bool, true, false, List, inl, inr, Text, ap, Bool-cases, ◌∙◌,
  sym, subst,
}
use quorfix.Exec.{Result, ok, err, pure, raise, ◌>>◌}
use quorfix.Exec.Ensures.{
  Ensures, after_with, after_fetch, after_raise_if, after_gets, returns, raises, atomic-cases,
  bind-cases, weaker, run-bind,
}
use quorfix.Env.{Env}
use quorfix.Table.{lookup, save}
use quorfix.Activities.Rules.{after_record}
use quorfix.Models.{Db, Bug, BugStatus, Membership, Job, status_of}
use quorfix.Bugs.Workflow.{Workflows, same_status}
use quorfix.Bugs.Monad.{BugError, Locked}
use quorfix.Bugs.Monad.Rules.{
  after_lock_bug, after_check_version, after_check_mutable, after_save_bug,
}
use quorfix.Bugs.Services.Duplicates.{
  validate_duplicate_target, raise_on, Walk, found, not_found, unverifiable,
}
use quorfix.Bugs.Services.Transition.{
  Person, AssigneeArgument, unset, set_to, resolve_assignee, choose_assignee, require_assignee,
  check_transition, link_duplicate, record_assignment, record_link, write_transition,
  transition_block, Transitioned, moved, notify_of, notify_assigned, notify_status, transition_to,
  transition_named, transition_bug,
}
use quorfix.Bugs.Versions.{Versioned, Bumped}
use quorfix.Bugs.Versions.Relationships.{get_or_create_relationship-bugs}
use quorfix.Bugs.Versions.Saved.{saved-Bumped}

-- The parts that only read leave the whole database alone.
pub resolve_assignee-same :
    (organization : ℕ) (user : Option ℕ) (db : Db)
    → Ensures (λ _ db'. db' ≡ db) (resolve_assignee organization user) db
unfolding resolve_assignee
resolve_assignee-same organization none db = returns _ refl
resolve_assignee-same organization (some user) db =
    after_gets _ _ (after_raise_if _ λ eligible. after_fetch _ _ λ row found. returns _ refl)

pub choose_assignee-same :
    (bug : Bug) (m : Option Membership) (argument : AssigneeArgument) (db : Db)
    → Ensures (λ _ db'. db' ≡ db) (choose_assignee bug m argument) db
unfolding choose_assignee
choose_assignee-same bug m unset db = returns _ refl
choose_assignee-same bug m (set_to user) db =
    after_raise_if _
      λ staff. after_with (resolve_assignee-same _ user db) λ assignee db1 same. returns _ same

pub check_transition-same :
    (workflows : Workflows) (locked : Locked) (m : Option Membership) (to : BugStatus)
    (argument : AssigneeArgument) (db : Db)
    → Ensures (λ _ db'. db' ≡ db) (check_transition workflows locked m to argument) db
unfolding check_transition require_assignee
check_transition-same workflows locked m to argument db = after_raise_if _ λ may.
    after_raise_if _ λ valid.
      after_with (choose_assignee-same locked.bug m argument db)
        λ choice db1 same. after_raise_if _ λ required. returns _ same

raise_on-same :
    (w : Walk) (db : Db) → Ensures (λ _ db'. (w ≡ not_found) × (db' ≡ db)) (raise_on w) db
unfolding raise_on
raise_on-same found db = raises _
raise_on-same not_found db = returns _ (refl, refl)
raise_on-same unverifiable db = raises _

validate_duplicate_target-same :
    (pk : ℕ) (bug : Bug) (target : ℕ) (db : Db)
    → Ensures (λ _ db'. db' ≡ db) (validate_duplicate_target pk bug target) db
unfolding validate_duplicate_target
validate_duplicate_target-same pk bug target db = after_fetch _ _ λ row found.
    after_raise_if _ λ other.
      after_raise_if _ λ active.
        after_with (record { at = (raise_on-same _ db).at }) λ _ db1 same. returns _ same.1

-- The duplicate link and the activities leave the bugs alone.
pub link_duplicate-bugs :
    (env : Env) (locked : Locked) (actor : Option ℕ) (to : BugStatus) (target : Option ℕ) (db : Db)
    → Ensures (λ _ db'. db'.bugs ≡ db.bugs) (link_duplicate env locked actor to target) db
unfolding link_duplicate
link_duplicate-bugs env locked actor BugStatus.duplicate none db = raises _
link_duplicate-bugs env locked actor BugStatus.duplicate (some target) db =
    after_with (validate_duplicate_target-same locked.pk locked.bug target db) λ row db1 same.
      after_with (get_or_create_relationship-bugs _ _ db1)
        λ made db2 bugs. returns _ (bugs ∙ ap (λ (d : Db). d.bugs) same)
link_duplicate-bugs env locked actor _ target db = returns _ refl

record_assignment-bugs :
    (env : Env) (pk : ℕ) (bug : Bug) (actor : Option ℕ) (choice : Bool × Option Person) (db : Db)
    → Ensures (λ _ db'. db'.bugs ≡ db.bugs) (record_assignment env pk bug actor choice) db
unfolding record_assignment
record_assignment-bugs env pk bug actor (false, assignee) db = returns _ refl
record_assignment-bugs env pk bug actor (true, assignee) db =
    after_record _ _ _ _ λ fits. returns _ refl

record_link-bugs :
    (env : Env) (pk : ℕ) (bug : Bug) (actor : Option ℕ) (target : Option Bug) (db : Db)
    → Ensures (λ _ db'. db'.bugs ≡ db.bugs) (record_link env pk bug actor target) db
unfolding record_link
record_link-bugs env pk bug actor none db = returns _ refl
record_link-bugs env pk bug actor (some target) db = after_record _ _ _ _ λ fits. returns _ refl

pub write_transition-saves :
    (env : Env) (locked : Locked) (actor : Option ℕ) (to : BugStatus)
    (choice : Bool × Option Person) (target : Option Bug) (db : Db)
    → Ensures
        (λ done db'.
          (done.bug ≡ moved env.now locked.bug to choice)
          × (db'.bugs ≡ save locked.pk (moved env.now locked.bug to choice) db.bugs))
        (write_transition env locked actor to choice target)
        db
unfolding write_transition
write_transition-saves env locked actor to choice target db =
    let bug = moved env.now locked.bug to choice in
    after_save_bug _ bug (
      after_with (record_assignment-bugs env locked.pk bug actor choice _) λ _ db1 e1.
        after_with (record_link-bugs env locked.pk bug actor target db1)
          λ _ db2 e2. after_record _ _ _ _ λ fits. returns _ (refl, e2 ∙ e1))

-- What the transaction of a transition did.
abbrev Moved : ℕ → ℕ → Db → Result BugError Transitioned × Db → Type 0
Moved pk expected db (ok done, db') =
    ((old : Bug) × (lookup pk db.bugs ≡ some old) × (old.version ≡ expected))
    × Bumped pk expected db.bugs done.bug db'.bugs
Moved pk expected db (err e, db') = db' ≡ db

module _ (env : Env) (pk : ℕ) (actor : Option ℕ) (m : Option Membership) (expected : ℕ) where
  transition_block-Moved :
      (workflows : Workflows) (to : BugStatus) (duplicate_of : Option ℕ)
      (argument : AssigneeArgument) (db : Db)
      → Moved pk expected db
          (transition_block env workflows pk actor m to expected duplicate_of argument db)
  unfolding transition_block
  transition_block-Moved workflows to duplicate_of argument db =
      atomic-cases (Moved pk expected db)
        (after_lock_bug _ _ λ bug project row parent.
          let locked : Locked = record { pk = pk; bug = bug; project = project } in
          after_check_version _ _ λ v. after_check_mutable bug project λ a b.
            after_with (check_transition-same workflows locked m to argument db) λ choice db1 same1.
              after_with (link_duplicate-bugs env locked actor to duplicate_of db1)
                λ target db2 same2.
                  weaker (write_transition-saves env locked actor to choice target db2)
                    λ done db3 saved. (
                      (bug, row, v),
                      rw (saved.0) (
                          subst (Bumped pk expected db.bugs _)
                            (sym (saved.1 ∙ ap (save pk _) (same2 ∙ ap (λ (d : Db). d.bugs) same1)))
                            (saved-Bumped pk expected bug (moved env.now bug to choice) db.bugs row
                              v refl)),
                    ))
        (λ e. refl)

-- The notifications of a transition are always well formed: they go to the queue, and that is all.
pub notify_assigned-runs :
    (env : Env) (pk : ℕ) (actor : Option ℕ) (done : Transitioned) (db : Db)
    → (js : List Job) × (notify_assigned env pk actor done db ≡ (ok tt, record db { jobs = js }))
unfolding notify_assigned
notify_assigned-runs env pk actor done db = go done.choice.0 done.choice.1
  where
    go :
        (changed : Bool) (assignee : Option Person)
        → (js : List Job) × (notify_of env pk actor done.bug changed assignee db
            ≡ (ok tt, record db { jobs = js }))
    go false assignee = (_, refl)
    go true none = (_, refl)
    go true (some p) = (_, refl)

pub notify_status-runs :
    (env : Env) (pk : ℕ) (actor : Option ℕ) (to : BugStatus) (done : Transitioned) (db : Db)
    → (js : List Job) × (notify_status env pk actor to done db ≡ (ok tt, record db { jobs = js }))
unfolding notify_status
notify_status-runs env pk actor to done db = elim (Bool-cases (same_status to BugStatus.reopened)) [
  | inl e ↦ rw e (_, refl)
  | inr e ↦ rw e (_, refl)
]

module _ (env : Env) (pk : ℕ) (actor : Option ℕ) (m : Option Membership) (expected : ℕ) where
  -- Jobs on the queue change nothing that `Versioned` speaks of, but a no-op sends none.
  notified :
      (to : BugStatus) (done : Transitioned) (db db1 : Db)
      → Bumped pk expected db.bugs done.bug db1.bugs
      → ((old : Bug) × (lookup pk db.bugs ≡ some old) × (old.version ≡ expected))
      → Versioned pk expected db (
          (do notify_assigned env pk actor done; notify_status env pk actor to done; pure done.bug)
            db1)
  notified to done db db1 bumped old =
      let (js, e) = notify_assigned-runs env pk actor done db1 in
      let (js', e') = notify_status-runs env pk actor to done (record db1 { jobs = js }) in
      rw (run-bind _ _ e) (rw (run-bind _ _ e') (unfold pure in (old, inl bumped)))

  pub transition_to-Versioned :
      (workflows : Workflows) (duplicate_of : Option ℕ) (argument : AssigneeArgument)
      (to : BugStatus) (db : Db)
      → Versioned pk expected db
          (transition_to env workflows pk actor m expected duplicate_of argument to db)
  unfolding transition_to
  transition_to-Versioned workflows duplicate_of argument to db =
      let h =
        transition_block-Moved env pk actor m expected workflows to duplicate_of argument db in
      bind-cases (Versioned pk expected db) _ _ (λ e db1 ran. subst (Moved pk expected db) ran h)
        (λ done db1 ran.
          let (old, bumped) = subst (Moved pk expected db) ran h in
          notified to done db db1 bumped old)

  pub transition_bug-Versioned :
      (workflows : Workflows) (text : Text) (duplicate_of : Option ℕ) (argument : AssigneeArgument)
      (db : Db)
      → Versioned pk expected db
          (transition_bug env workflows pk actor m text expected duplicate_of argument db)
  unfolding transition_bug raise
  transition_bug-Versioned workflows text duplicate_of argument db = by_status (status_of text)
    where
      by_status :
          (s : Option BugStatus)
          → Versioned pk expected db
              (transition_named env workflows pk actor m expected duplicate_of argument s db)
      by_status none = refl
      by_status (some to) = transition_to-Versioned workflows duplicate_of argument to db
