-- ===== src/Bugs/Versions/Assign.antt =====
-- `assign_bug`.
use quorfix.Prelude.{ℕ, ◌≡◌, some, none, Option, refl, Bool, true, false, inl, inr, subst, ◌⊎◌}
use quorfix.Exec.{Result, ok, err, pure, ◌>>=◌}
use quorfix.Exec.Ensures.{
  Ensures, after_reads, after_gets, returns, atomic-cases, bind-cases, raise_if-cases,
}
use quorfix.Env.{Env}
use quorfix.Table.{lookup}
use quorfix.Activities.Rules.{after_record}
use quorfix.Models.{Db, Bug, Membership}
use quorfix.Bugs.Monad.{BugError}
use quorfix.Bugs.Monad.Rules.{
  after_lock_bug, after_check_version, after_check_mutable, after_save_bug,
}
use quorfix.Bugs.Services.Transition.{Person}
use quorfix.Bugs.Services.Assign.{
  assign_bug, assignment_block, write_assignment, assign_if, notify_assignee,
}
use quorfix.Bugs.Versions.{Versioned, Bumped}
use quorfix.Bugs.Versions.Transition.{resolve_assignee-same}
use quorfix.Bugs.Versions.Saved.{saved-Bumped}

-- What the transaction of an assignment did: a no-op names nobody to notify.
abbrev Assigned : ℕ → ℕ → Db → Result BugError (Bug × Option Person) × Db → Type 0
Assigned pk expected db (ok (b, p), db') =
    ((old : Bug) × (lookup pk db.bugs ≡ some old) × (old.version ≡ expected))
    × (Bumped pk expected db.bugs b db'.bugs ⊎ ((db' ≡ db) × (p ≡ none)))
Assigned pk expected db (err e, db') = db' ≡ db

module _ (env : Env) (pk : ℕ) (actor : Option ℕ) (m : Option Membership) (expected : ℕ) where
  assignment_result :
      (old : Bug) (user : Option ℕ) (assignee : Option Person) (changed : Bool) (db : Db)
      → lookup pk db.bugs ≡ some old
      → old.version ≡ expected
      → Ensures
          (λ r db'. Assigned pk expected db (ok r, db'))
          (assign_if env pk old actor assignee changed)
          db
  unfolding write_assignment
  assignment_result old user assignee true db row v = after_gets _ _ (
      after_save_bug _ _ (
        after_record _ _ _ _ λ fits.
          returns _ ((old, row, v), inl (saved-Bumped pk expected old _ db.bugs row v refl))))
  assignment_result old user assignee false db row v = returns _ ((old, row, v), inr (refl, refl))

  assignment_block-Assigned :
      (user : Option ℕ) (db : Db)
      → Assigned pk expected db (assignment_block env pk actor user expected db)
  unfolding assignment_block
  assignment_block-Assigned user db =
      atomic-cases (Assigned pk expected db)
        (after_lock_bug _ _ λ bug project row parent. after_check_version _ _ λ v.
          after_check_mutable bug project λ a b.
            after_reads (resolve_assignee-same bug.organization user db)
              λ assignee. assignment_result bug user assignee _ db row v)
        (λ e. refl)

  notify_assignee-Versioned :
      (b : Bug) (p : Option Person) (db db1 : Db)
      → Assigned pk expected db (ok (b, p), db1)
      → Versioned pk expected db (notify_assignee env pk actor (b, p) db1)
  unfolding notify_assignee pure ◌>>=◌
  notify_assignee-Versioned b none db db1 (old, inl bumped) = (old, inl bumped)
  notify_assignee-Versioned b none db db1 (old, inr (same, _)) = (old, inr same)
  notify_assignee-Versioned b (some p) db db1 (old, inl bumped) = (old, inl bumped)
  notify_assignee-Versioned b (some p) db db1 (old, inr (same, nobody)) = cc

  pub assign_bug-Versioned :
      (user : Option ℕ) (db : Db)
      → Versioned pk expected db (assign_bug env pk actor m user expected db)
  unfolding assign_bug
  assign_bug-Versioned user db =
      let h = assignment_block-Assigned user db in
      raise_if-cases (Versioned pk expected db) _ _ _ _ (λ _. refl)
        λ _.
          bind-cases (Versioned pk expected db) _ _
            (λ e db1 ran. subst (Assigned pk expected db) ran h)
            (λ r db1 ran.
              notify_assignee-Versioned r.0 r.1 db db1 (subst (Assigned pk expected db) ran h))
