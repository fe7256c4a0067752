-- ===== src/Bugs/Versions/Update.antt =====
-- `update_bug`.
use quorfix.Prelude.{ℕ, ◌+◌, ◌≡◌, some, Option, refl, List, [], ◌∷◌, inl, inr, Bool-cases, ◌∙◌, ap}
use quorfix.Exec.{ok}
use quorfix.Exec.Ensures.{Ensures, after_with, after_raise_if, returns, atomic-cases}
use quorfix.Env.{Env}
use quorfix.Table.{lookup}
use quorfix.Activities.Rules.{after_record}
use quorfix.Models.{Db, Bug, Membership}
use quorfix.Bugs.Monad.Rules.{
  after_lock_bug, after_check_version, after_check_mutable, after_save_bug,
}
use quorfix.Bugs.Services.Update.{
  Change, Changed, collect, set_field, differs, record_changes, finish_update, update_bug,
}
use quorfix.Bugs.Versions.{Versioned}
use quorfix.Bugs.Versions.Saved.{saved-Versioned, kept-Versioned}

-- The loop over the fields leaves the version alone, ...
set_field-version : (c : Change) (b : Bug) → (set_field c b).version ≡ b.version
unfolding set_field
set_field-version (Change.title v) b = refl
set_field-version _ b = refl

collect-version : (cs : List Change) (b : Bug) → (collect cs b).0.version ≡ b.version
unfolding collect
collect-version [] b = refl
collect-version (c ∷ cs) b = elim (Bool-cases (differs b c)) [
  | inl e ↦ rw e (collect-version cs (set_field c b) ∙ set_field-version c b)
  | inr e ↦ rw e (collect-version cs b)
]

-- ... and so do the activities with the bugs.
record_changes-bugs :
    (env : Env) (pk : ℕ) (bug : Bug) (actor : Option ℕ) (k : ℕ) (changed : Changed) (db : Db)
    → Ensures (λ _ db'. db'.bugs ≡ db.bugs) (record_changes env pk bug actor k changed) db
unfolding record_changes
record_changes-bugs env pk bug actor k [] db = returns _ refl
record_changes-bugs env pk bug actor k ((old, new) ∷ rest) db =
    after_record _ _ _ _ λ fits. record_changes-bugs env pk bug actor (k + 1) rest _

module _ (env : Env) (pk : ℕ) (actor : Option ℕ) (m : Option Membership) (expected : ℕ) where
  finished :
      (old bug : Bug) (changed : Changed) (db : Db)
      → lookup pk db.bugs ≡ some old
      → old.version ≡ expected
      → bug.version ≡ old.version
      → Ensures
          (λ b db'. Versioned pk expected db (ok b, db'))
          (finish_update env pk actor (bug, changed))
          db
  unfolding finish_update
  finished old bug [] db row v same = returns _ (kept-Versioned pk expected old bug db row v)
  finished old bug (c ∷ changed) db row v same = after_raise_if _ λ narrow. after_save_bug _ _ (
      after_with
        (record_changes-bugs env pk (record bug { version = bug.version + 1 }) actor 0 (c ∷ changed)
          _)
        λ _ db1 e. returns _ (saved-Versioned pk expected old _ db row v (ap (λ n. n + 1) same) e))

  pub update_bug-Versioned :
      (fields : List Change) (db : Db)
      → Versioned pk expected db (update_bug env pk actor m expected fields db)
  unfolding update_bug
  update_bug-Versioned fields db =
      atomic-cases (Versioned pk expected db)
        (after_lock_bug _ _ λ bug project row parent. after_check_version _ _ λ v.
          after_check_mutable bug project
            λ a b. after_raise_if _ λ may. finished bug _ _ db row v (collect-version fields bug))
        (λ e. refl)
