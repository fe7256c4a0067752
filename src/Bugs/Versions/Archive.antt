-- ===== src/Bugs/Versions/Archive.antt =====
-- `archive_bug` and `restore_bug`.
use quorfix.Prelude.{ℕ, Option, refl}
use quorfix.Exec.Ensures.{after_raise_if, returns, atomic-cases, raise_if-cases}
use quorfix.Env.{Env}
use quorfix.Activities.Rules.{after_record}
use quorfix.Models.{Db, Membership}
use quorfix.Bugs.Monad.Rules.{after_lock_bug, after_check_version, after_save_bug}
use quorfix.Bugs.Services.Archive.{archive_bug, restore_bug}
use quorfix.Bugs.Versions.{Versioned}
use quorfix.Bugs.Versions.Saved.{saved-Versioned}

module _ (env : Env) (pk : ℕ) (actor : Option ℕ) (m : Option Membership) (expected : ℕ) where
  pub archive_bug-Versioned :
      (db : Db) → Versioned pk expected db (archive_bug env pk actor m expected db)
  unfolding archive_bug
  archive_bug-Versioned db =
      raise_if-cases (Versioned pk expected db) _ _ _ _ (λ _. refl)
        λ _.
          atomic-cases (Versioned pk expected db)
            (after_lock_bug _ _ λ bug project row parent. after_check_version _ _ λ v.
              after_raise_if _ λ a. after_raise_if _ λ b. after_save_bug _ _ (
                after_record _ _ _ _
                  λ fits. returns _ (saved-Versioned pk expected bug _ db row v refl refl)))
            (λ e. refl)

  pub restore_bug-Versioned :
      (db : Db) → Versioned pk expected db (restore_bug env pk actor m expected db)
  unfolding restore_bug
  restore_bug-Versioned db =
      raise_if-cases (Versioned pk expected db) _ _ _ _ (λ _. refl)
        λ _.
          atomic-cases (Versioned pk expected db)
            (after_lock_bug _ _ λ bug project row parent. after_check_version _ _ λ v.
              after_raise_if _ λ a. after_raise_if _ λ b. after_save_bug _ _ (
                after_record _ _ _ _
                  λ fits. returns _ (saved-Versioned pk expected bug _ db row v refl refl)))
            (λ e. refl)
