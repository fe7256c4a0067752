-- ===== src/Bugs/Versions/Relationships.antt =====
-- `create_relationship` and `remove_relationship`.
use quorfix.Prelude.{ℕ, ◌≡◌, Option, arith, refl}
use quorfix.Exec.Ensures.{
  Ensures, after_with, after_raise_if, after_fetch, after_modify, returns, raises, atomic-cases,
  raise_if-cases,
}
use quorfix.Env.{Env}
use quorfix.Activities.Rules.{after_record}
use quorfix.Models.{Db, BugRelationship, RelationshipType, Membership}
use quorfix.Bugs.Monad.Rules.{
  after_lock_bug, after_check_version, after_check_mutable, after_save_bug,
}
use quorfix.Bugs.Services.Transition.{Made, existing, made, refused, get_or_create_relationship}
use quorfix.Bugs.Services.Relationships.{
  create_relationship, remove_relationship, raise_unless_made,
}
use quorfix.Bugs.Versions.{Versioned}
use quorfix.Bugs.Versions.Saved.{saved-Versioned}

pub get_or_create_relationship-bugs :
    {E : Type 0} (pk : ℕ) (rel : BugRelationship) (db : Db)
    → Ensures {E = E} (λ m db'. db'.bugs ≡ db.bugs) (get_or_create_relationship pk rel) db
unfolding get_or_create_relationship
get_or_create_relationship-bugs pk rel db = record { at = ground arith }

raise_unless_made-same :
    (m : Made) (db : Db) → Ensures (λ _ db'. (m ≡ made) × (db' ≡ db)) (raise_unless_made m) db
unfolding raise_unless_made
raise_unless_made-same made db = returns _ (refl, refl)
raise_unless_made-same existing db = raises _
raise_unless_made-same refused db = raises _

module _ (env : Env) (pk : ℕ) (actor : Option ℕ) (m : Option Membership) where
  pub create_relationship-Versioned :
      (related : ℕ) (kind : RelationshipType) (expected : ℕ) (db : Db)
      → Versioned pk expected db (create_relationship env pk actor m related kind expected db)
  unfolding create_relationship
  create_relationship-Versioned related kind expected db =
      raise_if-cases (Versioned pk expected db) _ _ _ _ (λ _. refl)
        λ _.
          raise_if-cases (Versioned pk expected db) _ _ _ _ (λ _. refl)
            λ _.
              atomic-cases (Versioned pk expected db)
                (after_lock_bug _ _ λ bug project row parent. after_check_version _ _ λ v.
                  after_check_mutable bug project λ a b. after_fetch _ _ λ target found.
                    after_raise_if _ λ ne.
                      after_with (get_or_create_relationship-bugs _ _ db) λ outcome db1 same.
                        after_with (raise_unless_made-same outcome db1) λ _ db2 made_here.
                          after_save_bug _ _ (
                            after_record _ _ _ _ λ fits.
                              returns _
                                (saved-Versioned pk expected bug _ db row v refl (ground (arith)))))
                (λ e. refl)

  pub remove_relationship-Versioned :
      (relationship expected : ℕ) (db : Db)
      → Versioned pk expected db (remove_relationship env pk actor m relationship expected db)
  unfolding remove_relationship
  remove_relationship-Versioned relationship expected db =
      raise_if-cases (Versioned pk expected db) _ _ _ _ (λ _. refl)
        λ _.
          atomic-cases (Versioned pk expected db)
            (after_lock_bug _ _ λ bug project row parent. after_check_version _ _ λ v.
              after_check_mutable bug project λ a b. after_fetch _ _ λ rel found.
                after_fetch _ _ λ other found'. after_modify _ (
                  after_save_bug _ _ (
                    after_record _ _ _ _
                      λ fits. returns _ (saved-Versioned pk expected bug _ db row v refl refl))))
            (λ e. refl)
