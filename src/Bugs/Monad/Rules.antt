-- ===== src/Bugs/Monad/Rules.antt =====
-- The rules of `Ensures` for the steps that the services on bugs share.
use quorfix.Prelude.{ℕ, ◌≡◌, false, some, arith, is_some}
use quorfix.Exec.{◌>>=◌, ◌>>◌}
use quorfix.Exec.Ensures.{
  Ensures, after, after_fetch, after_raise_if, when_raise_if, when_modify, returns,
}
use quorfix.Table.{lookup, save}
use quorfix.Models.{Db, Bug, Project}
use quorfix.Bugs.Monad.{Action, Locked, lock_bug, check_version, check_mutable, save_bug}

module _ {B : Type 0} {Q : B → Db → Type 0} where
  pub after_lock_bug :
      (pk : ℕ) (f : Locked → Action B) {db : Db}
      → ((bug : Bug) (project : Project)
          → lookup pk db.bugs ≡ some bug
          → lookup bug.project db.projects ≡ some project
          → Ensures Q (f (record { pk = pk; bug = bug; project = project })) db)
      → Ensures Q (lock_bug pk >>= f) db
  unfolding lock_bug
  after_lock_bug pk f h =
      after (after_fetch _ _ λ bug e. after_fetch _ _ λ project e'. returns _ (h bug project e e'))

  pub after_check_version :
      (bug : Bug) (expected : ℕ) {k : Action B} {db : Db}
      → (bug.version ≡ expected → Ensures Q k db)
      → Ensures Q (check_version bug expected >> k) db
  unfolding check_version
  after_check_version bug expected h = after_raise_if _ λ e. h (ground arith)

  pub after_check_mutable :
      (bug : Bug) (project : Project) {k : Action B} {db : Db}
      → (is_some bug.archived_at ≡ false → is_some project.archived_at ≡ false → Ensures Q k db)
      → Ensures Q (check_mutable bug project >> k) db
  unfolding check_mutable
  after_check_mutable bug project h = after (after_raise_if _ λ a. when_raise_if _ λ b. h a b)

  pub after_save_bug :
      (pk : ℕ) (bug : Bug) {k : Action B} {db : Db}
      → Ensures Q k (record db { bugs = save pk bug db.bugs })
      → Ensures Q (save_bug pk bug >> k) db
  unfolding save_bug
  after_save_bug pk bug h = after (when_modify _ h)
