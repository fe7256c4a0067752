-- ===== src/Bugs/Numbers.antt =====
-- The numbers that `create_bug` gives out.
use quorfix.Prelude.{
  ℕ, ◌+◌, ◌≡◌, ◌≢◌, ◌⊎◌, some, Option, true, false, arith, refl, sym, ◌∙◌, ap, is_some, ltb,
  Bool-cases, inl, inr, if◌then◌else◌, ◌==◌, subst,
}
use quorfix.Exec.Ensures.{
  Ensures, Returned, after_with, after_fetch, after_raise_if, after_modify, atomic-cases, returns,
  weaker,
}
use quorfix.Env.{Env}
use quorfix.Table.{lookup, save, insert}
use quorfix.Table.Laws.{lookup-save, lookup-insert}
use quorfix.Activities.Rules.{after_record}
use quorfix.Models.{Db, Bug, Membership, Project}
use quorfix.Bugs.Services.Create.{NewBug, new_bug_row, insert_bug, create_bug}

-- Every bug has a number below the counter of its project.
pub record NumbersBelow (db : Db) : Type 0 where
  pub below :
      (k : ℕ) (bug : Bug) (project : Project)
      → lookup k db.bugs ≡ some bug
      → lookup bug.project db.projects ≡ some project
      → ltb bug.number project.next_bug_number ≡ true

insert_bug-inserts :
    (pk : ℕ) (bug : Bug) (db : Db)
    → Ensures (λ _ db'. db' ≡ record db { bugs = insert pk bug db.bugs }) (insert_bug pk bug) db
unfolding insert_bug
insert_bug-inserts pk bug db = record { at = ground arith }

-- What a creation that succeeds has done, in terms of the project it found.
pub record Created (env : Env) (organization project_pk reporter : ℕ) (fields : NewBug) (db : Db)
    (project : Project) (db' : Db) : Type 0 where
  pub found_project : lookup project_pk db.projects ≡ some project
  pub not_archived : is_some project.archived_at ≡ false
  pub bugs_after :
      db'.bugs
      ≡ insert
          (env.uuid 0)
          (new_bug_row env.now organization project_pk project reporter fields
            project.next_bug_number)
          db.bugs
  pub projects_after :
      db'.projects
      ≡ save project_pk
          (record project { next_bug_number = project.next_bug_number + 1 })
          db.projects

create_bug-Created :
    (env : Env) (organization project_pk reporter : ℕ) (m : Option Membership) (fields : NewBug)
    (db : Db)
    → Ensures
        (λ pk db'.
          (pk ≡ env.uuid 0)
          × ((project : Project) × Created env organization project_pk reporter fields db project
                db'))
        (create_bug env organization project_pk reporter m fields)
        db
unfolding create_bug
create_bug-Created env organization project_pk reporter m fields db = record {
  at =
      atomic-cases (Returned _)
        (after_raise_if _ λ may. after_fetch _ _ λ project found. after_raise_if _ λ active.
          after_modify _ (
            after_with (insert_bug-inserts _ _ _) λ _ db1 inserted. after_record _ _ _ _ λ fits.
              returns _ (
                refl,
                (
                  project,
                  record {
                    found_project = found;
                    not_archived = active;
                    bugs_after = ap (λ (d : Db). d.bugs) inserted;
                    projects_after = ap (λ (d : Db). d.projects) inserted;
                  },
                ),
              )))
        (λ e. tt);
}

-- A row found under a condition is the new one or an old one.
found_either :
    {R : Type 0} (k j : ℕ) (new : R) (old : Option R) {r : R}
    → (if k == j then some new else old) ≡ some r
    → ((k ≡ j) × (new ≡ r)) ⊎ ((k ≢ j) × (old ≡ some r))
found_either k j new old h = elim (Bool-cases (k == j)) [
  | inl e ↦ inl (ground arith, ground arith)
  | inr e ↦ inr (ground arith, ground arith)
]

module _ (db : Db) (pk : ℕ) (project : Project) (found : lookup pk db.projects ≡ some project)
    (before : NumbersBelow db) where
  -- An old bug stays below the counter of its project, which only grows.
  old-below :
      (k : ℕ) (bug : Bug) (p : Project)
      → lookup k db.bugs ≡ some bug
      → ((pk ≡ bug.project)
          × (record project { next_bug_number = project.next_bug_number + 1 } ≡ p))
        ⊎ ((pk ≢ bug.project) × (lookup bug.project db.projects ≡ some p))
      → ltb bug.number p.next_bug_number ≡ true
  old-below k bug p at_k (inl (e, new)) = rw (← new) (
      grown bug.number project.next_bug_number (
        before.below k bug project at_k (subst (λ j. lookup j db.projects ≡ some project) e found)))
    where
      grown : (a b : ℕ) → ltb a b ≡ true → ltb a (b + 1) ≡ true
      grown a b h = ground arith
  old-below k bug p at_k (inr (e, old)) = before.below k bug p at_k old

below_next :
    (project : Project) (p : Project)
    → record project { next_bug_number = project.next_bug_number + 1 } ≡ p
    → ltb project.next_bug_number p.next_bug_number ≡ true
below_next project p e = rw (← e) (ground arith)

Created-below :
    (env : Env) (organization project_pk reporter : ℕ) (fields : NewBug) (db db' : Db)
    (project : Project)
    → Created env organization project_pk reporter fields db project db'
    → NumbersBelow db
    → NumbersBelow db'
unfolding lookup insert
Created-below env organization project_pk reporter fields db db' project made before = record {
  below = λ k bug p at_k at_p.
      by_bug k bug p
        (found_either (env.uuid 0) k made_bug (lookup k db.bugs)
          (subst (λ t. lookup k t ≡ some bug) made.bugs_after at_k))
        (by_project bug.project p
          (subst (λ t. lookup bug.project t ≡ some p) made.projects_after at_p));
}
  where
    made_bug : Bug
    made_bug =
        new_bug_row env.now organization project_pk project reporter fields project.next_bug_number

    made_project : Project
    made_project = record project { next_bug_number = project.next_bug_number + 1 }

    by_project :
        (j : ℕ) (p : Project)
        → lookup j (save project_pk made_project db.projects) ≡ some p
        → ((project_pk ≡ j) × (made_project ≡ p))
          ⊎ ((project_pk ≢ j) × (lookup j db.projects ≡ some p))
    by_project j p h = found_either project_pk j made_project (lookup j db.projects) (
        sym (lookup-save project_pk j {old = project} made_project db.projects made.found_project)
        ∙ h)

    by_bug :
        (k : ℕ) (bug : Bug) (p : Project)
        → ((env.uuid 0 ≡ k) × (made_bug ≡ bug)) ⊎ ((env.uuid 0 ≢ k) × (lookup k db.bugs ≡ some bug))
        → ((project_pk ≡ bug.project) × (made_project ≡ p))
          ⊎ ((project_pk ≢ bug.project) × (lookup bug.project db.projects ≡ some p))
        → ltb bug.number p.next_bug_number ≡ true
    by_bug k bug p (inr (e, old)) h =
        old-below db project_pk project made.found_project before k bug p old h
    by_bug k bug p (inl (e, new)) (inl (e', new')) =
        subst (λ (b : Bug). ltb b.number p.next_bug_number ≡ true) new (below_next project p new')
    by_bug k bug p (inl (e, new)) (inr (e', old')) = absurd (e' (ap (λ (b : Bug). b.project) new))

-- Where every bug has a number below the counter of its project, a creation that returns found a
-- project that is not archived, the table then holds the new bug under the key returned with the
-- number that the counter had, and every bug still has a number below the counter of its project.
pub create_bug-numbers :
    (env : Env) (organization project_pk reporter : ℕ) (m : Option Membership) (fields : NewBug)
    (db : Db)
    → NumbersBelow db
    → Ensures
        (λ pk db'.
          NumbersBelow db'
          × ((project : Project) × (lookup project_pk db.projects ≡ some project)
              × (is_some project.archived_at ≡ false)
              × (lookup pk db'.bugs
                  ≡ some (
                      new_bug_row env.now organization project_pk project reporter fields
                        project.next_bug_number))))
        (create_bug env organization project_pk reporter m fields)
        db
create_bug-numbers env organization project_pk reporter m fields db before =
    weaker (create_bug-Created env organization project_pk reporter m fields db)
      λ pk db' (is_pk, (project, made)). (
        Created-below env organization project_pk reporter fields db db' project made before,
        (
          project,
          made.found_project,
          made.not_archived,
          in_table pk db' project is_pk made.bugs_after,
        ),
      )
  where
    in_table :
        (pk : ℕ) (db' : Db) (project : Project)
        → pk ≡ env.uuid 0
        → db'.bugs
          ≡ insert
              (env.uuid 0)
              (new_bug_row env.now organization project_pk project reporter fields
                project.next_bug_number)
              db.bugs
        → lookup pk db'.bugs
          ≡ some (
              new_bug_row env.now organization project_pk project reporter fields
                project.next_bug_number)
    in_table pk db' project is_pk bugs =
        rw
          (
            is_pk,
            bugs,
            lookup-insert (env.uuid 0) (env.uuid 0)
                (new_bug_row env.now organization project_pk project reporter fields
                  project.next_bug_number)
                db.bugs,
          )
          (ground arith)
