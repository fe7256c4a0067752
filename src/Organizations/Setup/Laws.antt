-- ===== src/Organizations/Setup/Laws.antt =====
-- The setup happens once.
use quorfix.Prelude.{
  ℕ, ◌≡◌, refl, Bool, true, false, not, ◌||◌, none, some, Text, length, ltb, arith, if◌then◌else◌,
}
use quorfix.Exec.{Exec, Result, ok, err, ◌>>=◌}
use quorfix.Exec.Ensures.{
  Ensures, Returned, atomic-cases, after_gets, after_raise_if, after_fetch, after_modify,
  after_with, returns,
}
use quorfix.Env.{Env}
use quorfix.Table.{lookup, insert, exists_row}
use quorfix.Table.Laws.{lookup-insert}
use quorfix.Models.{Db, Organization}
use quorfix.Organizations.Services.{
  OrganizationError, setup_already_completed, integrity_error, data_error,
}
use quorfix.Organizations.Administrators.{has_administrator}
use quorfix.Organizations.Invitations.{create_user}
use quorfix.Organizations.Setup.{
  Capabilities, can_create_additional_organization, has_slug, insert_organization,
  is_instance_configured, setup_instance,
}

is_true : (b : Bool) → not b ≡ false → b ≡ true
is_true true h = refl
is_true false h = cc h

-- Where the setup has been completed, it is refused and changes nothing.
pub setup_instance-refused :
    (env : Env) (slugify : Text → Text) (capabilities : Capabilities) (name email : Text) (db : Db)
    → is_instance_configured db ≡ true
    → setup_instance env slugify capabilities name email db ≡ (err setup_already_completed, db)
unfolding setup_instance ◌>>=◌ quorfix.Exec.atomic
setup_instance-refused env slugify capabilities name email db h = rw h refl

create_user-same :
    (env : Env) (email : Text) (db : Db)
    → Ensures (λ _ db'. db'.organizations ≡ db.organizations) (create_user env email none) db
unfolding create_user
create_user-same env email db =
    after_gets _ _ (after_raise_if _ λ free. after_modify _ (returns _ refl))

insert_organization-free :
    (k : ℕ) (o : Organization) (db : Db)
    → Ensures
        (λ _ db'.
          (exists_row (has_slug o.slug) db.organizations ≡ false)
          × (lookup k db'.organizations ≡ some o))
        (insert_organization k o)
        db
unfolding insert_organization
insert_organization-free k o db = record {
  at =
      by_tests (exists_row (has_slug o.slug) db.organizations) refl
        (ltb 255 (length o.name) || ltb 255 (length o.slug));
}
  where
    found : lookup k (insert k o db.organizations) ≡ some o
    found = rw (lookup-insert k k o db.organizations) (ground arith)

    by_tests :
        (a : Bool)
        → exists_row (has_slug o.slug) db.organizations ≡ a
        → (b : Bool)
        → Returned {E = OrganizationError}
            (λ (_ : Unit) db'.
              (exists_row (has_slug o.slug) db.organizations ≡ false)
              × (lookup k db'.organizations ≡ some o))
            (if a
              then (err integrity_error, db)
              else if b
              then (err data_error, db)
              else (ok tt, record db { organizations = insert k o db.organizations }))
    by_tests true e b = tt
    by_tests false e true = tt
    by_tests false e false = (e, found)

-- What a setup that returns leaves, and that one that raises leaves nothing.
abbrev pub SetUp :
    (env : Env) (capabilities : Capabilities) (name : Text) (db : Db)
    → Result OrganizationError (ℕ × ℕ × ℕ) × Db
    → Type 0
SetUp env capabilities name db (ok (user, organization, membership), db') =
    (is_instance_configured db ≡ false)
    × (can_create_additional_organization capabilities db ≡ true)
    × ((o : Organization) × (lookup organization db'.organizations ≡ some o)
        × (o.name ≡ name)
        × (exists_row (has_slug o.slug) db.organizations ≡ false))
    × (has_administrator organization db' ≡ true)
    × ((env' : Env) (slugify' : Text → Text) (capabilities' : Capabilities) (name' email' : Text)
        → setup_instance env' slugify' capabilities' name' email' db'
          ≡ (err setup_already_completed, db'))
SetUp env capabilities name db (err e, db') = db' ≡ db

-- A setup that returns found that none had been completed and that another organization was
-- allowed, left an organization of the given name, under a slug that none had, with an
-- administrator, and every later setup is refused with `SetupAlreadyCompleted` and changes
-- nothing. One that raises changes nothing.
pub setup_instance-SetUp :
    (env : Env) (slugify : Text → Text) (capabilities : Capabilities) (name email : Text) (db : Db)
    → SetUp env capabilities name db (setup_instance env slugify capabilities name email db)
unfolding setup_instance exists_row
setup_instance-SetUp env slugify capabilities name email db =
    atomic-cases (SetUp env capabilities name db)
      (after_gets _ _ (
        after_raise_if _ λ fresh. after_gets _ _ (
          after_raise_if _ λ allowed. after_raise_if _ λ fits.
            after_with (create_user-same env (env.lower email) db) λ user db1 same.
              after_fetch _ _ λ slug free.
                after_with (insert_organization-free (env.uuid 1) _ db1) λ _ db2 (unique, there).
                  after_modify _ (
                    after_modify _ (
                      returns _ (
                        fresh,
                        is_true _ allowed,
                        (_, there, refl, rw (← same) unique),
                        ground arith,
                        λ env' slugify' capabilities' name' email'.
                            setup_instance-refused env' slugify' capabilities' name' email' _ refl,
                      ))))))
      (λ e. refl)
