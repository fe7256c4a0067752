-- ===== src/Organizations/Setup.antt =====
-- `setup_instance` of backend/apps/organizations/services.py, with the policy of policies.py: the
-- first organization and its administrator.
pub mod Laws
use quorfix.Prelude.{
  ℕ, Bool, true, false, not, ◌&&◌, ◌||◌, Option, none, some, Text, codes, text_eq, length, ltb,
  is_some, if◌then◌else◌,
}
use quorfix.Exec.{Exec, ok, err, pure, raise_if, gets, fetch, modify, atomic, ◌>>=◌, ◌>>◌}
use quorfix.Env.{Env}
use quorfix.Table.{Table, insert, exists_row}
use quorfix.Models.{Db, Organization, Membership, CommunityRole}
use quorfix.Registry.{Registry, is_registered}
use quorfix.Organizations.Services.{
  Action, OrganizationError, setup_already_completed, setup_not_allowed, integrity_error,
  data_error,
}
use quorfix.Organizations.Invitations.{create_user}
use quorfix.Organizations.Slugs.{unique_slug}

-- `capability_registry`, whatever a capability is
abbrev pub Capabilities : Type 0
Capabilities = Registry Unit

abbrev pub is_active_organization : ℕ → Organization → Bool
is_active_organization _ o = o.is_active

unfoldable pub can_create_additional_organization : Capabilities → Db → Bool
unfolding exists_row is_registered
can_create_additional_organization capabilities db =
    is_registered capabilities (codes "multiple_organizations")
    || not (exists_row is_active_organization db.organizations)

abbrev pub has_slug : Text → ℕ → Organization → Bool
has_slug slug _ o = text_eq o.slug slug

-- `Organization.objects.create`, with its unique slug and the widths of its columns.
unfoldable pub insert_organization : ℕ → Organization → Action Unit
unfolding exists_row insert
insert_organization k o db =
    if exists_row (has_slug o.slug) db.organizations
    then (err integrity_error, db)
    else if ltb 255 (length o.name) || ltb 255 (length o.slug)
    then (err data_error, db)
    else (ok tt, record db { organizations = insert k o db.organizations })

-- `is_instance_configured`
abbrev pub is_instance_configured : Db → Bool
is_instance_configured db = is_some db.setup_completed_at

-- The key of the user, of the organization and of the membership. The password and the names of the
-- person are not kept.
unfoldable pub setup_instance :
    Env → (Text → Text) → Capabilities → Text → Text → Action (ℕ × ℕ × ℕ)
unfolding can_create_additional_organization create_user unique_slug insert_organization insert
setup_instance env slugify capabilities organization_name email = atomic (do
  completed ← gets (λ db. is_some db.setup_completed_at)
  raise_if completed setup_already_completed
  allowed ← gets (can_create_additional_organization capabilities)
  raise_if (not allowed) setup_not_allowed
  raise_if (ltb 254 (length (env.lower email))) data_error
  user ← create_user env (env.lower email) none
  slug ← fetch (λ db. unique_slug slugify organization_name db.organizations) integrity_error
  insert_organization (env.uuid 1)
      (record { name = organization_name; slug = slug; is_active = true })
  modify (λ db. record db {
    memberships =
        insert (env.uuid 2)
          (record {
            organization = env.uuid 1;
            user = user;
            role = CommunityRole.administrator;
            invited_by = none;
            joined_at = env.now;
          })
          db.memberships;
  })
  modify (λ db. record db { setup_completed_at = some env.now })
  pure (user, env.uuid 1, env.uuid 2))
