-- ===== src/Organizations/Services.antt =====
-- backend/apps/organizations/services.py: invitations, roles and removal.
use quorfix.Prelude.{
  ℕ, Bool, false, not, Option, none, some, ◌&&◌, List, [], ◌∷◌, Text, codes, text_eq, text_in,
  if◌then◌else◌, ◌==◌,
}
use quorfix.Exec.{Exec, pure, raise_if, gets, fetch, modify, atomic, ◌>>=◌, ◌>>◌}
use quorfix.Env.{Env}
use quorfix.Table.{Table, lookup, save, delete, exists_row, count_rows}
use quorfix.Models.{Db, User, Organization, Membership, CommunityRole}
use quorfix.Bugs.Policies.{is_administrator_role}
use quorfix.Bugs.Services.Removal.{clear_bug_assignments}
use quorfix.Projects.{clear_project_leadership}

pub data OrganizationError : Type 0 where
  protected_demo_account last_administrator invitation_already_pending : OrganizationError
  member_already_exists invitation_invalid stop_iteration does_not_exist : OrganizationError
  integrity_error data_error setup_already_completed setup_not_allowed : OrganizationError

abbrev pub Action : Type 0 → Type 0
Action A = Exec OrganizationError Db A

-- accounts/services.py
abbrev pub demo_organization_slug : Text
demo_organization_slug = codes "quorfix-demo"

abbrev pub demo_emails : List Text
demo_emails =
    codes "admin@quorfix.local"
    ∷ codes "developer@quorfix.local"
    ∷ codes "qa@quorfix.local"
    ∷ codes "reporter@quorfix.local"
    ∷ codes "viewer@quorfix.local"
    ∷ []

abbrev pub has_demo_slug : Option Organization → Bool
has_demo_slug none = false
has_demo_slug (some o) = text_eq o.slug demo_organization_slug

unfoldable pub is_demo_member : Table Organization → ℕ → ℕ → Membership → Bool
unfolding lookup
is_demo_member organizations user _ m =
    m.user == user && has_demo_slug (lookup m.organization organizations)

unfoldable pub is_demo_user : Env → ℕ → User → Db → Bool
unfolding exists_row is_demo_member
is_demo_user env pk user db =
    text_in (env.lower user.email) demo_emails
    && exists_row (is_demo_member db.organizations pk) db.memberships

-- A member of the locked set: `next(m for m in org_memberships if m.pk == membership.pk)`.
abbrev pub within : ℕ → Option Membership → Option Membership
within organization none = none
within organization (some m) = if m.organization == organization then some m else none

unfoldable pub locked_membership : ℕ → ℕ → Db → Option Membership
unfolding lookup
locked_membership organization pk db = within organization (lookup pk db.memberships)

abbrev pub is_administrator_of : ℕ → ℕ → Membership → Bool
is_administrator_of organization _ m =
    m.organization == organization && is_administrator_role m.role

abbrev pub is_other_administrator_of : ℕ → ℕ → ℕ → Membership → Bool
is_other_administrator_of organization excluding k m =
    is_administrator_of organization k m && not (k == excluding)

-- `_remaining_administrators`
unfoldable pub remaining_administrators : ℕ → ℕ → Db → ℕ
unfolding count_rows
remaining_administrators organization excluding db =
    count_rows (is_other_administrator_of organization excluding) db.memberships

unfoldable pub change_member_role : Env → ℕ → ℕ → CommunityRole → Bool → Action Membership
unfolding locked_membership lookup save is_demo_user remaining_administrators
change_member_role env organization pk new_role bypass_demo_protection = atomic (do
  membership ← fetch (locked_membership organization pk) stop_iteration
  user ← fetch (λ db. lookup membership.user db.users) does_not_exist
  demo ← gets (is_demo_user env membership.user user)
  raise_if (demo && not bypass_demo_protection) protected_demo_account
  others ← gets (remaining_administrators organization pk)
  raise_if
      (is_administrator_role membership.role && not (is_administrator_role new_role) && others == 0)
      last_administrator
  let changed = record membership { role = new_role }
  modify (λ db. record db { memberships = save pk changed db.memberships })
  pure changed)

unfoldable pub remove_member : Env → ℕ → ℕ → Action Unit
unfolding locked_membership lookup delete is_demo_user remaining_administrators
    clear_project_leadership clear_bug_assignments
remove_member env organization pk = atomic (do
  membership ← fetch (locked_membership organization pk) stop_iteration
  user ← fetch (λ db. lookup membership.user db.users) does_not_exist
  demo ← gets (is_demo_user env membership.user user)
  raise_if demo protected_demo_account
  others ← gets (remaining_administrators organization pk)
  raise_if (is_administrator_role membership.role && others == 0) last_administrator
  clear_project_leadership membership.organization membership.user
  clear_bug_assignments data_error env membership.organization membership.user user.email
  modify (λ db. record db { memberships = delete pk db.memberships }))
