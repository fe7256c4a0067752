-- ===== src/Organizations/Invitations.antt =====
-- backend/apps/organizations/services.py: `create_invitation`, `accept_invitation` and
-- `revoke_invitation`, with the constraints of organizations/models.py.
pub mod Laws
use quorfix.Prelude.{
  ℕ, ◌+◌, ◌*◌, Bool, true, false, not, Option, none, some, ◌&&◌, ◌||◌, Text, text_eq, length, ltb,
  leb, if◌then◌else◌, ◌==◌, is_some, is_none,
}
use quorfix.Exec.{Exec, ok, err, pure, raise, raise_if, gets, fetch, modify, atomic, ◌>>=◌, ◌>>◌}
use quorfix.Env.{Env}
use quorfix.Table.{Table, lookup, insert, save, exists_row, first, find_row}
use quorfix.Models.{Db, User, Organization, Membership, Invitation, CommunityRole}
use quorfix.Organizations.Services.{
  Action, OrganizationError, protected_demo_account, invitation_already_pending,
  member_already_exists, invitation_invalid, does_not_exist, integrity_error, data_error,
  demo_organization_slug,
}

-- `timedelta(days=settings.INVITATION_EXPIRY_DAYS)`, in the microseconds of the clock
abbrev pub invitation_lifetime : ℕ
invitation_lifetime = 7 * 86400 * 1000000

abbrev pub has_email : Text → Option User → Bool
has_email email none = false
has_email email (some u) = text_eq u.email email

-- `filter(organization=organization, user__email=email)`
unfoldable pub is_member_with_email : Table User → ℕ → Text → ℕ → Membership → Bool
unfolding lookup
is_member_with_email users organization email _ m =
    m.organization == organization && has_email email (lookup m.user users)

abbrev pub is_unanswered : Invitation → Bool
is_unanswered i = is_none i.accepted_at && is_none i.revoked_at

-- The rows that `unique_pending_invitation_per_email` speaks of.
abbrev pub is_open_invitation : ℕ → Text → ℕ → Invitation → Bool
is_open_invitation organization email _ i =
    i.organization == organization && text_eq i.email email && is_unanswered i

-- `is_expired`
abbrev pub is_expired : Env → Invitation → Bool
is_expired env i = leb i.expires_at env.now

abbrev pub has_token_hash : Text → ℕ → Invitation → Bool
has_token_hash hash _ i = text_eq i.token_hash hash

-- `Invitation.objects.create`, with the two unique constraints and the width of the column.
unfoldable pub insert_invitation : ℕ → Invitation → Action Unit
unfolding exists_row insert
insert_invitation k i db =
    if exists_row (is_open_invitation i.organization i.email) db.invitations
      || exists_row (has_token_hash i.token_hash) db.invitations
    then (err integrity_error, db)
    else if ltb 254 (length i.email)
    then (err data_error, db)
    else (ok tt, record db { invitations = insert k i db.invitations })

-- An open invitation that is there: refused, or closed if it has run out.
unfoldable pub close_expired : Env → Option (ℕ × Invitation) → Action Unit
unfolding save
close_expired env none = pure tt
close_expired env (some (k, existing)) = do
  raise_if (not (is_expired env existing)) invitation_already_pending
  modify (λ db. record db {
    invitations = save k (record existing { revoked_at = some env.now }) db.invitations;
  })

-- `create_invitation`, of the token that `secrets` has drawn; the result is the key of the row.
unfoldable pub create_invitation :
    Env → ℕ → Option ℕ → Text → CommunityRole → Bool → Text → Action ℕ
unfolding lookup exists_row first is_member_with_email close_expired insert_invitation
create_invitation env organization invited_by email_given role bypass_demo_protection raw_token =
    atomic (do
      row ← fetch (λ db. lookup organization db.organizations) does_not_exist
      raise_if (text_eq row.slug demo_organization_slug && not bypass_demo_protection)
          protected_demo_account
      let email = env.lower email_given
      is_member ←
          gets (λ db. exists_row (is_member_with_email db.users organization email) db.memberships)
      raise_if is_member member_already_exists
      existing ← gets (λ db. first (is_open_invitation organization email) db.invitations)
      close_expired env existing
      insert_invitation (env.uuid 0) (record {
        organization = organization;
        email = email;
        role = role;
        token_hash = env.sha256 raw_token;
        invited_by = invited_by;
        expires_at = env.now + invitation_lifetime;
        accepted_at = none;
        revoked_at = none;
      })
      pure (env.uuid 0))

abbrev pub has_user_email : Text → ℕ → User → Bool
has_user_email email _ u = text_eq u.email email

-- `unique_user_email_lower`
abbrev pub same_lower_email : Env → Text → ℕ → User → Bool
same_lower_email env email _ u = text_eq (env.lower u.email) (env.lower email)

abbrev pub key_found : {R : Type 0} → Option (ℕ × R) → Option ℕ
key_found none = none
key_found (some (k, _)) = some k

-- `User.objects.get_or_create(email=...)`: the key of the row that was there, or of a new one.
unfoldable pub create_user : Env → Text → Option ℕ → Action ℕ
unfolding exists_row insert
create_user env email (some k) = pure k
create_user env email none = do
  taken ← gets (λ db. exists_row (same_lower_email env email) db.users)
  raise_if taken integrity_error
  modify (λ db. record db {
    users =
        insert (env.uuid 0)
          (record { email = email; is_active = true; is_staff = false; is_superuser = false })
          db.users;
  })
  pure (env.uuid 0)

-- `unique_membership_per_org`
abbrev pub is_membership_of : ℕ → ℕ → ℕ → Membership → Bool
is_membership_of organization user _ m = m.organization == organization && m.user == user

-- `OrganizationMembership.objects.get_or_create(organization=..., user=...)`
unfoldable pub join : Env → Invitation → ℕ → Option ℕ → Action ℕ
unfolding insert
join env invitation user (some k) = pure k
join env invitation user none = do
  modify (λ db. record db {
    memberships =
        insert (env.uuid 1)
          (record {
            organization = invitation.organization;
            user = user;
            role = invitation.role;
            invited_by = invitation.invited_by;
            joined_at = env.now;
          })
          db.memberships;
  })
  pure (env.uuid 1)

-- `accept_invitation`; the result is the user's key and the membership's.
unfoldable pub accept_invitation : Env → Text → Action (ℕ × ℕ)
unfolding find_row save create_user join
accept_invitation env raw_token = atomic (do
  (k, invitation) ←
      fetch (λ db. find_row (has_token_hash (env.sha256 raw_token)) db.invitations)
        invitation_invalid
  raise_if
      (is_some invitation.accepted_at || is_some invitation.revoked_at || is_expired env invitation)
      invitation_invalid
  account ← gets (λ db. key_found (find_row (has_user_email invitation.email) db.users))
  user ← create_user env invitation.email account
  member ←
      gets
        (λ db. key_found (find_row (is_membership_of invitation.organization user) db.memberships))
  membership ← join env invitation user member
  modify (λ db. record db {
    invitations = save k (record invitation { accepted_at = some env.now }) db.invitations;
  })
  pure (user, membership))

-- `revoke_invitation`, of a row that the view has read.
unfoldable pub revoke_invitation : Env → ℕ → Action Unit
unfolding lookup save
revoke_invitation env k = atomic (do
  invitation ← fetch (λ db. lookup k db.invitations) does_not_exist
  modify (λ db. record db {
    invitations = save k (record invitation { revoked_at = some env.now }) db.invitations;
  }))
