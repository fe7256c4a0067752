-- ===== src/Organizations/Invitations/Laws.antt =====
-- An invitation is used once, and makes its addressee a member.
use quorfix.Prelude.{
  ℕ, ◌≡◌, refl, true, false, Option, none, some, arith, is_some, is_none, Text, sym, subst, ◌∙◌, ap,
}
use quorfix.Exec.{err, ◌>>=◌}
use quorfix.Exec.Ensures.{
  Ensures, Returned, after_with, after_fetch, after_gets, after_raise_if, after_modify,
  atomic-cases, returns, weaker,
}
use quorfix.Env.{Env}
use quorfix.Table.{save, insert, exists_row, find_row}
use quorfix.Table.Laws.{find_row-save, find_row_passes, find_row-exists}
use quorfix.Models.{Db, Membership, Invitation}
use quorfix.Organizations.Services.{invitation_invalid}
use quorfix.Organizations.Invitations.{
  has_token_hash, is_expired, create_user, join, key_found, is_membership_of, accept_invitation,
}

create_user-invitations :
    (env : Env) (email : Text) (account : Option ℕ) (db : Db)
    → Ensures (λ _ db'. db'.invitations ≡ db.invitations) (create_user env email account) db
unfolding create_user
create_user-invitations env email none db =
    after_gets _ _ (after_raise_if _ λ free. after_modify _ (returns _ refl))
create_user-invitations env email (some k) db = returns _ refl

-- The membership that `get_or_create` returns is there.
abbrev Joined : Invitation → ℕ → Db → Db → Type 0
Joined invitation user db db' =
    (db'.invitations ≡ db.invitations)
    × (exists_row (is_membership_of invitation.organization user) db'.memberships ≡ true)

inserted :
    (env : Env) (invitation : Invitation) (user : ℕ) (db : Db)
    → Returned (λ _ db'. Joined invitation user db db') (join env invitation user none db)
unfolding join ◌>>=◌ exists_row insert
inserted env invitation user db = (refl, ground arith)

found :
    (env : Env) (invitation : Invitation) (user : ℕ) (db : Db) (k : ℕ) (m : Membership)
    → find_row (is_membership_of invitation.organization user) db.memberships ≡ some (k, m)
    → Returned (λ _ db'. Joined invitation user db db') (join env invitation user (some k) db)
unfolding join ◌>>=◌
found env invitation user db k m h = (refl, find_row-exists _ k {r = m} db.memberships h)

join-Joined :
    (env : Env) (invitation : Invitation) (user : ℕ) (db : Db)
    → Ensures
        (λ _ db'. Joined invitation user db db')
        (join env invitation user
          (key_found (find_row (is_membership_of invitation.organization user) db.memberships)))
        db
join-Joined env invitation user db = record {
  at = go (find_row (is_membership_of invitation.organization user) db.memberships) refl;
}
  where
    go :
        (o : Option (ℕ × Membership))
        → find_row (is_membership_of invitation.organization user) db.memberships ≡ o
        → Returned
            (λ _ db'. Joined invitation user db db')
            (join env invitation user (key_found o) db)
    go none h = inserted env invitation user db
    go (some (k, m)) h = found env invitation user db k m h

closed_refuses :
    (env : Env) (raw_token : Text) (k : ℕ) (i : Invitation) (db : Db)
    → find_row (has_token_hash (env.sha256 raw_token)) db.invitations ≡ some (k, i)
    → is_some i.accepted_at ≡ true
    → (accept_invitation env raw_token db).0 ≡ err invitation_invalid
unfolding accept_invitation ◌>>=◌
closed_refuses env raw_token k i db h closed = rw h (rw closed refl)

-- An acceptance that returns found, under the hash of the token, an invitation neither accepted
-- nor revoked nor expired, marked that row and no other as accepted, and left the user that it
-- returns a member of the organization of the invitation.
pub accept_invitation-accepts :
    (env : Env) (raw_token : Text) (db : Db)
    → Ensures
        (λ done db'.
          (k : ℕ) × (i : Invitation) × (find_row
              (has_token_hash (env.sha256 raw_token))
              db.invitations
            ≡ some (k, i))
          × (is_none i.accepted_at ≡ true)
          × (is_none i.revoked_at ≡ true)
          × (is_expired env i ≡ false)
          × (db'.invitations ≡ save k (record i { accepted_at = some env.now }) db.invitations)
          × (exists_row (is_membership_of i.organization done.0) db'.memberships ≡ true))
        (accept_invitation env raw_token)
        db
unfolding accept_invitation
accept_invitation-accepts env raw_token db = record {
  at =
      atomic-cases (Returned _)
        (after_fetch _ _ λ row found. after_raise_if _ λ usable. after_gets _ _ (
          after_with (create_user-invitations env row.1.email _ db) λ user db1 same1.
            after_gets _ _ (
              after_with (join-Joined env row.1 user db1) λ membership db2 (same2, member).
                after_modify _ (
                  returns _ (
                    row.0,
                    row.1,
                    found,
                    ground arith,
                    ground arith,
                    ground arith,
                    ap (save row.0 _) (same2 ∙ same1),
                    member,
                  )))))
        (λ e. tt);
}

accepted_row :
    (env : Env) (raw_token : Text) (db db' : Db) (k : ℕ) (i : Invitation)
    → find_row (has_token_hash (env.sha256 raw_token)) db.invitations ≡ some (k, i)
    → db'.invitations ≡ save k (record i { accepted_at = some env.now }) db.invitations
    → find_row (has_token_hash (env.sha256 raw_token)) db'.invitations
      ≡ some (k, record i { accepted_at = some env.now })
accepted_row env raw_token db db' k i found saved = rw saved (
    find_row-save (has_token_hash (env.sha256 raw_token)) k {old = i} _ db.invitations found
      (find_row_passes (has_token_hash (env.sha256 raw_token)) k {r = i} db.invitations found))

-- After a token has been accepted, the same token is refused with `InvitationInvalid`, whatever
-- the clock and the keys drawn then are, as long as its hash is the same.
pub accept_invitation-once :
    (env later : Env) (raw_token : Text) (db : Db)
    → later.sha256 raw_token ≡ env.sha256 raw_token
    → Ensures
        (λ _ db'. (accept_invitation later raw_token db').0 ≡ err invitation_invalid)
        (accept_invitation env raw_token)
        db
accept_invitation-once env later raw_token db same =
    weaker (accept_invitation-accepts env raw_token db) λ done db' (k, i, found, _, _, _, saved, _).
      closed_refuses later raw_token k (record i { accepted_at = some env.now }) db'
        (subst
          (λ hash.
            find_row (has_token_hash hash) db'.invitations
            ≡ some (k, record i { accepted_at = some env.now }))
          (sym same) (accepted_row env raw_token db db' k i found saved))
        refl
