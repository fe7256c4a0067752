-- ===== src/Organizations/Administrators.antt =====
-- An organization does not lose its last administrator.
use quorfix.Prelude.{
  ℕ, ◌≡◌, refl, Bool, true, false, not, Option, none, some, ◌&&◌, arith, ◌==◌, Bool-cases, inl, inr,
  Text, List, [], ◌∷◌, sym, subst, ◌∙◌,
}
use quorfix.Exec.{Result}
use quorfix.Exec.Ensures.{
  Ensures, Returned, after_with, after_fetch, after_gets, after_raise_if, after_modify, when_modify,
  atomic-cases, returns,
}
use quorfix.Env.{Env}
use quorfix.Table.{lookup, save, delete, exists_row, count_rows}
use quorfix.Table.Others.{
  IsKeyed, but, exists_row-save, exists_row-delete, exists_saved, exists_but, counted_exists,
}
use quorfix.Models.{Db, Membership, CommunityRole}
use quorfix.Bugs.Policies.{is_administrator_role}
use quorfix.Bugs.Services.Removal.{clear_bug_assignments, clear_affected}
use quorfix.Projects.{clear_project_leadership}
use quorfix.Organizations.Services.{
  OrganizationError, within, locked_membership, is_administrator_of, is_other_administrator_of,
  remaining_administrators, change_member_role, remove_member,
}

abbrev pub has_administrator : ℕ → Db → Bool
has_administrator organization db = exists_row (is_administrator_of organization) db.memberships

-- What the lock finds is a row of the table, and of the organization.
within-found :
    (organization : ℕ) (o : Option Membership) (m : Membership)
    → within organization o ≡ some m
    → (o ≡ some m) × ((m.organization == organization) ≡ true)
within-found organization none m h = cc
within-found organization (some n) m h = elim (Bool-cases (n.organization == organization)) [
  | inl e ↦ (ground arith, ground arith)
  | inr e ↦ cc (e, h)
]

module _ (db : Db) (pk : ℕ) (m : Membership) (other : ℕ) (keyed : IsKeyed db.memberships)
    (row : lookup pk db.memberships ≡ some m) (before : has_administrator other db ≡ true) where
  -- Some administrator is left beside the row, if the row is none or the count says so.
  left_over :
      (organization : ℕ)
      → (m.organization == organization) ≡ true
      → (is_administrator_role m.role && remaining_administrators organization pk db == 0) ≡ false
      → exists_row (but pk (is_administrator_of other)) db.memberships ≡ true
  unfolding remaining_administrators
  left_over organization here guard = elim (Bool-cases (is_administrator_of other pk m)) [
    | inl is ↦ counted_exists _ db.memberships (same_count organization other guard is here)
    | inr is ↦
        exists_but (is_administrator_of other) pk {old = m} db.memberships keyed row is before
  ]
    where
      same_count :
          (organization other : ℕ)
          → (is_administrator_role m.role
              && count_rows (is_other_administrator_of organization pk) db.memberships == 0)
            ≡ false
          → is_administrator_of other pk m ≡ true
          → (m.organization == organization) ≡ true
          → (count_rows (but pk (is_administrator_of other)) db.memberships == 0) ≡ false
      same_count organization other guard is here = ground arith

abbrev Keeps : ℕ → {A : Type 0} → Result OrganizationError A × Db → Type 0
Keeps other r = has_administrator other r.1 ≡ true

saved-keeps :
    (db : Db) (pk : ℕ) (m : Membership) (other organization : ℕ) (role : CommunityRole)
    → IsKeyed db.memberships
    → lookup pk db.memberships ≡ some m
    → has_administrator other db ≡ true
    → (m.organization == organization) ≡ true
    → (is_administrator_role m.role
        && not (is_administrator_role role)
        && remaining_administrators organization pk db == 0)
      ≡ false
    → exists_row (is_administrator_of other) (save pk (record m { role = role }) db.memberships)
      ≡ true
saved-keeps db pk m other organization role keyed row before here guard =
    elim (Bool-cases (is_administrator_of other pk (record m { role = role }))) [
      | inl is ↦
          exists_saved (is_administrator_of other) pk {old = m} (record m { role = role })
            db.memberships row is
      | inr is ↦ elim (Bool-cases (is_administrator_of other pk m)) [
        | inl was ↦
            exists_row-save (is_administrator_of other) pk (record m { role = role }) db.memberships
              (left_over db pk m other keyed row before organization here
                (demoted m.role role _ _ is was guard))
        | inr was ↦
            exists_row-save (is_administrator_of other) pk (record m { role = role }) db.memberships
              (exists_but (is_administrator_of other) pk {old = m} db.memberships keyed row was
                before)
      ]
    ]
  where
    demoted :
        (old new : CommunityRole) (same none_left : Bool)
        → (same && is_administrator_role new) ≡ false
        → (same && is_administrator_role old) ≡ true
        → (is_administrator_role old && not (is_administrator_role new) && none_left) ≡ false
        → (is_administrator_role old && none_left) ≡ false
    demoted old new same none_left is was guard = ground arith

-- Where no two memberships have one key, an organization that has an administrator still has one
-- after `change_member_role`, whatever member, role and organization the call names and whether it
-- returns or raises.
pub change_member_role-keeps :
    (env : Env) (organization pk : ℕ) (role : CommunityRole) (bypass : Bool) (other : ℕ) (db : Db)
    → IsKeyed db.memberships
    → has_administrator other db ≡ true
    → has_administrator other (change_member_role env organization pk role bypass db).1 ≡ true
unfolding change_member_role locked_membership
change_member_role-keeps env organization pk role bypass other db keyed before =
    atomic-cases (Keeps other)
      (after_fetch _ _ λ m found. after_fetch _ _ λ user account. after_gets _ _ (
        after_raise_if _ λ demo. after_gets _ _ (
          after_raise_if _ λ guard.
            let (row, here) = within-found organization (lookup pk db.memberships) m found in
            after_modify _ (
              returns _
                (saved-keeps db pk m other organization role keyed row before here guard)))))
      (λ e. before)

memberships_kept :
    {E : Type 0} (e : E) (env : Env) (organization user : ℕ) (email : Text) (db : Db)
    → Ensures
        (λ _ db'. db'.memberships ≡ db.memberships)
        (clear_bug_assignments e env organization user email)
        db
unfolding clear_bug_assignments
memberships_kept e env organization user email db = record { at = go _ }
  where
    go :
        (affected : List ℕ)
        → Returned
            (λ _ (db' : Db). db'.memberships ≡ db.memberships)
            (clear_affected e env email affected db)
    go [] = refl
    go (pk ∷ pks) = ground arith

leadership_kept :
    {E : Type 0} (organization user : ℕ) (db : Db)
    → Ensures {E = E}
        (λ _ db'. db'.memberships ≡ db.memberships)
        (clear_project_leadership organization user)
        db
unfolding clear_project_leadership
leadership_kept organization user db = record { at = refl }

-- Where no two memberships have one key, an organization that has an administrator still has one
-- after `remove_member`, whatever member and organization the call names and whether it returns or
-- raises.
pub remove_member-keeps :
    (env : Env) (organization pk other : ℕ) (db : Db)
    → IsKeyed db.memberships
    → has_administrator other db ≡ true
    → has_administrator other (remove_member env organization pk db).1 ≡ true
unfolding remove_member locked_membership
remove_member-keeps env organization pk other db keyed before =
    atomic-cases (Keeps other)
      (after_fetch _ _ λ m found. after_fetch _ _ λ user account. after_gets _ _ (
        after_raise_if _ λ demo. after_gets _ _ (
          after_raise_if _ λ guard.
            let (row, here) = within-found organization (lookup pk db.memberships) m found in
            after_with (leadership_kept _ _ db) λ _ db1 same1.
              after_with (memberships_kept _ env _ _ _ db1) λ _ db2 same2. when_modify _ (
                subst (λ t. exists_row (is_administrator_of other) (delete pk t) ≡ true)
                  (sym (same2 ∙ same1))
                  (exists_row-delete (is_administrator_of other) pk db.memberships
                    (left_over db pk m other keyed row before organization here guard))))))
      (λ e. before)
