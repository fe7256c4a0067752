-- ===== src/Tests/Members.antt =====
-- The theorems on members, invitations and comments, at the small database.
use quorfix.Prelude.{ℕ, ◌≡◌, refl, Bool, true, false, some, [], ◌∷◌, Text, codes, is_none, all}
use quorfix.Exec.{ok, err}
use quorfix.Exec.Ensures.{Ensures}
use quorfix.Table.{lookup, save, find_row, exists_row}
use quorfix.Models.{Db, Comment, CommentStatus, CommunityRole, Invitation}
use quorfix.Organizations.Services.{invitation_invalid, change_member_role, remove_member}
use quorfix.Organizations.Administrators.{
  has_administrator, change_member_role-keeps, remove_member-keeps,
}
use quorfix.Organizations.Invitations.{
  accept_invitation, has_token_hash, is_expired, is_membership_of,
}
use quorfix.Organizations.Invitations.Laws.{accept_invitation-once, accept_invitation-accepts}
use quorfix.Comments.Mentions.{
  IsDistinct, is_member, extract_mention_user_ids, resolve_mentions, resolve_mentions-members,
}
use quorfix.Comments.Lifecycle.{Settles, call_comment, edit, call_comment-Settles}
use quorfix.Comments.Steps.{is_consistent}
use quorfix.Tests.Data.{env, db, comment, locked_bug}

change_member_role-keeps_example :
    has_administrator 10 (change_member_role env 10 20 CommunityRole.viewer Bool.false db).1 ≡ true
unfolding lookup exists_row
change_member_role-keeps_example =
    change_member_role-keeps env 10 20 CommunityRole.viewer Bool.false 10 db (refl, (refl, tt)) refl

remove_member-keeps_example : has_administrator 10 (remove_member env 10 21 db).1 ≡ true
unfolding lookup exists_row
remove_member-keeps_example = remove_member-keeps env 10 21 10 db (refl, (refl, tt)) refl

accept_test : (accept_invitation env (codes "token") db).0 ≡ ok (1000, 1001)
unfolding accept_invitation quorfix.Exec.atomic quorfix.Exec.◌>>=◌
accept_test = refl

accept_invitation-once_example :
    Ensures
      (λ _ db'. (accept_invitation env (codes "token") db').0 ≡ err invitation_invalid)
      (accept_invitation env (codes "token"))
      db
accept_invitation-once_example = accept_invitation-once env env (codes "token") db refl

accept_invitation-accepts_example :
    Ensures
      (λ done db'.
        (k : ℕ) × (i : Invitation) × (find_row
            (has_token_hash (env.sha256 (codes "token")))
            db.invitations
          ≡ some (k, i))
        × (is_none i.accepted_at ≡ true)
        × (is_none i.revoked_at ≡ true)
        × (is_expired env i ≡ false)
        × (db'.invitations ≡ save k (record i { accepted_at = some env.now }) db.invitations)
        × (exists_row (is_membership_of i.organization done.0) db'.memberships ≡ true))
      (accept_invitation env (codes "token"))
      db
accept_invitation-accepts_example = accept_invitation-accepts env (codes "token") db

call_comment-Settles_example :
    Settles env locked_bug 50
      (some 2)
      comment
      (edit (codes " fixed "))
      db
      (call_comment env locked_bug 50 (some 2) (edit (codes " fixed ")) db)
unfolding lookup is_consistent
call_comment-Settles_example =
    call_comment-Settles env locked_bug 50 (some 2) comment db refl
      (record { consistent = refl; cleared = refl }) (edit (codes " fixed "))

abbrev deleted_comment : Comment
deleted_comment = record comment { body = []; status = CommentStatus.deleted; deleted_at = some 95 }

abbrev later_db : Db
later_db = record db { comments = (50, deleted_comment) ∷ [] }

abbrev mentioning : Text
mentioning =
    codes
      "@[Dee](mention:00000000-0000-0000-0000-000000000002) and again @[D](mention:00000000-0000-0000-0000-000000000002)"

mention_test : resolve_mentions db.memberships 10 (extract_mention_user_ids mentioning) ≡ 2 ∷ []
unfolding resolve_mentions extract_mention_user_ids
mention_test = refl

resolve_mentions-members_example :
    IsDistinct (resolve_mentions db.memberships 10 (extract_mention_user_ids mentioning))
    × (all
          (λ uid. exists_row (is_member 10 uid) db.memberships)
          (resolve_mentions db.memberships 10 (extract_mention_user_ids mentioning))
        ≡ true)
resolve_mentions-members_example = resolve_mentions-members db.memberships 10 mentioning
