-- ===== src/Comments/Steps.antt =====
-- The rows of comments that are sound, and what each step of a comment service does.
use quorfix.Prelude.{
  ℕ, ◌≡◌, refl, Bool, true, false, Option, ◌&&◌, ◌||◌, arith, is_some, is_none, Text, strip, length,
  leb,
}
use quorfix.Exec.Ensures.{Ensures, after_with, after_raise_if, after_modify, when_raise_if, returns}
use quorfix.Env.{Env}
use quorfix.Table.{save}
use quorfix.Activities.Rules.{after_record}
use quorfix.Models.{Db, Comment, CommentStatus, ActivityVerb}
use quorfix.Bugs.Monad.{Locked}
use quorfix.Comments.Services.{
  is_active_status, is_empty, is_within_edit_window, check_bug_commentable, max_comment_body_length,
  normalize_body, save_comment, check_author_deletion,
}

-- `comment_status_timestamp_consistency`
unfoldable pub is_consistent : Comment → Bool
is_consistent c = elim c.status [
  | CommentStatus.active ↦ is_none c.deleted_at && is_none c.redacted_at
  | CommentStatus.deleted ↦ is_some c.deleted_at && is_none c.redacted_at
  | CommentStatus.redacted ↦ is_some c.redacted_at && is_none c.deleted_at
]

-- A comment that satisfies the constraint, and that has no text left once it is not active.
pub record IsSound (c : Comment) : Type 0 where
  pub consistent : is_consistent c ≡ true
  pub cleared : (is_active_status c.status || is_empty c.body) ≡ true

pub commentable-same :
    (bug : Locked) (db : Db)
    → Ensures
        (λ _ db'.
          (is_some bug.bug.archived_at ≡ false)
          × (is_some bug.project.archived_at ≡ false)
          × (db' ≡ db))
        (check_bug_commentable bug)
        db
unfolding check_bug_commentable
commentable-same bug db = after_raise_if _ λ a. when_raise_if _ λ b. (a, b, refl)

pub normalize_body-same :
    (body : Text) (db : Db)
    → Ensures
        (λ text db'.
          (text ≡ strip body)
          × (is_empty text ≡ false)
          × (leb (length text) max_comment_body_length ≡ true)
          × (db' ≡ db))
        (normalize_body body)
        db
unfolding normalize_body
normalize_body-same body db =
    after_raise_if _ λ fits. returns _ (refl, ground arith, ground arith, refl)

-- The row that a write leaves, of the row that was there.
abbrev pub Written : ℕ → Comment → Comment → Db → Db → Type 0
Written pk c new db db' = (new ≡ c) × (db'.comments ≡ save pk c db.comments)

pub save_comment-Written :
    (env : Env) (bug : Locked) (actor : Option ℕ) (verb : ActivityVerb) (pk : ℕ) (c : Comment)
    (db : Db)
    → Ensures (λ new db'. Written pk c new db db') (save_comment env bug actor verb pk c) db
unfolding save_comment
save_comment-Written env bug actor verb pk c db =
    after_modify _ (after_record _ _ _ _ λ fits. returns _ (refl, refl))

pub deletion-same :
    (env : Env) (bug : Locked) (moderator : Bool) (c : Comment) (db : Db)
    → Ensures
        (λ _ db'.
          ((moderator
              || is_none bug.bug.archived_at
                && is_none bug.project.archived_at
                && is_within_edit_window env.now c)
            ≡ true)
          × (db' ≡ db))
        (check_author_deletion env bug moderator c)
        db
unfolding check_author_deletion
deletion-same env bug true c db = returns _ (refl, refl)
deletion-same env bug false c db =
    after_with (commentable-same bug db)
      λ _ db1 (a, b, same). when_raise_if _ λ within. (ground arith, same)
