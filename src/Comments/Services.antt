-- ===== src/Comments/Services.antt =====
-- backend/apps/comments/policies.py and services.py. The bug is the row that the view has read, so
-- it comes in as an argument with its key and its project.
use quorfix.Prelude.{
  ℕ, suc, ◌+◌, ◌*◌, Bool, true, false, not, Option, none, some, ◌||◌, List, [], ◌∷◌, Text, text_eq,
  strip, length, ltb, leb, ◌==◌, is_some,
}
use quorfix.Exec.{Exec, pure, raise_if, gets, fetch, modify, atomic, ◌>>=◌, ◌>>◌}
use quorfix.Env.{Env}
use quorfix.Table.{Table, lookup, insert, save}
use quorfix.Activities.{record_bug_activity}
use quorfix.Notifications.Notify.{notify}
use quorfix.Models.{
  Db, Comment, CommentStatus, Mention, Membership, ActivityVerb, BugActivity, Metadata,
  NotificationEventType,
}
use quorfix.Bugs.Policies.{in_create_roles, is_administrator_role}
use quorfix.Bugs.Monad.{Locked}
use quorfix.Comments.Mentions.{extract_mention_user_ids, resolve_mentions}

pub data CommentError : Type 0 where
  permission_denied bug_archived project_archived invalid_comment_body : CommentError
  comment_not_active edit_window_expired does_not_exist data_error value_error : CommentError

abbrev pub Action : Type 0 → Type 0
Action A = Exec CommentError Db A

abbrev pub max_comment_body_length : ℕ
max_comment_body_length = 10000

-- `timedelta(minutes=settings.COMMENT_EDIT_WINDOW_MINUTES)`
abbrev pub comment_edit_window : ℕ
comment_edit_window = 15 * 60 * 1000000

-- The two sets of roles are those of the policies on bugs: all but the viewer, and administrators.
abbrev pub can_comment : Option Membership → Bool
can_comment none = false
can_comment (some m) = in_create_roles m.role

abbrev pub is_comment_author : Comment → Option ℕ → Bool
is_comment_author c none = false
is_comment_author c (some user) = c.author == user

abbrev pub is_moderator : Option Membership → Bool
is_moderator none = false
is_moderator (some m) = is_administrator_role m.role

abbrev pub is_within_edit_window : ℕ → Comment → Bool
is_within_edit_window now c = leb now (c.created_at + comment_edit_window)

abbrev pub is_active_status : CommentStatus → Bool
is_active_status CommentStatus.active = true
is_active_status _ = false

unfoldable pub check_bug_commentable : Locked → Action Unit
check_bug_commentable bug = do
  raise_if (is_some bug.bug.archived_at) bug_archived
  raise_if (is_some bug.project.archived_at) project_archived

abbrev pub is_empty : Text → Bool
is_empty [] = true
is_empty (c ∷ s) = false

unfoldable pub normalize_body : Text → Action Text
unfolding strip
normalize_body body = do
  let normalized = strip body
  raise_if (is_empty normalized || ltb max_comment_body_length (length normalized))
      invalid_comment_body
  pure normalized

-- `_record`
abbrev pub activity_of : Env → Locked → Option ℕ → ActivityVerb → Metadata → BugActivity
activity_of env bug actor verb metadata = record {
  organization = bug.bug.organization;
  bug = bug.pk;
  actor = actor;
  verb = verb;
  from_value = [];
  to_value = [];
  metadata = metadata;
  created_at = env.now;
}

-- `Mention.objects.bulk_create`, under the draws from `k` on.
unfoldable pub create_rows : Env → Locked → ℕ → ℕ → List ℕ → Table Mention → Table Mention
unfolding insert
create_rows env bug comment k [] mentions = mentions
create_rows env bug comment k (uid ∷ uids) mentions = create_rows env bug comment (suc k) uids (
    insert (env.uuid k)
      (record { organization = bug.bug.organization; comment = comment; mentioned_user = uid })
      mentions)

unfoldable pub record_mentions : Env → Locked → ℕ → ℕ → ℕ → List ℕ → Action Unit
unfolding record_bug_activity
record_mentions env bug actor comment k [] = pure tt
record_mentions env bug actor comment k (uid ∷ uids) = do
  record_bug_activity data_error (env.uuid k)
      (activity_of env bug (some actor) ActivityVerb.mention_created (Metadata.mention comment uid))
  record_mentions env bug actor comment (suc k) uids

-- `_create_mentions`; the result is the users mentioned.
unfoldable pub create_mentions : Env → Locked → ℕ → ℕ → Text → Action (List ℕ)
unfolding extract_mention_user_ids resolve_mentions create_rows record_mentions
create_mentions env bug actor comment body = do
  valid_ids ←
      gets
        (λ db. resolve_mentions db.memberships bug.bug.organization (extract_mention_user_ids body))
  modify (λ db. record db { mentions = create_rows env bug comment 2 valid_ids db.mentions })
  record_mentions env bug actor comment (2 + length valid_ids) valid_ids
  pure valid_ids

abbrev pub notify_comment : NotificationEventType → Locked → ℕ → ℕ → Action Unit
notify_comment event_type bug author comment = notify value_error (record {
  event_type = event_type;
  organization_id = bug.bug.organization;
  bug_id = bug.pk;
  actor_id = some author;
  activity_id = none;
  comment_id = some comment;
  assignee_id = none;
})

abbrev pub notify_mentioned : List ℕ → Locked → ℕ → ℕ → Action Unit
notify_mentioned [] bug author comment = pure tt
notify_mentioned (uid ∷ uids) bug author comment =
    notify_comment NotificationEventType.mentioned bug author comment

unfoldable pub create_comment : Env → Locked → ℕ → Option Membership → Text → Action ℕ
unfolding check_bug_commentable normalize_body insert record_bug_activity create_mentions notify
create_comment env bug author membership body = atomic (do
  raise_if (not (can_comment membership)) permission_denied
  check_bug_commentable bug
  normalized_body ← normalize_body body
  modify (λ db. record db {
    comments =
        insert (env.uuid 0)
          (record {
            organization = bug.bug.organization;
            bug = bug.pk;
            author = author;
            body = normalized_body;
            status = CommentStatus.active;
            created_at = env.now;
            edited_at = none;
            deleted_at = none;
            redacted_at = none;
          })
          db.comments;
  })
  record_bug_activity data_error (env.uuid 1)
      (activity_of env bug (some author) ActivityVerb.comment_added (Metadata.comment (env.uuid 0)))
  created_mentions ← create_mentions env bug author (env.uuid 0) normalized_body
  notify_mentioned created_mentions bug author (env.uuid 0)
  notify_comment NotificationEventType.comment_added bug author (env.uuid 0)
  pure (env.uuid 0))

-- `Comment.objects.select_for_update().get(pk=...)`
abbrev pub lock_comment : ℕ → Action Comment
lock_comment pk = fetch (λ db. lookup pk db.comments) does_not_exist

-- `locked.save(...)` and the activity that follows it.
unfoldable pub save_comment : Env → Locked → Option ℕ → ActivityVerb → ℕ → Comment → Action Comment
unfolding save record_bug_activity
save_comment env bug actor verb pk c = do
  modify (λ db. record db { comments = save pk c db.comments })
  record_bug_activity data_error (env.uuid 0) (activity_of env bug actor verb (Metadata.comment pk))
  pure c

-- The new body, or nothing where the edit changes nothing.
unfoldable pub write_edit : Env → Locked → Option ℕ → ℕ → Comment → Text → Action Comment
unfolding save_comment
write_edit env bug actor pk locked body = elim (text_eq body locked.body) [
  | true ↦ pure locked
  | false ↦
      save_comment env bug actor ActivityVerb.comment_edited pk
        (record locked { body = body; edited_at = some env.now })
]

unfoldable pub edit_comment : Env → Locked → ℕ → Option ℕ → Text → Action Comment
unfolding lookup check_bug_commentable normalize_body write_edit
edit_comment env bug pk actor body = atomic (do
  locked ← lock_comment pk
  raise_if (not (is_comment_author locked actor)) permission_denied
  check_bug_commentable bug
  raise_if (not (is_active_status locked.status)) comment_not_active
  raise_if (not (is_within_edit_window env.now locked)) edit_window_expired
  normalized_body ← normalize_body body
  write_edit env bug actor pk locked normalized_body)

-- The checks that bind an author but not a moderator.
unfoldable pub check_author_deletion : Env → Locked → Bool → Comment → Action Unit
unfolding check_bug_commentable
check_author_deletion env bug true locked = pure tt
check_author_deletion env bug false locked = do
  check_bug_commentable bug
  raise_if (not (is_within_edit_window env.now locked)) edit_window_expired

unfoldable pub delete_comment : Env → Locked → ℕ → Option ℕ → Option Membership → Action Comment
unfolding lookup check_author_deletion save_comment
delete_comment env bug pk actor membership = atomic (do
  locked ← lock_comment pk
  raise_if (not (is_comment_author locked actor || is_moderator membership)) permission_denied
  raise_if (not (is_active_status locked.status)) comment_not_active
  check_author_deletion env bug (is_moderator membership) locked
  save_comment env bug actor ActivityVerb.comment_deleted pk
      (record locked { body = []; status = CommentStatus.deleted; deleted_at = some env.now }))

unfoldable pub redact_comment : Env → Locked → ℕ → Option ℕ → Option Membership → Action Comment
unfolding lookup save_comment
redact_comment env bug pk actor membership = atomic (do
  locked ← lock_comment pk
  raise_if (not (is_moderator membership)) permission_denied
  raise_if (not (is_active_status locked.status)) comment_not_active
  save_comment env bug actor ActivityVerb.comment_redacted pk
      (record locked { body = []; status = CommentStatus.redacted; redacted_at = some env.now }))
