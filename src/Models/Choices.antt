-- ===== src/Models/Choices.antt =====
-- The `TextChoices` of the models, and the text that stands for each in the database.
use quorfix.Prelude.{Option, none, some, List, [], ◌∷◌, Text, codes, text_eq, if◌then◌else◌}

-- bugs/models.py
pub data BugStatus : Type 0 where
  new triaged assigned in_progress ready_for_qa resolved reopened closed : BugStatus
  blocked duplicate cannot_reproduce wont_fix deferred : BugStatus

pub data BugPriority : Type 0 where
  urgent high medium low : BugPriority

pub data BugSeverity : Type 0 where
  blocker critical major minor trivial : BugSeverity

pub data RelationshipType : Type 0 where
  duplicate_of blocks relates_to : RelationshipType

-- organizations/models.py
pub data CommunityRole : Type 0 where
  administrator developer qa reporter viewer : CommunityRole

-- comments/models.py
pub data CommentStatus : Type 0 where
  active deleted redacted : CommentStatus

-- attachments/models.py
pub data AttachmentStatus : Type 0 where
  pending uploaded failed : AttachmentStatus

pub data ScanStatus : Type 0 where
  not_scanned scan_pending clean infected : ScanStatus

-- notifications/models.py
pub data NotificationEventType : Type 0 where
  bug_assigned mentioned comment_added status_changed bug_reopened : NotificationEventType

pub data NotificationEmailStatus : Type 0 where
  email_pending email_sent email_failed email_disabled : NotificationEmailStatus

-- projects/models.py
pub data ProjectStatus : Type 0 where
  planning project_active on_hold completed : ProjectStatus

-- activities/models.py; `ActivityVerb` is a type of its own, so its members are written behind it
pub data ActivityVerb : Type 0 where
  created status_changed assigned unassigned priority_changed severity_changed : ActivityVerb
  field_updated tag_added tag_removed relationship_added relationship_removed : ActivityVerb
  archived restored comment_added comment_edited comment_deleted comment_redacted : ActivityVerb
  mention_created attachment_added attachment_removed : ActivityVerb

-- The stored value of a status.
unfoldable pub status_value : BugStatus → Text
status_value BugStatus.new = codes "new"
status_value BugStatus.triaged = codes "triaged"
status_value BugStatus.assigned = codes "assigned"
status_value BugStatus.in_progress = codes "in_progress"
status_value BugStatus.ready_for_qa = codes "ready_for_qa"
status_value BugStatus.resolved = codes "resolved"
status_value BugStatus.reopened = codes "reopened"
status_value BugStatus.closed = codes "closed"
status_value BugStatus.blocked = codes "blocked"
status_value BugStatus.duplicate = codes "duplicate"
status_value BugStatus.cannot_reproduce = codes "cannot_reproduce"
status_value BugStatus.wont_fix = codes "wont_fix"
status_value BugStatus.deferred = codes "deferred"

-- `BugStatus.values`, in the order of the declaration.
abbrev pub all_statuses : List BugStatus
all_statuses =
    BugStatus.new ∷ BugStatus.triaged ∷ BugStatus.assigned ∷ BugStatus.in_progress
    ∷ BugStatus.ready_for_qa ∷ BugStatus.resolved ∷ BugStatus.reopened ∷ BugStatus.closed
    ∷ BugStatus.blocked ∷ BugStatus.duplicate ∷ BugStatus.cannot_reproduce ∷ BugStatus.wont_fix
    ∷ BugStatus.deferred ∷ []

find_status : Text → List BugStatus → Option BugStatus
find_status v [] = none
find_status v (s ∷ rest) = if text_eq v (status_value s) then some s else find_status v rest

-- The status that a request's text names: `none` where the text is not in `BugStatus.values`.
unfoldable pub status_of : Text → Option BugStatus
unfolding find_status status_value
status_of v = find_status v all_statuses

unfoldable pub priority_value : BugPriority → Text
priority_value BugPriority.urgent = codes "urgent"
priority_value BugPriority.high = codes "high"
priority_value BugPriority.medium = codes "medium"
priority_value BugPriority.low = codes "low"

unfoldable pub severity_value : BugSeverity → Text
severity_value BugSeverity.blocker = codes "blocker"
severity_value BugSeverity.critical = codes "critical"
severity_value BugSeverity.major = codes "major"
severity_value BugSeverity.minor = codes "minor"
severity_value BugSeverity.trivial = codes "trivial"

unfoldable pub relationship_value : RelationshipType → Text
relationship_value RelationshipType.duplicate_of = codes "duplicate_of"
relationship_value RelationshipType.blocks = codes "blocks"
relationship_value RelationshipType.relates_to = codes "relates_to"

unfoldable pub event_value : NotificationEventType → Text
event_value NotificationEventType.bug_assigned = codes "bug_assigned"
event_value NotificationEventType.mentioned = codes "mentioned"
event_value NotificationEventType.comment_added = codes "comment_added"
event_value NotificationEventType.status_changed = codes "status_changed"
event_value NotificationEventType.bug_reopened = codes "bug_reopened"

-- Equality tests on the choices: `x == y` on members of one `TextChoices`.
abbrev pub status_index : BugStatus → Prim.Native.Nat.ℕ
status_index BugStatus.new = 0
status_index BugStatus.triaged = 1
status_index BugStatus.assigned = 2
status_index BugStatus.in_progress = 3
status_index BugStatus.ready_for_qa = 4
status_index BugStatus.resolved = 5
status_index BugStatus.reopened = 6
status_index BugStatus.closed = 7
status_index BugStatus.blocked = 8
status_index BugStatus.duplicate = 9
status_index BugStatus.cannot_reproduce = 10
status_index BugStatus.wont_fix = 11
status_index BugStatus.deferred = 12
