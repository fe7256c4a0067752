-- ===== src/Models/Rows.antt =====
-- The rows.
use quorfix.Prelude.{ℕ, Bool, Option, List, Text}
use quorfix.Table.{Table}
use quorfix.Models.Choices.{
  BugStatus, BugPriority, BugSeverity, RelationshipType, CommunityRole, CommentStatus,
  AttachmentStatus, ScanStatus, NotificationEventType, NotificationEmailStatus, ProjectStatus,
  ActivityVerb,
}

-- accounts/models.py
pub record User : Type 0 where
  pub email : Text
  pub is_active : Bool
  pub is_staff : Bool
  pub is_superuser : Bool

-- organizations/models.py
pub record Organization : Type 0 where
  pub name : Text
  pub slug : Text
  pub is_active : Bool

pub record Membership : Type 0 where
  pub organization : ℕ
  pub user : ℕ
  pub role : CommunityRole
  pub invited_by : Option ℕ
  pub joined_at : ℕ

pub record Invitation : Type 0 where
  pub organization : ℕ
  pub email : Text
  pub role : CommunityRole
  pub token_hash : Text
  pub invited_by : Option ℕ
  pub expires_at : ℕ
  pub accepted_at : Option ℕ
  pub revoked_at : Option ℕ

-- projects/models.py
pub record Project : Type 0 where
  pub organization : ℕ
  pub name : Text
  pub key : Text
  pub description : Text
  pub status : ProjectStatus
  pub lead : Option ℕ
  pub archived_at : Option ℕ
  pub next_bug_number : ℕ

-- bugs/models.py
pub record Tag : Type 0 where
  pub organization : ℕ
  pub name : Text
  pub name_normalized : Text

pub record Bug : Type 0 where
  pub organization : ℕ
  pub project : ℕ
  pub number : ℕ
  pub key : Text
  pub title : Text
  pub description : Text
  pub steps_to_reproduce : Text
  pub expected_result : Text
  pub actual_result : Text
  pub environment : Text
  pub category : Text
  pub status : BugStatus
  pub priority : BugPriority
  pub severity : BugSeverity
  pub reporter : ℕ
  pub assignee : Option ℕ
  pub due_date : Option ℕ
  pub resolved_at : Option ℕ
  pub closed_at : Option ℕ
  pub archived_at : Option ℕ
  pub version : ℕ
  pub created_at : ℕ
  pub updated_at : ℕ

pub record BugRelationship : Type 0 where
  pub organization : ℕ
  pub from_bug : ℕ
  pub to_bug : ℕ
  pub relationship_type : RelationshipType
  pub created_by : Option ℕ

-- activities/models.py. `metadata` is the list of the texts and keys that the caller puts in.
pub data Metadata : Type 0 where
  empty : Metadata
  field : Text → Metadata
  comment : ℕ → Metadata
  mention : ℕ → ℕ → Metadata
  attachment : ℕ → Text → Text → ℕ → Metadata
  reason : Text → Metadata

pub record BugActivity : Type 0 where
  pub organization : ℕ
  pub bug : ℕ
  pub actor : Option ℕ
  pub verb : ActivityVerb
  pub from_value : Text
  pub to_value : Text
  pub metadata : Metadata
  pub created_at : ℕ

-- comments/models.py
pub record Comment : Type 0 where
  pub organization : ℕ
  pub bug : ℕ
  pub author : ℕ
  pub body : Text
  pub status : CommentStatus
  pub created_at : ℕ
  pub edited_at : Option ℕ
  pub deleted_at : Option ℕ
  pub redacted_at : Option ℕ

pub record Mention : Type 0 where
  pub organization : ℕ
  pub comment : ℕ
  pub mentioned_user : ℕ

-- attachments/models.py
pub record Attachment : Type 0 where
  pub organization : ℕ
  pub bug : ℕ
  pub uploaded_by : ℕ
  pub original_filename : Text
  pub content_type : Text
  pub size_bytes : ℕ
  pub storage_key : Text
  pub status : AttachmentStatus
  pub scan_status : ScanStatus
  pub uploaded_at : Option ℕ
  pub failed_at : Option ℕ
  pub removed_at : Option ℕ

-- notifications/models.py
pub record Notification : Type 0 where
  pub organization : ℕ
  pub recipient : ℕ
  pub event_type : NotificationEventType
  pub actor : Option ℕ
  pub bug : ℕ
  pub comment : Option ℕ
  pub dedup_key : NotificationEventType × ℕ
  pub read_at : Option ℕ
  pub email_status : NotificationEmailStatus
  pub email_error : Text
  pub emailed_at : Option ℕ

pub record NotificationPreference : Type 0 where
  pub organization : ℕ
  pub user : ℕ
  pub event_type : NotificationEventType
  pub email_enabled : Bool

-- The arguments of `create_notifications_for_event`, as `notify` puts them on the queue.
pub record Event : Type 0 where
  pub event_type : NotificationEventType
  pub organization_id : ℕ
  pub bug_id : ℕ
  pub actor_id : Option ℕ
  pub activity_id : Option ℕ
  pub comment_id : Option ℕ
  pub assignee_id : Option ℕ

-- The tasks that have been handed to the broker.
pub data Job : Type 0 where
  create_notifications : Event → Job
  send_email : ℕ → Job
  delete_object : Text → Job

-- The whole database, the many-to-many tables as pairs, and the broker's queue, newest first.
pub record Db : Type 0 where
  pub users : Table User
  pub organizations : Table Organization
  pub memberships : Table Membership
  pub invitations : Table Invitation
  pub setup_completed_at : Option ℕ
  pub projects : Table Project
  pub bugs : Table Bug
  pub tags : Table Tag
  pub bug_tags : List (ℕ × ℕ)
  pub bug_watchers : List (ℕ × ℕ)
  pub relationships : Table BugRelationship
  pub activities : Table BugActivity
  pub comments : Table Comment
  pub mentions : Table Mention
  pub attachments : Table Attachment
  pub notifications : Table Notification
  pub preferences : Table NotificationPreference
  pub jobs : List Job
