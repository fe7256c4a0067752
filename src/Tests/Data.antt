-- ===== src/Tests/Data.antt =====
-- A small database: one organization with an administrator and a developer, one project, two bugs.
use quorfix.Prelude.{ℕ, ◌+◌, Bool, none, some, [], ◌∷◌, Text, codes, decimal}
use quorfix.Env.{Env}
use quorfix.Models.{
  Db, User, Organization, Membership, Project, Bug, BugStatus, BugPriority, BugSeverity,
  CommunityRole, ProjectStatus, Comment, CommentStatus, Invitation,
}
use quorfix.Bugs.Views.{Caller}
use quorfix.Bugs.Monad.{Locked}

abbrev pub env : Env
env = record {
  now = 100;
  uuid = λ n. 1000 + n;
  uuid_text = decimal;
  lower = λ s. s;
  iso_date = λ d. [];
  sha256 = λ s. s;
}

abbrev user_of : Text → User
user_of email = record {
  email = email;
  is_active = Bool.true;
  is_staff = Bool.false;
  is_superuser = Bool.false;
}

abbrev pub organization : Organization
organization = record { name = codes "Acme"; slug = codes "acme"; is_active = Bool.true }

abbrev pub admin : Membership
admin = record {
  organization = 10;
  user = 1;
  role = CommunityRole.administrator;
  invited_by = none;
  joined_at = 0;
}

abbrev pub developer : Membership
developer = record {
  organization = 10;
  user = 2;
  role = CommunityRole.developer;
  invited_by = some 1;
  joined_at = 5;
}

abbrev pub project : Project
project = record {
  organization = 10;
  name = codes "Alpha";
  key = codes "AB";
  description = [];
  status = ProjectStatus.project_active;
  lead = some 2;
  archived_at = none;
  next_bug_number = 3;
}

abbrev pub bug_numbered : ℕ → Text → Bug
bug_numbered number key = record {
  organization = 10;
  project = 30;
  number = number;
  key = key;
  title = codes "Crash";
  description = [];
  steps_to_reproduce = [];
  expected_result = [];
  actual_result = [];
  environment = [];
  category = [];
  status = BugStatus.new;
  priority = BugPriority.medium;
  severity = BugSeverity.major;
  reporter = 1;
  assignee = none;
  due_date = none;
  resolved_at = none;
  closed_at = none;
  archived_at = none;
  version = 1;
  created_at = 0;
  updated_at = 0;
}

abbrev pub first_bug : Bug
first_bug = bug_numbered 1 (codes "AB-1")

abbrev pub second_bug : Bug
second_bug = bug_numbered 2 (codes "AB-2")

abbrev pub comment : Comment
comment = record {
  organization = 10;
  bug = 1;
  author = 2;
  body = codes "seen";
  status = CommentStatus.active;
  created_at = 90;
  edited_at = none;
  deleted_at = none;
  redacted_at = none;
}

abbrev pub invitation : Invitation
invitation = record {
  organization = 10;
  email = codes "new@acme.org";
  role = CommunityRole.qa;
  token_hash = codes "token";
  invited_by = some 1;
  expires_at = 500;
  accepted_at = none;
  revoked_at = none;
}

abbrev pub db : Db
db = record {
  users = (1, user_of (codes "a@acme.org")) ∷ (2, user_of (codes "d@acme.org")) ∷ [];
  organizations = (10, organization) ∷ [];
  memberships = (20, admin) ∷ (21, developer) ∷ [];
  invitations = (40, invitation) ∷ [];
  setup_completed_at = some 0;
  projects = (30, project) ∷ [];
  bugs = (1, first_bug) ∷ (2, second_bug) ∷ [];
  tags = [];
  bug_tags = [];
  bug_watchers = [];
  relationships = [];
  activities = [];
  comments = (50, comment) ∷ [];
  mentions = [];
  attachments = [];
  notifications = [];
  preferences = [];
  jobs = [];
}

abbrev pub caller : Caller
caller = record { organization = 10; user = 1; membership = admin }

abbrev pub locked_bug : Locked
locked_bug = record { pk = 1; bug = first_bug; project = project }
