-- ===== src/Bugs/Policies.antt =====
-- backend/apps/bugs/policies.py: who may do what to a bug.
use quorfix.Prelude.{
  ℕ, Bool, true, false, Option, none, some, ◌&&◌, List, [], ◌∷◌, if◌then◌else◌, ◌==◌,
}
use quorfix.Models.{Bug, BugStatus, Membership, CommunityRole}
use quorfix.Bugs.Workflow.{same_status, status_in}

-- `role in STAFF_ROLES`, which `ASSIGNABLE_ROLES` equals
abbrev pub in_staff_roles : CommunityRole → Bool
in_staff_roles CommunityRole.administrator = true
in_staff_roles CommunityRole.developer = true
in_staff_roles CommunityRole.qa = true
in_staff_roles CommunityRole.reporter = false
in_staff_roles CommunityRole.viewer = false

abbrev pub is_reporter_role : CommunityRole → Bool
is_reporter_role CommunityRole.reporter = true
is_reporter_role _ = false

abbrev pub is_administrator_role : CommunityRole → Bool
is_administrator_role CommunityRole.administrator = true
is_administrator_role _ = false

-- `role in CREATE_ROLES`
abbrev pub in_create_roles : CommunityRole → Bool
in_create_roles CommunityRole.viewer = false
in_create_roles _ = true

abbrev pub reporter_editable_statuses : List BugStatus
reporter_editable_statuses = BugStatus.new ∷ BugStatus.triaged ∷ []

abbrev pub reopen_eligible_statuses : List BugStatus
reopen_eligible_statuses =
    BugStatus.resolved ∷ BugStatus.closed ∷ BugStatus.duplicate ∷ BugStatus.cannot_reproduce
    ∷ BugStatus.wont_fix ∷ []

-- The names of the fields that a content update may carry.
pub data Field : Type 0 where
  title description steps_to_reproduce expected_result actual_result : Field
  environment category due_date priority severity : Field

-- `field in REPORTER_EDITABLE_FIELDS`; `STAFF_EDITABLE_FIELDS` holds every field.
abbrev pub in_reporter_fields : Field → Bool
in_reporter_fields Field.due_date = false
in_reporter_fields Field.priority = false
in_reporter_fields Field.severity = false
in_reporter_fields _ = true

unfoldable pub is_bug_reporter : Bug → Option ℕ → Bool
is_bug_reporter bug none = false
is_bug_reporter bug (some user) = bug.reporter == user

-- `_membership_is_bug_reporter`, of a membership that is not `None`
abbrev pub membership_is_bug_reporter : Bug → Membership → Bool
membership_is_bug_reporter bug m = bug.reporter == m.user

unfoldable pub can_create_bug : Option Membership → Bool
can_create_bug none = false
can_create_bug (some m) = in_create_roles m.role

-- The set that `editable_fields_for` returns: one of its three constants.
pub data Editable : Type 0 where
  staff_fields reporter_fields no_fields : Editable

unfoldable pub editable_fields_for : Bug → Option Membership → Editable
editable_fields_for bug none = no_fields
editable_fields_for bug (some m) =
    if in_staff_roles m.role
    then staff_fields
    else if is_reporter_role m.role && membership_is_bug_reporter bug m
    then (if status_in bug.status reporter_editable_statuses then reporter_fields else no_fields)
    else no_fields

-- `field in editable`
abbrev pub is_editable : Editable → Field → Bool
is_editable staff_fields f = true
is_editable reporter_fields f = in_reporter_fields f
is_editable no_fields f = false

unfoldable pub can_change_status : Bug → Option Membership → BugStatus → Bool
can_change_status bug none target = false
can_change_status bug (some m) target =
    if in_staff_roles m.role
    then true
    else if is_reporter_role m.role
    then membership_is_bug_reporter bug m
      && status_in bug.status reopen_eligible_statuses
      && same_status target BugStatus.reopened
    else false

unfoldable pub can_assign_bug : Option Membership → Bool
can_assign_bug none = false
can_assign_bug (some m) = in_staff_roles m.role

unfoldable pub can_archive_bug : Option Membership → Bool
can_archive_bug none = false
can_archive_bug (some m) = is_administrator_role m.role

-- `bool(editable_fields_for(...))`
abbrev pub is_nonempty : Editable → Bool
is_nonempty no_fields = false
is_nonempty _ = true

unfoldable pub can_manage_tags : Bug → Option Membership → Bool
unfolding editable_fields_for
can_manage_tags bug m = is_nonempty (editable_fields_for bug m)

unfoldable pub can_manage_relationships : Option Membership → Bool
can_manage_relationships none = false
can_manage_relationships (some m) = in_staff_roles m.role

unfoldable pub is_eligible_assignee_role : CommunityRole → Bool
is_eligible_assignee_role role = in_staff_roles role
