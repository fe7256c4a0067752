-- ===== src/Bugs/Views.antt =====
-- backend/apps/bugs/views.py: the mutating endpoints of one bug, after their serializers have
-- accepted the request, and the HTTP answers.
pub mod Conflicts
use quorfix.Prelude.{ℕ, Option, none, some, List, Text}
use quorfix.Exec.{Result, ok, err}
use quorfix.Env.{Env}
use quorfix.Models.{Db, Bug, Membership, RelationshipType}
use quorfix.Bugs.Workflow.{Workflows}
use quorfix.Bugs.Monad.{Action, BugError}
use quorfix.Bugs.Services.Update.{Change, update_bug}
use quorfix.Bugs.Services.Duplicates.{bug_in_organization}
use quorfix.Bugs.Services.Transition.{AssigneeArgument, transition_bug}
use quorfix.Bugs.Services.Assign.{assign_bug}
use quorfix.Bugs.Services.Archive.{archive_bug, restore_bug}
use quorfix.Bugs.Services.Tags.{add_tag, remove_tag}
use quorfix.Bugs.Services.Relationships.{create_relationship, remove_relationship}

-- The authenticated user with the membership that the request was resolved to.
pub record Caller : Type 0 where
  pub organization : ℕ
  pub user : ℕ
  pub membership : Membership

-- `partial_update`, `transition`, `assign`, `archive`, `restore`, `add_tag`, `BugTagDetailView.delete`,
-- `add_relationship` and `BugRelationshipDetailView.delete`, with their validated data.
pub data Request : Type 0 where
  partial_update : List Change → Request
  transition : Text → Option ℕ → AssigneeArgument → Request
  assign : Option ℕ → Request
  archive : Request
  restore : Request
  add_tag_request : Text → Request
  delete_tag : ℕ → Request
  add_relationship : ℕ → RelationshipType → Request
  delete_relationship : ℕ → Request

-- The service that an endpoint calls, with the version that the client sent.
unfoldable pub call_service : Env → Workflows → Caller → ℕ → ℕ → Request → Action Bug
call_service env workflows c pk version (partial_update fields) =
    update_bug env pk (some c.user) (some c.membership) version fields
call_service env workflows c pk version (transition status duplicate_of assignee) =
    transition_bug env workflows pk (some c.user) (some c.membership) status version duplicate_of
      assignee
call_service env workflows c pk version (assign assignee) =
    assign_bug env pk (some c.user) (some c.membership) assignee version
call_service env workflows c pk version archive =
    archive_bug env pk (some c.user) (some c.membership) version
call_service env workflows c pk version restore =
    restore_bug env pk (some c.user) (some c.membership) version
call_service env workflows c pk version (add_tag_request name) =
    add_tag env pk (some c.user) (some c.membership) name version
call_service env workflows c pk version (delete_tag tag) =
    remove_tag env pk (some c.user) (some c.membership) tag version
call_service env workflows c pk version (add_relationship related kind) =
    create_relationship env pk (some c.user) (some c.membership) related kind version
call_service env workflows c pk version (delete_relationship relationship) =
    remove_relationship env pk (some c.user) (some c.membership) relationship version

-- An answer: the bug, an error status (with the current bug on a version conflict), or the exception
-- that no entry of `_ERROR_RESPONSES` names, which the framework answers with 500.
pub data Response : Type 0 where
  success : Bug → Response
  failure : ℕ → Response
  conflict : Bug → Response
  unhandled : BugError → Response

-- `handle_bug_service_error` with `_ERROR_RESPONSES`.
unfoldable pub handle_bug_service_error : BugError → Response
handle_bug_service_error BugError.bug_archived = failure 409
handle_bug_service_error BugError.project_archived_for_bug_mutation = failure 409
handle_bug_service_error BugError.project_archived_for_bug_creation = failure 409
handle_bug_service_error BugError.bug_already_archived = failure 409
handle_bug_service_error BugError.bug_not_archived = failure 409
handle_bug_service_error BugError.ineligible_assignee = failure 400
handle_bug_service_error BugError.assignee_required_for_transition = failure 400
handle_bug_service_error BugError.invalid_tag_name = failure 400
handle_bug_service_error BugError.invalid_workflow_transition = failure 400
handle_bug_service_error BugError.duplicate_target_required = failure 400
handle_bug_service_error BugError.duplicate_target_archived = failure 400
handle_bug_service_error BugError.duplicate_cycle_detected = failure 400
handle_bug_service_error BugError.duplicate_chain_unverifiable = failure 400
handle_bug_service_error BugError.invalid_relationship_type = failure 400
handle_bug_service_error BugError.duplicate_bug_relationship = failure 400
handle_bug_service_error BugError.self_relationship_not_allowed = failure 400
handle_bug_service_error BugError.related_bug_not_found = failure 400
handle_bug_service_error BugError.relationship_not_found = failure 404
handle_bug_service_error BugError.permission_denied = failure 403
handle_bug_service_error (BugError.bug_version_conflict bug) = conflict bug
handle_bug_service_error e = unhandled e

abbrev pub answer : Result BugError Bug → Response
answer (ok bug) = success bug
answer (err e) = handle_bug_service_error e

-- `get_object`, in the organization of the caller, before the service.
abbrev pub found_or_404 : Action Bug → Option Bug → Db → Response × Db
found_or_404 service none db = (failure 404, db)
found_or_404 service (some bug) db = let (r, db') = service db in (answer r, db')

unfoldable pub respond : Env → Workflows → Caller → ℕ → ℕ → Request → Db → Response × Db
respond env workflows c pk version request db =
    found_or_404 (call_service env workflows c pk version request)
      (bug_in_organization c.organization pk db) db
