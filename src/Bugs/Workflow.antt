-- ===== src/Bugs/Workflow.antt =====
-- backend/apps/bugs/workflow.py: the statuses, the transition matrix with its extension point, and
-- the timestamps that a transition sets.
pub mod Reach
use quorfix.Prelude.{
  ℕ, Bool, true, false, Option, none, some, ◌||◌, not, List, [], ◌∷◌, Text, codes, if◌then◌else◌,
  ◌==◌,
}
use quorfix.Registry.{Registry}
use quorfix.Registry
use quorfix.Models.{Bug, BugStatus, Project, status_index}

-- `==` of two statuses
abbrev pub same_status : BugStatus → BugStatus → Bool
same_status a b = status_index a == status_index b

-- `status in statuses`
abbrev pub status_in : BugStatus → List BugStatus → Bool
status_in s [] = false
status_in s (t ∷ ts) = if same_status s t then true else status_in s ts

abbrev pub resolution_statuses : List BugStatus
resolution_statuses =
    BugStatus.resolved ∷ BugStatus.duplicate ∷ BugStatus.cannot_reproduce ∷ BugStatus.wont_fix ∷ []

abbrev pub terminal_statuses : List BugStatus
terminal_statuses = BugStatus.closed ∷ resolution_statuses

-- `status in OPEN_STATUSES`: every status that is not terminal
unfoldable pub is_open : BugStatus → Bool
is_open s = not (status_in s terminal_statuses)

abbrev pub assignee_required_statuses : List BugStatus
assignee_required_statuses = BugStatus.assigned ∷ BugStatus.in_progress ∷ []

-- A transition matrix: the targets of each status, none for a status that the dict lacks.
abbrev pub Matrix : Type 0
Matrix = BugStatus → List BugStatus

unfoldable pub community_transitions : Matrix
community_transitions BugStatus.new =
    BugStatus.triaged ∷ BugStatus.assigned ∷ BugStatus.blocked ∷ BugStatus.duplicate
    ∷ BugStatus.cannot_reproduce ∷ BugStatus.wont_fix ∷ []
community_transitions BugStatus.triaged =
    BugStatus.assigned ∷ BugStatus.in_progress ∷ BugStatus.blocked ∷ BugStatus.deferred
    ∷ BugStatus.duplicate ∷ BugStatus.cannot_reproduce ∷ BugStatus.wont_fix ∷ []
community_transitions BugStatus.assigned =
    BugStatus.in_progress ∷ BugStatus.triaged ∷ BugStatus.blocked ∷ BugStatus.deferred ∷ []
community_transitions BugStatus.in_progress =
    BugStatus.ready_for_qa ∷ BugStatus.resolved ∷ BugStatus.blocked ∷ BugStatus.deferred
    ∷ BugStatus.assigned ∷ []
community_transitions BugStatus.ready_for_qa =
    BugStatus.resolved ∷ BugStatus.in_progress ∷ BugStatus.blocked ∷ []
community_transitions BugStatus.blocked = BugStatus.triaged ∷ BugStatus.in_progress ∷ []
community_transitions BugStatus.deferred =
    BugStatus.triaged ∷ BugStatus.assigned ∷ BugStatus.in_progress ∷ []
community_transitions BugStatus.resolved = BugStatus.closed ∷ BugStatus.reopened ∷ []
community_transitions BugStatus.closed = BugStatus.reopened ∷ []
community_transitions BugStatus.reopened =
    BugStatus.triaged ∷ BugStatus.assigned ∷ BugStatus.in_progress ∷ BugStatus.blocked ∷ []
community_transitions BugStatus.duplicate = BugStatus.reopened ∷ []
community_transitions BugStatus.cannot_reproduce = BugStatus.reopened ∷ []
community_transitions BugStatus.wont_fix = BugStatus.reopened ∷ []

-- `WorkflowProvider`: what a registered provider answers for a project.
pub record WorkflowProvider : Type 0 where
  pub applies_to : Project → Bool
  pub transitions_for : Project → Matrix

abbrev pub workflow_provider_key : Text
workflow_provider_key = codes "bug_workflow_provider"

-- The registry of the process.
abbrev pub Workflows : Type 0
Workflows = Registry WorkflowProvider

unfoldable pub matrix_from : Option WorkflowProvider → Project → Matrix
matrix_from none project = community_transitions
matrix_from (some provider) project =
    if provider.applies_to project then provider.transitions_for project else community_transitions

unfoldable pub get_transition_matrix : Workflows → Project → Matrix
unfolding matrix_from
get_transition_matrix registry project =
    matrix_from (Registry.get registry workflow_provider_key) project

unfoldable pub is_valid_transition : Workflows → Project → BugStatus → BugStatus → Bool
unfolding get_transition_matrix
is_valid_transition registry project from to =
    status_in to (get_transition_matrix registry project from)

unfoldable pub apply_timestamp_side_effects : ℕ → Bug → BugStatus → Bug
apply_timestamp_side_effects now bug to =
    if status_in to resolution_statuses
    then record bug { resolved_at = some now }
    else if same_status to BugStatus.closed
    then record bug { closed_at = some now }
    else if same_status to BugStatus.reopened
    then record bug { resolved_at = none; closed_at = none }
    else bug
