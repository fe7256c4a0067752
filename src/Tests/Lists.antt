-- ===== src/Tests/Lists.antt =====
-- The theorems on the list of bugs, on what is offered for a bug, and on the first setup.
use quorfix.Prelude.{
  ℕ, ◌≡◌, refl, Bool, true, false, not, ◌&&◌, none, some, [], ◌∷◌, Text, codes, text_in, is_none,
}
use quorfix.Table.{Table}
use quorfix.Models.{Db, Bug, BugStatus, Organization}
use quorfix.Bugs.Workflow.{status_in, assignee_required_statuses}
use quorfix.Bugs.Services.Transition.{check_transition, transition_block, set_to, unset}
use quorfix.Bugs.Selectors.{Query, not_archived, list_bugs}
use quorfix.Bugs.Selectors.Ordering
use quorfix.Bugs.Selectors.Ordering.{validate_ordering}
use quorfix.Bugs.Serializers.{get_available_transitions, validate_status}
use quorfix.Bugs.Serializers.Laws.{is_ok, check_transition-offered}
use quorfix.Bugs.Serializers.Offers.{Offered, transition_block-Offered}
use quorfix.Organizations.Slugs.{slugs_of, unique_slug}
use quorfix.Organizations.Slugs.Laws.{unique_slug-free}
use quorfix.Organizations.Setup.{setup_instance}
use quorfix.Organizations.Setup.Laws.{SetUp, setup_instance-SetUp}
use quorfix.Tests.Data.{env, admin, db, organization, locked_bug}

abbrev query : Query
query = record {
  project = some 30;
  statuses = BugStatus.new ∷ [];
  priority = none;
  severity = none;
  assignee = none;
  reporter = some 1;
  category = [];
  tags = [];
  created_after = none;
  created_before = none;
  updated_after = none;
  updated_before = none;
  due_after = none;
  due_before = none;
  overdue = false;
  unassigned = true;
  watched_by_me = false;
  archived = not_archived;
  search = codes "ab-";
  ordering = (true, Ordering.number);
}

-- `UPPER`, for the letters that occur here
abbrev upper : Text → Text
upper s = codes "AB-"

abbrev keys_of : Table Bug → Table Text
keys_of [] = []
keys_of ((k, b) ∷ rows) = (k, b.key) ∷ keys_of rows

list_test :
    keys_of (list_bugs (λ s. s) upper 5 db 10 (some 2) query)
    ≡ (2, codes "AB-2") ∷ (1, codes "AB-1") ∷ []
unfolding list_bugs quorfix.Prelude.is_space
list_test = refl

ordering_test : validate_ordering (codes "-priority") ≡ some (true, Ordering.priority)
unfolding validate_ordering
ordering_test = refl

status_test : validate_status (codes "new, closed") ≡ some (BugStatus.new ∷ BugStatus.closed ∷ [])
unfolding validate_status quorfix.Prelude.is_space
status_test = refl

check_transition-offered_example :
    is_ok (check_transition [] locked_bug (some admin) BugStatus.assigned unset db).0 ≡ (
      status_in BugStatus.assigned
        (get_available_transitions [] locked_bug.project locked_bug.bug (some admin))
      && not (
          status_in BugStatus.assigned assignee_required_statuses
          && is_none locked_bug.bug.assignee))
check_transition-offered_example =
    check_transition-offered [] locked_bug (some admin) BugStatus.assigned db

transition_block-Offered_example :
    Offered [] 1 (some admin) BugStatus.assigned db (
      transition_block env [] 1
        (some 1)
        (some admin)
        BugStatus.assigned
        1
        none
        (set_to (some 2))
        db)
transition_block-Offered_example =
    transition_block-Offered env [] 1 (some 1) (some admin) BugStatus.assigned 1 none
      (set_to (some 2)) db

abbrev twice : Table Organization
twice = (10, organization) ∷ (11, record organization { slug = codes "acme-2" }) ∷ []

slug_test : unique_slug (λ s. codes "acme") (codes "Acme") twice ≡ some (codes "acme-3")
unfolding unique_slug
slug_test = refl

unique_slug-free_example :
    (slug : Text) × (unique_slug (λ s. codes "acme") (codes "Acme") twice ≡ some slug)
    × (text_in slug (slugs_of twice) ≡ false)
unique_slug-free_example = unique_slug-free (λ s. codes "acme") (codes "Acme") twice

-- Before anything has been set up.
abbrev empty_db : Db
empty_db = record db { users = []; organizations = []; memberships = []; setup_completed_at = none }

setup_instance-SetUp_example :
    SetUp env []
      (codes "Acme")
      empty_db
      (setup_instance env (λ s. s) [] (codes "Acme") (codes "a@acme.org") empty_db)
setup_instance-SetUp_example =
    setup_instance-SetUp env (λ s. s) [] (codes "Acme") (codes "a@acme.org") empty_db
