-- ===== src/Tests/Bugs.antt =====
-- The theorems on bugs, at the small database.
use quorfix.Prelude.{
  ◌≡◌, ◌≢◌, refl, Bool, false, Option, none, some, [], ◌∷◌, codes, is_some, ap, arith,
}
use quorfix.Exec.{ok, err}
use quorfix.Exec.Ensures.{Ensures}
use quorfix.Table.{lookup, Table, count_rows, exists_row}
use quorfix.Models.{Db, Bug, BugStatus, BugPriority, BugSeverity, ActivityVerb, Project}
use quorfix.Bugs.Monad.{BugError}
use quorfix.Bugs.Views.{call_service, respond, archive, restore, add_tag_request, Caller}
use quorfix.Bugs.Views.Conflicts.{no_lost_update, call_service-Versioned, respond_isolated}
use quorfix.Bugs.Services.Archive.{archive_bug}
use quorfix.Bugs.Services.Transition.{activity_of, transition_block, unset, set_to}
use quorfix.Bugs.Services.Create.{NewBug, create_bug, new_bug_row}
use quorfix.Bugs.Services.Duplicates.Links.{IsForest}
use quorfix.Bugs.Versions.{Versioned}
use quorfix.Bugs.Outcome.{
  Transits, transition_block-Transits, transition_block-IsTimed, transition_block-IsForest,
}
use quorfix.Bugs.Numbers.{NumbersBelow, create_bug-numbers}
use quorfix.Bugs.Workflow.Reach.{IsTimed}
use quorfix.Tests.Data.{env, admin, first_bug, second_bug, db, caller}

abbrev archived_bug : Bug
archived_bug = record first_bug { archived_at = some 100; version = 2 }

abbrev archived_db : Db
archived_db = record db {
  bugs = (1, archived_bug) ∷ (2, second_bug) ∷ [];
  activities = (1000, activity_of env 1 archived_bug (some 1) ActivityVerb.archived [] []) ∷ [];
}

archive_test : call_service env [] caller 1 1 archive db ≡ (ok archived_bug, archived_db)
unfolding call_service archive_bug quorfix.Exec.◌>>=◌ quorfix.Activities.too_long
    quorfix.Table.insert
archive_test = refl

abbrev is_archived : Option Bug → Bool
is_archived none = false
is_archived (some b) = is_some b.archived_at

abbrev first_is_archived : Db → Bool
first_is_archived d = is_archived (lookup 1 d.bugs)

archived_differs : archived_db ≢ db
unfolding lookup
archived_differs e = true_false (ap first_is_archived e)
  where
    true_false : Bool.true ≢ Bool.false
    true_false h = cc h

no_lost_update_example :
    (e : BugError) × (call_service env [] caller 1 1 restore archived_db ≡ (err e, archived_db))
unfolding quorfix.Links.linked
no_lost_update_example =
    no_lost_update [] 1 1 env env caller caller archive restore db refl refl archive_test
      archived_differs

call_service-Versioned_example :
    Versioned 1 1 db (call_service env [] caller 1 1 (add_tag_request (codes "ui")) db)
unfolding quorfix.Links.linked
call_service-Versioned_example =
    call_service-Versioned env [] caller 1 1 (add_tag_request (codes "ui")) db refl

abbrev stranger : Caller
stranger = record { organization = 11; user = 7; membership = admin }

respond_isolated_example : lookup 1 (respond env [] stranger 1 1 archive db).1.bugs ≡ some first_bug
unfolding quorfix.Links.linked lookup
respond_isolated_example =
    respond_isolated env [] stranger 1 1 archive db 1 first_bug refl refl (λ e. omega (arith, e))

transition_test :
    (lookup 1
      (transition_block env [] 1
        (some 1)
        (some admin)
        BugStatus.assigned
        1
        none
        (set_to (some 2))
        db).1.bugs)
    ≡ some (record first_bug { status = BugStatus.assigned; assignee = some 2; version = 2 })
unfolding transition_block quorfix.Exec.atomic quorfix.Exec.◌>>=◌ quorfix.Registry.get
    quorfix.Bugs.Workflow.community_transitions quorfix.Activities.too_long
transition_test = refl

transition_block-Transits_example :
    Transits [] 1 (some admin) BugStatus.assigned db (
      transition_block env [] 1
        (some 1)
        (some admin)
        BugStatus.assigned
        1
        none
        (set_to (some 2))
        db)
transition_block-Transits_example =
    transition_block-Transits env [] 1 (some 1) (some admin) BugStatus.assigned 1 none
      (set_to (some 2)) db

transition_block-IsTimed_example :
    Ensures
      (λ done _. IsTimed done.bug)
      (transition_block env [] 1 (some 1) (some admin) BugStatus.duplicate 1 (some 2) unset)
      db
unfolding quorfix.Registry.get lookup quorfix.Bugs.Workflow.is_open
transition_block-IsTimed_example =
    transition_block-IsTimed env [] 1 (some 1) (some admin) BugStatus.duplicate 1 (some 2) unset db
      first_bug refl refl (record { resolved_exactly = refl; closed_exactly = refl })

no_links : IsForest db.relationships
unfolding count_rows exists_row
no_links = record { single = λ a. refl; acyclic = λ a b n h. cc h }

transition_block-IsForest_example :
    IsForest
      (transition_block env [] 1
        (some 1)
        (some admin)
        BugStatus.duplicate
        1
        (some 2)
        unset
        db).1.relationships
unfolding count_rows
transition_block-IsForest_example =
    transition_block-IsForest env [] 1 (some 1) (some admin) BugStatus.duplicate 1 (some 2) unset db
      refl no_links

abbrev new_bug : NewBug
new_bug = record {
  title = codes "Typo";
  description = [];
  steps_to_reproduce = [];
  expected_result = [];
  actual_result = [];
  environment = [];
  category = [];
  priority = BugPriority.low;
  severity = BugSeverity.trivial;
  due_date = none;
}

numbers_below : NumbersBelow db
unfolding lookup
numbers_below = record { below = λ k bug p at parent. ground arith }

create_bug-numbers_example :
    Ensures
      (λ pk db'.
        NumbersBelow db'
        × ((project : Project) × (lookup 30 db.projects ≡ some project)
            × (is_some project.archived_at ≡ false)
            × (lookup pk db'.bugs
                ≡ some (new_bug_row env.now 10 30 project 1 new_bug project.next_bug_number))))
      (create_bug env 10 30 1 (some admin) new_bug)
      db
create_bug-numbers_example = create_bug-numbers env 10 30 1 (some admin) new_bug db numbers_below
