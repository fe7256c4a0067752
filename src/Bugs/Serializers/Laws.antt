-- ===== src/Bugs/Serializers/Laws.antt =====
-- What is offered is what the service accepts.
use quorfix.Prelude.{
  ◌≡◌, refl, ap, sym, ◌∙◌, Bool, true, false, not, ◌&&◌, Option, none, some, List, [], ◌∷◌, keep_if,
  is_none, ==_iff, arith, if◌then◌else◌,
}
use quorfix.Exec.{Result, ok, err, pure, raise_if, ◌>>=◌, ◌>>◌}
use quorfix.Models.{Db, Bug, BugStatus, Membership, Project, status_value, status_index}
use quorfix.Bugs.Workflow.{
  Workflows, get_transition_matrix, is_valid_transition, status_in, same_status,
  assignee_required_statuses,
}
use quorfix.Bugs.Policies.{can_change_status}
use quorfix.Bugs.Monad.{Locked, BugError}
use quorfix.Bugs.Services.Transition.{check_transition, unset}
use quorfix.Bugs.Serializers.{text_leb, insert_status, sorted_statuses, get_available_transitions}

abbrev pub is_ok : {E A : Type 0} → Result E A → Bool
is_ok (ok a) = true
is_ok (err e) = false

status_in-insert_status :
    (t s : BugStatus) (ts : List BugStatus)
    → status_in t (insert_status s ts) ≡ (status_in t (s ∷ ts))
status_in-insert_status t s [] = refl
status_in-insert_status t s (u ∷ ts) =
    by_test (text_leb (status_value s) (status_value u)) (status_in-insert_status t s ts)
  where
    swapped :
        (a b : Bool) (n m : Bool)
        → m ≡ (if a then true else n)
        → (if b then true else m) ≡ (if a then true else if b then true else n)
    swapped true true n m h = refl
    swapped true false n m h = h
    swapped false b n m h = ap (λ x. if b then true else x) h

    by_test :
        (b : Bool)
        → status_in t (insert_status s ts) ≡ status_in t (s ∷ ts)
        → status_in t (if b then s ∷ u ∷ ts else u ∷ insert_status s ts) ≡ status_in t (s ∷ u ∷ ts)
    by_test true h = refl
    by_test false h =
        swapped (same_status t s) (same_status t u) (status_in t ts)
          (status_in t (insert_status s ts)) h

status_in-sorted_statuses :
    (t : BugStatus) (ts : List BugStatus) → status_in t (sorted_statuses ts) ≡ status_in t ts
unfolding sorted_statuses
status_in-sorted_statuses t [] = refl
status_in-sorted_statuses t (s ∷ ts) =
    status_in-insert_status t s (sorted_statuses ts)
    ∙ ap (λ b. if same_status t s then true else b) (status_in-sorted_statuses t ts)

can_change_same :
    (bug : Bug) (m : Option Membership) (t s : BugStatus)
    → same_status t s ≡ true
    → can_change_status bug m s ≡ can_change_status bug m t
unfolding can_change_status
can_change_same bug none t s h = refl
can_change_same bug (some m) t s h = rw ((==_iff (status_index t) (status_index s)).0 h) refl

status_in-keep_if :
    (p : BugStatus → Bool) (t : BugStatus) (ts : List BugStatus)
    → ((s : BugStatus) → same_status t s ≡ true → p s ≡ p t)
    → status_in t (keep_if p ts) ≡ (p t && status_in t ts)
status_in-keep_if p t [] same = ground arith
status_in-keep_if p t (s ∷ ts) same =
    by_tests (same_status t s) (p s) refl refl (status_in-keep_if p t ts same)
  where
    by_tests :
        (a b : Bool)
        → same_status t s ≡ a
        → p s ≡ b
        → status_in t (keep_if p ts) ≡ (p t && status_in t ts)
        → status_in t (if b then s ∷ keep_if p ts else keep_if p ts)
          ≡ (p t && (if a then true else status_in t ts))
    by_tests true true e f h = rw (e, sym (same s e) ∙ f) refl
    by_tests true false e f h = h ∙ rw (sym (same s e) ∙ f) refl
    by_tests false true e f h = rw e h
    by_tests false false e f h = h

pub available-status_in :
    (workflows : Workflows) (project : Project) (bug : Bug) (m : Option Membership) (t : BugStatus)
    → status_in t (get_available_transitions workflows project bug m)
      ≡ (can_change_status bug m t && is_valid_transition workflows project bug.status t)
unfolding get_available_transitions is_valid_transition
available-status_in workflows project bug m t =
    status_in-sorted_statuses t
      (keep_if (can_change_status bug m) (get_transition_matrix workflows project bug.status))
    ∙ status_in-keep_if (can_change_status bug m) t
        (get_transition_matrix workflows project bug.status) (can_change_same bug m t)

-- The checks of a transition that leaves the assignee alone.
checks-is_ok :
    {A : Type 0} (permitted valid lacking : Bool) (a : A) (db : Db)
    → is_ok
        ((do
          raise_if (not permitted) BugError.permission_denied
          raise_if (not valid) BugError.invalid_workflow_transition
          raise_if lacking BugError.assignee_required_for_transition
          pure a)
          db).0
      ≡ (permitted && valid && not lacking)
unfolding ◌>>=◌ raise_if
checks-is_ok true true true a db = refl
checks-is_ok true true false a db = refl
checks-is_ok true false lacking a db = refl
checks-is_ok false valid lacking a db = refl

-- The checks of a transition that leaves the assignee alone let a status through exactly where the
-- detail of the bug offers it and the bug has an assignee or the status needs none.
pub check_transition-offered :
    (workflows : Workflows) (locked : Locked) (m : Option Membership) (t : BugStatus) (db : Db)
    → is_ok (check_transition workflows locked m t unset db).0 ≡ (
        status_in t (get_available_transitions workflows locked.project locked.bug m)
        && not (status_in t assignee_required_statuses && is_none locked.bug.assignee))
unfolding check_transition ◌>>=◌ quorfix.Bugs.Services.Transition.choose_assignee
    quorfix.Bugs.Services.Transition.require_assignee
check_transition-offered workflows locked m t db =
    checks-is_ok (can_change_status locked.bug m t)
      (is_valid_transition workflows locked.project locked.bug.status t)
      (status_in t assignee_required_statuses && is_none locked.bug.assignee) (false, none) db
    ∙ ap (λ b. b && not (status_in t assignee_required_statuses && is_none locked.bug.assignee))
        (sym (available-status_in workflows locked.project locked.bug m t))
