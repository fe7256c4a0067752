-- ===== src/Bugs/Workflow/Reach.antt =====
-- Where the Community workflow leads, and the timestamps on the way.
use quorfix.Prelude.{
  ◌≡◌, refl, ◌≢◌, ◌↔◌, true, false, not, is_some, arith, ℕ, ◌⊎◌, inl, inr, Bool-cases, Bool,
  if◌then◌else◌,
}
use quorfix.Models.{Bug, BugStatus}
use quorfix.Bugs.Workflow.{
  same_status, status_in, is_open, resolution_statuses, Matrix, community_transitions,
  apply_timestamp_side_effects,
}

-- Some steps of the matrix lead from one status to another.
pub data Reaches (m : Matrix) (s : BugStatus) : BugStatus → Type 0 where
  here : Reaches m s s
  step : {t u : BugStatus} → Reaches m s t → status_in u (m t) ≡ true → Reaches m s u

Reaches-trans : {m : Matrix} {s t u : BugStatus} → Reaches m s t → Reaches m t u → Reaches m s u
Reaches-trans r here = r
Reaches-trans r (step q h) = step (Reaches-trans r q) h

edge :
    (s t : BugStatus)
    → status_in t (community_transitions s) ≡ true
    → Reaches community_transitions s t
edge s t h = step here h

-- Every status can be taken back to triage, ...
to_triaged : (s : BugStatus) → Reaches community_transitions s BugStatus.triaged
unfolding community_transitions
to_triaged BugStatus.triaged = here
to_triaged BugStatus.in_progress = step (edge BugStatus.in_progress BugStatus.assigned refl) refl
to_triaged BugStatus.ready_for_qa = step (edge BugStatus.ready_for_qa BugStatus.blocked refl) refl
to_triaged BugStatus.resolved = step (edge BugStatus.resolved BugStatus.reopened refl) refl
to_triaged BugStatus.closed = step (edge BugStatus.closed BugStatus.reopened refl) refl
to_triaged BugStatus.duplicate = step (edge BugStatus.duplicate BugStatus.reopened refl) refl
to_triaged BugStatus.cannot_reproduce =
    step (edge BugStatus.cannot_reproduce BugStatus.reopened refl) refl
to_triaged BugStatus.wont_fix = step (edge BugStatus.wont_fix BugStatus.reopened refl) refl
to_triaged BugStatus.new = step here refl
to_triaged BugStatus.assigned = step here refl
to_triaged BugStatus.reopened = step here refl
to_triaged BugStatus.blocked = step here refl
to_triaged BugStatus.deferred = step here refl

-- ... and from triage to every status but the initial one.
from_triaged :
    (t : BugStatus) → t ≢ BugStatus.new → Reaches community_transitions BugStatus.triaged t
unfolding community_transitions
from_triaged BugStatus.new h = absurd (h refl)
from_triaged BugStatus.triaged h = here
from_triaged BugStatus.ready_for_qa h =
    step (edge BugStatus.triaged BugStatus.in_progress refl) refl
from_triaged BugStatus.resolved h = step (edge BugStatus.triaged BugStatus.in_progress refl) refl
from_triaged BugStatus.closed h =
    step {t = BugStatus.resolved} (step (edge BugStatus.triaged BugStatus.in_progress refl) refl)
      refl
from_triaged BugStatus.reopened h = step (edge BugStatus.triaged BugStatus.duplicate refl) refl
from_triaged BugStatus.assigned h = step here refl
from_triaged BugStatus.in_progress h = step here refl
from_triaged BugStatus.blocked h = step here refl
from_triaged BugStatus.duplicate h = step here refl
from_triaged BugStatus.cannot_reproduce h = step here refl
from_triaged BugStatus.wont_fix h = step here refl
from_triaged BugStatus.deferred h = step here refl

-- No edge leads into the initial status.
not_into_new : (s : BugStatus) → status_in BugStatus.new (community_transitions s) ≡ false
unfolding community_transitions
not_into_new BugStatus.new = refl
not_into_new _ = refl

only_new : {s t : BugStatus} → Reaches community_transitions s t → t ≡ BugStatus.new → s ≡ t
only_new here e = refl
only_new (step {t = t} {u = u} r h) e = ground (arith, not_into_new t)

-- From any status the Community workflow reaches every status but `new`, and `new` only from
-- itself.
Reaches-iff :
    (s t : BugStatus) → Reaches community_transitions s t ↔ ((t ≢ BugStatus.new) ⊎ (s ≡ t))
Reaches-iff s t = (forward, backward)
  where
    forward : Reaches community_transitions s t → (t ≢ BugStatus.new) ⊎ (s ≡ t)
    forward r = elim (Bool-cases (same_status t BugStatus.new)) [
      | inl is_new ↦ inr (only_new r (ground arith))
      | inr other ↦ inl (ground arith)
    ]

    backward : (t ≢ BugStatus.new) ⊎ (s ≡ t) → Reaches community_transitions s t
    backward (inl h) = Reaches-trans (to_triaged s) (from_triaged t h)
    backward (inr e) = rw (← e) here

-- How the two timestamps follow the status: `resolved_at` is set exactly while the bug is not open,
-- and `closed_at` exactly while it is closed.
pub record IsTimed (bug : Bug) : Type 0 where
  pub resolved_exactly : is_some bug.resolved_at ≡ not (is_open bug.status)
  pub closed_exactly : is_some bug.closed_at ≡ same_status bug.status BugStatus.closed

-- What an edge of the matrix says of the classes of its two ends.
edge_classes :
    (s t : BugStatus)
    → status_in t (community_transitions s) ≡ true
    → (status_in t resolution_statuses ≡ true → same_status s BugStatus.closed ≡ false)
      × (same_status t BugStatus.closed ≡ true → is_open s ≡ false)
      × (is_open t ≡ true
          → same_status t BugStatus.reopened ≡ false
          → (is_open s ≡ true) × (same_status s BugStatus.closed ≡ false))
unfolding community_transitions is_open
edge_classes BugStatus.new t h = ground arith
edge_classes _ t h = ground arith

pub apply_timestamp_side_effects-IsTimed :
    (now : ℕ) (bug : Bug) (to : BugStatus)
    → IsTimed bug
    → status_in to (community_transitions bug.status) ≡ true
    → IsTimed (apply_timestamp_side_effects now (record bug { status = to }) to)
unfolding apply_timestamp_side_effects is_open
apply_timestamp_side_effects-IsTimed now bug BugStatus.new timed h =
    ground (arith, edge_classes bug.status BugStatus.new h)
apply_timestamp_side_effects-IsTimed now bug to timed h =
    ground (arith, edge_classes bug.status to h)

-- A move after which the timestamps can still follow the status: back to an open status from
-- another one, or by reopening; to `closed` from a status that is not open; and to any other
-- status from one that is not `closed`.
abbrev pub is_timed_move : BugStatus → BugStatus → Bool
is_timed_move from to =
    if same_status to BugStatus.reopened
    then true
    else if is_open to
    then is_open from
    else if same_status to BugStatus.closed
    then not (is_open from)
    else not (same_status from BugStatus.closed)

-- Whatever matrix a provider brings, a move of a bug whose timestamps follow its status
-- (`resolved_at` set exactly while it is not open, `closed_at` exactly while it is closed) leaves
-- them following the new status exactly where it reopens the bug, leads to an open status from an
-- open one, leads to `closed` from a status that is not open, or leads to another status from one
-- that is not `closed`.
pub apply_timestamp_side_effects_iff :
    (now : ℕ) (bug : Bug) (to : BugStatus)
    → IsTimed bug
    → IsTimed (apply_timestamp_side_effects now (record bug { status = to }) to)
      ↔ (is_timed_move bug.status to ≡ true)
unfolding apply_timestamp_side_effects is_open
apply_timestamp_side_effects_iff now bug to timed = (forward to, backward to)
  where
    forward :
        (to : BugStatus)
        → IsTimed (apply_timestamp_side_effects now (record bug { status = to }) to)
        → is_timed_move bug.status to ≡ true
    forward BugStatus.new after = ground (
      arith, timed.resolved_exactly, timed.closed_exactly, after.resolved_exactly,
      after.closed_exactly,
    )
    forward to after = ground (
      arith, timed.resolved_exactly, timed.closed_exactly, after.resolved_exactly,
      after.closed_exactly,
    )

    backward :
        (to : BugStatus)
        → is_timed_move bug.status to ≡ true
        → IsTimed (apply_timestamp_side_effects now (record bug { status = to }) to)
    backward BugStatus.new move = record {
      resolved_exactly = ground (arith, timed.resolved_exactly, timed.closed_exactly, move);
      closed_exactly = ground (arith, timed.resolved_exactly, timed.closed_exactly, move);
    }
    backward to move = record {
      resolved_exactly = ground (arith, timed.resolved_exactly, timed.closed_exactly, move);
      closed_exactly = ground (arith, timed.resolved_exactly, timed.closed_exactly, move);
    }
