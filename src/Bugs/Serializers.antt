-- ===== src/Bugs/Serializers.antt =====
-- backend/apps/bugs/serializers.py: what the detail of a bug offers to its reader, and the texts that
-- the serializers take from a request. `none` is a `ValidationError`.
pub mod Laws
pub mod Offers
use quorfix.Prelude.{
  ℕ, Bool, true, false, not, ◌&&◌, ◌||◌, Option, none, some, List, [], ◌∷◌, map, Text, text_eq,
  has_text, strip, ltb, keep_if, split_on, if◌then◌else◌, ◌==◌,
}
use quorfix.Models.{Bug, BugStatus, Membership, Project, status_value, status_of}
use quorfix.Bugs.Workflow.{Workflows, get_transition_matrix}
use quorfix.Bugs.Policies.{
  can_change_status, can_assign_bug, can_archive_bug, can_manage_relationships,
}

-- `s <= t` of Python's `str`
abbrev pub text_leb : Text → Text → Bool
text_leb [] t = true
text_leb (c ∷ s) [] = false
text_leb (c ∷ s) (d ∷ t) = ltb c d || (c == d && text_leb s t)

abbrev pub insert_status : BugStatus → List BugStatus → List BugStatus
insert_status s [] = s ∷ []
insert_status s (t ∷ ts) =
    let rest = insert_status s ts in
    if text_leb (status_value s) (status_value t) then s ∷ t ∷ ts else t ∷ rest

-- `sorted(...)` of statuses
unfoldable pub sorted_statuses : List BugStatus → List BugStatus
unfolding status_value
sorted_statuses [] = []
sorted_statuses (s ∷ ts) = insert_status s (sorted_statuses ts)

unfoldable pub get_available_transitions :
    Workflows → Project → Bug → Option Membership → List BugStatus
unfolding sorted_statuses get_transition_matrix can_change_status
get_available_transitions workflows project bug membership = sorted_statuses (
    keep_if (can_change_status bug membership) (get_transition_matrix workflows project bug.status))

-- `[v.strip() for v in value.split(",") if v.strip()]`
unfoldable pub comma_values : Text → List Text
unfolding strip
comma_values value = if has_text value then keep_if has_text (map strip (split_on 44 value)) else []

abbrev pub cons_if : Option BugStatus → Option (List BugStatus) → Option (List BugStatus)
cons_if (some s) (some rest) = some (s ∷ rest)
cons_if _ _ = none

abbrev pub statuses_of : List Text → Option (List BugStatus)
unfolding status_of
statuses_of [] = some []
statuses_of (v ∷ vs) = cons_if (status_of v) (statuses_of vs)

-- `validate_status` and `validate_tags` of the list query
unfoldable pub validate_status : Text → Option (List BugStatus)
unfolding comma_values statuses_of
validate_status value = statuses_of (comma_values value)

unfoldable pub validate_tags : Text → List Text
unfolding comma_values
validate_tags value = comma_values value

-- `validate_title` of a creation and of an update
unfoldable pub validate_title : Text → Option Text
unfolding strip
validate_title value = if has_text (strip value) then some (strip value) else none
