-- ===== src/Bugs/Selectors.antt =====
-- backend/apps/bugs/selectors.py and ordering.py: the list of bugs. `UPPER` of the database, with
-- which Django compares without regard to case, comes in as an argument, and so does today's date.
pub mod Ordering
pub mod Laws
use quorfix.Prelude.{
  ℕ, Bool, true, false, not, ◌&&◌, ◌||◌, Option, none, some, List, [], ◌∷◌, map, Text, text_eq,
  text_in, has_text, strip, starts_with, keep_if, ltb, leb, any, contains, is_none, is_some,
  if◌then◌else◌, ◌==◌,
}
use quorfix.Table.{Table, filter_rows, exists_row, lookup}
use quorfix.Links.{Links, linked}
use quorfix.Models.{
  Db, Bug, BugStatus, BugPriority, BugSeverity, Tag, status_index, priority_value, severity_value,
}
use quorfix.Bugs.Selectors.Ordering.{SortField, sorted_by}

-- `archived`: "true", "false" and "all".
pub data Archived : Type 0 where
  only_archived not_archived any_archived : Archived

-- The arguments of `list_bugs`, `none` or empty where a filter is not asked for.
pub record Query : Type 0 where
  pub project : Option ℕ
  pub statuses : List BugStatus
  pub priority : Option BugPriority
  pub severity : Option BugSeverity
  pub assignee : Option ℕ
  pub reporter : Option ℕ
  pub category : Text
  pub tags : List Text
  pub created_after : Option ℕ
  pub created_before : Option ℕ
  pub updated_after : Option ℕ
  pub updated_before : Option ℕ
  pub due_after : Option ℕ
  pub due_before : Option ℕ
  pub overdue : Bool
  pub unassigned : Bool
  pub watched_by_me : Bool
  pub archived : Archived
  pub search : Text
  pub ordering : Bool × SortField

-- `if x: qs = qs.filter(...)`
abbrev pub if_given : {A : Type 0} → Option A → (A → Bool) → Bool
if_given none p = true
if_given (some a) p = p a

abbrev pub is_key : Option ℕ → ℕ → Bool
is_key none a = false
is_key (some b) a = b == a

-- `__gte`, `__lte` and `__lt` of a column that may be null: null passes none of them.
abbrev pub at_least : ℕ → Option ℕ → Bool
at_least a none = false
at_least a (some d) = leb a d

abbrev pub at_most : ℕ → Option ℕ → Bool
at_most a none = false
at_most a (some d) = leb d a

abbrev pub earlier : ℕ → Option ℕ → Bool
earlier a none = false
earlier a (some d) = ltb d a

abbrev pub passes_archived : Archived → Option ℕ → Bool
passes_archived only_archived at = is_some at
passes_archived not_archived at = is_none at
passes_archived any_archived at = true

abbrev pub is_empty_list : {A : Type 0} → List A → Bool
is_empty_list [] = true
is_empty_list (a ∷ rest) = false

-- `LIKE '%part%'`
abbrev pub contains_text : Text → Text → Bool
contains_text [] part = starts_with [] part
contains_text (c ∷ s) part = starts_with (c ∷ s) part || contains_text s part

-- A tag of the bug is one of those named.
abbrev pub is_tag_named : Links → List Text → ℕ → ℕ → Tag → Bool
is_tag_named links names bug k tag = linked bug k links && text_in tag.name_normalized names

unfoldable pub normalized_tags : (Text → Text) → List Text → List Text
unfolding strip
normalized_tags lower tags = map (λ t. lower (strip t)) (keep_if (λ t. has_text (strip t)) tags)

unfoldable pub passes_tags : (Text → Text) → Db → List Text → ℕ → Bool
unfolding normalized_tags exists_row linked
passes_tags lower db tags pk =
    is_empty_list (normalized_tags lower tags)
    || exists_row (is_tag_named db.bug_tags (normalized_tags lower tags) pk) db.tags

unfoldable pub passes_search : (Text → Text) → Text → Bug → Bool
unfolding strip
passes_search upper search b =
    not (has_text (strip search))
    || contains_text (upper b.title) (upper (strip search))
    || text_eq (upper b.key) (upper (strip search))
    || contains_text (upper b.key) (upper (strip search))

unfoldable pub passes_category : (Text → Text) → Text → Bug → Bool
unfolding strip
passes_category upper category b =
    not (has_text category) || text_eq (upper b.category) (upper (strip category))

-- `watched_by_me and viewer is not None`
unfoldable pub passes_watched : Links → Option ℕ → Bool → ℕ → Bool
unfolding linked
passes_watched watchers none watched pk = true
passes_watched watchers (some viewer) watched pk = not watched || linked pk viewer watchers

unfoldable pub passes : (Text → Text) → (Text → Text) → ℕ → Db → Option ℕ → Query → ℕ → Bug → Bool
unfolding passes_watched passes_category passes_tags passes_search priority_value severity_value
passes lower upper today db viewer q pk b =
    passes_watched db.bug_watchers viewer q.watched_by_me pk
    && passes_archived q.archived b.archived_at
    && if_given q.project (λ p. b.project == p)
    && (is_empty_list q.statuses || any (λ s. status_index s == status_index b.status) q.statuses)
    && if_given q.priority (λ p. text_eq (priority_value b.priority) (priority_value p))
    && if_given q.severity (λ s. text_eq (severity_value b.severity) (severity_value s))
    && if_given q.assignee (is_key b.assignee)
    && if_given q.reporter (λ r. b.reporter == r)
    && passes_category upper q.category b
    && passes_tags lower db q.tags pk
    && if_given q.created_after (λ t. leb t b.created_at)
    && if_given q.created_before (λ t. leb b.created_at t)
    && if_given q.updated_after (λ t. leb t b.updated_at)
    && if_given q.updated_before (λ t. leb b.updated_at t)
    && if_given q.due_after (λ d. at_least d b.due_date)
    && if_given q.due_before (λ d. at_most d b.due_date)
    && (not q.overdue || earlier today b.due_date)
    && (not q.unassigned || is_none b.assignee)
    && passes_search upper q.search b

-- `get_bugs_for_organization`, with the filters
abbrev pub is_listed :
    (Text → Text) → (Text → Text) → ℕ → Db → ℕ → Option ℕ → Query → ℕ → Bug → Bool
is_listed lower upper today db organization viewer q pk b =
    b.organization == organization && passes lower upper today db viewer q pk b

unfoldable pub list_bugs : (Text → Text) → (Text → Text) → ℕ → Db → ℕ → Option ℕ → Query → Table Bug
unfolding filter_rows passes sorted_by
list_bugs lower upper today db organization viewer q =
    sorted_by q.ordering
      (filter_rows (is_listed lower upper today db organization viewer q) db.bugs)
