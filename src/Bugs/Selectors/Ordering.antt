-- ===== src/Bugs/Selectors/Ordering.antt =====
-- `_apply_ordering` of backend/apps/bugs/selectors.py and the ranks of ordering.py. A null sorts
-- as if larger than any date, as in PostgreSQL.
use quorfix.Prelude.{
  ℕ, Bool, true, false, not, ◌&&◌, ◌||◌, Option, none, some, [], ◌∷◌, Text, codes, text_eq, ltb,
  leb, if◌then◌else◌, ◌==◌,
}
use quorfix.Table.{Table}
use quorfix.Models.{Bug, BugPriority, BugSeverity}

-- `SORT_FIELDS`
pub data SortField : Type 0 where
  created_at updated_at due_date number priority severity : SortField

-- `PRIORITY_RANK` and `SEVERITY_RANK`
unfoldable pub priority_rank : BugPriority → ℕ
priority_rank BugPriority.low = 0
priority_rank BugPriority.medium = 1
priority_rank BugPriority.high = 2
priority_rank BugPriority.urgent = 3

unfoldable pub severity_rank : BugSeverity → ℕ
severity_rank BugSeverity.trivial = 0
severity_rank BugSeverity.minor = 1
severity_rank BugSeverity.major = 2
severity_rank BugSeverity.critical = 3
severity_rank BugSeverity.blocker = 4

-- The first term of `ORDER BY`: 0 and the value, or 1 for a null.
abbrev pub or_null : Option ℕ → ℕ × ℕ
or_null none = (1, 0)
or_null (some d) = (0, d)

abbrev pub first_term : SortField → Bug → ℕ × ℕ
first_term created_at b = (0, b.created_at)
first_term updated_at b = (0, b.updated_at)
first_term due_date b = or_null b.due_date
first_term number b = (0, b.number)
first_term priority b = (0, priority_rank b.priority)
first_term severity b = (0, severity_rank b.severity)

-- The second term, always descending: `-created_at` below a rank, `-id` below anything else.
abbrev pub second_term : SortField → ℕ → Bug → ℕ
second_term priority k b = b.created_at
second_term severity k b = b.created_at
second_term field k b = k

abbrev pub less : ℕ × ℕ → ℕ × ℕ → Bool
less (a, b) (c, d) = ltb a c || (a == c && ltb b d)

-- One row may stand before another; `true` in front is a descending first term.
unfoldable pub may_precede : Bool × SortField → ℕ × Bug → ℕ × Bug → Bool
may_precede (descending, field) (j, a) (k, b) =
    if less (first_term field a) (first_term field b)
    then not descending
    else if less (first_term field b) (first_term field a)
    then descending
    else leb (second_term field k b) (second_term field j a)

abbrev pub insert_by : (ℕ × Bug → ℕ × Bug → Bool) → ℕ × Bug → Table Bug → Table Bug
insert_by le row [] = row ∷ []
insert_by le row (first ∷ rows) =
    let rest = insert_by le row rows in if le row first then row ∷ first ∷ rows else first ∷ rest

-- `qs.order_by(...)`
unfoldable pub sorted_by : Bool × SortField → Table Bug → Table Bug
unfolding may_precede
sorted_by ordering [] = []
sorted_by ordering (row ∷ rows) = insert_by (may_precede ordering) row (sorted_by ordering rows)

-- `field = ordering[1:] if descending else ordering`, of a text that `validate_ordering` lets
-- through; `none` is its `ValidationError`.
unfoldable pub sort_field_of : Text → Option SortField
sort_field_of field =
    if text_eq field (codes "created_at")
    then some created_at
    else if text_eq field (codes "updated_at")
    then some updated_at
    else if text_eq field (codes "due_date")
    then some due_date
    else if text_eq field (codes "number")
    then some number
    else if text_eq field (codes "priority")
    then some priority
    else if text_eq field (codes "severity")
    then some severity
    else none

abbrev pub with_direction : Bool → Option SortField → Option (Bool × SortField)
with_direction descending none = none
with_direction descending (some field) = some (descending, field)

unfoldable pub validate_ordering : Text → Option (Bool × SortField)
unfolding sort_field_of
validate_ordering [] = none
validate_ordering (c ∷ value) =
    if c == 45
    then with_direction true (sort_field_of value)
    else with_direction false (sort_field_of (c ∷ value))
