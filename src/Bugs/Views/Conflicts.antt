-- ===== src/Bugs/Views/Conflicts.antt =====
-- What a request to one bug may change: no lost updates, nothing half done, no other tenant.
use quorfix.Prelude.{ℕ, ◌+◌, ◌≡◌, ◌≢◌, inl, inr, some, false, arith, ◌∙◌, ap, Option-cases, subst}
use quorfix.Exec.{Result, ok, err}
use quorfix.Env.{Env}
use quorfix.Table.{lookup}
use quorfix.Links.{linked}
use quorfix.Models.{Db, Bug}
use quorfix.Bugs.Workflow.{Workflows}
use quorfix.Bugs.Monad.{BugError}
use quorfix.Bugs.Services.Duplicates.{bug_in_organization}
use quorfix.Bugs.Versions.{Versioned}
use quorfix.Bugs.Versions.Update.{update_bug-Versioned}
use quorfix.Bugs.Versions.Transition.{transition_bug-Versioned}
use quorfix.Bugs.Versions.Assign.{assign_bug-Versioned}
use quorfix.Bugs.Versions.Archive.{archive_bug-Versioned, restore_bug-Versioned}
use quorfix.Bugs.Versions.Tags.{add_tag-Versioned, remove_tag-Versioned}
use quorfix.Bugs.Versions.Relationships.{
  create_relationship-Versioned, remove_relationship-Versioned,
}
use quorfix.Bugs.Views.{
  Caller, Request, partial_update, transition, assign, archive, restore, add_tag_request,
  delete_tag, add_relationship, delete_relationship, call_service, respond,
}

module _ (env : Env) (workflows : Workflows) (c : Caller) (pk version : ℕ) where
  -- Every service on a bug raises and changes nothing at all, or was given the version of the row
  -- and either moved that row, and no other bug, one version on, or changed nothing at all. (The
  -- key that is drawn for a new tag is taken to be on no tag of the bug yet.)
  pub call_service-Versioned :
      (request : Request) (db : Db)
      → linked pk (env.uuid 0) db.bug_tags ≡ false
      → Versioned pk version db (call_service env workflows c pk version request db)
  unfolding call_service
  call_service-Versioned (partial_update fields) db fresh =
      update_bug-Versioned env pk (some c.user) (some c.membership) version fields db
  call_service-Versioned (transition status duplicate_of assignee) db fresh =
      transition_bug-Versioned env pk (some c.user) (some c.membership) version workflows status
        duplicate_of assignee db
  call_service-Versioned (assign assignee) db fresh =
      assign_bug-Versioned env pk (some c.user) (some c.membership) version assignee db
  call_service-Versioned archive db fresh =
      archive_bug-Versioned env pk (some c.user) (some c.membership) version db
  call_service-Versioned restore db fresh =
      restore_bug-Versioned env pk (some c.user) (some c.membership) version db
  call_service-Versioned (add_tag_request name) db fresh =
      add_tag-Versioned env pk (some c.user) (some c.membership) version name db fresh
  call_service-Versioned (delete_tag tag) db fresh =
      remove_tag-Versioned env pk (some c.user) (some c.membership) version tag db
  call_service-Versioned (add_relationship related kind) db fresh =
      create_relationship-Versioned env pk (some c.user) (some c.membership) related kind version db
  call_service-Versioned (delete_relationship relationship) db fresh =
      remove_relationship-Versioned env pk (some c.user) (some c.membership) relationship version db

-- A call at a version that the row is no longer at raises.
stale-raises :
    (pk version : ℕ) (row : Bug) (db : Db) (r : Result BugError Bug × Db)
    → lookup pk db.bugs ≡ some row
    → row.version ≡ version + 1
    → Versioned pk version db r
    → (e : BugError) × (r ≡ (err e, db))
stale-raises pk version row db (ok b, db') at later ((old, found, v), _) =
    let same : old ≡ row = cc (found, at) in
    absurd (omega (arith, ap (λ (x : Bug). x.version) same, v, later))
stale-raises pk version row db (err e, db') at later same = (e, ap (λ d. (err e, d)) same)

row_after :
    (pk version : ℕ) (db : Db) (b : Bug) (db' : Db)
    → Versioned pk version db (ok b, db')
    → db' ≢ db
    → (lookup pk db'.bugs ≡ some b) × (b.version ≡ version + 1)
row_after pk version db b db' (_, inl (next, rows)) changed = (rows pk ∙ ground arith, next)
row_after pk version db b db' (_, inr same) changed = absurd (changed same)

-- Of two requests to a bug that were made from the same version of it, by whatever callers and to
-- whatever endpoints, the second raises and changes nothing, if the first returned and changed
-- anything. (The key that each draws for a new tag is taken to be on no tag of the bug yet.)
pub no_lost_update :
    (workflows : Workflows) (pk version : ℕ) (env₁ env₂ : Env) (c₁ c₂ : Caller) (r₁ r₂ : Request)
    (db : Db) {b : Bug} {db' : Db}
    → linked pk (env₁.uuid 0) db.bug_tags ≡ false
    → linked pk (env₂.uuid 0) db'.bug_tags ≡ false
    → call_service env₁ workflows c₁ pk version r₁ db ≡ (ok b, db')
    → db' ≢ db
    → (e : BugError) × (call_service env₂ workflows c₂ pk version r₂ db' ≡ (err e, db'))
no_lost_update workflows pk version env₁ env₂ c₁ c₂ r₁ r₂ db {b} {db'} fresh₁ fresh₂ first changed =
    let h =
      subst (Versioned pk version db) first
        (call_service-Versioned env₁ workflows c₁ pk version r₁ db fresh₁) in
    let (at, next) = row_after pk version db b db' h changed in
    stale-raises pk version b db' _ at next
      (call_service-Versioned env₂ workflows c₂ pk version r₂ db' fresh₂)

other_rows :
    (pk version : ℕ) (db : Db) (r : Result BugError Bug × Db) (j : ℕ)
    → pk ≢ j
    → Versioned pk version db r
    → lookup j r.1.bugs ≡ lookup j db.bugs
other_rows pk version db (ok b, db') j ne (_, inl (_, rows)) = rows j ∙ ground arith
other_rows pk version db (ok b, db') j ne (_, inr same) = ap (λ (d : Db). lookup j d.bugs) same
other_rows pk version db (err e, db') j ne same = ap (λ (d : Db). lookup j d.bugs) same

-- The bug that `get_object` finds belongs to the organization.
found_inside :
    (organization pk : ℕ) (db : Db) (bug : Bug)
    → bug_in_organization organization pk db ≡ some bug
    → (lookup pk db.bugs ≡ some bug) × (bug.organization ≡ organization)
unfolding bug_in_organization
found_inside organization pk db bug h = elim (Option-cases (lookup pk db.bugs)) [
  | inl e ↦ ground arith
  | inr (q, e) ↦ ground arith
]

-- No request changes a bug of another organization than the caller's, whatever bug it names. (The
-- key drawn for a new tag is taken to be on no tag of the bug yet.)
pub respond_isolated :
    (env : Env) (workflows : Workflows) (c : Caller) (pk version : ℕ) (request : Request) (db : Db)
    (j : ℕ) (q : Bug)
    → linked pk (env.uuid 0) db.bug_tags ≡ false
    → lookup j db.bugs ≡ some q
    → q.organization ≢ c.organization
    → lookup j (respond env workflows c pk version request db).1.bugs ≡ some q
unfolding respond
respond_isolated env workflows c pk version request db j q fresh at other =
    elim (Option-cases (bug_in_organization c.organization pk db)) [
      | inl e ↦ rw e at
      | inr (bug, e) ↦
          let (row, inside) = found_inside c.organization pk db bug e in
          rw e (
            other_rows pk version db _ j (λ same. other (belongs same row inside))
              (call_service-Versioned env workflows c pk version request db fresh)
            ∙ at)
    ]
  where
    belongs :
        {bug : Bug}
        → pk ≡ j
        → lookup pk db.bugs ≡ some bug
        → bug.organization ≡ c.organization
        → q.organization ≡ c.organization
    belongs same row inside = cc
