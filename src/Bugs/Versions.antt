-- ===== src/Bugs/Versions.antt =====
-- Optimistic concurrency: what a service on a bug does to the rows of the bugs and their versions.
pub mod Saved
pub mod Archive
pub mod Tags
pub mod Update
pub mod Transition
pub mod Assign
pub mod Relationships
use quorfix.Prelude.{ℕ, ◌+◌, ◌≡◌, ◌⊎◌, some, ◌==◌, if◌then◌else◌}
use quorfix.Exec.{Result, ok, err}
use quorfix.Table.{lookup, Table}
use quorfix.Models.{Db, Bug}
use quorfix.Bugs.Monad.{BugError}

-- The row under `pk` is now `b`, one version on from `expected`, and every other row is as it was.
abbrev pub Bumped : ℕ → ℕ → Table Bug → Bug → Table Bug → Type 0
Bumped pk expected old b new =
    (b.version ≡ expected + 1)
    × ((j : ℕ) → lookup j new ≡ (if pk == j then some b else lookup j old))

-- What a service that was given the version `expected` has done to the bug under `pk`. If it
-- returned, that was the version of the row, and it has moved the row one version on or has changed
-- nothing at all. If it raised, nothing has changed.
abbrev pub Versioned : ℕ → ℕ → Db → Result BugError Bug × Db → Type 0
Versioned pk expected db (ok b, db') =
    ((old : Bug) × (lookup pk db.bugs ≡ some old) × (old.version ≡ expected))
    × (Bumped pk expected db.bugs b db'.bugs ⊎ (db' ≡ db))
Versioned pk expected db (err e, db') = db' ≡ db
