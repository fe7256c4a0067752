-- ===== src/Bugs/Versions/Saved.antt =====
-- A row that was locked at the expected version and is saved one version on.
use quorfix.Prelude.{ℕ, ◌+◌, ◌≡◌, ◌⊎◌, inl, inr, some, arith, refl}
use quorfix.Table.{lookup, save, Table}
use quorfix.Table.Laws.{lookup-save}
use quorfix.Models.{Db, Bug}
use quorfix.Bugs.Versions.{Bumped}

pub saved-Bumped :
    (pk expected : ℕ) (old b : Bug) (bugs : Table Bug)
    → lookup pk bugs ≡ some old
    → old.version ≡ expected
    → b.version ≡ old.version + 1
    → Bumped pk expected bugs b (save pk b bugs)
saved-Bumped pk expected old b bugs row v next =
    (omega arith, λ j. lookup-save pk j {old = old} b bugs row)

-- What `Versioned` says of a call that saved the row.
pub saved-Versioned :
    (pk expected : ℕ) (old b : Bug) (db : Db)
    → lookup pk db.bugs ≡ some old
    → old.version ≡ expected
    → b.version ≡ old.version + 1
    → {db' : Db} → db'.bugs ≡ save pk b db.bugs
    → ((o : Bug) × (lookup pk db.bugs ≡ some o) × (o.version ≡ expected))
      × (Bumped pk expected db.bugs b db'.bugs ⊎ (db' ≡ db))
saved-Versioned pk expected old b db row v next e =
    ((old, row, v), inl (rw e (saved-Bumped pk expected old b db.bugs row v next)))

-- What `Versioned` says of a call that found nothing to do.
pub kept-Versioned :
    (pk expected : ℕ) (old b : Bug) (db : Db)
    → lookup pk db.bugs ≡ some old
    → old.version ≡ expected
    → ((o : Bug) × (lookup pk db.bugs ≡ some o) × (o.version ≡ expected))
      × (Bumped pk expected db.bugs b db.bugs ⊎ (db ≡ db))
kept-Versioned pk expected old b db row v = ((old, row, v), inr refl)
