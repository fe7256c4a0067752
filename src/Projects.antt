-- ===== src/Projects.antt =====
-- backend/apps/projects/services.py.
use quorfix.Prelude.{
  ℕ, Bool, Option, none, some, ◌&&◌, ◌||◌, Text, text_eq, same_key, ◌==◌, is_some, is_none, length,
  ltb,
}
use quorfix.Exec.{Exec, ok, pure, raise_if, gets, fetch, modify, atomic, ◌>>=◌, ◌>>◌}
use quorfix.Env.{Env}
use quorfix.Table.{lookup, insert, save, exists_row, update_where, count_rows}
use quorfix.Models.{Db, Project, ProjectStatus}

pub data ProjectError : Type 0 where
  duplicate_project_key project_already_archived project_not_archived : ProjectError
  archived_project_not_editable does_not_exist data_error : ProjectError

abbrev pub Action : Type 0 → Type 0
Action A = Exec ProjectError Db A

-- `unique_project_key_per_org`
abbrev pub same_project_key : ℕ → Text → ℕ → Project → Bool
same_project_key organization key _ p = p.organization == organization && text_eq p.key key

abbrev pub too_wide : Text → Text → Bool
too_wide name key = ltb 255 (length name) || ltb 10 (length key)

-- `create_project`, of a key that the serializer has brought to upper case.
unfoldable pub create_project : Env → ℕ → Text → Text → Text → ProjectStatus → Option ℕ → Action ℕ
unfolding exists_row insert
create_project env organization name key description status lead = atomic (do
  taken ← gets (λ db. exists_row (same_project_key organization key) db.projects)
  raise_if taken duplicate_project_key
  raise_if (too_wide name key) data_error
  modify (λ db. record db {
    projects =
        insert (env.uuid 0)
          (record {
            organization = organization;
            name = name;
            key = key;
            description = description;
            status = status;
            lead = lead;
            archived_at = none;
            next_bug_number = 1;
          })
          db.projects;
  })
  pure (env.uuid 0))

-- `archive_project` and `restore_project`, of a row that the view has read.
unfoldable pub archive_project : Env → ℕ → Action Project
unfolding lookup save
archive_project env pk = atomic (do
  project ← fetch (λ db. lookup pk db.projects) does_not_exist
  raise_if (is_some project.archived_at) project_already_archived
  let archived = record project { archived_at = some env.now }
  modify (λ db. record db { projects = save pk archived db.projects })
  pure archived)

unfoldable pub restore_project : ℕ → Action Project
unfolding lookup save
restore_project pk = atomic (do
  project ← fetch (λ db. lookup pk db.projects) does_not_exist
  raise_if (is_none project.archived_at) project_not_archived
  let restored = record project { archived_at = none }
  modify (λ db. record db { projects = save pk restored db.projects })
  pure restored)

abbrev pub is_led_by : ℕ → ℕ → ℕ → Project → Bool
is_led_by organization user _ p = p.organization == organization && same_key p.lead (some user)

abbrev pub without_lead : Project → Project
without_lead p = record p { lead = none }

-- `clear_project_leadership`
unfoldable pub clear_project_leadership : {E : Type 0} → ℕ → ℕ → Exec E Db ℕ
unfolding update_where count_rows
clear_project_leadership organization user db = (
  ok (count_rows (is_led_by organization user) db.projects),
  record db { projects = update_where (is_led_by organization user) without_lead db.projects },
)
