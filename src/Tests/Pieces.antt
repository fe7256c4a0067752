-- ===== src/Tests/Pieces.antt =====
-- The theorems on the workflow, the duplicate walk and the registry, at concrete inputs.
use quorfix.Prelude.{ℕ, ◌≡◌, refl, none, some, [], ◌∷◌, codes, arith, ◌↔◌, true, false}
use quorfix.Registry.{Registry, register}
use quorfix.Registry.Laws.{Registered, register-Registered}
use quorfix.Table.{Table, count_rows}
use quorfix.Models.{Bug, BugStatus, BugRelationship, RelationshipType}
use quorfix.Bugs.Workflow.{apply_timestamp_side_effects}
use quorfix.Bugs.Workflow.Reach.{IsTimed, apply_timestamp_side_effects_iff}
use quorfix.Bugs.Services.Duplicates.{duplicate_chain_reaches, found}
use quorfix.Bugs.Services.Duplicates.Links.{IsSingle, Verdict, duplicate_chain_reaches_sound}
use quorfix.Tests.Data.{first_bug}

abbrev link : ℕ → ℕ → BugRelationship
link from to = record {
  organization = 10;
  from_bug = from;
  to_bug = to;
  relationship_type = RelationshipType.duplicate_of;
  created_by = none;
}

abbrev links : Table BugRelationship
links = (60, link 1 2) ∷ (61, link 2 3) ∷ []

walk_test : duplicate_chain_reaches links 1 3 ≡ found
unfolding duplicate_chain_reaches
walk_test = refl

links-IsSingle : IsSingle links
unfolding count_rows
links-IsSingle a = ground arith

duplicate_chain_reaches_sound_example :
    Verdict links links-IsSingle 1 3 (duplicate_chain_reaches links 1 3)
duplicate_chain_reaches_sound_example = duplicate_chain_reaches_sound links links-IsSingle 1 3

-- Resolved, and sent back by a provider without being reopened.
abbrev resolved_bug : Bug
resolved_bug = record first_bug { status = BugStatus.resolved; resolved_at = some 3 }

apply_timestamp_side_effects_iff_example :
    IsTimed (
      apply_timestamp_side_effects 7
        (record resolved_bug { status = BugStatus.in_progress })
        BugStatus.in_progress)
    ↔ (false ≡ true)
unfolding quorfix.Bugs.Workflow.is_open
apply_timestamp_side_effects_iff_example =
    apply_timestamp_side_effects_iff 7 resolved_bug BugStatus.in_progress
      (record { resolved_exactly = refl; closed_exactly = refl })

abbrev registry : Registry ℕ
registry = (codes "a", 1) ∷ []

register-Registered_example : Registered (codes "a") 2 registry (register (codes "a") 2 registry)
register-Registered_example = register-Registered (codes "a") 2 registry
