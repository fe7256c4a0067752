-- ===== src/Bugs/Services/Tags.antt =====
-- `add_tag`, `remove_tag`, `watch_bug` and `unwatch_bug`.
use quorfix.Prelude.{
  ℕ, ◌+◌, Bool, true, false, not, Option, none, some, ◌&&◌, ◌||◌, [], Text, strip, text_eq, length,
  ltb, if◌then◌else◌, ◌==◌,
}
use quorfix.Exec.{pure, raise_if, gets, modify, atomic, ◌>>=◌, ◌>>◌}
use quorfix.Env.{Env}
use quorfix.Table.{lookup, first, insert}
use quorfix.Links.{linked, add_link, remove_link}
use quorfix.Activities.{record_bug_activity}
use quorfix.Models.{Bug, Membership, Tag, ActivityVerb}
use quorfix.Bugs.Policies.{can_manage_tags}
use quorfix.Bugs.Monad.{
  Action, permission_denied, invalid_tag_name, data_error, lock_bug, check_version, check_mutable,
  save_bug,
}
use quorfix.Bugs.Services.Transition.{activity_of}

abbrev pub max_tag_name_length : ℕ
max_tag_name_length = 50

unfoldable pub normalize_tag_name : Text → Text
unfolding strip
normalize_tag_name raw = strip raw

-- `not normalized or len(normalized) > MAX_TAG_NAME_LENGTH`
unfoldable pub is_invalid_tag_name : Text → Bool
is_invalid_tag_name normalized =
    length normalized == 0 || ltb max_tag_name_length (length normalized)

-- The columns that the `get_or_create` of a tag looks for, which are also those of
-- `unique_tag_name_per_org_ci`.
abbrev pub same_tag : ℕ → Text → ℕ → Tag → Bool
same_tag organization name_key _ t =
    t.organization == organization && text_eq t.name_normalized name_key

abbrev pub tag_or_new : ℕ → Tag → Option (ℕ × Tag) → Action (ℕ × Tag)
tag_or_new pk tag (some found) = pure found
tag_or_new pk tag none = do
  raise_if (ltb max_tag_name_length (length tag.name_normalized)) data_error
  modify (λ db. record db { tags = insert pk tag db.tags })
  pure (pk, tag)

unfoldable pub get_or_create_tag : ℕ → Tag → Action (ℕ × Tag)
unfolding first insert
get_or_create_tag pk tag = do
  found ← gets (λ db. first (same_tag tag.organization tag.name_normalized) db.tags)
  tag_or_new pk tag found

-- The end of `add_tag`: nothing for a tag that the bug has.
abbrev pub attach_tag : Env → ℕ → Bug → Option ℕ → ℕ × Tag → Bool → Action Bug
attach_tag env pk bug actor tag true = pure bug
attach_tag env pk bug actor tag false = do
  modify (λ db. record db { bug_tags = add_link pk tag.0 db.bug_tags })
  let saved = record bug { version = bug.version + 1 }
  save_bug pk saved
  record_bug_activity data_error (env.uuid 1)
      (activity_of env pk saved actor ActivityVerb.tag_added [] tag.1.name)
  pure saved

unfoldable pub add_tag : Env → ℕ → Option ℕ → Option Membership → Text → ℕ → Action Bug
unfolding is_invalid_tag_name lock_bug check_version check_mutable can_manage_tags get_or_create_tag
    linked add_link save_bug record_bug_activity normalize_tag_name
add_tag env pk actor membership name expected = do
  let normalized = normalize_tag_name name
  raise_if (is_invalid_tag_name normalized) invalid_tag_name
  atomic (do
    locked ← lock_bug pk
    check_version locked.bug expected
    check_mutable locked.bug locked.project
    raise_if (not (can_manage_tags locked.bug membership)) permission_denied
    tag ← get_or_create_tag (env.uuid 0) (record {
      organization = locked.bug.organization;
      name = normalized;
      name_normalized = env.lower normalized;
    })
    tagged ← gets (λ db. linked pk tag.0 db.bug_tags)
    attach_tag env pk locked.bug actor tag tagged)

abbrev pub tag_in_organization : ℕ → Option Tag → Option Tag
tag_in_organization organization none = none
tag_in_organization organization (some t) = if t.organization == organization then some t else none

-- The end of `remove_tag`: nothing for a tag that the bug has not.
abbrev pub detach_tag : Env → ℕ → Bug → Option ℕ → ℕ → Option Tag → Bool → Action Bug
detach_tag env pk bug actor tag_pk (some tag) true = do
  modify (λ db. record db { bug_tags = remove_link pk tag_pk db.bug_tags })
  let saved = record bug { version = bug.version + 1 }
  save_bug pk saved
  record_bug_activity data_error (env.uuid 0)
      (activity_of env pk saved actor ActivityVerb.tag_removed tag.name [])
  pure saved
detach_tag env pk bug actor tag_pk _ _ = pure bug

unfoldable pub remove_tag : Env → ℕ → Option ℕ → Option Membership → ℕ → ℕ → Action Bug
unfolding lookup lock_bug check_version check_mutable can_manage_tags linked remove_link save_bug
    record_bug_activity
remove_tag env pk actor membership tag_pk expected = atomic (do
  locked ← lock_bug pk
  check_version locked.bug expected
  check_mutable locked.bug locked.project
  raise_if (not (can_manage_tags locked.bug membership)) permission_denied
  tag ← gets (λ db. tag_in_organization locked.bug.organization (lookup tag_pk db.tags))
  tagged ← gets (λ db. linked pk tag_pk db.bug_tags)
  detach_tag env pk locked.bug actor tag_pk tag tagged)

unfoldable pub watch_bug : ℕ → ℕ → Action Unit
unfolding add_link
watch_bug pk user = modify (λ db. record db { bug_watchers = add_link pk user db.bug_watchers })

unfoldable pub unwatch_bug : ℕ → ℕ → Action Unit
unfolding remove_link
unwatch_bug pk user =
    modify (λ db. record db { bug_watchers = remove_link pk user db.bug_watchers })
