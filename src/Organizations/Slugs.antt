-- ===== src/Organizations/Slugs.antt =====
-- `_unique_slug` of backend/apps/organizations/services.py. `slugify` is Django's, so it comes in
-- as an argument. The loop runs on fuel: one round more than there are organizations is enough.
pub mod Laws
use quorfix.Prelude.{
  ℕ, zero, suc, Option, none, some, List, [], ◌∷◌, ◌++◌, Text, codes, text_in, decimal, length,
  if◌then◌else◌,
}
use quorfix.Table.{Table}
use quorfix.Models.{Organization}

abbrev pub slugs_of : Table Organization → List Text
slugs_of [] = []
slugs_of ((k, o) ∷ organizations) = o.slug ∷ slugs_of organizations

-- `slugify(name) or "organization"`
abbrev pub or_organization : Text → Text
or_organization [] = codes "organization"
or_organization (c ∷ s) = c ∷ s

-- `f"{base}-{suffix}"`
unfoldable pub with_suffix : Text → ℕ → Text
unfolding decimal
with_suffix base suffix = base ++ (codes "-" ++ decimal suffix)

-- The rounds of the loop, from a suffix on.
unfoldable pub next_free : ℕ → Text → List Text → ℕ → Option Text
unfolding with_suffix
next_free zero base taken suffix = none
next_free (suc fuel) base taken suffix =
    let rest = next_free fuel base taken (suc suffix) in
    if text_in (with_suffix base suffix) taken then rest else some (with_suffix base suffix)

abbrev pub free_from : Text → List Text → Option Text
free_from base taken =
    if text_in base taken then next_free (suc (length taken)) base taken 2 else some base

unfoldable pub unique_slug : (Text → Text) → Text → Table Organization → Option Text
unfolding next_free
unique_slug slugify name organizations =
    free_from (or_organization (slugify name)) (slugs_of organizations)
