-- ===== src/Registry.antt =====
-- backend/apps/core/registries.py: providers under text keys, a dict in insertion order.
pub mod Laws
use quorfix.Prelude.{
  Bool, Option, none, some, List, [], ◌∷◌, ◌++◌, Text, text_eq, if◌then◌else◌, is_some, map,
}
use quorfix.Exec.{Exec, ok, err}

-- The `ValueError` of a second registration, with its key.
pub data RegistryError : Type 0 where
  already_registered : Text → RegistryError

abbrev pub Registry : Type 0 → Type 0
Registry P = List (Text × P)

module _ {P : Type 0} where
  unfoldable pub get : Registry P → Text → Option P
  get [] key = none
  get ((k, p) ∷ r) key = if text_eq k key then some p else get r key

  unfoldable pub is_registered : Registry P → Text → Bool
  unfolding get
  is_registered r key = is_some (get r key)

  unfoldable pub register : Text → P → Exec RegistryError (Registry P) Unit
  unfolding is_registered
  register key provider r =
      if is_registered r key
      then (err (already_registered key), r)
      else (ok tt, r ++ (key, provider) ∷ [])

  unfoldable pub unregister : Text → Registry P → Registry P
  unregister key [] = []
  unregister key ((k, p) ∷ r) =
      let rest = unregister key r in if text_eq k key then rest else (k, p) ∷ rest

  unfoldable pub keys : Registry P → List Text
  keys [] = []
  keys ((k, p) ∷ r) = k ∷ keys r
