-- ===== src/Registry/Laws.antt =====
-- The registry is a finite map, and a key keeps its first provider until it is unregistered.
use quorfix.Prelude.{
  ◌≡◌, refl, none, some, [], ◌∷◌, ◌++◌, arith, Text, text_eq, text_eq_iff, if◌then◌else◌, inl, inr,
  Option-cases,
}
use quorfix.Exec.{Result, ok, err}
use quorfix.Registry.{
  Registry, RegistryError, already_registered, get, is_registered, register, unregister,
}

module _ {P : Type 0} where
  get-append :
      (r : Registry P) (key j : Text) (p : P)
      → get r key ≡ none
      → get (r ++ (key, p) ∷ []) j ≡ (if text_eq key j then some p else get r j)
  unfolding get
  get-append [] key j p h = refl
  get-append ((k, q) ∷ r) key j p h =
      ground (arith, get-append r key j p, text_eq_iff k key, text_eq_iff k j, text_eq_iff key j)

  get-unregister :
      (r : Registry P) (key j : Text)
      → get (unregister key r) j ≡ (if text_eq key j then none else get r j)
  unfolding get unregister
  get-unregister [] key j = ground arith
  get-unregister ((k, q) ∷ r) key j =
      ground (arith, get-unregister r key j, text_eq_iff k key, text_eq_iff k j, text_eq_iff key j)

  -- What `register` did, by how it ended: it raised over a key that was taken, and the registry is
  -- as it was, or the key was free, and now it alone has a provider that it had not.
  abbrev pub Registered : Text → P → Registry P → Result RegistryError Unit × Registry P → Type 0
  Registered key p r (ok _, r') =
      (get r key ≡ none) × ((j : Text) → get r' j ≡ (if text_eq key j then some p else get r j))
  Registered key p r (err e, r') =
      (e ≡ already_registered key) × (r' ≡ r) × ((q : P) × (get r key ≡ some q))

  -- `register` never replaces a provider: a taken key raises and leaves the registry as it was,
  -- and a free key gets the new provider while every other key reads as before.
  pub register-Registered :
      (key : Text) (p : P) (r : Registry P) → Registered key p r (register key p r)
  unfolding register
  register-Registered key p r = elim (Option-cases (get r key)) [
    | inl free ↦ rw (free, is_registered) (free, λ j. get-append r key j p free)
    | inr (q, taken) ↦ rw (taken, is_registered) (refl, refl, (q, taken))
  ]
