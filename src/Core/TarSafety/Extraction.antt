-- ===== src/Core/TarSafety/Extraction.antt =====
-- The archive as a whole: every member is checked before the first one is written.
use quorfix.Prelude.{
  ℕ, ◌≡◌, refl, ap, subst, sym, Bool, true, false, not, ◌&&◌, Option, none, some, List, [], ◌∷◌,
  Text, length, all, contains, arith, ◌⊎◌, inl, inr, split_on,
}
use quorfix.Exec.{Exec, Result, ok, err, pure, raise_if, fetch, continue, found_or, ◌>>=◌, ◌>>◌}
use quorfix.Core.TarSafety.{
  sep, isabs, TarInfo, TarError, is_link, safe_types, has_no_name, name_of, empty_name,
  absolute_path, escapes_root, link_member, odd_type, tar_error, validate_member, validate_members,
  validate_archive, Archives, safe_extract_all,
}
use quorfix.Core.TarSafety.Walk.{never_leaves, is_within_root_walks}

-- A member with a name, which is relative and never leads above the root, and which is a regular
-- file or a directory.
abbrev pub is_safe : TarInfo → Bool
is_safe m =
    not (has_no_name m.name)
    && not (isabs (name_of m))
    && never_leaves 0 (split_on sep (name_of m))
    && contains safe_types m.member_type

-- What a check of a list of members does: it returns where the test holds and raises otherwise,
-- and it changes nothing.
abbrev pub Decides : {S A : Type 0} → Bool → A → S → Result TarError A × S → Type 0
Decides b a s (ok a', s') = (b ≡ true) × (a' ≡ a) × (s' ≡ s)
Decides b a s (err e, s') = (b ≡ false) × (s' ≡ s)

-- No type is both a link and safe.
link-is_safe : (m : TarInfo) → (contains safe_types m.member_type && is_link m) ≡ false
link-is_safe m = ground arith

module _ {S : Type 0} where
  checks-Decides :
      (unnamed absolute walk link regular : Bool) (s : S)
      → (regular && link) ≡ false
      → Decides (not unnamed && not absolute && walk && regular) tt s (
          (do
            raise_if unnamed empty_name
            raise_if absolute absolute_path
            raise_if (not (not absolute && walk)) escapes_root
            raise_if link link_member
            raise_if (not regular) odd_type)
            s)
  unfolding ◌>>=◌ raise_if
  checks-Decides true absolute walk link regular s h = (refl, refl)
  checks-Decides false true walk link regular s h = (refl, refl)
  checks-Decides false false false link regular s h = (refl, refl)
  checks-Decides false false true false false s h = (refl, refl)
  checks-Decides false false true false true s h = (refl, refl, refl)
  checks-Decides false false true true false s h = (refl, refl)
  checks-Decides false false true true true s h = absurd (ground (arith, h))

  validate_member-Decides : (m : TarInfo) (s : S) → Decides (is_safe m) tt s (validate_member m s)
  unfolding validate_member
  validate_member-Decides m s = rw (is_within_root_walks (name_of m)) (
      checks-Decides (has_no_name m.name) (isabs (name_of m))
        (never_leaves 0 (split_on sep (name_of m))) (is_link m) (contains safe_types m.member_type)
        s (link-is_safe m))

  then-Decides :
      (b c : Bool) (s : S) (r : Result TarError Unit × S) (k : Exec TarError S Unit)
      → Decides b tt s r
      → Decides c tt s (k s)
      → Decides (b && c) tt s (continue r.0 (λ _. k) r.1)
  then-Decides b c s (ok a, s') k (safe, is, same) h = rw (safe, same) h
  then-Decides b c s (err e, s') k (unsafe, same) h = (rw unsafe refl, same)

  validate_members-Decides :
      (ms : List TarInfo) (s : S) → Decides (all is_safe ms) tt s (validate_members ms s)
  unfolding validate_members ◌>>=◌
  validate_members-Decides [] s = (refl, refl, refl)
  validate_members-Decides (m ∷ ms) s =
      then-Decides (is_safe m) (all is_safe ms) s (validate_member m s) (validate_members ms)
        (validate_member-Decides m s) (validate_members-Decides ms s)

  -- The check of an archive returns its members where every one has a name that is relative and
  -- never leads above the root and is a regular file or a directory, raises where one is not, and
  -- changes nothing either way.
  pub validate_archive-Decides :
      (ms : List TarInfo) (s : S) → Decides (all is_safe ms) ms s (validate_archive ms s)
  unfolding validate_archive ◌>>=◌
  validate_archive-Decides ms s = by_result (validate_members ms s) (validate_members-Decides ms s)
    where
      by_result :
          (r : Result TarError Unit × S)
          → Decides (all is_safe ms) tt s r
          → Decides (all is_safe ms) ms s (continue r.0 (λ _. pure ms) r.1)
      by_result (ok a, s') (safe, is, same) = (safe, refl, same)
      by_result (err e, s') h = h

module _ {S : Type 0} (archives : Archives S) (archive destination : Text) (s : S) where
  -- The state once the directory is there.
  abbrev prepared : S
  prepared = (archives.makedirs destination s).1

  -- The members extracted are those of the archive, and every one is safe.
  abbrev pub Extracts : List TarInfo → S → Type 0
  Extracts ms s' =
      (archives.getmembers archive prepared ≡ some ms)
      × (all is_safe ms ≡ true)
      × (s' ≡ (archives.extractall destination ms prepared).1)

  abbrev pub Guarded : Result TarError ℕ × S → Type 0
  Guarded (ok n, s') = (ms : List TarInfo) × (n ≡ length ms) × Extracts ms s'
  Guarded (err e, s') = (s' ≡ prepared) ⊎ ((ms : List TarInfo) × Extracts ms s')

  abbrev extract : List TarInfo → Exec TarError S ℕ
  extract ms = archives.extractall destination ms >> pure (length ms)

  extracted-Guarded :
      (ms : List TarInfo) (r : Result TarError Unit × S)
      → archives.getmembers archive prepared ≡ some ms
      → all is_safe ms ≡ true
      → r ≡ archives.extractall destination ms prepared
      → Guarded (continue r.0 (λ _. pure (length ms)) r.1)
  unfolding pure
  extracted-Guarded ms (ok a, s') found good is = (ms, refl, (found, good, ap (λ p. p.1) is))
  extracted-Guarded ms (err e, s') found good is = inr (ms, (found, good, ap (λ p. p.1) is))

  checked-Guarded :
      (ms : List TarInfo) (r : Result TarError (List TarInfo) × S)
      → archives.getmembers archive prepared ≡ some ms
      → Decides (all is_safe ms) ms prepared r
      → Guarded (continue r.0 extract r.1)
  unfolding ◌>>=◌
  checked-Guarded ms (ok ms', s') found (good, is, same) =
      rw (is, same)
        (extracted-Guarded ms (archives.extractall destination ms prepared) found good refl)
  checked-Guarded ms (err e, s') found (bad, same) = inl same

  opened-Guarded :
      (o : Option (List TarInfo))
      → archives.getmembers archive prepared ≡ o
      → Guarded (
          continue
            (found_or prepared tar_error o).0
            (λ ms. validate_archive ms >>= extract)
            (found_or prepared tar_error o).1)
  unfolding ◌>>=◌
  opened-Guarded none found = inl refl
  opened-Guarded (some ms) found =
      checked-Guarded ms (validate_archive ms prepared) found (validate_archive-Decides ms prepared)

  -- Whatever the file system and `tarfile` do: an extraction that returns has handed the members
  -- of the archive to `tarfile`, every one of them safe, and returns their number; one that raises
  -- has handed over nothing beyond making the directory, or safe members only.
  pub safe_extract_all-Guarded : Guarded (safe_extract_all archives archive destination s)
  unfolding safe_extract_all ◌>>=◌
  safe_extract_all-Guarded = by_made (archives.makedirs destination s) refl
    where
      open_all : Exec TarError S ℕ
      open_all =
          fetch (archives.getmembers archive) tar_error >>= λ ms. validate_archive ms >>= extract

      by_made :
          (r : Result TarError Unit × S)
          → archives.makedirs destination s ≡ r
          → Guarded (continue r.0 (λ _. open_all) r.1)
      by_made (ok _, s1) made =
          subst (λ t. Guarded (open_all t)) (ap (λ p. p.1) made)
            (opened-Guarded (archives.getmembers archive prepared) refl)
      by_made (err e, s1) made = inl (sym (ap (λ p. p.1) made))
