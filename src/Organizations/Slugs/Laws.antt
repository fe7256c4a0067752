-- ===== src/Organizations/Slugs/Laws.antt =====
-- The loop ends, with a slug that nobody has.
use quorfix.Prelude.{
  ℕ, zero, suc, ◌≤◌, ◌≡◌, ◌≢◌, refl, ap, sym, ◌∙◌, Bool, true, false, ◌||◌, Option, none, some,
  List, [], ◌∷◌, ◌++◌, Text, text_eq, text_eq_iff, text_in, decimal, length, arith, Bool-cases, inl,
  inr, if◌then◌else◌, codes,
}
use quorfix.Table.{Table}
use quorfix.Models.{Organization}
use quorfix.Core.Environ.{int_digits}
use quorfix.Core.Environ.Laws.{int_digits-decimal}
use quorfix.Organizations.Slugs.{slugs_of, or_organization, with_suffix, next_free, unique_slug}

some-injective : {A : Type 0} {a b : A} → some a ≡ some b → a ≡ b
some-injective h = cc h

-- The numbers are read back from their texts, so no two texts are the same.
decimal-injective : (m n : ℕ) → decimal m ≡ decimal n → m ≡ n
decimal-injective m n same = some-injective (
    sym (int_digits-decimal (λ c. none) m)
    ∙ ap (int_digits (λ c. none) 0 false) same
    ∙ int_digits-decimal (λ c. none) n)

append-cancel : (s t u : Text) → s ++ t ≡ s ++ u → t ≡ u
append-cancel [] t u h = h
append-cancel (c ∷ s) t u h = append-cancel s t u (cc h)

with_suffix-injective : (base : Text) (m n : ℕ) → with_suffix base m ≡ with_suffix base n → m ≡ n
unfolding with_suffix
with_suffix-injective base m n h =
    decimal-injective m n (append-cancel (codes "-") _ _ (append-cancel base _ _ h))

-- The list without its first copy of a text.
abbrev drop_text : Text → List Text → List Text
drop_text s [] = []
drop_text s (t ∷ ts) = let rest = drop_text s ts in if text_eq s t then ts else t ∷ rest

length-drop_text :
    (s : Text) (ts : List Text) → text_in s ts ≡ true → length ts ≡ suc (length (drop_text s ts))
length-drop_text s [] h = cc h
length-drop_text s (t ∷ ts) h = by_test (text_eq s t) refl (length-drop_text s ts)
  where
    by_test :
        (b : Bool)
        → text_eq s t ≡ b
        → (text_in s ts ≡ true → length ts ≡ suc (length (drop_text s ts)))
        → suc (length ts) ≡ suc (length (if b then ts else t ∷ drop_text s ts))
    by_test true e k = refl
    by_test false e k = ap suc (k (ground (arith, e, h)))

in-drop_text :
    (s u : Text) (ts : List Text)
    → text_eq u s ≡ false
    → text_in u ts ≡ true
    → text_in u (drop_text s ts) ≡ true
in-drop_text s u [] apart h = h
in-drop_text s u (t ∷ ts) apart h = by_test (text_eq s t) refl (in-drop_text s u ts apart)
  where
    other : text_eq s t ≡ true → text_eq u t ≡ false
    other e = ap (text_eq u) (sym ((text_eq_iff s t).0 e)) ∙ apart

    by_head :
        (b : Bool)
        → (b || text_in u ts) ≡ true
        → (text_in u ts ≡ true → text_in u (drop_text s ts) ≡ true)
        → (b || text_in u (drop_text s ts)) ≡ true
    by_head true g k = refl
    by_head false g k = k g

    by_test :
        (b : Bool)
        → text_eq s t ≡ b
        → (text_in u ts ≡ true → text_in u (drop_text s ts) ≡ true)
        → text_in u (if b then ts else t ∷ drop_text s ts) ≡ true
    by_test true e k = ground (arith, other e, h)
    by_test false e k = by_head (text_eq u t) h k

-- A search that fails has found every candidate taken, so it fails without one of the texts too.
next_free-drop_text :
    (fuel : ℕ) (base s : Text) (taken : List Text) (n : ℕ)
    → ((m : ℕ) → n ≤ m → text_eq (with_suffix base m) s ≡ false)
    → next_free fuel base taken n ≡ none
    → next_free fuel base (drop_text s taken) n ≡ none
unfolding next_free
next_free-drop_text zero base s taken n apart h = refl
next_free-drop_text (suc fuel) base s taken n apart h =
    by_test (text_in (with_suffix base n) taken) refl
      (next_free-drop_text fuel base s taken (suc n) (λ m later. apart m (omega (arith, later)))) h
  where
    by_test :
        (b : Bool)
        → text_in (with_suffix base n) taken ≡ b
        → (next_free fuel base taken (suc n) ≡ none
            → next_free fuel base (drop_text s taken) (suc n) ≡ none)
        → (if b then next_free fuel base taken (suc n) else some (with_suffix base n)) ≡ none
        → (if text_in (with_suffix base n) (drop_text s taken)
            then next_free fuel base (drop_text s taken) (suc n)
            else some (with_suffix base n))
          ≡ none
    by_test true e k g =
        rw (in-drop_text s (with_suffix base n) taken (apart n (omega arith)) e) (k g)
    by_test false e k g = absurd (cc g)

suffix-apart :
    (base : Text) (m n : ℕ) → m ≢ n → text_eq (with_suffix base m) (with_suffix base n) ≡ false
suffix-apart base m n apart =
    elim (Bool-cases (text_eq (with_suffix base m) (with_suffix base n))) [
      | inl e ↦ absurd (
          apart (
            with_suffix-injective base m n
              ((text_eq_iff (with_suffix base m) (with_suffix base n)).0 e)))
      | inr e ↦ e
    ]

-- As many failed rounds need as many taken slugs.
next_free-fails :
    (fuel : ℕ) (base : Text) (taken : List Text) (n : ℕ)
    → next_free fuel base taken n ≡ none
    → fuel ≤ length taken
unfolding next_free
next_free-fails zero base taken n h = omega arith
next_free-fails (suc fuel) base taken n h =
    by_test (text_in (with_suffix base n) taken) refl
      (next_free-fails fuel base (drop_text (with_suffix base n) taken) (suc n)) h
  where
    by_test :
        (b : Bool)
        → text_in (with_suffix base n) taken ≡ b
        → (next_free fuel base (drop_text (with_suffix base n) taken) (suc n) ≡ none
            → fuel ≤ length (drop_text (with_suffix base n) taken))
        → (if b then next_free fuel base taken (suc n) else some (with_suffix base n)) ≡ none
        → suc fuel ≤ length taken
    by_test true e k g = omega (
      arith,
      length-drop_text (with_suffix base n) taken e,
      k (
          next_free-drop_text fuel base (with_suffix base n) taken (suc n)
            (λ m later. suffix-apart base m n (λ same. omega (arith, later, same))) g),
    )
    by_test false e k g = absurd (cc g)

next_free-free :
    (fuel : ℕ) (base : Text) (taken : List Text) (n : ℕ) (slug : Text)
    → next_free fuel base taken n ≡ some slug
    → text_in slug taken ≡ false
unfolding next_free
next_free-free zero base taken n slug h = absurd (cc h)
next_free-free (suc fuel) base taken n slug h =
    by_test (text_in (with_suffix base n) taken) refl (next_free-free fuel base taken (suc n) slug)
      h
  where
    by_test :
        (b : Bool)
        → text_in (with_suffix base n) taken ≡ b
        → (next_free fuel base taken (suc n) ≡ some slug → text_in slug taken ≡ false)
        → (if b then next_free fuel base taken (suc n) else some (with_suffix base n)) ≡ some slug
        → text_in slug taken ≡ false
    by_test true e k g = k g
    by_test false e k g = ap (λ t. text_in t taken) (sym (some-injective g)) ∙ e

-- The search for a slug ends, for any name and any organizations, and the slug that it returns is
-- that of none of them.
pub unique_slug-free :
    (slugify : Text → Text) (name : Text) (organizations : Table Organization)
    → (slug : Text) × (unique_slug slugify name organizations ≡ some slug)
      × (text_in slug (slugs_of organizations) ≡ false)
unfolding unique_slug
unique_slug-free slugify name organizations = by_base (text_in base taken) refl
  where
    base : Text
    base = or_organization (slugify name)

    taken : List Text
    taken = slugs_of organizations

    by_search :
        (o : Option Text)
        → next_free (suc (length taken)) base taken 2 ≡ o
        → (slug : Text) × (o ≡ some slug) × (text_in slug taken ≡ false)
    by_search none e = absurd (omega (arith, next_free-fails (suc (length taken)) base taken 2 e))
    by_search (some slug) e = (slug, refl, next_free-free (suc (length taken)) base taken 2 slug e)

    by_base :
        (b : Bool)
        → text_in base taken ≡ b
        → (slug : Text) × ((if b then next_free (suc (length taken)) base taken 2 else some base)
            ≡ some slug)
          × (text_in slug taken ≡ false)
    by_base true e = by_search (next_free (suc (length taken)) base taken 2) refl
    by_base false e = (base, refl, e)
