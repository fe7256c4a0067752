-- ===== src/Core/TarSafety/Walk.antt =====
-- The lexical test of a member's name against a walk over its components.
use quorfix.Prelude.{
  ℕ, zero, suc, ◌≡◌, refl, ap, ◌∙◌, Bool, true, false, not, ◌&&◌, ◌||◌, Option, none, some, List,
  [], ◌∷◌, ◌++◌, reverse, Text, codes, text_eq, has_text, starts_with, length, all, arith, split_on,
  join, lacks, all_lack-split_on, if◌then◌else◌,
}
use quorfix.Prelude.Trims.{all-reverse}
use mathlib.Core.List.{reverse_aux}
use quorfix.Core.TarSafety.{
  dot, dotdot, sep, isabs, normal_step, normal_comps, or_dot, normpath, is_within_root,
}

-- How deep below the root one component leads, and nothing where it leads above the root.
abbrev pub deeper : ℕ → Text → Option ℕ
deeper zero comp =
    if text_eq comp [] || text_eq comp dot
    then some 0
    else if text_eq comp dotdot
    then none
    else some 1
deeper (suc d) comp =
    if text_eq comp [] || text_eq comp dot
    then some (suc d)
    else if text_eq comp dotdot
    then some d
    else some (suc (suc d))

-- A walk along the components, from so deep below the root, never leaves the root.
abbrev pub never_leaves : ℕ → List Text → Bool
never_leaves d [] = true
never_leaves d (comp ∷ comps) = elim (deeper d comp) [
  | none ↦ false
  | some e ↦ never_leaves e comps
]

abbrev bottom_dotdot : List Text → Bool
bottom_dotdot [] = false
bottom_dotdot (c ∷ []) = text_eq c dotdot
bottom_dotdot (c ∷ d ∷ kept) = bottom_dotdot (d ∷ kept)

abbrev leads_dotdot : List Text → Bool
leads_dotdot [] = false
leads_dotdot (c ∷ comps) = text_eq c dotdot

abbrev below : Text → Bool
below c = not (text_eq c dotdot)

below_bottom : (kept : List Text) → all below kept ≡ true → bottom_dotdot kept ≡ false
below_bottom [] h = refl
below_bottom (c ∷ []) h = ground arith
below_bottom (c ∷ d ∷ kept) h = below_bottom (d ∷ kept) (ground arith)

-- What starts above the root stays there.
bottom-step :
    (comp : Text) (kept : List Text)
    → bottom_dotdot kept ≡ true
    → bottom_dotdot (normal_step false comp kept) ≡ true
bottom-step comp [] h = cc h
bottom-step comp (c ∷ []) h = ground arith
bottom-step comp (c ∷ d ∷ kept) h = ground arith

bottom-comps :
    (comps kept : List Text)
    → bottom_dotdot kept ≡ true
    → bottom_dotdot (normal_comps false comps kept) ≡ true
bottom-comps [] kept h = h
bottom-comps (comp ∷ comps) kept h =
    bottom-comps comps (normal_step false comp kept) (bottom-step comp kept h)

-- One step of the walk, beside one round of `normpath`.
abbrev Steps : List Text → Option ℕ → Type 0
Steps kept none = bottom_dotdot kept ≡ true
Steps kept (some d) = (all below kept ≡ true) × (length kept ≡ d)

step-Steps :
    (comp : Text) (kept : List Text)
    → all below kept ≡ true
    → Steps (normal_step false comp kept) (deeper (length kept) comp)
step-Steps comp [] h = by_tests (text_eq comp [] || text_eq comp dot) (text_eq comp dotdot) refl
  where
    by_tests :
        (a b : Bool)
        → text_eq comp dotdot ≡ b
        → Steps
            (if a then [] else if not b || true then comp ∷ [] else [])
            (if a then some 0 else if b then none else some 1)
    by_tests true b e = (refl, refl)
    by_tests false true e = e
    by_tests false false e = (ground arith, refl)
step-Steps comp (c ∷ kept) h =
    by_tests (text_eq comp [] || text_eq comp dot) (text_eq comp dotdot) (text_eq c dotdot) refl
      refl
  where
    by_tests :
        (a b d : Bool)
        → text_eq comp dotdot ≡ b
        → text_eq c dotdot ≡ d
        → Steps (if a then c ∷ kept else if not b || d then comp ∷ c ∷ kept else kept) (
            if a
            then some (suc (length kept))
            else if b
            then some (length kept)
            else some (suc (suc (length kept))))
    by_tests true b d e f = (h, refl)
    by_tests false true true e f = absurd (ground (arith, f, h))
    by_tests false true false e f = (ground (arith, h), refl)
    by_tests false false d e f = (ground (arith, e, h), refl)

walk_on :
    (comps kept : List Text) (o : Option ℕ)
    → Steps kept o
    → (all below kept ≡ true
        → bottom_dotdot (normal_comps false comps kept) ≡ not (never_leaves (length kept) comps))
    → bottom_dotdot (normal_comps false comps kept)
      ≡ not (elim o [ none ↦ false | some e ↦ never_leaves e comps ])
walk_on comps kept none up rest = bottom-comps comps kept up
walk_on comps kept (some d) (down, deep) rest =
    rest down ∙ ap (λ e. not (never_leaves e comps)) deep

comps-walk :
    (comps kept : List Text)
    → all below kept ≡ true
    → bottom_dotdot (normal_comps false comps kept) ≡ not (never_leaves (length kept) comps)
comps-walk [] kept h = below_bottom kept h
comps-walk (comp ∷ comps) kept h =
    walk_on comps (normal_step false comp kept) (deeper (length kept) comp) (step-Steps comp kept h)
      (comps-walk comps (normal_step false comp kept))

-- A component that is kept.
abbrev is_comp : Text → Bool
is_comp c = has_text c && lacks sep c

normal_step-is_comp :
    (rooted : Bool) (comp : Text) (kept : List Text)
    → lacks sep comp ≡ true
    → all is_comp kept ≡ true
    → all is_comp (normal_step rooted comp kept) ≡ true
normal_step-is_comp rooted [] [] l h = refl
normal_step-is_comp rooted (x ∷ comp) [] l h = ground arith
normal_step-is_comp rooted [] (c ∷ kept) l h = h
normal_step-is_comp rooted (x ∷ comp) (c ∷ kept) l h = ground arith

normal_comps-is_comp :
    (rooted : Bool) (comps kept : List Text)
    → all (lacks sep) comps ≡ true
    → all is_comp kept ≡ true
    → all is_comp (normal_comps rooted comps kept) ≡ true
normal_comps-is_comp rooted [] kept l h = h
normal_comps-is_comp rooted (comp ∷ comps) kept l h =
    normal_comps-is_comp rooted comps (normal_step rooted comp kept) (ground arith)
      (normal_step-is_comp rooted comp kept (ground arith) h)

leads-reverse_aux :
    (c : Text) (kept above : List Text)
    → leads_dotdot (reverse_aux kept (c ∷ above)) ≡ bottom_dotdot (c ∷ kept)
leads-reverse_aux c [] above = refl
leads-reverse_aux c (d ∷ kept) above = leads-reverse_aux d kept (c ∷ above)

leads-reverse : (kept : List Text) → leads_dotdot (reverse kept) ≡ bottom_dotdot kept
leads-reverse [] = refl
leads-reverse (c ∷ kept) = leads-reverse_aux c kept []

-- The test of the normalized text of a relative name.
abbrev within : Text → Bool
within normalized =
    if text_eq normalized dot || text_eq normalized []
    then true
    else if text_eq normalized dotdot || starts_with normalized (codes "../")
    then false
    else not (isabs normalized)

within-join :
    (comps : List Text)
    → all is_comp comps ≡ true
    → within (or_dot (join sep comps)) ≡ not (leads_dotdot comps)
within-join [] h = refl
within-join ([] ∷ comps) h = absurd (ground arith)
within-join ((x ∷ []) ∷ []) h = ground arith
within-join ((x ∷ y ∷ []) ∷ []) h = ground arith
within-join ((x ∷ y ∷ z ∷ c) ∷ []) h = ground arith
within-join ((x ∷ []) ∷ p ∷ comps) h = ground arith
within-join ((x ∷ y ∷ []) ∷ p ∷ comps) h = ground arith
within-join ((x ∷ y ∷ z ∷ c) ∷ p ∷ comps) h = ground arith

within-rooted :
    (double triple : Bool) (t : Text)
    → within (or_dot ((if double && not triple then codes "//" else codes "/") ++ t)) ≡ false
within-rooted true true t = refl
within-rooted true false t = refl
within-rooted false triple t = refl

-- The test on the normalized name of a member is true exactly for a relative name along whose
-- components a walk from the root never goes above the root.
pub is_within_root_walks :
    (name : Text) → is_within_root name ≡ (not (isabs name) && never_leaves 0 (split_on sep name))
unfolding is_within_root normpath
is_within_root_walks name = by_start (isabs name)
  where
    double : Bool
    double = starts_with name (codes "//")

    triple : Bool
    triple = starts_with name (codes "///")

    kept : Bool → List Text
    kept b = normal_comps b (split_on sep name) []

    by_start :
        (b : Bool)
        → within (
            or_dot (
              (if b then if double && not triple then codes "//" else codes "/" else [])
              ++ join sep (reverse (kept b))))
          ≡ (not b && never_leaves 0 (split_on sep name))
    by_start true = within-rooted double triple _
    by_start false =
        within-join (reverse (kept false)) (
          all-reverse is_comp (kept false)
          ∙ normal_comps-is_comp false (split_on sep name) [] (all_lack-split_on sep name) refl)
        ∙ ap not (leads-reverse (kept false) ∙ comps-walk (split_on sep name) [] refl)
        ∙ ground arith
