-- ===== src/Prelude/Splits.antt =====
-- `str.split` on one character and `str.join`, with what they undo of each other.
use Prim.Native.Nat.{ℕ}
use mathlib.Core.Path.{◌≡◌, refl, ap, ◌∙◌}
use mathlib.Core.Bool.{Bool, true, not}
use mathlib.Core.List.{List, [], ◌∷◌, ◌++◌}
use native.Mathlib.Omega.{arith}
use quorfix.Prelude.Tests.{◌==◌, if◌then◌else◌}
use quorfix.Prelude.Lists.{all}
use quorfix.Prelude.Texts.{Text}

-- The character in front of the first part.
abbrev pub onto_first : ℕ → List Text → List Text
onto_first c [] = (c ∷ []) ∷ []
onto_first c (part ∷ parts) = (c ∷ part) ∷ parts

-- `s.split(sep)`
abbrev pub split_on : ℕ → Text → List Text
split_on sep [] = [] ∷ []
split_on sep (c ∷ s) =
    let rest = split_on sep s in if c == sep then [] ∷ rest else onto_first c rest

-- `sep.join(parts)`
abbrev pub join : ℕ → List Text → Text
join sep [] = []
join sep (part ∷ []) = part
join sep (part ∷ p ∷ parts) = part ++ (sep ∷ join sep (p ∷ parts))

-- No character of the text is the separator.
abbrev pub lacks : ℕ → Text → Bool
lacks sep s = all (λ c. not (c == sep)) s

pub split_on-part : (sep : ℕ) (s : Text) → lacks sep s ≡ true → split_on sep s ≡ s ∷ []
split_on-part sep [] h = refl
split_on-part sep (c ∷ s) h = ground (arith, split_on-part sep s)

pub split_on-append :
    (sep : ℕ) (s t : Text) → lacks sep s ≡ true → split_on sep (s ++ (sep ∷ t)) ≡ s ∷ split_on sep t
split_on-append sep [] t h = ground arith
split_on-append sep (c ∷ s) t h = ground (arith, split_on-append sep s t)

pub all_lack-split_on : (sep : ℕ) (s : Text) → all (lacks sep) (split_on sep s) ≡ true
all_lack-split_on sep [] = refl
all_lack-split_on sep (c ∷ s) = by_parts (split_on sep s) (all_lack-split_on sep s)
  where
    by_parts :
        (parts : List Text)
        → all (lacks sep) parts ≡ true
        → all (lacks sep) (if c == sep then [] ∷ parts else onto_first c parts) ≡ true
    by_parts [] h = ground arith
    by_parts (part ∷ parts) h = ground arith

-- Parts that lack the separator are what the joined text splits into.
pub split_on-join :
    (sep : ℕ) (part : Text) (parts : List Text)
    → all (lacks sep) (part ∷ parts) ≡ true
    → split_on sep (join sep (part ∷ parts)) ≡ part ∷ parts
split_on-join sep part [] h = split_on-part sep part (ground arith)
split_on-join sep part (p ∷ parts) h =
    split_on-append sep part (join sep (p ∷ parts)) (ground arith)
    ∙ ap (λ rest. part ∷ rest) (split_on-join sep p parts (ground arith))
