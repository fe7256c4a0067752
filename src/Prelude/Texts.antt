-- ===== src/Prelude/Texts.antt =====
-- Python's `str` as the list of its code points.
use Prim.Native.Char.{code}
use Prim.Native.String.{String}
use mathlib.Core.Path.{◌≡◌, refl}
use mathlib.Core.Logic.{◌↔◌}
use mathlib.Core.Bool.{Bool, true, false, ◌&&◌, ◌||◌}
use mathlib.Core.List.{List, [], ◌∷◌, reverse}
use Prim.Native.Nat.{ℕ, zero, suc, ◌+◌, ◌/◌, ◌%◌}
use native.Mathlib.Omega.{arith}
use quorfix.Prelude.Tests.{◌==◌, ltb, leb, if◌then◌else◌}

abbrev pub Text : Type 0
Text = List ℕ

-- The code points of a literal.
abbrev pub codes : String → Text
codes String.[] = []
codes (String.◌∷◌ c s) = code c ∷ codes s

abbrev pub text_eq : Text → Text → Bool
text_eq [] [] = true
text_eq [] (y ∷ t) = false
text_eq (x ∷ s) [] = false
text_eq (x ∷ s) (y ∷ t) = x == y && text_eq s t

pub text_eq_iff : (s t : Text) → (text_eq s t ≡ true) ↔ (s ≡ t)
text_eq_iff [] [] = (λ _. refl, λ _. refl)
text_eq_iff [] (y ∷ t) = (λ h. cc, λ h. cc)
text_eq_iff (x ∷ s) [] = (λ h. cc, λ h. cc)
text_eq_iff (x ∷ s) (y ∷ t) = ground (arith, text_eq_iff s t)

-- `bool(s)`
abbrev pub has_text : Text → Bool
has_text [] = false
has_text (c ∷ s) = true

-- `s in (t1, t2, ...)`
abbrev pub text_in : Text → List Text → Bool
text_in s [] = false
text_in s (t ∷ ts) = text_eq s t || text_in s ts

-- `str.isspace` of one character.
unfoldable pub is_space : ℕ → Bool
is_space c =
    (leb 9 c && leb c 13)
    || (leb 28 c && leb c 32)
    || c == 133
    || c == 160
    || c == 5760
    || (leb 8192 c && leb c 8202)
    || c == 8232
    || c == 8233
    || c == 8239
    || c == 8287
    || c == 12288

-- `str.lstrip`, `str.rstrip` and `str.strip`, for the characters that `p` selects.
abbrev pub lstrip : (ℕ → Bool) → Text → Text
lstrip p [] = []
lstrip p (c ∷ s) = let rest = lstrip p s in if p c then rest else c ∷ s

unfoldable pub strip_by : (ℕ → Bool) → Text → Text
strip_by p s = reverse (lstrip p (reverse (lstrip p s)))

unfoldable pub strip : Text → Text
unfolding strip_by is_space
strip s = strip_by is_space s

-- `str.startswith`
abbrev pub starts_with : Text → Text → Bool
starts_with s [] = true
starts_with [] (p ∷ ps) = false
starts_with (c ∷ s) (p ∷ ps) = c == p && starts_with s ps

-- `str(n)`: the decimal digits, with fuel above the number.
unfoldable pub digits : ℕ → ℕ → Text → Text
digits zero n acc = acc
digits (suc f) n acc =
    let rest = digits f (n / 10) ((48 + n % 10) ∷ acc) in if ltb n 10 then (48 + n) ∷ acc else rest

unfoldable pub decimal : ℕ → Text
unfolding digits
decimal n = digits (suc n) n []

decimal_test : decimal 1203 ≡ codes "1203"
unfolding decimal
decimal_test = refl

strip_test : strip (codes "  a b ") ≡ codes "a b"
unfolding strip
strip_test = refl
