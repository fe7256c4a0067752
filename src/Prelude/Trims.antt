-- ===== src/Prelude/Trims.antt =====
-- What `strip` leaves as it is, and the text of a number.
use Prim.Native.Nat.{ℕ, zero, suc, ◌+◌, ◌/◌, ◌%◌}
use mathlib.Core.Path.{◌≡◌, refl, ap, ◌∙◌}
use mathlib.Core.Logic.{inl, inr}
use mathlib.Core.Bool.{Bool, true, not, ◌&&◌}
use mathlib.Core.List.{List, [], ◌∷◌, reverse, reverse-cons, reverse-reverse}
use native.Mathlib.Omega.{arith}
use quorfix.Prelude.Tests.{ltb, leb, Bool-cases}
use quorfix.Prelude.Lists.{all, all-append, length, keep_if}
use quorfix.Prelude.Texts.{Text, lstrip, strip_by, strip, is_space, digits, decimal}

pub all-reverse {ℓ} : {A : Type ℓ} (p : A → Bool) (xs : List A) → all p (reverse xs) ≡ all p xs
all-reverse p [] = refl
all-reverse p (x ∷ xs) =
    ap (all p) (reverse-cons x xs)
    ∙ all-append p (reverse xs) (x ∷ [])
    ∙ ground (arith, all-reverse p xs)

lstrip_plain : (p : ℕ → Bool) (s : Text) → all (λ c. not (p c)) s ≡ true → lstrip p s ≡ s
lstrip_plain p [] h = refl
lstrip_plain p (c ∷ s) h = ground arith

-- A text without spaces has none to strip.
pub strip_plain : (s : Text) → all (λ c. not (is_space c)) s ≡ true → strip s ≡ s
unfolding strip strip_by
strip_plain s h =
    ap (λ t. reverse (lstrip is_space (reverse t))) (lstrip_plain is_space s h)
    ∙ ap reverse (lstrip_plain is_space (reverse s) (all-reverse (λ c. not (is_space c)) s ∙ h))
    ∙ reverse-reverse s

abbrev pub is_digit : ℕ → Bool
is_digit c = leb 48 c && ltb c 58

digits-all : (f n : ℕ) (acc : Text) → all is_digit acc ≡ true → all is_digit (digits f n acc) ≡ true
unfolding digits
digits-all zero n acc h = h
digits-all (suc f) n acc h = elim (Bool-cases (ltb n 10)) [
  | inl e ↦ rw e (ground arith)
  | inr e ↦ rw e (digits-all f (n / 10) ((48 + n % 10) ∷ acc) (ground arith))
]

pub decimal-all : (n : ℕ) → all is_digit (decimal n) ≡ true
unfolding decimal
decimal-all n = digits-all (suc n) n [] refl

pub length-keep_if {ℓ} :
    {A : Type ℓ} (p : A → Bool) (xs : List A) → leb (length (keep_if p xs)) (length xs) ≡ true
length-keep_if p [] = refl
length-keep_if p (x ∷ xs) = ground (arith, length-keep_if p xs)

is_digit-plain : (c : ℕ) → is_digit c ≡ true → not (is_space c) ≡ true
unfolding is_space
is_digit-plain c h = ground arith

all_digits-plain : (s : Text) → all is_digit s ≡ true → all (λ c. not (is_space c)) s ≡ true
all_digits-plain [] h = refl
all_digits-plain (c ∷ s) h = ground (arith, is_digit-plain c, all_digits-plain s)

pub strip_digits : (s : Text) → all is_digit s ≡ true → strip s ≡ s
strip_digits s h = strip_plain s (all_digits-plain s h)

pub strip_negative : (s : Text) → all is_digit s ≡ true → strip (45 ∷ s) ≡ 45 ∷ s
unfolding is_space
strip_negative s h = strip_plain (45 ∷ s) (all_digits-plain s h)
