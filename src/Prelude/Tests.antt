-- ===== src/Prelude/Tests.antt =====
-- Boolean tests on numbers and the conditional that the models of the Python code branch with.
use Prim.Native.Nat.{ℕ, compare, Ordering}
use mathlib.Core.Path.{◌≡◌, refl}
use mathlib.Core.Logic.{◌↔◌, ◌⊎◌, inl, inr}
use mathlib.Core.Bool.{Bool, true, false, not, ◌&&◌}
use mathlib.Core.Option.{Option, none, some}
use native.Mathlib.Omega.{arith}

abbrev pub ltb : ℕ → ℕ → Bool
ltb a b = elim (compare a b) [ Ordering.lt ↦ true | _ ↦ false ]

abbrev pub leb : ℕ → ℕ → Bool
leb a b = elim (compare a b) [ Ordering.gt ↦ false | _ ↦ true ]

infix 50 ◌==◌
abbrev pub ◌==◌ : ℕ → ℕ → Bool
a == b = elim (compare a b) [ Ordering.eq ↦ true | _ ↦ false ]

infix 1 if◌then◌else◌
abbrev pub if◌then◌else◌ {ℓ} : {A : Type ℓ} → Bool → A → A → A
if true then x else y = x
if false then x else y = y

pub ==_iff : (a b : ℕ) → ((a == b) ≡ true) ↔ (a ≡ b)
==_iff a b = ground arith

pub Bool-cases : (b : Bool) → (b ≡ true) ⊎ (b ≡ false)
Bool-cases true = inl refl
Bool-cases false = inr refl

-- What two refusals that were not made say.
pub both : (a b : Bool) → not a ≡ false → not b ≡ false → (a && b) ≡ true
both true b h g = ground (arith, g)
both false b h g = cc h

pub Option-cases {ℓ} : {A : Type ℓ} (o : Option A) → (o ≡ none) ⊎ ((a : A) × (o ≡ some a))
Option-cases none = inl refl
Option-cases (some a) = inr (a, refl)

-- `x is None` and `x is not None`
abbrev pub is_none {ℓ} : {A : Type ℓ} → Option A → Bool
is_none none = true
is_none (some _) = false

abbrev pub is_some {ℓ} : {A : Type ℓ} → Option A → Bool
is_some none = false
is_some (some _) = true

-- Equality of two nullable keys.
abbrev pub same_key : Option ℕ → Option ℕ → Bool
same_key none none = true
same_key (some a) (some b) = a == b
same_key _ _ = false

pub same_key_iff : (a b : Option ℕ) → (same_key a b ≡ true) ↔ (a ≡ b)
same_key_iff none none = (λ _. refl, λ _. refl)
same_key_iff none (some b) = (λ h. cc, λ h. cc)
same_key_iff (some a) none = (λ h. cc, λ h. cc)
same_key_iff (some a) (some b) = ground arith
