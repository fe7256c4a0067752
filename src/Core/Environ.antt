-- ===== src/Core/Environ.antt =====
-- backend/apps/core/env.py: the parsers of the environment variables. `os.environ.get` is a
-- function on names; `str.lower` and the decimal digits beyond ASCII that `int` reads come in as
-- arguments.
pub mod Laws
use quorfix.Prelude.{
  ℕ, zero, suc, ◌+◌, ◌-◌, ◌*◌, Bool, true, false, not, Option, none, some, ◌&&◌, List, [], ◌∷◌, map,
  Text, codes, text_eq, text_in, has_text, strip, length, ltb, keep_if, is_some, if◌then◌else◌,
  ◌==◌, split_on,
}
use quorfix.Exec.{Result, ok, err}

pub data EnvError : Type 0 where
  improperly_configured : EnvError

-- Python's `int`, over the native numbers.
pub data ℤ : Type 0 where
  pos : ℕ → ℤ
  negsuc : ℕ → ℤ

abbrev pub Environ : Type 0
Environ = Text → Option Text

abbrev true_values : List Text
true_values = codes "true" ∷ codes "1" ∷ codes "yes" ∷ codes "on" ∷ []

abbrev false_values : List Text
false_values = codes "false" ∷ codes "0" ∷ codes "no" ∷ codes "off" ∷ []

-- `raw.strip() == ""`
unfoldable pub is_blank : Text → Bool
unfolding strip
is_blank raw = text_eq (strip raw) []

abbrev bool_of : Text → Result EnvError Bool
bool_of normalized =
    if text_in normalized true_values
    then ok true
    else if text_in normalized false_values
    then ok false
    else err improperly_configured

-- What a variable with a value means, and the default where it is absent or blank.
abbrev pub unless_blank :
    {A : Type 0} → A → (Text → Result EnvError A) → Option Text → Result EnvError A
unless_blank default parse none = ok default
unless_blank default parse (some raw) = if is_blank raw then ok default else parse raw

unfoldable pub get_bool : (Text → Text) → Environ → Text → Bool → Result EnvError Bool
unfolding strip
get_bool lower environ name default =
    unless_blank default (λ raw. bool_of (lower (strip raw))) (environ name)

-- `[item.strip() for item in raw.split(",") if item.strip()]`
unfoldable pub list_items : Text → List Text
unfolding strip
list_items raw = keep_if has_text (map strip (split_on 44 raw))

unfoldable pub get_list : Environ → Text → List Text → List Text
unfolding list_items
get_list environ name default = elim (environ name) [ none ↦ default | some raw ↦ list_items raw ]

-- The digits of `int`: ASCII ones, and those that the Unicode table gives a value.
abbrev pub digit_value : (ℕ → Option ℕ) → ℕ → Option ℕ
digit_value table c = if ltb c 48 then none else if ltb c 58 then some (c - 48) else table c

abbrev pub digit_count : (ℕ → Option ℕ) → Text → ℕ
digit_count table s = length (keep_if (λ c. is_some (digit_value table c)) s)

-- The value of the digits after a prefix worth `v`: one underscore may stand between two digits.
-- `after` says whether the character before was a digit.
unfoldable pub int_digits : (ℕ → Option ℕ) → ℕ → Bool → Text → Option ℕ
int_digits table v after [] = if after then some v else none
int_digits table v after (c ∷ s) = elim (digit_value table c) [
  | some d ↦ int_digits table (v * 10 + d) true s
  | none ↦ if c == 95 && after then int_digits table v false s else none
]

abbrev pub negated : ℕ → ℤ
negated zero = pos 0
negated (suc n) = negsuc n

-- `sys.get_int_max_str_digits()`, beyond which `int` raises
abbrev pub max_digits : ℕ
max_digits = 4300

unfoldable pub unsigned : (ℕ → Option ℕ) → Text → Option ℕ
unfolding int_digits
unsigned table s = if ltb max_digits (digit_count table s) then none else int_digits table 0 false s

abbrev pub signed : (ℕ → ℤ) → Option ℕ → Option ℤ
signed f none = none
signed f (some n) = some (f n)

-- `int(s)` of a stripped text; `none` is its `ValueError`.
unfoldable pub int_of : (ℕ → Option ℕ) → Text → Option ℤ
unfolding unsigned
int_of table [] = none
int_of table (c ∷ s) =
    if c == 45
    then signed negated (unsigned table s)
    else if c == 43
    then signed pos (unsigned table s)
    else signed pos (unsigned table (c ∷ s))

abbrev pub or_improper : {A : Type 0} → Option A → Result EnvError A
or_improper none = err improperly_configured
or_improper (some a) = ok a

unfoldable pub get_int : (ℕ → Option ℕ) → Environ → Text → ℤ → Result EnvError ℤ
unfolding strip int_of
get_int table environ name default =
    unless_blank default (λ raw. or_improper (int_of table (strip raw))) (environ name)

-- The first choice that equals the text in lower case.
unfoldable pub find_choice : (Text → Text) → Text → List Text → Option Text
find_choice lower normalized [] = none
find_choice lower normalized (choice ∷ choices) =
    if text_eq (lower choice) normalized then some choice else find_choice lower normalized choices

unfoldable pub get_choice : (Text → Text) → Environ → Text → Text → List Text → Result EnvError Text
unfolding strip find_choice
get_choice lower environ name default choices =
    unless_blank default (λ raw. or_improper (find_choice lower (lower (strip raw)) choices))
      (environ name)

abbrev pub valid_log_levels : List Text
valid_log_levels =
    codes "DEBUG" ∷ codes "INFO" ∷ codes "WARNING" ∷ codes "ERROR" ∷ codes "CRITICAL" ∷ []

unfoldable pub get_log_level : (Text → Text) → Environ → Text → Text → Result EnvError Text
unfolding get_choice
get_log_level lower environ name default = get_choice lower environ name default valid_log_levels
