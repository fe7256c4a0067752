-- ===== src/Core/Checks/Silence.antt =====
-- Lists of errors, by the tests that report them.
use quorfix.Prelude.{
  ℕ, ◌≡◌, refl, Bool, true, false, not, ◌&&◌, ◌||◌, [], ◌∷◌, ◌++◌, Text, has_text, length, ltb, leb,
  arith, if◌then◌else◌, none, some,
}
use quorfix.Core.Checks.{
  Settings, Errors, Report, appended, in_production_report, is_production, in_production, error_if,
  min_secret_key_length,
}

abbrev pub is_silent : Errors → Bool
is_silent [] = true
is_silent (n ∷ errors) = false

pub silent-append :
    (xs ys : Errors) {a b : Bool}
    → is_silent xs ≡ a
    → is_silent ys ≡ b
    → is_silent (xs ++ ys) ≡ (a && b)
silent-append [] ys h g = rw (← h) g
silent-append (x ∷ xs) ys h g = rw (← h) refl

pub silent-error_if : (test : Bool) (n : ℕ) → is_silent (error_if test n) ≡ not test
silent-error_if true n = refl
silent-error_if false n = refl

pub silent-in_production :
    (s : Settings) (errors : Errors) {a : Bool}
    → is_silent errors ≡ a
    → is_silent (in_production s errors) ≡ (not (is_production s) || a)
silent-in_production s errors {a} h = by_test (is_production s)
  where
    by_test : (p : Bool) → is_silent (if p then errors else []) ≡ (not p || a)
    by_test true = h
    by_test false = refl

-- No check has reported anything, and none has raised.
abbrev pub is_quiet : Report → Bool
is_quiet none = false
is_quiet (some errors) = is_silent errors

pub quiet-appended :
    (xs ys : Report) {a b : Bool}
    → is_quiet xs ≡ a
    → is_quiet ys ≡ b
    → is_quiet (appended xs ys) ≡ (a && b)
quiet-appended (some xs) (some ys) h g = silent-append xs ys h g
quiet-appended (some []) none h g = rw (← h) g
quiet-appended (some (x ∷ xs)) none h g = rw (← h) refl
quiet-appended none ys h g = rw (← h) refl

pub quiet-then :
    (xs : Errors) (ys : Report) {a b : Bool}
    → is_silent xs ≡ a
    → is_quiet ys ≡ b
    → is_quiet (appended (some xs) ys) ≡ (a && b)
quiet-then xs ys h g = quiet-appended (some xs) ys h g

pub quiet-both :
    (xs ys : Errors) {a b : Bool}
    → is_silent xs ≡ a
    → is_silent ys ≡ b
    → is_quiet (appended (some xs) (some ys)) ≡ (a && b)
quiet-both xs ys h g = quiet-appended (some xs) (some ys) h g

pub quiet-in_production :
    (s : Settings) (errors : Report) {a : Bool}
    → is_quiet errors ≡ a
    → is_quiet (in_production_report s errors) ≡ (not (is_production s) || a)
quiet-in_production s errors {a} h = by_test (is_production s)
  where
    by_test : (p : Bool) → is_quiet (if p then errors else some []) ≡ (not p || a)
    by_test true = h
    by_test false = refl

-- Three tests, one after the other, of which each may report.
pub silent_tests :
    (a b c : Bool) (n : ℕ)
    → is_silent (if a then n ∷ [] else if b then n ∷ [] else error_if c n)
      ≡ (not a && (not b && not c))
silent_tests true b c n = refl
silent_tests false true c n = refl
silent_tests false false true n = refl
silent_tests false false false n = refl

pub key_tests :
    (stripped : Text) (known : Bool)
    → (not (not (has_text stripped))
        && (not known && not (ltb (length stripped) min_secret_key_length)))
      ≡ (leb min_secret_key_length (length stripped) && not known)
key_tests [] known = refl
key_tests (c ∷ stripped) known = ground arith

pub host_tests :
    (a text A B r : Bool)
    → (not A && not B) ≡ r
    → (not (a || A) && not (not text || B)) ≡ (text && not a && r)
host_tests true true A B r h = refl
host_tests true false A B r h = refl
host_tests false true A B r h = h
host_tests false false true B r h = refl
host_tests false false false B r h = refl

pub web_tests :
    (web host : Bool) (n : ℕ) → is_silent (error_if (not web || not host) n) ≡ (web && host)
web_tests true true n = refl
web_tests true false n = refl
web_tests false host n = refl

pub cors-silent :
    (everyone credentials starred : Bool)
    → is_silent
        ((if everyone && credentials then 5 ∷ [] else error_if everyone 5) ++ error_if starred 5)
      ≡ (not everyone && not starred)
cors-silent true true starred = refl
cors-silent true false starred = refl
cors-silent false credentials true = refl
cors-silent false credentials false = refl

pub email-silent :
    (bad smtp host : Bool)
    → is_silent (if bad then 6 ∷ [] else if smtp then error_if (not host) 6 else [])
      ≡ (not bad && (not smtp || host))
email-silent true smtp host = refl
email-silent false true true = refl
email-silent false true false = refl
email-silent false false host = refl

-- Two and three tests that must hold.
pub silent_two :
    (a b : Bool) (n : ℕ) → is_silent (error_if (not a) n ++ error_if (not b) n) ≡ (a && b)
silent_two true true n = refl
silent_two true false n = refl
silent_two false b n = refl

pub silent_three :
    (a b c : Bool) (n : ℕ)
    → is_silent (error_if (not a) n ++ (error_if (not b) n ++ error_if (not c) n)) ≡ (a && b && c)
silent_three true b c n = silent_two b c n
silent_three false b c n = refl

pub silent_five :
    (a b c d e : Bool) (n : ℕ)
    → is_silent (
        error_if (not a) n
        ++ (error_if (not b) n
            ++ (error_if (not c) n ++ (error_if (not d) n ++ error_if (not e) n))))
      ≡ (a && b && c && d && e)
silent_five true true c d e n = silent_three c d e n
silent_five true false c d e n = refl
silent_five false b c d e n = refl

pub sink-silent :
    (production demo text at starts ends : Bool)
    → is_silent (
        if not production || not demo
        then []
        else error_if (not text || not at || starts || ends) 13)
      ≡ (not production || (not demo || (text && (at && not starts && not ends))))
sink-silent false demo text at starts ends = refl
sink-silent true false text at starts ends = refl
sink-silent true true false at starts ends = refl
sink-silent true true true false starts ends = refl
sink-silent true true true true true ends = refl
sink-silent true true true true false true = refl
sink-silent true true true true false false = refl
