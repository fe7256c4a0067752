-- ===== src/Core/Environ/Laws.antt =====
-- What the parsers of the environment read back, and what they may answer.
use quorfix.Prelude.{
  ℕ, zero, suc, ◌/◌, ◌%◌, is_some, ◌+◌, ◌*◌, ◌<◌, ◌≡◌, refl, ap, ◌∙◌, Bool, true, false, not,
  Option, none, some, ◌&&◌, List, [], ◌∷◌, map, Text, text_eq, text_eq_iff, text_in, has_text,
  if◌then◌else◌, strip, length, ltb, leb, all, All, keep_if, arith, Bool-cases, inl, inr,
  split_on-join, join, lacks, digits, decimal,
}
use quorfix.Prelude.Trims.{is_digit, decimal-all, strip_digits, strip_negative, length-keep_if}
use quorfix.Exec.{Result, ok, err}
use quorfix.Core.Environ.{
  EnvError, ℤ, pos, negsuc, Environ, is_blank, get_int, int_of, int_digits, digit_value, get_list,
  list_items, get_choice, find_choice, max_digits, or_improper, unsigned, signed, negated,
}

-- `str(z)`
abbrev pub decimal_of : ℤ → Text
decimal_of (pos n) = decimal n
decimal_of (negsuc n) = 45 ∷ decimal (suc n)

stripped-is_blank : (s : Text) → strip s ≡ s → has_text s ≡ true → is_blank s ≡ false
unfolding is_blank
stripped-is_blank [] same h = cc h
stripped-is_blank (c ∷ s) same h = rw same refl

module _ (table : ℕ → Option ℕ) where
  digit_value-digit : (d : ℕ) → ltb d 10 ≡ true → digit_value table (48 + d) ≡ some d
  digit_value-digit d h = ground arith

  int_digits-digit :
      (v : ℕ) (after : Bool) (d : ℕ) (s : Text)
      → ltb d 10 ≡ true
      → int_digits table v after ((48 + d) ∷ s) ≡ int_digits table (v * 10 + d) true s
  unfolding int_digits
  int_digits-digit v after d s h = rw (digit_value-digit d h, int_digits) refl

  int_digits-digits :
      (f n : ℕ) (after : Bool) (acc : Text)
      → n < f
      → int_digits table 0 after (digits f n acc) ≡ int_digits table n true acc
  unfolding digits
  int_digits-digits zero n after acc h = absurd (ground arith)
  int_digits-digits (suc f) n after acc h = elim (Bool-cases (ltb n 10)) [
    | inl e ↦
        rw e
          (int_digits-digit 0 after n acc e ∙ ap (λ v. int_digits table v true acc) (ground arith))
    | inr e ↦ rw e (
        int_digits-digits f (n / 10) after ((48 + n % 10) ∷ acc) (ground arith)
        ∙ int_digits-digit (n / 10) true (n % 10) acc (ground arith)
        ∙ ap (λ v. int_digits table v true acc) (ground arith))
  ]

  pub int_digits-decimal : (n : ℕ) → int_digits table 0 false (decimal n) ≡ some n
  unfolding decimal int_digits
  int_digits-decimal n = int_digits-digits (suc n) n false [] (ground arith)

  unsigned-decimal :
      (n : ℕ) → leb (length (decimal n)) max_digits ≡ true → unsigned table (decimal n) ≡ some n
  unfolding unsigned
  unsigned-decimal n h =
      ground (
        arith,
        int_digits-decimal n,
        length-keep_if (λ c. is_some (digit_value table c)) (decimal n),
      )

  some-has_text : (s : Text) (n : ℕ) → int_digits table 0 false s ≡ some n → has_text s ≡ true
  unfolding int_digits
  some-has_text [] n h = cc h
  some-has_text (c ∷ s) n h = refl

  has_text-decimal : (n : ℕ) → has_text (decimal n) ≡ true
  has_text-decimal n = some-has_text (decimal n) n (int_digits-decimal n)

  int_of-digits :
      (s : Text)
      → all is_digit s ≡ true
      → has_text s ≡ true
      → int_of table s ≡ signed pos (unsigned table s)
  unfolding int_of
  int_of-digits [] h t = absurd (ground arith)
  int_of-digits (c ∷ s) h t = ground arith

  int_of-decimal_of :
      (z : ℤ) → leb (length (decimal_of z)) max_digits ≡ true → int_of table (decimal_of z) ≡ some z
  unfolding int_of
  int_of-decimal_of (pos n) h =
      int_of-digits (decimal n) (decimal-all n) (has_text-decimal n)
      ∙ ap (signed pos) (unsigned-decimal n h)
  int_of-decimal_of (negsuc n) h = ap (signed negated) (unsigned-decimal (suc n) (ground arith))

  strip-decimal_of : (z : ℤ) → strip (decimal_of z) ≡ decimal_of z
  strip-decimal_of (pos n) = strip_digits (decimal n) (decimal-all n)
  strip-decimal_of (negsuc n) = strip_negative (decimal (suc n)) (decimal-all (suc n))

  has_text-decimal_of : (z : ℤ) → has_text (decimal_of z) ≡ true
  has_text-decimal_of (pos n) = has_text-decimal n
  has_text-decimal_of (negsuc n) = refl

  -- A variable that holds the decimal text of an integer, of at most 4300 characters, is read as
  -- that integer.
  pub get_int-decimal_of :
      (environ : Environ) (name : Text) (default z : ℤ)
      → environ name ≡ some (decimal_of z)
      → leb (length (decimal_of z)) max_digits ≡ true
      → get_int table environ name default ≡ ok z
  unfolding get_int
  get_int-decimal_of environ name default z set short =
      rw
        (
          set,
          stripped-is_blank (decimal_of z) (strip-decimal_of z) (has_text-decimal_of z),
          strip-decimal_of z,
          int_of-decimal_of z short,
        )
        refl

-- A list item that reading leaves as it is.
abbrev pub IsItem : Text → Type 0
IsItem item = (strip item ≡ item) × ((has_text item && lacks 44 item) ≡ true)

list_items-parts :
    (items : List Text) → All IsItem items → keep_if has_text (map strip items) ≡ items
list_items-parts [] h = refl
list_items-parts (item ∷ items) ((same, good), h) =
    rw (same) (ground (arith, list_items-parts items h))

all_lack : (items : List Text) → All IsItem items → all (lacks 44) items ≡ true
all_lack [] h = refl
all_lack (item ∷ items) ((same, good), h) = ground (arith, all_lack items h)

list_items-join : (items : List Text) → All IsItem items → list_items (join 44 items) ≡ items
unfolding list_items strip
list_items-join [] h = refl
list_items-join (item ∷ items) h =
    ap (λ parts. keep_if has_text (map strip parts))
      (split_on-join 44 item items (all_lack (item ∷ items) h))
    ∙ list_items-parts (item ∷ items) h

-- A variable that holds items joined by commas, each of them not empty, without a comma and
-- without spaces at its ends, is read as those items.
pub get_list-join :
    (environ : Environ) (name : Text) (default items : List Text)
    → environ name ≡ some (join 44 items)
    → All IsItem items
    → get_list environ name default ≡ items
unfolding get_list
get_list-join environ name default items set h = rw (set, get_list) (list_items-join items h)

module _ (lower : Text → Text) where
  -- What `get_choice` may answer to the text of a variable: a choice in its own spelling that
  -- agrees with the text but for case and spaces, or an error where none does.
  abbrev pub Chosen : List Text → Text → Result EnvError Text → Type 0
  Chosen choices raw (ok c) =
      (text_in c choices ≡ true) × (text_eq (lower c) (lower (strip raw)) ≡ true)
  Chosen choices raw (err e) =
      all (λ choice. not (text_eq (lower choice) (lower (strip raw)))) choices ≡ true

  find_choice-Chosen :
      (choices : List Text) (raw : Text)
      → Chosen choices raw (or_improper (find_choice lower (lower (strip raw)) choices))
  unfolding find_choice
  find_choice-Chosen [] raw = refl
  find_choice-Chosen (choice ∷ choices) raw =
      by_test (text_eq (lower choice) (lower (strip raw))) refl
        (find_choice lower (lower (strip raw)) choices) (find_choice-Chosen choices raw)
    where
      by_test :
          (b : Bool)
          → text_eq (lower choice) (lower (strip raw)) ≡ b
          → (r : Option Text) → Chosen choices raw (or_improper r)
          → Chosen (choice ∷ choices) raw (or_improper (if b then some choice else r))
      by_test true e r h = (rw ((text_eq_iff choice choice).1 refl) refl, e)
      by_test false e (some c) (member, same) = (ground (arith, member), same)
      by_test false e none h = ground (arith, e, h)

  -- A variable that is set and not blank is read as one of the choices, in the spelling that it
  -- has there, which agrees with the variable but for case and outer spaces, or raises, and then
  -- none of the choices agrees.
  pub get_choice-Chosen :
      (environ : Environ) (name default : Text) (choices : List Text) (raw : Text)
      → environ name ≡ some raw
      → is_blank raw ≡ false
      → Chosen choices raw (get_choice lower environ name default choices)
  unfolding get_choice
  get_choice-Chosen environ name default choices raw set full =
      rw (set, full) (find_choice-Chosen choices raw)
