-- ===== src/Attachments/Filenames/Laws.antt =====
-- The file name that is stored.
use quorfix.Prelude.{
  ℕ, zero, suc, ◌≡◌, refl, ◌∙◌, Bool, true, false, not, ◌&&◌, [], ◌∷◌, map, reverse, Text, has_text,
  lstrip, strip_by, take, length, length-take, leb, all, arith, split_on, if◌then◌else◌,
}
use quorfix.Prelude.Trims.{all-reverse}
use quorfix.Attachments.Filenames.{
  max_filename_length, is_unsafe, is_trimmed, or_attachment, sanitize_filename, last, replace,
}

-- A name that is not empty, fits its column, and has no control character, no separator and no
-- other reserved character.
abbrev pub is_file_name : Text → Bool
is_file_name name =
    has_text name && leb (length name) max_filename_length && all (λ c. not (is_unsafe c)) name

all-lstrip : (p q : ℕ → Bool) (s : Text) → all q s ≡ true → all q (lstrip p s) ≡ true
all-lstrip p q [] h = refl
all-lstrip p q (c ∷ s) h = ground (arith, all-lstrip p q s, h)

all-strip_by : (p q : ℕ → Bool) (s : Text) → all q s ≡ true → all q (strip_by p s) ≡ true
unfolding strip_by
all-strip_by p q s h =
    all-reverse q (lstrip p (reverse (lstrip p s)))
    ∙ all-lstrip p q (reverse (lstrip p s)) (all-reverse q (lstrip p s) ∙ all-lstrip p q s h)

all-take : (q : ℕ → Bool) (n : ℕ) (s : Text) → all q s ≡ true → all q (take n s) ≡ true
all-take q zero s h = refl
all-take q (suc n) [] h = refl
all-take q (suc n) (c ∷ s) h = ground (arith, all-take q n s)

short-take : (n : ℕ) (s : Text) → leb (length (take n s)) n ≡ true
short-take n s = ground (arith, length-take n s)

all-replaced :
    (s : Text) → all (λ c. not (is_unsafe c)) (map (λ c. if is_unsafe c then 95 else c) s) ≡ true
all-replaced [] = refl
all-replaced (c ∷ s) = by_test (is_unsafe c) refl (all-replaced s)
  where
    rest : Text
    rest = map (λ c. if is_unsafe c then 95 else c) s

    by_test :
        (b : Bool)
        → is_unsafe c ≡ b
        → all (λ c. not (is_unsafe c)) rest ≡ true
        → (not (is_unsafe (if b then 95 else c)) && all (λ c. not (is_unsafe c)) rest) ≡ true
    by_test true e h = h
    by_test false e h = rw e h

or_attachment-is_file_name :
    (s : Text)
    → leb (length s) max_filename_length ≡ true
    → all (λ c. not (is_unsafe c)) s ≡ true
    → is_file_name (or_attachment s) ≡ true
or_attachment-is_file_name [] short safe = refl
or_attachment-is_file_name (c ∷ s) short safe = ground arith

-- The name that is stored for any name sent is not empty, has at most 255 characters, and has no
-- control character, separator or other reserved character in it.
pub sanitize_filename-is_file_name : (raw : Text) → is_file_name (sanitize_filename raw) ≡ true
unfolding sanitize_filename
sanitize_filename-is_file_name raw =
    or_attachment-is_file_name (take max_filename_length trimmed)
      (short-take max_filename_length trimmed)
      (all-take (λ c. not (is_unsafe c)) max_filename_length trimmed
        (all-strip_by is_trimmed (λ c. not (is_unsafe c)) safe (all-replaced base)))
  where
    base : Text
    base = last (split_on 47 (replace 92 47 raw))

    safe : Text
    safe = map (λ c. if is_unsafe c then 95 else c) base

    trimmed : Text
    trimmed = strip_by is_trimmed safe
