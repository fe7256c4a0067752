-- ===== src/Attachments/Filenames.antt =====
-- `sanitize_filename` of backend/apps/attachments/validators.py.
pub mod Laws
use quorfix.Prelude.{
  ℕ, Bool, true, false, ◌||◌, List, [], ◌∷◌, map, Text, codes, strip_by, take, leb, contains,
  if◌then◌else◌, ◌==◌, split_on,
}

abbrev pub max_filename_length : ℕ
max_filename_length = 255

-- `s.replace(a, b)` for single characters.
abbrev pub replace : ℕ → ℕ → Text → Text
replace a b s = map (λ c. if c == a then b else c) s

-- `parts[-1]` of a list that `rsplit` never leaves empty.
abbrev pub last : List Text → Text
last [] = []
last (part ∷ []) = part
last (part ∷ p ∷ parts) = last (p ∷ parts)

-- `_UNSAFE_FILENAME_CHARS_RE`: control characters, DEL and the ten reserved ones.
abbrev pub is_unsafe : ℕ → Bool
is_unsafe c = leb c 31 || c == 127 || contains (codes "\\/:*?\"<>|") c

-- `.strip(" .")`
abbrev pub is_trimmed : ℕ → Bool
is_trimmed c = c == 32 || c == 46

abbrev pub or_attachment : Text → Text
or_attachment [] = codes "attachment"
or_attachment (c ∷ s) = c ∷ s

unfoldable pub sanitize_filename : Text → Text
unfolding strip_by
sanitize_filename raw =
    let base = last (split_on 47 (replace 92 47 raw)) in
    let safe = map (λ c. if is_unsafe c then 95 else c) base in
    or_attachment (take max_filename_length (strip_by is_trimmed safe))
