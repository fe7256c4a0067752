-- ===== src/Comments/Mentions.antt =====
-- backend/apps/comments/mentions.py: the mention tokens of a body, and the members they resolve to.
use quorfix.Prelude.{
  ℕ, zero, suc, ◌+◌, ◌-◌, ◌*◌, ◌≡◌, refl, Bool, true, false, not, Option, none, some, ◌&&◌, ◌||◌,
  List, [], ◌∷◌, Text, codes, length, take, drop, all, keep_if, contains, leb, if◌then◌else◌, ◌==◌,
  arith, Bool-cases, inl, inr, all-keep_if,
}
use quorfix.Table.{Table, exists_row}
use quorfix.Models.{Membership}

abbrev and_then : {A B : Type 0} → Option A → (A → Option B) → Option B
and_then none f = none
and_then (some a) f = f a

-- What is left of a text after a prefix.
abbrev pub after_prefix : Text → Text → Option Text
after_prefix [] s = some s
after_prefix (c ∷ cs) [] = none
after_prefix (c ∷ cs) (d ∷ s) = if c == d then after_prefix cs s else none

-- `[^\[\]\n]`
abbrev pub is_name_char : ℕ → Bool
is_name_char c = not (c == 91 || c == 93 || c == 10)

-- `[0-9a-fA-F-]`
abbrev pub is_hex_char : ℕ → Bool
is_hex_char c = (leb 48 c && leb c 57) || (leb 65 c && leb c 70) || (leb 97 c && leb c 102)

abbrev pub is_id_char : ℕ → Bool
is_id_char c = is_hex_char c || c == 45

-- `[^\[\]\n]{1,100}` before a `]`: the class leaves one length to try. The text from the `]` on.
abbrev pub after_name : ℕ → Text → Option Text
after_name room [] = none
after_name zero (c ∷ s) = if is_name_char c then none else some (c ∷ s)
after_name (suc room) (c ∷ s) =
    let rest = after_name room s in if is_name_char c then rest else some (c ∷ s)

abbrev pub after_names : Text → Option Text
after_names [] = none
after_names (c ∷ s) = if is_name_char c then after_name 99 s else none

-- `([0-9a-fA-F-]{36})\)`: the group, and the text after the match.
abbrev pub read_id : Text → Option (Text × Text)
read_id s =
    let id = take 36 s in
    if length id == 36 && all is_id_char id
    then elim (after_prefix (codes ")") (drop 36 s)) [ none ↦ none | some rest ↦ some (id, rest) ]
    else none

-- `MENTION_TOKEN_RE` at the start of a text.
unfoldable pub token_at : Text → Option (Text × Text)
token_at s = and_then (after_prefix (codes "@[") s) λ name.
    and_then (after_names name) λ link. and_then (after_prefix (codes "](mention:") link) read_id

-- `findall`: the search goes on where a match ended, `skip` characters further on.
unfoldable pub find_tokens : ℕ → Text → List Text
unfolding token_at
find_tokens skip [] = []
find_tokens (suc n) (c ∷ s) = find_tokens n s
find_tokens zero (c ∷ s) = elim (token_at (c ∷ s)) [
  | none ↦ find_tokens zero s
  | some (id, rest) ↦ id ∷ find_tokens (length s - length rest) s
]

abbrev pub hex_value : ℕ → ℕ
hex_value c = if leb c 57 then c - 48 else if leb c 70 then c - 55 else c - 87

abbrev pub read_hex : ℕ → Text → ℕ
read_hex acc [] = acc
read_hex acc (c ∷ s) = read_hex (acc * 16 + hex_value c) s

-- `uuid.UUID(raw)` of a text of hexadecimal digits and hyphens, `none` for `ValueError`.
unfoldable pub parse_uuid : Text → Option ℕ
parse_uuid raw =
    let hex = keep_if is_hex_char raw in if length hex == 32 then some (read_hex 0 hex) else none

abbrev pub parsed : List Text → List ℕ
parsed [] = []
parsed (raw ∷ raws) = elim (parse_uuid raw) [ none ↦ parsed raws | some id ↦ id ∷ parsed raws ]

-- `seen.setdefault`, in the order of the first occurrence
unfoldable pub first_seen : List ℕ → List ℕ → List ℕ
first_seen seen [] = []
first_seen seen (x ∷ xs) = elim (contains seen x) [
  | true ↦ first_seen seen xs
  | false ↦ x ∷ first_seen (x ∷ seen) xs
]

unfoldable pub extract_mention_user_ids : Text → List ℕ
unfolding find_tokens parse_uuid first_seen
extract_mention_user_ids body = first_seen [] (parsed (find_tokens 0 body))

abbrev pub is_member : ℕ → ℕ → ℕ → Membership → Bool
is_member organization user _ m = m.organization == organization && m.user == user

unfoldable pub resolve_mentions : Table Membership → ℕ → List ℕ → List ℕ
unfolding exists_row
resolve_mentions memberships organization user_ids =
    keep_if (λ uid. exists_row (is_member organization uid) memberships) user_ids

-- No element twice.
abbrev pub IsDistinct : List ℕ → Type 0
IsDistinct [] = Unit
IsDistinct (x ∷ xs) = (contains xs x ≡ false) × IsDistinct xs

first_seen-avoids :
    (a : ℕ) (seen xs : List ℕ) → contains seen a ≡ true → contains (first_seen seen xs) a ≡ false
unfolding first_seen
first_seen-avoids a seen [] h = refl
first_seen-avoids a seen (x ∷ xs) h =
    ground (arith, first_seen-avoids a seen xs, first_seen-avoids a (x ∷ seen) xs)

first_seen-IsDistinct : (seen xs : List ℕ) → IsDistinct (first_seen seen xs)
unfolding first_seen
first_seen-IsDistinct seen [] = tt
first_seen-IsDistinct seen (x ∷ xs) =
    by_test (contains seen x) refl (first_seen-IsDistinct seen xs)
      (first_seen-IsDistinct (x ∷ seen) xs)
  where
    by_test :
        (b : Bool)
        → contains seen x ≡ b
        → IsDistinct (first_seen seen xs)
        → IsDistinct (first_seen (x ∷ seen) xs)
        → IsDistinct (elim b [ true ↦ first_seen seen xs | false ↦ x ∷ first_seen (x ∷ seen) xs ])
    by_test true e skipped kept = skipped
    by_test false e skipped kept = (first_seen-avoids x (x ∷ seen) xs (ground arith), kept)

keep_if-avoids :
    (p : ℕ → Bool) (a : ℕ) (xs : List ℕ) → contains xs a ≡ false → contains (keep_if p xs) a ≡ false
keep_if-avoids p a [] h = refl
keep_if-avoids p a (x ∷ xs) h = ground (arith, keep_if-avoids p a xs)

keep_if-IsDistinct : (p : ℕ → Bool) (xs : List ℕ) → IsDistinct xs → IsDistinct (keep_if p xs)
keep_if-IsDistinct p [] h = tt
keep_if-IsDistinct p (x ∷ xs) (h, d) = elim (Bool-cases (p x)) [
  | inl e ↦ rw e (keep_if-avoids p x xs h, keep_if-IsDistinct p xs d)
  | inr e ↦ rw e (keep_if-IsDistinct p xs d)
]

-- The users that a body mentions are named once each, as the unique constraint on mentions
-- demands, and every one of them is a member of the organization.
pub resolve_mentions-members :
    (memberships : Table Membership) (organization : ℕ) (body : Text)
    → IsDistinct (resolve_mentions memberships organization (extract_mention_user_ids body))
      × (all
            (λ uid. exists_row (is_member organization uid) memberships)
            (resolve_mentions memberships organization (extract_mention_user_ids body))
          ≡ true)
unfolding resolve_mentions extract_mention_user_ids
resolve_mentions-members memberships organization body =
    let ids = extract_mention_user_ids body in
    let is_one : ℕ → Bool = λ uid. exists_row (is_member organization uid) memberships in
    (
      keep_if-IsDistinct is_one ids (first_seen-IsDistinct [] (parsed (find_tokens 0 body))),
      all-keep_if is_one ids,
    )

token_test :
    find_tokens 0
      (codes "hi @[Ann B](mention:00000000-0000-0000-0000-00000000001f), @[x](mention:zz)")
    ≡ codes "00000000-0000-0000-0000-00000000001f" ∷ []
unfolding find_tokens
token_test = refl

mention_test :
    extract_mention_user_ids (
      codes
        "@[A](mention:00000000-0000-0000-0000-00000000001f)@[B](mention:00000000-0000-0000-0000-00000000001F)")
    ≡ 31 ∷ []
unfolding extract_mention_user_ids
mention_test = refl
