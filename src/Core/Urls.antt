-- ===== src/Core/Urls.antt =====
-- Python's `urlparse`, as far as backend/apps/core/checks.py asks for the scheme and the host.
use quorfix.Prelude.{
  ℕ, ◌+◌, Bool, false, not, ◌&&◌, ◌||◌, [], ◌∷◌, map, Text, codes, has_text, lstrip, drop, leb,
  contains, keep_if, all, if◌then◌else◌, ◌==◌, starts_with, ◌≡◌, refl, true, Option, none, some,
}

abbrev is_alpha : ℕ → Bool
is_alpha c = (leb 65 c && leb c 90) || (leb 97 c && leb c 122)

-- `scheme_chars`
abbrev is_scheme_char : ℕ → Bool
is_scheme_char c = is_alpha c || (leb 48 c && leb c 57) || contains (codes "+-.") c

abbrev lower_ascii : ℕ → ℕ
lower_ascii c = if leb 65 c && leb c 90 then c + 32 else c

-- The text before the first character that `p` selects, and the text from there on.
abbrev pub before : (ℕ → Bool) → Text → Text
before p [] = []
before p (c ∷ s) = let rest = before p s in if p c then [] else c ∷ rest

abbrev pub from : (ℕ → Bool) → Text → Text
from p [] = []
from p (c ∷ s) = let rest = from p s in if p c then c ∷ s else rest

abbrev starts_alpha : Text → Bool
starts_alpha [] = false
starts_alpha (c ∷ s) = is_alpha c

abbrev is_colon : ℕ → Bool
is_colon c = c == 58

-- Leading controls and spaces go, and so do tabs and line ends everywhere.
abbrev cleaned : Text → Text
cleaned url = keep_if (λ c. not (c == 9 || c == 10 || c == 13)) (lstrip (λ c. leb c 32) url)

abbrev has_scheme : Text → Bool
has_scheme url =
    starts_alpha url && has_text (from is_colon url) && all is_scheme_char (before is_colon url)

abbrev after_scheme : Text → Text
after_scheme url = if has_scheme url then drop 1 (from is_colon url) else url

abbrev host_of : Text → Text
host_of rest =
    if starts_with rest (codes "//")
    then before (λ c. contains (codes "/?#") c) (drop 2 rest)
    else []

-- `urlparse(url).scheme` and `urlparse(url).netloc`
unfoldable pub url_scheme : Text → Text
url_scheme url =
    if has_scheme (cleaned url) then map lower_ascii (before is_colon (cleaned url)) else []

unfoldable pub url_netloc : Text → Text
url_netloc url = host_of (after_scheme (cleaned url))

-- Both brackets or none
abbrev pub has_matching_brackets : Text → Bool
has_matching_brackets netloc =
    if contains netloc 91 then contains netloc 93 else not (contains netloc 93)

pub record Url : Type 0 where
  pub scheme : Text
  pub netloc : Text

-- `urlparse`, `none` for its `ValueError`. `accepts` is what it says of an address in brackets and of
-- the characters of a host that NFKC normalization changes.
unfoldable pub urlparse : (Text → Bool) → Text → Option Url
unfolding url_scheme url_netloc
urlparse accepts url =
    if has_text (url_netloc url)
      && not (has_matching_brackets (url_netloc url) && accepts (url_netloc url))
    then none
    else some (record { scheme = url_scheme url; netloc = url_netloc url })

url_test : url_scheme (codes " HTTPS://a.org:8/x") ≡ codes "https"
unfolding url_scheme
url_test = refl

netloc_test : url_netloc (codes " HTTPS://a.org:8/x") ≡ codes "a.org:8"
unfolding url_netloc
netloc_test = refl

bracket_test : urlparse (λ host. true) (codes "https://[x") ≡ none
unfolding urlparse
bracket_test = refl
