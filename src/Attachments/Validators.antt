-- ===== src/Attachments/Validators.antt =====
-- backend/apps/attachments/validators.py: which files are allowed, and whether the bytes are what
-- their declared type says. `zipfile` and `json` come in as arguments. A text of bytes is a list of
-- numbers below 256. A MIME type is compared as text.
use quorfix.Prelude.{
  ℕ, Bool, true, false, not, Option, none, some, ◌||◌, ◌&&◌, List, [], ◌∷◌, Text, codes, text_eq,
  text_in, starts_with, length, ltb, leb, any, contains, take, drop, if◌then◌else◌, ◌==◌,
}

abbrev pub Bytes : Type 0
Bytes = List ℕ

abbrev pub signature_head_size : ℕ
signature_head_size = 32

abbrev pub text_sniff_size : ℕ
text_sniff_size = 8192

abbrev docx_type : Text
docx_type = codes "application/vnd.openxmlformats-officedocument.wordprocessingml.document"

abbrev xlsx_type : Text
xlsx_type = codes "application/vnd.openxmlformats-officedocument.spreadsheetml.sheet"

abbrev pub content_type_extensions : List (Text × Text)
content_type_extensions =
    (codes "image/png", codes ".png")
    ∷ (codes "image/jpeg", codes ".jpg")
    ∷ (codes "image/gif", codes ".gif")
    ∷ (codes "image/webp", codes ".webp")
    ∷ (codes "application/pdf", codes ".pdf")
    ∷ (codes "text/plain", codes ".txt")
    ∷ (codes "text/csv", codes ".csv")
    ∷ (codes "application/json", codes ".json")
    ∷ (codes "application/zip", codes ".zip")
    ∷ (codes "video/mp4", codes ".mp4")
    ∷ (codes "application/msword", codes ".doc")
    ∷ (docx_type, codes ".docx")
    ∷ (codes "application/vnd.ms-excel", codes ".xls")
    ∷ (xlsx_type, codes ".xlsx")
    ∷ []

-- `table.get(key)` of a dict that is written out.
unfoldable pub find_key : {A : Type 0} → Text → List (Text × A) → Option A
find_key key [] = none
find_key key ((k, a) ∷ rest) = if text_eq k key then some a else find_key key rest

-- `CONTENT_TYPE_EXTENSIONS.get(content_type)`: `none` is a type that is not allowed.
unfoldable pub extension_for_content_type : Text → Option Text
unfolding find_key
extension_for_content_type content_type = find_key content_type content_type_extensions

-- `size_bytes <= 0 or size_bytes > max_size_bytes`
abbrev pub is_bad_size : ℕ → ℕ → Bool
is_bad_size max_size_bytes size_bytes = size_bytes == 0 || ltb max_size_bytes size_bytes

abbrev check_png : Bytes → Bool
check_png head = starts_with head (137 ∷ 80 ∷ 78 ∷ 71 ∷ 13 ∷ 10 ∷ 26 ∷ 10 ∷ [])

abbrev check_jpeg : Bytes → Bool
check_jpeg head = starts_with head (255 ∷ 216 ∷ 255 ∷ [])

abbrev check_gif : Bytes → Bool
check_gif head = any (starts_with head) (codes "GIF87a" ∷ codes "GIF89a" ∷ [])

abbrev check_webp : Bytes → Bool
check_webp head = starts_with head (codes "RIFF") && text_eq (take 4 (drop 8 head)) (codes "WEBP")

abbrev check_pdf : Bytes → Bool
check_pdf head = starts_with head (codes "%PDF-")

abbrev pub check_zip : Bytes → Bool
check_zip head = any (starts_with head) ((80 ∷ 75 ∷ 3 ∷ 4 ∷ []) ∷ (80 ∷ 75 ∷ 5 ∷ 6 ∷ []) ∷ [])

abbrev check_ole : Bytes → Bool
check_ole head = starts_with head (208 ∷ 207 ∷ 17 ∷ 224 ∷ 161 ∷ 177 ∷ 26 ∷ 225 ∷ [])

abbrev check_mp4 : Bytes → Bool
check_mp4 head = leb 8 (length head) && text_eq (take 4 (drop 4 head)) (codes "ftyp")

abbrev pub signature_checks : List (Text × (Bytes → Bool))
signature_checks =
    (codes "image/png", check_png)
    ∷ (codes "image/jpeg", check_jpeg)
    ∷ (codes "image/gif", check_gif)
    ∷ (codes "image/webp", check_webp)
    ∷ (codes "application/pdf", check_pdf)
    ∷ (codes "application/zip", check_zip)
    ∷ (codes "application/msword", check_ole)
    ∷ (codes "application/vnd.ms-excel", check_ole)
    ∷ (codes "video/mp4", check_mp4)
    ∷ []

abbrev pub ooxml_required_member_prefix : List (Text × Text)
ooxml_required_member_prefix = (docx_type, codes "word/") ∷ (xlsx_type, codes "xl/") ∷ []

-- `ZipFile(...).namelist()`, `none` for a `BadZipFile`, and whether `json.loads` returns.
pub record Parsers : Type 0 where
  pub namelist : Bytes → Option (List Text)
  pub is_json : Bytes → Bool

abbrev pub check_ooxml_members : Parsers → Bytes → Text → Bool
check_ooxml_members parsers file prefix = elim (parsers.namelist file) [
  | none ↦ false
  | some names ↦
      text_in (codes "[Content_Types].xml") names && any (λ name. starts_with name prefix) names
]

abbrev by_signature : Option (Bytes → Bool) → Bytes → Bool
by_signature none head = true
by_signature (some checker) head = checker head

abbrev by_members : Parsers → Text → Bytes → Option Text → Bool
by_members parsers content_type file none =
    by_signature (find_key content_type signature_checks) (take signature_head_size file)
by_members parsers content_type file (some prefix) =
    check_zip (take signature_head_size file) && check_ooxml_members parsers file prefix

unfoldable pub verify_uploaded_content : Parsers → Text → Bytes → Bool
unfolding find_key
verify_uploaded_content parsers content_type file =
    if text_eq content_type (codes "application/json")
    then parsers.is_json file
    else if text_in content_type (codes "text/plain" ∷ codes "text/csv" ∷ [])
    then not (contains (take text_sniff_size file) 0)
    else by_members parsers content_type file (find_key content_type ooxml_required_member_prefix)
