-- ===== src/Core/TarSafety.antt =====
-- backend/apps/core/tar_safety.py: the members of an archive are checked before one is extracted.
-- `tarfile` and `os.makedirs` come in as arguments; `os.path.normpath` is the POSIX one.
pub mod Walk
pub mod Extraction
use quorfix.Prelude.{
  ℕ, Bool, true, false, not, Option, none, some, ◌||◌, ◌&&◌, List, [], ◌∷◌, ◌++◌, reverse, Text,
  codes, text_eq, starts_with, strip, length, if◌then◌else◌, ◌==◌, contains, split_on, join,
}
use quorfix.Exec.{Exec, pure, raise_if, fetch, ◌>>=◌, ◌>>◌}

abbrev pub dot : Text
dot = codes "."

abbrev pub dotdot : Text
dotdot = codes ".."

abbrev pub sep : ℕ
sep = 47

-- `os.path.isabs`
abbrev pub isabs : Text → Bool
isabs [] = false
isabs (c ∷ s) = c == sep

-- `posixpath.splitroot`: exactly two leading slashes stay two.
abbrev pub initial_slashes : Text → Text
initial_slashes name =
    if isabs name
    then if starts_with name (codes "//") && not (starts_with name (codes "///"))
      then codes "//"
      else codes "/"
    else []

-- The last component kept so far is `..`; the components stand with the last one first.
abbrev pub ends_dotdot : List Text → Bool
ends_dotdot [] = false
ends_dotdot (c ∷ cs) = text_eq c dotdot

-- One round of the loop of `normpath`.
abbrev pub normal_step : Bool → Text → List Text → List Text
normal_step rooted comp [] =
    if text_eq comp [] || text_eq comp dot
    then []
    else if not (text_eq comp dotdot) || not rooted
    then comp ∷ []
    else []
normal_step rooted comp (c ∷ kept) =
    if text_eq comp [] || text_eq comp dot
    then c ∷ kept
    else if not (text_eq comp dotdot) || text_eq c dotdot
    then comp ∷ c ∷ kept
    else kept

abbrev pub normal_comps : Bool → List Text → List Text → List Text
normal_comps rooted [] kept = kept
normal_comps rooted (comp ∷ comps) kept = normal_comps rooted comps (normal_step rooted comp kept)

abbrev pub or_dot : Text → Text
or_dot [] = dot
or_dot (c ∷ s) = c ∷ s

-- `os.path.normpath`
unfoldable pub normpath : Text → Text
normpath name =
    or_dot (
      initial_slashes name ++ join sep (reverse (normal_comps (isabs name) (split_on sep name) [])))

unfoldable pub is_within_root : Text → Bool
unfolding normpath
is_within_root name =
    let normalized = normpath name in
    if text_eq normalized dot || text_eq normalized []
    then true
    else if text_eq normalized dotdot || starts_with normalized (codes "../")
    then false
    else not (isabs normalized)

-- `tarfile.TarInfo`, with the byte of its type.
pub record TarInfo : Type 0 where
  pub name : Option Text
  pub member_type : ℕ

-- `issym() or islnk()`: SYMTYPE and LNKTYPE
abbrev pub is_link : TarInfo → Bool
is_link m = m.member_type == 50 || m.member_type == 49

-- REGTYPE, AREGTYPE, DIRTYPE
abbrev pub safe_types : List ℕ
safe_types = 48 ∷ 0 ∷ 53 ∷ []

-- The reasons of an `UnsafeTarMemberError`, the `TarError` of a file that is no archive, and what
-- the file system and the extraction raise.
pub data TarError : Type 0 where
  empty_name absolute_path escapes_root link_member odd_type tar_error other_error : TarError

abbrev pub has_no_name : Option Text → Bool
has_no_name none = true
has_no_name (some name) = text_eq (strip name) []

abbrev pub name_of : TarInfo → Text
name_of m = elim m.name [ none ↦ [] | some name ↦ name ]

unfoldable pub validate_member : {S : Type 0} → TarInfo → Exec TarError S Unit
unfolding is_within_root strip
validate_member member = do
  raise_if (has_no_name member.name) empty_name
  raise_if (isabs (name_of member)) absolute_path
  raise_if (not (is_within_root (name_of member))) escapes_root
  raise_if (is_link member) link_member
  raise_if (not (contains safe_types member.member_type)) odd_type

-- The loop of `validate_archive`.
unfoldable pub validate_members : {S : Type 0} → List TarInfo → Exec TarError S Unit
unfolding validate_member
validate_members [] = pure tt
validate_members (member ∷ members) = do validate_member member; validate_members members

unfoldable pub validate_archive : {S : Type 0} → List TarInfo → Exec TarError S (List TarInfo)
unfolding validate_members
validate_archive members = do validate_members members; pure members

-- The file system and `tarfile`: make the directory, read the members of a file that is an archive,
-- and extract the members given.
pub record Archives (S : Type 0) : Type 0 where
  pub makedirs : Text → Exec TarError S Unit
  pub getmembers : Text → S → Option (List TarInfo)
  pub extractall : Text → List TarInfo → Exec TarError S Unit

unfoldable pub safe_extract_all : {S : Type 0} → Archives S → Text → Text → Exec TarError S ℕ
unfolding validate_archive
safe_extract_all archives archive_path destination = do
  archives.makedirs destination
  opened ← fetch (archives.getmembers archive_path) tar_error
  members ← validate_archive opened
  archives.extractall destination members
  pure (length members)
