-- ===== src/Attachments/Removal.antt =====
-- The removal of an attachment, the start of an upload, and the two ways on from there together.
use quorfix.Prelude.{
  ℕ, ◌≡◌, refl, ap, subst, sym, ◌∙◌, Bool, true, false, not, ◌&&◌, ◌||◌, Option, none, some, ◌∷◌,
  is_none, is_some, arith, leb, Text,
}
use quorfix.Exec.{Result, ok, err}
use quorfix.Exec.Ensures.{
  Ensures, atomic-cases, after_fetch, after_raise_if, after_modify, after_with, when_raise_if,
  returns,
}
use quorfix.Env.{Env}
use quorfix.Table.{lookup, insert}
use quorfix.Table.Laws.{lookup-insert}
use quorfix.Activities.Rules.{after_record}
use quorfix.Models.{Db, Attachment, Membership, delete_object}
use quorfix.Bugs.Monad.{Locked}
use quorfix.Attachments.Filenames.Laws.{is_file_name, sanitize_filename-is_file_name}
use quorfix.Attachments.Validators.{Parsers, extension_for_content_type, is_bad_size}
use quorfix.Attachments.Storage.{StorageProvider}
use quorfix.Attachments.Services.{
  AttachmentError, Site, SiteAction, on_db, with_db, is_uploader, is_moderator, is_uploaded,
  can_upload, UploadedFile, receive_local_upload, record_attachment, check_bug_attachable,
  check_uploader_removal, remove_attachment, initiate_upload, max_attachment_size_bytes, is_pending,
  build_storage_key,
}
use quorfix.Attachments.Steps.{
  Advances, Stepped, Spoiled-Stepped, Advances-is_consistent, is_consistent, unmoved, uploads,
  removes, saved_row, same_row,
}
use quorfix.Attachments.Lifecycle.{Received, uploaded_row, receive_local_upload-Received}

-- Neither the bug nor its project is archived.
abbrev pub is_attachable : Locked → Bool
is_attachable bug = is_none bug.bug.archived_at && is_none bug.project.archived_at

attachable-checked :
    (bug : Locked) (db : Db)
    → Ensures (λ _ db'. (is_attachable bug ≡ true) × (db' ≡ db)) (check_bug_attachable bug) db
unfolding check_bug_attachable
attachable-checked bug db = after_raise_if _ λ a. when_raise_if _ λ b. (ground arith, refl)

removal-checked :
    (bug : Locked) (moderator : Bool) (db : Db)
    → Ensures
        (λ _ db'. ((moderator || is_attachable bug) ≡ true) × (db' ≡ db))
        (check_uploader_removal bug moderator)
        db
unfolding check_uploader_removal
removal-checked bug true db = returns _ (refl, refl)
removal-checked bug false db = attachable-checked bug db

-- What a removal leaves: the uploader may remove while the bug is not archived and a moderator
-- always, what was uploaded and not yet removed; the bytes are left to a job on the queue.
abbrev pub Removed :
    Env
    → Locked
    → ℕ
    → Option ℕ
    → Option Membership
    → Attachment
    → Db
    → Result AttachmentError Attachment × Db
    → Type 0
Removed env bug pk actor membership old db (ok new, db') =
    ((is_moderator membership || (is_uploader old actor && is_attachable bug)) ≡ true)
    × ((is_uploaded old.status && is_none old.removed_at) ≡ true)
    × (new ≡ record old { removed_at = some env.now })
    × (lookup pk db'.attachments ≡ some new)
    × (db'.jobs ≡ delete_object old.storage_key ∷ db.jobs)
Removed env bug pk actor membership old db (err e, db') = db' ≡ db

allowed-both :
    (mine moderator open_bug : Bool)
    → not (mine || moderator) ≡ false
    → (moderator || open_bug) ≡ true
    → (moderator || (mine && open_bug)) ≡ true
allowed-both mine moderator open_bug h g = ground (arith, h, g)

present-both : (up gone : Bool) → (not up || gone) ≡ false → (up && not gone) ≡ true
present-both up gone h = ground (arith, h)

some-none : {A : Type 0} (o : Option A) → not (is_some o) ≡ is_none o
some-none none = refl
some-none (some a) = refl

-- A removal of an attachment whose row is in the table. If it returns, the caller is a moderator,
-- or the uploader while neither bug nor project is archived, the attachment was uploaded and not
-- removed, the row is removed now and otherwise as it was, and the job that deletes its object is
-- on the queue, and no other new one. If it raises, the database is unchanged.
pub remove_attachment-Removed :
    (env : Env) (bug : Locked) (pk : ℕ) (actor : Option ℕ) (membership : Option Membership)
    (old : Attachment) (db : Db)
    → lookup pk db.attachments ≡ some old
    → Removed env bug pk actor membership old db (remove_attachment env bug pk actor membership db)
unfolding remove_attachment record_attachment
remove_attachment-Removed env bug pk actor membership old db h =
    atomic-cases (Removed env bug pk actor membership old db)
      (after_fetch _ _ λ found at. after_raise_if _ λ may. after_raise_if _ λ present.
        after_with (removal-checked bug (is_moderator membership) db) λ _ db1 (bound, same).
          after_modify _ (
            after_record _ _ _ _ λ fits. after_modify _ (
              returns _ (
                rw (same_row h at) (
                    allowed-both (is_uploader found actor) (is_moderator membership)
                      (is_attachable bug) may bound),
                rw (same_row h at) (
                    subst (λ b. (is_uploaded found.status && b) ≡ true) (some-none found.removed_at)
                      (present-both (is_uploaded found.status) (is_some found.removed_at) present)),
                ap (λ (a : Attachment). record a { removed_at = some env.now }) (same_row at h),
                rw same (saved_row pk found (record found { removed_at = some env.now }) db at),
                rw (same_row h at, same) refl,
              ))))
      (λ e. refl)

-- What the start of an upload leaves: a pending row under the key returned, whose type is allowed,
-- whose size is in bounds, whose name is a plain file name, and whose storage key is made of keys
-- and of the extension that belongs to the type.
abbrev pub Initiated :
    Env → Locked → Option Membership → Text → ℕ → Db → Result AttachmentError ℕ × Db → Type 0
Initiated env bug membership content_type size db (ok k, db') =
    ((can_upload membership && is_attachable bug) ≡ true)
    × ((leb 1 size && leb size max_attachment_size_bytes) ≡ true)
    × ((row : Attachment) × (extension : Text) × (lookup k db'.attachments ≡ some row)
        × (extension_for_content_type content_type ≡ some extension)
        × (row.storage_key ≡ build_storage_key env bug k extension)
        × (row.size_bytes ≡ size)
        × ((is_pending row.status && is_consistent row && is_file_name row.original_filename)
            ≡ true))
Initiated env bug membership content_type size db (err e, db') = db' ≡ db

inserted_row : (k : ℕ) (a : Attachment) (db : Db) → lookup k (insert k a db.attachments) ≡ some a
inserted_row k a db = rw (lookup-insert k k a db.attachments) (ground arith)

both-allowed : (a b : Bool) → not a ≡ false → b ≡ true → (a && b) ≡ true
both-allowed a b h g = ground (arith, h, g)

size-in_bounds :
    (most size : ℕ) → is_bad_size most size ≡ false → (leb 1 size && leb size most) ≡ true
size-in_bounds most size h = ground (arith, h)

-- The start of an upload that returns was permitted to the role, on a bug that is not archived and
-- is in no archived project, with a size from one byte to the limit and a type that is allowed;
-- the table then holds, under the key returned, a pending row that satisfies the constraint, with
-- that size, a plain file name of at most 255 characters, and a storage key made of keys and of
-- the extension of the type alone. One that raises changes nothing.
pub initiate_upload-Initiated :
    (env : Env) (bug : Locked) (uploader : ℕ) (membership : Option Membership)
    (filename content_type : Text) (size : ℕ) (db : Db)
    → Initiated env bug membership content_type size db
        (initiate_upload env bug uploader membership filename content_type size db)
unfolding initiate_upload is_consistent
initiate_upload-Initiated env bug uploader membership filename content_type size db =
    atomic-cases (Initiated env bug membership content_type size db)
      (after_raise_if _ λ may. after_with (attachable-checked bug db) λ _ db1 (open_bug, same).
        after_fetch _ _ λ extension known. after_raise_if _ λ sized. after_modify _ (
          returns _ (
            both-allowed (can_upload membership) (is_attachable bug) may open_bug,
            size-in_bounds max_attachment_size_bytes size sized,
            (
              _,
              extension,
              inserted_row (env.uuid 0) _ db1,
              known,
              refl,
              refl,
              sanitize_filename-is_file_name filename,
            ),
          )))
      (λ e. refl)

-- The requests on an attachment that is there.
pub data AttachmentCall : Type 0 where
  receive : Parsers → Attachment → UploadedFile → AttachmentCall
  remove : Option Membership → AttachmentCall

abbrev pub call_attachment :
    {F : Type 0}
    → StorageProvider F
    → Env
    → Locked
    → ℕ
    → Option ℕ
    → AttachmentCall
    → SiteAction F Attachment
call_attachment provider env bug pk actor (receive parsers a file) =
    receive_local_upload provider env parsers bug pk a actor file
call_attachment provider env bug pk actor (remove membership) =
    on_db (remove_attachment env bug pk actor membership)

module _ {F : Type 0} (provider : StorageProvider F) (env : Env) (bug : Locked) (pk : ℕ)
    (actor : Option ℕ) (old : Attachment) (s : Site F)
    (h : lookup pk s.db.attachments ≡ some old) where
  after_upload :
      (parsers : Parsers) (a : Attachment) (file : UploadedFile)
      (r : Result AttachmentError Attachment × Site F)
      → Received provider env parsers bug pk a actor file old r
      → Stepped env.now pk old r.1.db
  after_upload parsers a file (ok new, t) (mine, good, stored, is, there) = record {
    row = uploaded_row env.now old;
    there = there ∙ ap some is;
    step = uploads (ground arith);
  }
  after_upload parsers a file (err e, t) spoiled = Spoiled-Stepped spoiled

  after_removal :
      (membership : Option Membership) (r : Result AttachmentError Attachment × Db)
      → Removed env bug pk actor membership old s.db r
      → Stepped env.now pk old (with_db s r).1.db
  after_removal membership (ok new, db') (allowed, present, is, there, queued) = record {
    row = record old { removed_at = some env.now };
    there = there ∙ ap some is;
    step = removes (ground arith) (ground arith);
  }
  after_removal membership (err e, db') same =
      subst (λ d. Stepped env.now pk old d) (sym same) (unmoved h)

  call_attachment-Stepped :
      (call : AttachmentCall)
      → Stepped env.now pk old (call_attachment provider env bug pk actor call s).1.db
  unfolding on_db
  call_attachment-Stepped (receive parsers a file) =
      after_upload parsers a file (receive_local_upload provider env parsers bug pk a actor file s)
        (receive_local_upload-Received provider env parsers bug pk a actor file old s h)
  call_attachment-Stepped (remove membership) =
      after_removal membership (remove_attachment env bug pk actor membership s.db)
        (remove_attachment-Removed env bug pk actor membership old s.db h)

  -- Whatever upload or removal is asked for and whichever way it ends, the row of an attachment
  -- that satisfies the constraint on status and timestamps has made one lawful step at most: from
  -- pending to uploaded or to failed, or from uploaded to removed. It satisfies the constraint
  -- afterwards.
  pub call_attachment-keeps :
      (call : AttachmentCall)
      → is_consistent old ≡ true
      → (new : Attachment) × (lookup pk
            (call_attachment provider env bug pk actor call s).1.db.attachments
          ≡ some new)
        × Advances env.now old new
        × (is_consistent new ≡ true)
  call_attachment-keeps call good =
      let stepped = call_attachment-Stepped call in
      (stepped.row, stepped.there, stepped.step, Advances-is_consistent stepped.step good)
