-- ===== src/Attachments/Services.antt =====
-- backend/apps/attachments/policies.py and services.py, over a store of type `F`. The bug and the
-- attachment are the rows that the view has read, so they come in as arguments; the services that
-- change a row read it again under a lock.
use quorfix.Prelude.{
  ℕ, Bool, true, false, not, Option, none, some, ◌||◌, [], ◌∷◌, ◌++◌, Text, codes, ltb, ◌==◌,
  is_some, if◌then◌else◌,
}
use quorfix.Exec.{Exec, Result, ok, err, pure, raise, raise_if, fetch, modify, atomic, ◌>>=◌, ◌>>◌}
use quorfix.Env.{Env}
use quorfix.Table.{lookup, insert, save}
use quorfix.Activities.{record_bug_activity}
use quorfix.Models.{
  Db, Attachment, AttachmentStatus, ScanStatus, Membership, ActivityVerb, Metadata, delete_object,
}
use quorfix.Bugs.Policies.{in_create_roles, is_administrator_role}
use quorfix.Bugs.Monad.{Locked}
use quorfix.Attachments.Filenames.{sanitize_filename}
use quorfix.Attachments.Validators.{
  Bytes, Parsers, extension_for_content_type, is_bad_size, verify_uploaded_content,
}
use quorfix.Attachments.Storage.{StorageError, StorageProvider}

pub data AttachmentError : Type 0 where
  permission_denied bug_archived project_archived attachment_not_pending : AttachmentError
  upload_verification_failed signature_mismatch attachment_not_available : AttachmentError
  unsupported_content_type attachment_too_large http_404 does_not_exist data_error : AttachmentError
  storage_failed : StorageError → AttachmentError

-- The database and the store. A transaction puts back only the first.
pub record Site (F : Type 0) : Type 0 where
  pub db : Db
  pub files : F

abbrev pub Action : Type 0 → Type 0
Action A = Exec AttachmentError Db A

abbrev pub SiteAction : Type 0 → Type 0 → Type 0
SiteAction F A = Exec AttachmentError (Site F) A

module _ {F A : Type 0} where
  abbrev pub with_db : Site F → Result AttachmentError A × Db → Result AttachmentError A × Site F
  with_db s (r, db) = (r, record s { db = db })

  -- What the database does.
  unfoldable pub on_db : Action A → SiteAction F A
  on_db m s = with_db s (m s.db)

  abbrev pub with_files : Site F → Result StorageError A × F → Result AttachmentError A × Site F
  with_files s (ok a, files) = (ok a, record s { files = files })
  with_files s (err e, files) = (err (storage_failed e), record s { files = files })

  -- What the provider does.
  unfoldable pub on_files : Exec StorageError F A → SiteAction F A
  on_files m s = with_files s (m s.files)

  abbrev pub reading : Result StorageError A → F → Result StorageError A × F
  reading r files = (r, files)

-- `settings.MAX_ATTACHMENT_SIZE_BYTES`
abbrev pub max_attachment_size_bytes : ℕ
max_attachment_size_bytes = 10485760

-- The two sets of roles are those of the policies on bugs: all but the viewer, and administrators.
abbrev pub can_upload : Option Membership → Bool
can_upload none = false
can_upload (some m) = in_create_roles m.role

abbrev pub is_uploader : Attachment → Option ℕ → Bool
is_uploader a none = false
is_uploader a (some user) = a.uploaded_by == user

abbrev pub is_moderator : Option Membership → Bool
is_moderator none = false
is_moderator (some m) = is_administrator_role m.role

abbrev pub is_pending : AttachmentStatus → Bool
is_pending AttachmentStatus.pending = true
is_pending _ = false

abbrev pub is_uploaded : AttachmentStatus → Bool
is_uploaded AttachmentStatus.uploaded = true
is_uploaded _ = false

unfoldable pub check_bug_attachable : Locked → Action Unit
check_bug_attachable bug = do
  raise_if (is_some bug.bug.archived_at) bug_archived
  raise_if (is_some bug.project.archived_at) project_archived

-- `_build_storage_key`, with the extension looked up
unfoldable pub build_storage_key : Env → Locked → ℕ → Text → Text
build_storage_key env bug attachment_id extension =
    codes "attachments/"
    ++ (env.uuid_text bug.bug.organization
        ++ (47 ∷ (env.uuid_text bug.pk ++ (47 ∷ (env.uuid_text attachment_id ++ extension)))))

-- `_mark_failed`
abbrev pub fail_row : Env → ℕ → Attachment → Action Unit
fail_row env pk locked = elim (is_pending locked.status) [
  | false ↦ pure tt
  | true ↦ modify (λ db. record db {
    attachments =
        save pk (record locked { status = AttachmentStatus.failed; failed_at = some env.now })
          db.attachments;
  })
]

unfoldable pub mark_failed : Env → ℕ → Action Unit
unfolding lookup save
mark_failed env pk =
    atomic
      (do locked ← fetch (λ db. lookup pk db.attachments) does_not_exist; fail_row env pk locked)

unfoldable pub initiate_upload : Env → Locked → ℕ → Option Membership → Text → Text → ℕ → Action ℕ
unfolding check_bug_attachable extension_for_content_type sanitize_filename build_storage_key insert
initiate_upload env bug uploader membership original_filename content_type size_bytes = atomic (do
  raise_if (not (can_upload membership)) permission_denied
  check_bug_attachable bug
  extension ← fetch (λ _. extension_for_content_type content_type) unsupported_content_type
  raise_if (is_bad_size max_attachment_size_bytes size_bytes) attachment_too_large
  modify (λ db. record db {
    attachments =
        insert (env.uuid 0)
          (record {
            organization = bug.bug.organization;
            bug = bug.pk;
            uploaded_by = uploader;
            original_filename = sanitize_filename original_filename;
            content_type = content_type;
            size_bytes = size_bytes;
            storage_key = build_storage_key env bug (env.uuid 0) extension;
            status = AttachmentStatus.pending;
            scan_status = ScanStatus.not_scanned;
            uploaded_at = none;
            failed_at = none;
            removed_at = none;
          })
          db.attachments;
  })
  pure (env.uuid 0))

-- `_record`, with the description of the attachment
unfoldable pub record_attachment :
    Env → Locked → Option ℕ → ActivityVerb → ℕ → Attachment → Action ℕ
unfolding record_bug_activity
record_attachment env bug actor verb pk a = record_bug_activity data_error (env.uuid 0) (record {
  organization = bug.bug.organization;
  bug = bug.pk;
  actor = actor;
  verb = verb;
  from_value = [];
  to_value = [];
  metadata = Metadata.attachment pk a.original_filename a.content_type a.size_bytes;
  created_at = env.now;
})

-- The locked transaction at the end of `receive_local_upload`.
unfoldable pub finish_upload : Env → Locked → ℕ → Option ℕ → Action Attachment
unfolding lookup save record_attachment
finish_upload env bug pk actor = atomic (do
  locked ← fetch (λ db. lookup pk db.attachments) does_not_exist
  raise_if (not (is_pending locked.status)) attachment_not_pending
  let uploaded = record locked { status = AttachmentStatus.uploaded; uploaded_at = some env.now }
  modify (λ db. record db { attachments = save pk uploaded db.attachments })
  record_attachment env bug actor ActivityVerb.attachment_added pk uploaded
  pure uploaded)

-- An uploaded file, with the size that the request gives for it.
pub record UploadedFile : Type 0 where
  pub size : ℕ
  pub content : Bytes

abbrev pub has_size : ℕ → Option ℕ → Bool
has_size n none = false
has_size n (some size) = size == n

-- `_mark_failed(attachment); raise e`, outside any transaction but its own.
unfoldable pub fail_if : {F : Type 0} → Env → ℕ → Bool → AttachmentError → SiteAction F Unit
unfolding on_db mark_failed
fail_if env pk false e = pure tt
fail_if env pk true e = on_db (mark_failed env pk) >>= λ _. raise e

module _ {F : Type 0} (provider : StorageProvider F) where
  unfoldable pub receive_local_upload :
      Env → Parsers → Locked → ℕ → Attachment → Option ℕ → UploadedFile → SiteAction F Attachment
  unfolding check_bug_attachable verify_uploaded_content fail_if finish_upload
  receive_local_upload env parsers bug pk attachment actor file = do
    raise_if (not (is_uploader attachment actor)) permission_denied
    raise_if (not (is_pending attachment.status)) attachment_not_pending
    on_db (check_bug_attachable bug)
    fail_if env pk (not (file.size == attachment.size_bytes)) upload_verification_failed
    fail_if env pk (not (verify_uploaded_content parsers attachment.content_type file.content))
        signature_mismatch
    on_files (provider.save_stream attachment.storage_key file.content)
    actual_size ← on_files (λ files. (provider.head attachment.storage_key files, files))
    fail_if env pk (not (has_size attachment.size_bytes actual_size)) upload_verification_failed
    on_db (finish_upload env bug pk actor)

  abbrev or_404 : Option Text → SiteAction F Text
  or_404 none = raise http_404
  or_404 (some path) = pure path

  unfoldable pub get_download_path : Attachment → SiteAction F Text
  unfolding on_files
  get_download_path attachment = do
    raise_if (not (is_uploaded attachment.status) || is_some attachment.removed_at) http_404
    path ← on_files (λ files. (provider.resolve_download attachment.storage_key files, files))
    or_404 path

unfoldable pub check_uploader_removal : Locked → Bool → Action Unit
unfolding check_bug_attachable
check_uploader_removal bug true = pure tt
check_uploader_removal bug false = check_bug_attachable bug

-- The cleanup is handed to the broker when the transaction commits. That a broker may lose it is
-- not modelled here: a job on the queue need not be run.
unfoldable pub remove_attachment :
    Env → Locked → ℕ → Option ℕ → Option Membership → Action Attachment
unfolding lookup check_uploader_removal save record_attachment
remove_attachment env bug pk actor membership = atomic (do
  locked ← fetch (λ db. lookup pk db.attachments) does_not_exist
  raise_if (not (is_uploader locked actor || is_moderator membership)) permission_denied
  raise_if (not (is_uploaded locked.status) || is_some locked.removed_at) attachment_not_available
  check_uploader_removal bug (is_moderator membership)
  let removed = record locked { removed_at = some env.now }
  modify (λ db. record db { attachments = save pk removed db.attachments })
  record_attachment env bug actor ActivityVerb.attachment_removed pk removed
  modify (λ db. record db { jobs = delete_object locked.storage_key ∷ db.jobs })
  pure removed)

-- What becomes of one run of `delete_attachment_object`: it is done, it is queued again, or the
-- retries are used up and the object stays (logged, or with the exception raised again by Celery).
pub data Cleanup : Type 0 where
  deleted retried gave_up : Cleanup

abbrev pub max_retries : ℕ
max_retries = 5

abbrev after_delete : {F : Type 0} → ℕ → Result StorageError Unit × F → Cleanup × F
after_delete retries (ok _, files) = (deleted, files)
after_delete retries (err e, files) =
    if ltb retries max_retries then (retried, files) else (gave_up, files)

unfoldable pub delete_attachment_object :
    {F : Type 0} → StorageProvider F → ℕ → Text → F → Cleanup × F
delete_attachment_object provider retries key files =
    after_delete retries (provider.delete key files)
