-- ===== src/Tests/Files.antt =====
-- The theorems on attachments, at the small database and an empty store.
use quorfix.Prelude.{ℕ, ◌≡◌, refl, true, none, some, [], ◌∷◌, codes, Option, length}
use quorfix.Exec.{ok}
use quorfix.Table.{lookup}
use quorfix.Models.{Attachment, AttachmentStatus, ScanStatus}
use quorfix.Attachments.Filenames.{sanitize_filename}
use quorfix.Attachments.Filenames.Laws.{is_file_name, sanitize_filename-is_file_name}
use quorfix.Attachments.Validators.{Parsers, Bytes}
use quorfix.Attachments.Storage.{StorageProvider}
use quorfix.Attachments.Services.{
  Site, UploadedFile, initiate_upload, receive_local_upload, remove_attachment,
}
use quorfix.Attachments.Steps.{Advances, is_consistent}
use quorfix.Attachments.Lifecycle.{Received, receive_local_upload-Received}
use quorfix.Attachments.Removal.{
  Removed, remove_attachment-Removed, Initiated, initiate_upload-Initiated, call_attachment, remove,
  call_attachment-keeps,
}
use quorfix.Tests.Data.{env, admin, developer, db, locked_bug}

sanitize_test : sanitize_filename (codes "C:\\x\\..\\re?port.txt. ") ≡ codes "re_port.txt"
unfolding sanitize_filename
sanitize_test = refl

sanitize_filename-is_file_name_example :
    is_file_name (sanitize_filename (codes "../../a\\.. .")) ≡ true
sanitize_filename-is_file_name_example = sanitize_filename-is_file_name (codes "../../a\\.. .")

abbrev attachment : Attachment
attachment = record {
  organization = 10;
  bug = 1;
  uploaded_by = 2;
  original_filename = codes "log.txt";
  content_type = codes "text/plain";
  size_bytes = 2;
  storage_key = codes "attachments/10/1/60.txt";
  status = AttachmentStatus.pending;
  scan_status = ScanStatus.not_scanned;
  uploaded_at = none;
  failed_at = none;
  removed_at = none;
}

abbrev kept : Attachment
kept = record attachment { status = AttachmentStatus.uploaded; uploaded_at = some 90 }

abbrev site_with : Attachment → Site (Option Bytes)
site_with a = record { db = record db { attachments = (60, a) ∷ [] }; files = none }

abbrev parsers : Parsers
parsers = record { namelist = λ file. none; is_json = λ file. true }

abbrev file : UploadedFile
file = record { size = 2; content = 104 ∷ 105 ∷ [] }

abbrev size_of : Option Bytes → Option ℕ
size_of none = none
size_of (some content) = some (length content)

-- A store of one object.
abbrev provider : StorageProvider (Option Bytes)
provider = record {
  save_stream = λ key content held. (ok tt, some content);
  resolve_download = λ key held. ok none;
  head = λ key held. ok (size_of held);
  delete = λ key held. (ok tt, none);
}

receive_local_upload-Received_example :
    Received provider env parsers locked_bug 60 attachment (some 2) file attachment (
      receive_local_upload provider env parsers locked_bug 60 attachment
        (some 2)
        file
        (site_with attachment))
unfolding lookup
receive_local_upload-Received_example =
    receive_local_upload-Received provider env parsers locked_bug 60 attachment (some 2) file
      attachment (site_with attachment) refl

remove_attachment-Removed_example :
    Removed env locked_bug 60
      (some 2)
      (some developer)
      kept
      (site_with kept).db
      (remove_attachment env locked_bug 60 (some 2) (some developer) (site_with kept).db)
unfolding lookup
remove_attachment-Removed_example =
    remove_attachment-Removed env locked_bug 60 (some 2) (some developer) kept (site_with kept).db
      refl

initiate_upload-Initiated_example :
    Initiated env locked_bug (some developer) (codes "text/plain") 2 db (
      initiate_upload env locked_bug 2
        (some developer)
        (codes "a/log.txt")
        (codes "text/plain")
        2
        db)
initiate_upload-Initiated_example =
    initiate_upload-Initiated env locked_bug 2 (some developer) (codes "a/log.txt")
      (codes "text/plain") 2 db

call_attachment-keeps_example :
    (new : Attachment) × (lookup 60
        (call_attachment provider env locked_bug 60
          (some 1)
          (remove (some admin))
          (site_with kept)).1.db.attachments
      ≡ some new)
    × Advances env.now kept new
    × (is_consistent new ≡ true)
unfolding lookup is_consistent
call_attachment-keeps_example =
    call_attachment-keeps provider env locked_bug 60 (some 1) kept (site_with kept) refl
      (remove (some admin)) refl
