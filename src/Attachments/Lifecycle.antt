-- ===== src/Attachments/Lifecycle.antt =====
-- What an upload and a removal leave behind, whichever way they end.
use quorfix.Prelude.{
  ℕ, ◌≡◌, refl, ap, subst, sym, ◌∙◌, true, false, not, ◌&&◌, Option, none, some, both, arith, ◌==◌,
  inl,
}
use quorfix.Exec.{Result, ok, err}
use quorfix.Exec.Ensures.{
  atomic-cases, raise_if-cases, after_fetch, after_raise_if, after_modify, returns,
}
use quorfix.Env.{Env}
use quorfix.Table.{lookup}
use quorfix.Activities.Rules.{after_record}
use quorfix.Models.{Db, Attachment, AttachmentStatus}
use quorfix.Bugs.Monad.{Locked}
use quorfix.Attachments.Validators.{Parsers, verify_uploaded_content}
use quorfix.Attachments.Storage.{StorageProvider}
use quorfix.Attachments.Services.{
  AttachmentError, Site, with_db, is_uploader, is_pending, has_size, UploadedFile, mark_failed,
  finish_upload, receive_local_upload, record_attachment,
}
use quorfix.Attachments.Steps.{
  Spoiled, saved_row, same_row, mark_failed-Spoiled, check-cases, fail_if-cases, on_files-cases,
}

abbrev pub uploaded_row : ℕ → Attachment → Attachment
uploaded_row now a = record a { status = AttachmentStatus.uploaded; uploaded_at = some now }

abbrev pub Finished : Env → ℕ → Attachment → Db → Result AttachmentError Attachment × Db → Type 0
Finished env pk old db (ok a, db') =
    (is_pending old.status ≡ true)
    × (a ≡ uploaded_row env.now old)
    × (lookup pk db'.attachments ≡ some a)
Finished env pk old db (err e, db') = db' ≡ db

finish_upload-Finished :
    (env : Env) (bug : Locked) (pk : ℕ) (actor : Option ℕ) (old : Attachment) (db : Db)
    → lookup pk db.attachments ≡ some old
    → Finished env pk old db (finish_upload env bug pk actor db)
unfolding finish_upload record_attachment
finish_upload-Finished env bug pk actor old db h =
    atomic-cases (Finished env pk old db)
      (after_fetch _ _ λ found at. after_raise_if _ λ pending. after_modify _ (
        after_record _ _ _ _ λ fits. returns _ (
          rw (same_row h at) (ground arith),
          ap (uploaded_row env.now) (same_row at h),
          saved_row pk found (uploaded_row env.now found) db at,
        )))
      (λ e. refl)

has_size-some : (n : ℕ) (o : Option ℕ) → not (has_size n o) ≡ false → o ≡ some n
has_size-some n none h = cc h
has_size-some n (some size) h = ground (arith, h)

module _ {F : Type 0} (provider : StorageProvider F) (env : Env) (parsers : Parsers) (bug : Locked)
    (pk : ℕ) (a : Attachment) (actor : Option ℕ) (file : UploadedFile) where
  -- What an upload leaves: if it returns, the caller had started it, it was pending, the bytes were
  -- of the size and the kind that were declared, the store holds as many under its key, and the
  -- row is uploaded now; if it raises, the row is as it was, or has failed.
  abbrev pub Received : Attachment → Result AttachmentError Attachment × Site F → Type 0
  Received old (ok new, s) =
      ((is_uploader a actor && is_pending a.status && is_pending old.status) ≡ true)
      × ((file.size == a.size_bytes && verify_uploaded_content parsers a.content_type file.content)
          ≡ true)
      × (provider.head a.storage_key s.files ≡ ok (some a.size_bytes))
      × (new ≡ uploaded_row env.now old)
      × (lookup pk s.db.attachments ≡ some new)
  Received old (err e, s) = Spoiled env.now pk old s.db

  with_db-Received :
      (old : Attachment) (s : Site F) (r : Result AttachmentError Attachment × Db)
      → lookup pk s.db.attachments ≡ some old
      → (is_uploader a actor && is_pending a.status) ≡ true
      → (file.size == a.size_bytes && verify_uploaded_content parsers a.content_type file.content)
        ≡ true
      → provider.head a.storage_key s.files ≡ ok (some a.size_bytes)
      → Finished env pk old s.db r
      → Received old (with_db s r)
  with_db-Received old s (ok new, db) h mine good stored (pending, is, there) =
      (ground (arith, mine, pending), good, stored, is, there)
  with_db-Received old s (err e, db) h mine good stored same =
      subst (λ d. Spoiled env.now pk old d) (sym same) (inl h)

  -- An upload to an attachment whose row is in the table, with whatever copy of the row the view
  -- had read. If it returns, the caller had started the upload, it was pending both in the copy
  -- and in the row, the file had the size and the kind of content that were declared, the store
  -- holds an object of that size under the key, and the row, which is returned, is uploaded now
  -- and otherwise as it was. If it raises, the row is as it was, or it was pending and has failed.
  pub receive_local_upload-Received :
      (old : Attachment) (s : Site F)
      → lookup pk s.db.attachments ≡ some old
      → Received old (receive_local_upload provider env parsers bug pk a actor file s)
  unfolding receive_local_upload
  receive_local_upload-Received old s h =
      raise_if-cases (Received old) _ _ _ s (λ _. inl h)
        λ mine.
          raise_if-cases (Received old) _ _ _ s (λ _. inl h)
            λ pending.
              check-cases (Received old) bug _ s (λ e. inl h)
                (fail_if-cases (Received old) env pk _ _ _ s (λ e. failed s h)
                  λ sized.
                    fail_if-cases (Received old) env pk _ _ _ s (λ e. failed s h)
                      λ verified.
                        on_files-cases (Received old) _ _ s (λ e files. inl h)
                          λ _ files stored.
                            on_files-cases (Received old) _ _ (record s { files = files })
                              (λ e files'. inl h)
                              λ actual files' read.
                                fail_if-cases (Received old) env pk _ _ _
                                  (record s { files = files' })
                                  (λ e. failed (record s { files = files' }) h)
                                  λ there.
                                    with_db-Received old (record s { files = files' })
                                      (finish_upload env bug pk actor s.db) h
                                      (both _ _ mine pending) (both _ _ sized verified)
                                      (rw (← ap (λ p. p.1) read) (
                                        ap (λ p. p.0) read
                                        ∙ ap ok (has_size-some a.size_bytes actual there)))
                                      (finish_upload-Finished env bug pk actor old s.db h))
    where
      failed :
          (t : Site F)
          → lookup pk t.db.attachments ≡ some old
          → Spoiled env.now pk old (mark_failed env pk t.db).1
      failed t g = mark_failed-Spoiled env pk old t.db g
