-- ===== src/Attachments/Steps.antt =====
-- The parts of the attachment services: what each does to the row, on every way out.
use quorfix.Prelude.{
  ℕ, ◌≡◌, refl, subst, sym, Bool, true, false, ◌&&◌, Option, some, is_none, is_some, arith, ◌⊎◌,
  inl, inr,
}
use quorfix.Exec.{Exec, Result, ok, err, pure, raise, raise_if, modify, ◌>>=◌, ◌>>◌, continue}
use quorfix.Exec.Ensures.{Ensures, atomic-cases, after_fetch, returns, when_modify}
use quorfix.Env.{Env}
use quorfix.Table.{lookup, save}
use quorfix.Table.Laws.{lookup-save}
use quorfix.Models.{Db, Attachment, AttachmentStatus}
use quorfix.Bugs.Monad.{Locked}
use quorfix.Attachments.Services.{
  AttachmentError, Site, Action, SiteAction, on_db, on_files, with_db, with_files, is_pending,
  is_uploaded, check_bug_attachable, fail_row, mark_failed, fail_if,
}
use quorfix.Attachments.Storage.{StorageError}

-- `attachment_status_timestamp_consistency`
unfoldable pub is_consistent : Attachment → Bool
is_consistent a = elim a.status [
  | AttachmentStatus.pending ↦ is_none a.uploaded_at && is_none a.failed_at && is_none a.removed_at
  | AttachmentStatus.uploaded ↦ is_some a.uploaded_at && is_none a.failed_at
  | AttachmentStatus.failed ↦ is_none a.uploaded_at && is_some a.failed_at && is_none a.removed_at
]

-- One step in the life of an attachment, at an instant: there is no way back to `pending` and none
-- between the two ends of an upload, and only what has been uploaded is removed, once.
pub data Advances (now : ℕ) (a : Attachment) : Attachment → Type 0 where
  stays : Advances now a a
  uploads :
      is_pending a.status ≡ true
      → Advances now a (record a { status = AttachmentStatus.uploaded; uploaded_at = some now })
  fails :
      is_pending a.status ≡ true
      → Advances now a (record a { status = AttachmentStatus.failed; failed_at = some now })
  removes :
      is_uploaded a.status ≡ true
      → is_none a.removed_at ≡ true
      → Advances now a (record a { removed_at = some now })

uploads-is_consistent :
    (a : Attachment) (now : ℕ)
    → is_pending a.status ≡ true
    → is_consistent a ≡ true
    → is_consistent (record a { status = AttachmentStatus.uploaded; uploaded_at = some now }) ≡ true
unfolding is_consistent
uploads-is_consistent a now p h = ground arith

fails-is_consistent :
    (a : Attachment) (now : ℕ)
    → is_pending a.status ≡ true
    → is_consistent a ≡ true
    → is_consistent (record a { status = AttachmentStatus.failed; failed_at = some now }) ≡ true
unfolding is_consistent
fails-is_consistent a now p h = ground arith

removes-is_consistent :
    (a : Attachment) (now : ℕ)
    → is_uploaded a.status ≡ true
    → is_consistent a ≡ true
    → is_consistent (record a { removed_at = some now }) ≡ true
unfolding is_consistent
removes-is_consistent a now p h = ground arith

pub Advances-is_consistent :
    {now : ℕ} {a b : Attachment}
    → Advances now a b
    → is_consistent a ≡ true
    → is_consistent b ≡ true
Advances-is_consistent stays h = h
Advances-is_consistent {now} {a} (uploads p) h = uploads-is_consistent a now p h
Advances-is_consistent {now} {a} (fails p) h = fails-is_consistent a now p h
Advances-is_consistent {now} {a} (removes p q) h = removes-is_consistent a now p h

-- The row under the key, one step on.
pub record Stepped (now pk : ℕ) (old : Attachment) (db : Db) : Type 0 where
  pub row : Attachment
  pub there : lookup pk db.attachments ≡ some row
  pub step : Advances now old row

pub unmoved :
    {now pk : ℕ} {old : Attachment} {db : Db}
    → lookup pk db.attachments ≡ some old
    → Stepped now pk old db
unmoved {old} h = record { row = old; there = h; step = stays }

pub attachable-same : (bug : Locked) (db : Db) → (check_bug_attachable bug db).1 ≡ db
unfolding check_bug_attachable ◌>>=◌
attachable-same bug db = by_tests (is_some bug.bug.archived_at) (is_some bug.project.archived_at)
  where
    by_tests :
        (a b : Bool)
        → ((raise_if a AttachmentError.bug_archived >> raise_if b AttachmentError.project_archived)
            db).1
          ≡ db
    by_tests true b = refl
    by_tests false true = refl
    by_tests false false = refl

pub saved_row :
    (pk : ℕ) (old new : Attachment) (db : Db)
    → lookup pk db.attachments ≡ some old
    → lookup pk (save pk new db.attachments) ≡ some new
saved_row pk old new db h = rw (lookup-save pk pk {old = old} new db.attachments h) (ground arith)

abbrev pub spoiled_row : ℕ → Attachment → Attachment
spoiled_row now a = record a { status = AttachmentStatus.failed; failed_at = some now }

-- The row is as it was, or has failed, if it was pending.
abbrev pub Spoiled : ℕ → ℕ → Attachment → Db → Type 0
Spoiled now pk old db =
    (lookup pk db.attachments ≡ some old)
    ⊎ ((is_pending old.status ≡ true) × (lookup pk db.attachments ≡ some (spoiled_row now old)))

pub Spoiled-Stepped :
    {now pk : ℕ} {old : Attachment} {db : Db} → Spoiled now pk old db → Stepped now pk old db
Spoiled-Stepped (inl h) = unmoved h
Spoiled-Stepped {now} {old = old} (inr (pending, h)) = record {
  row = spoiled_row now old;
  there = h;
  step = fails pending;
}

fail_row-Spoiled :
    (env : Env) (pk : ℕ) (a : Attachment) (db : Db)
    → lookup pk db.attachments ≡ some a
    → Ensures (λ _ db'. Spoiled env.now pk a db') (fail_row env pk a) db
fail_row-Spoiled env pk a db h = by_status (is_pending a.status) refl
  where
    by_status :
        (b : Bool)
        → is_pending a.status ≡ b
        → Ensures
            (λ _ db'. Spoiled env.now pk a db')
            (elim b as (λ _. Action Unit) [
              | false ↦ pure tt
              | true ↦
                  modify (λ db. record db {
                    attachments = save pk (spoiled_row env.now a) db.attachments;
                  })
            ])
            db
    by_status false e = returns _ (inl h)
    by_status true e = when_modify _ (inr (e, saved_row pk a (spoiled_row env.now a) db h))

pub same_row : {o : Option Attachment} {a b : Attachment} → o ≡ some a → o ≡ some b → a ≡ b
same_row h e = cc

pub mark_failed-Spoiled :
    (env : Env) (pk : ℕ) (old : Attachment) (db : Db)
    → lookup pk db.attachments ≡ some old
    → Spoiled env.now pk old (mark_failed env pk db).1
unfolding mark_failed
mark_failed-Spoiled env pk old db h =
    atomic-cases (λ r. Spoiled env.now pk old r.1)
      (after_fetch _ _ λ found at.
        subst (λ a. Ensures (λ _ db'. Spoiled env.now pk a db') (fail_row env pk found) db)
          (same_row at h) (fail_row-Spoiled env pk found db at))
      (λ e. inl h)

-- How the parts of `receive_local_upload` end.
module _ {F B : Type 0} (P : Result AttachmentError B × Site F → Type 0) where
  pub check-cases :
      (bug : Locked) (k : Unit → SiteAction F B) (s : Site F)
      → ((e : AttachmentError) → P (err e, s))
      → P (k tt s)
      → P ((on_db (check_bug_attachable bug) >>= k) s)
  unfolding on_db ◌>>=◌
  check-cases bug k s h g = by_result (check_bug_attachable bug s.db) (attachable-same bug s.db)
    where
      by_result :
          (r : Result AttachmentError Unit × Db)
          → r.1 ≡ s.db
          → P (continue (with_db s r).0 k (with_db s r).1)
      by_result (ok _, db') same = subst (λ d. P (k tt (record s { db = d }))) (sym same) g
      by_result (err e, db') same = subst (λ d. P (err e, record s { db = d })) (sym same) (h e)

  pub fail_if-cases :
      (env : Env) (pk : ℕ) (c : Bool) (e : AttachmentError) (k : Unit → SiteAction F B) (s : Site F)
      → ((e' : AttachmentError) → P (err e', record s { db = (mark_failed env pk s.db).1 }))
      → (c ≡ false → P (k tt s))
      → P ((fail_if env pk c e >>= k) s)
  unfolding fail_if ◌>>=◌
  fail_if-cases env pk false e k s h g = g refl
  fail_if-cases env pk true e k s h g = by_result (mark_failed env pk s.db) h
    where
      by_result :
          (r : Result AttachmentError Unit × Db)
          → ((e' : AttachmentError) → P (err e', record s { db = r.1 }))
          → P (
              continue
                (continue {B = Unit} (with_db s r).0 (λ _. raise e) (with_db s r).1).0
                k
                (continue {B = Unit} (with_db s r).0 (λ _. raise e) (with_db s r).1).1)
      by_result (ok _, db') f = f e
      by_result (err e', db') f = f e'

  pub on_files-cases :
      {A : Type 0} (m : Exec StorageError F A) (k : A → SiteAction F B) (s : Site F)
      → ((e : AttachmentError) (files : F) → P (err e, record s { files = files }))
      → ((a : A) (files : F) → m s.files ≡ (ok a, files) → P (k a (record s { files = files })))
      → P ((on_files m >>= k) s)
  unfolding on_files ◌>>=◌
  on_files-cases {A} m k s h g = by_result (m s.files) refl
    where
      by_result :
          (r : Result StorageError A × F)
          → m s.files ≡ r
          → P (continue (with_files s r).0 k (with_files s r).1)
      by_result (ok a, files) is = g a files is
      by_result (err e, files) is = h (AttachmentError.storage_failed e) files
