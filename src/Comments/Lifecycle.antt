-- ===== src/Comments/Lifecycle.antt =====
-- The states of a comment: only an active one changes, and one that is closed stays closed.
use quorfix.Prelude.{
  ℕ, ◌≡◌, refl, Bool, true, false, Option, some, ◌&&◌, ◌||◌, arith, is_none, Text, text_eq, sym,
  subst, [], strip, ap, ◌∙◌, if◌then◌else◌,
}
use quorfix.Exec.{Result, ok, err, pure}
use quorfix.Exec.Ensures.{
  Ensures, after_with, after_fetch, after_raise_if, atomic-cases, returns, weaker,
}
use quorfix.Env.{Env}
use quorfix.Table.{lookup}
use quorfix.Table.Laws.{lookup-save}
use quorfix.Models.{Db, Comment, CommentStatus, Membership, ActivityVerb}
use quorfix.Bugs.Monad.{Locked}
use quorfix.Comments.Services.{
  CommentError, Action, is_active_status, is_comment_author, is_moderator, is_within_edit_window,
  save_comment, write_edit, edit_comment, delete_comment, redact_comment,
}
use quorfix.Comments.Steps.{
  IsSound, is_consistent, Written, commentable-same, normalize_body-same, save_comment-Written,
  deletion-same,
}

-- The requests on a comment that is there, with the user and the membership they come from.
pub data CommentCall : Type 0 where
  edit : Text → CommentCall
  remove : Option Membership → CommentCall
  redact : Option Membership → CommentCall

abbrev pub call_comment : Env → Locked → ℕ → Option ℕ → CommentCall → Action Comment
call_comment env bug pk actor (edit body) = edit_comment env bug pk actor body
call_comment env bug pk actor (remove m) = delete_comment env bug pk actor m
call_comment env bug pk actor (redact m) = redact_comment env bug pk actor m

-- Neither the bug nor its project is archived.
abbrev pub is_commentable : Locked → Bool
is_commentable bug = is_none bug.bug.archived_at && is_none bug.project.archived_at

-- Who may do what: an author while the window is open and the bug is not archived; a moderator may
-- delete and redact at any time, but never edit.
abbrev pub is_allowed : Env → Locked → Option ℕ → Comment → CommentCall → Bool
is_allowed env bug actor c (edit body) =
    is_comment_author c actor && (is_commentable bug && is_within_edit_window env.now c)
is_allowed env bug actor c (remove m) =
    is_moderator m
    || (is_comment_author c actor && (is_commentable bug && is_within_edit_window env.now c))
is_allowed env bug actor c (redact m) = is_moderator m

-- The row that a call leaves: an edit writes the stripped text, if it is another one; a deletion
-- and a redaction clear the text and note the time.
abbrev pub settled_row : Env → CommentCall → Comment → Comment
settled_row env (edit body) old =
    if text_eq (strip body) old.body
    then old
    else record old { body = strip body; edited_at = some env.now }
settled_row env (remove m) old = record old {
  body = [];
  status = CommentStatus.deleted;
  deleted_at = some env.now;
}
settled_row env (redact m) old = record old {
  body = [];
  status = CommentStatus.redacted;
  redacted_at = some env.now;
}

-- A call that returns was allowed, found the comment active, and reports the sound row that the
-- table then holds; a call that raises changes nothing.
abbrev pub Settles :
    Env
    → Locked
    → ℕ
    → Option ℕ
    → Comment
    → CommentCall
    → Db
    → Result CommentError Comment × Db
    → Type 0
Settles env bug pk actor old call db (ok c, db') =
    (is_allowed env bug actor old call ≡ true)
    × (is_active_status old.status ≡ true)
    × (c ≡ settled_row env call old)
    × IsSound c
    × (lookup pk db'.comments ≡ some c)
Settles env bug pk actor old call db (err e, db') = db' ≡ db

same_row : {o : Option Comment} {a b : Comment} → o ≡ some a → o ≡ some b → a ≡ b
same_row h e = cc

saved_comment_found :
    (pk : ℕ) (old c new : Comment) (db db1 db' : Db)
    → lookup pk db.comments ≡ some old
    → db1 ≡ db
    → Written pk c new db1 db'
    → lookup pk db'.comments ≡ some new
saved_comment_found pk old c new db db1 db' row same (is, saved) =
    rw (saved, same, is, lookup-save pk pk {old = old} c db.comments row) (ground arith)

edited-IsSound :
    (c : Comment) (body : Text) (now : ℕ)
    → IsSound c
    → is_active_status c.status ≡ true
    → IsSound (record c { body = body; edited_at = some now })
unfolding is_consistent
edited-IsSound c body now sound active = record {
  consistent = sound.consistent;
  cleared = ground arith;
}

deleted-IsSound :
    (c : Comment) (now : ℕ)
    → IsSound c
    → is_active_status c.status ≡ true
    → IsSound (record c { body = []; status = CommentStatus.deleted; deleted_at = some now })
      × IsSound (record c { body = []; status = CommentStatus.redacted; redacted_at = some now })
unfolding is_consistent
deleted-IsSound c now sound active = (
  record { consistent = ground (arith, sound.consistent); cleared = refl },
  record { consistent = ground (arith, sound.consistent); cleared = refl },
)

write_edit-IsSound :
    (env : Env) (bug : Locked) (actor : Option ℕ) (pk : ℕ) (c : Comment) (body : Text) (db : Db)
    → lookup pk db.comments ≡ some c
    → IsSound c
    → is_active_status c.status ≡ true
    → Ensures
        (λ new db'.
          (new ≡ (
            if text_eq body c.body then c else record c { body = body; edited_at = some env.now }))
          × IsSound new
          × (lookup pk db'.comments ≡ some new))
        (write_edit env bug actor pk c body)
        db
unfolding write_edit
write_edit-IsSound env bug actor pk c body db row sound active = by_test (text_eq body c.body)
  where
    by_test :
        (b : Bool)
        → Ensures
            (λ new db'.
              (new ≡ (if b then c else record c { body = body; edited_at = some env.now }))
              × IsSound new
              × (lookup pk db'.comments ≡ some new))
            (elim b [
              | true ↦ pure c
              | false ↦
                  save_comment env bug actor ActivityVerb.comment_edited pk
                    (record c { body = body; edited_at = some env.now })
            ])
            db
    by_test true = returns _ (refl, sound, row)
    by_test false =
        let edited : Comment = record c { body = body; edited_at = some env.now } in
        weaker (save_comment-Written env bug actor ActivityVerb.comment_edited pk edited db)
          λ new db' wrote. (
            wrote.0,
            subst IsSound (sym wrote.0) (edited-IsSound c body env.now sound active),
            saved_comment_found pk c edited new db db db' row refl wrote,
          )

module _ (env : Env) (bug : Locked) (pk : ℕ) (actor : Option ℕ) (c : Comment) (db : Db)
    (row : lookup pk db.comments ≡ some c) (sound : IsSound c) where
  edit_comment-Settles :
      (body : Text)
      → Settles env bug pk actor c (edit body) db (edit_comment env bug pk actor body db)
  unfolding edit_comment
  edit_comment-Settles body =
      atomic-cases (Settles env bug pk actor c (edit body) db)
        (after_fetch _ _ λ found at.
          let same = same_row at row in
          after_raise_if _ λ author. after_with (commentable-same bug db) λ _ db1 (a, b, same1).
            after_raise_if _ λ active. after_raise_if _ λ within.
              after_with (normalize_body-same body db1) λ text db2 (stripped, _, _, same2).
                weaker
                  (write_edit-IsSound env bug actor pk found text db2 (rw (same2, same1) at)
                    (subst IsSound (sym same) sound) (ground arith))
                  λ new db' (is, good, there). (
                    rw (← same) (ground arith),
                    rw (← same) (ground arith),
                    is ∙ edited_row text found stripped same,
                    good,
                    there,
                  ))
        (λ e. refl)
    where
      edited_row :
          (text : Text) (found : Comment)
          → text ≡ strip body
          → found ≡ c
          → (if text_eq text found.body
              then found
              else record found { body = text; edited_at = some env.now })
            ≡ settled_row env (edit body) c
      edited_row text found stripped same =
          subst
            (λ t.
              (if text_eq t found.body
                then found
                else record found { body = t; edited_at = some env.now })
              ≡ settled_row env (edit body) c)
            (sym stripped) (ap (settled_row env (edit body)) same)

  -- A write that closes the comment.
  closes :
      (verb : ActivityVerb) (closed : Comment) (db1 : Db)
      → IsSound closed
      → db1 ≡ db
      → Ensures
          (λ new db'. (new ≡ closed) × IsSound new × (lookup pk db'.comments ≡ some new))
          (save_comment env bug actor verb pk closed)
          db1
  closes verb closed db1 good same =
      weaker (save_comment-Written env bug actor verb pk closed db1) λ new db' wrote. (
        wrote.0,
        subst IsSound (sym wrote.0) good,
        saved_comment_found pk c closed new db db1 db' row same wrote,
      )

  delete_comment-Settles :
      (m : Option Membership)
      → Settles env bug pk actor c (remove m) db (delete_comment env bug pk actor m db)
  unfolding delete_comment
  delete_comment-Settles m =
      atomic-cases (Settles env bug pk actor c (remove m) db)
        (after_fetch _ _ λ found at.
          let same = same_row at row in
          after_raise_if _ λ may. after_raise_if _ λ active.
            after_with (deletion-same env bug (is_moderator m) found db) λ _ db1 (bound, same1).
              weaker
                (closes _ _ db1
                  ((deleted-IsSound found env.now (subst IsSound (sym same) sound)
                    (ground arith)).0)
                  same1)
                λ new db' (is, good, there). (
                  rw (← same) (ground arith),
                  rw (← same) (ground arith),
                  is ∙ ap (settled_row env (remove m)) same,
                  good,
                  there,
                ))
        (λ e. refl)

  redact_comment-Settles :
      (m : Option Membership)
      → Settles env bug pk actor c (redact m) db (redact_comment env bug pk actor m db)
  unfolding redact_comment
  redact_comment-Settles m =
      atomic-cases (Settles env bug pk actor c (redact m) db)
        (after_fetch _ _ λ found at.
          let same = same_row at row in
          after_raise_if _ λ may. after_raise_if _ λ active.
            weaker
              (closes _ _ db
                ((deleted-IsSound found env.now (subst IsSound (sym same) sound) (ground arith)).1)
                refl)
              λ new db' (is, good, there). (
                ground arith,
                rw (← same) (ground arith),
                is ∙ ap (settled_row env (redact m)) same,
                good,
                there,
              ))
        (λ e. refl)

  -- An edit, a deletion or a redaction of a comment that is in the table, satisfies the status
  -- constraint and has text only while active. If it returns, the caller was allowed to make it
  -- (an edit: the author, inside the edit window, on a bug that is not archived; a deletion: the
  -- same, or a moderator at any time; a redaction: a moderator), and the comment was active. The
  -- table then holds the comment returned: after an edit the old row with the stripped text and
  -- the time of the edit, or as it was if the text is the same; after a deletion or a redaction
  -- the old row without text, with that status and its time. It again satisfies the constraint and
  -- has text only while active. If it raises, the database is unchanged.
  pub call_comment-Settles :
      (call : CommentCall)
      → Settles env bug pk actor c call db (call_comment env bug pk actor call db)
  call_comment-Settles (edit body) = edit_comment-Settles body
  call_comment-Settles (remove m) = delete_comment-Settles m
  call_comment-Settles (redact m) = redact_comment-Settles m

-- A call on a comment that has been deleted or redacted, satisfies the status constraint and has
-- no text left leaves the whole database unchanged.
closed_comment_stays :
    (env : Env) (bug : Locked) (pk : ℕ) (actor : Option ℕ) (c : Comment) (db : Db)
    (call : CommentCall)
    → lookup pk db.comments ≡ some c
    → IsSound c
    → is_active_status c.status ≡ false
    → (call_comment env bug pk actor call db).1 ≡ db
closed_comment_stays env bug pk actor c db call row sound closed =
    settled (call_comment env bug pk actor call db)
      (call_comment-Settles env bug pk actor c db row sound call)
  where
    settled :
        (r : Result CommentError Comment × Db) → Settles env bug pk actor c call db r → r.1 ≡ db
    settled (ok new, db') (allowed, active, is, good, there) = cc (active, closed)
    settled (err e, db') h = h
