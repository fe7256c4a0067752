-- ===== src/Notifications/Emails/Laws.antt =====
-- The life of the e-mail of a notification.
use quorfix.Prelude.{
  ℕ, ◌≡◌, refl, ap, ◌∙◌, Bool, true, false, not, ◌&&◌, Option, none, some, ◌∷◌, is_none, is_some,
  has_text, arith, if◌then◌else◌, ==_iff,
}
use quorfix.Env.{Env}
use quorfix.Table.{Table, lookup, update_where}
use quorfix.Table.Laws.{lookup-update_where}
use quorfix.Models.{Db, User, Bug, Notification, NotificationEmailStatus, send_email}
use quorfix.Notifications.Tasks.{is_pending}
use quorfix.Notifications.Emails.{
  Mail, MailFailure, Post, Delivery, nothing_to_do, delivered, queued_again, given_up, uncaught,
  mail_of, is_pending_row, sent_row, failed_row, handle_failure, conclude, Retried, task_queued,
  max_retries_exceeded, raised_again, joined, deliver, send_notification_email,
}

-- `notification_email_status_consistency`, and no error before the last attempt has failed.
unfoldable pub is_email_sound : Notification → Bool
is_email_sound n = elim n.email_status [
  | NotificationEmailStatus.email_pending ↦ is_none n.emailed_at && not (has_text n.email_error)
  | NotificationEmailStatus.email_sent ↦ is_some n.emailed_at && not (has_text n.email_error)
  | NotificationEmailStatus.email_disabled ↦ is_none n.emailed_at && not (has_text n.email_error)
  | NotificationEmailStatus.email_failed ↦ is_none n.emailed_at
]

-- The row after the run has ended one way, of the row that was there when the server answered.
both_left : (a b : Bool) → a && b ≡ true → a ≡ true
both_left a b h = ground (arith, h)

both_right : (a b : Bool) → a && b ≡ true → b ≡ true
both_right a b h = ground (arith, h)

sound_sent :
    (now : ℕ) (n : Notification)
    → is_email_sound n ≡ true
    → is_email_sound (if is_pending (some n) then sent_row now n else n) ≡ true
unfolding is_email_sound
sound_sent now n h = by_status n.email_status h
  where
    by_status :
        (s : NotificationEmailStatus)
        → is_email_sound (record n { email_status = s }) ≡ true
        → is_email_sound (
            if is_pending (some (record n { email_status = s }))
            then sent_row now (record n { email_status = s })
            else record n { email_status = s })
          ≡ true
    by_status NotificationEmailStatus.email_pending g =
        both_right (is_none n.emailed_at) (not (has_text n.email_error)) g
    by_status NotificationEmailStatus.email_sent g = g
    by_status NotificationEmailStatus.email_disabled g = g
    by_status NotificationEmailStatus.email_failed g = g

sound_failed :
    (failure : MailFailure) (n : Notification)
    → is_email_sound n ≡ true
    → is_email_sound (if is_pending (some n) then failed_row failure n else n) ≡ true
unfolding is_email_sound
sound_failed failure n h = by_status n.email_status h
  where
    by_status :
        (s : NotificationEmailStatus)
        → is_email_sound (record n { email_status = s }) ≡ true
        → is_email_sound (
            if is_pending (some (record n { email_status = s }))
            then failed_row failure (record n { email_status = s })
            else record n { email_status = s })
          ≡ true
    by_status NotificationEmailStatus.email_pending g =
        both_left (is_none n.emailed_at) (not (has_text n.email_error)) g
    by_status NotificationEmailStatus.email_sent g = g
    by_status NotificationEmailStatus.email_disabled g = g
    by_status NotificationEmailStatus.email_failed g = g

-- Only the row of the run is looked at, if it is still pending.
lookup-update_pending :
    (f : Notification → Notification) (pk : ℕ) (n : Notification) (t : Table Notification)
    → lookup pk t ≡ some n
    → lookup pk (update_where (is_pending_row pk) f t)
      ≡ some (if is_pending (some n) then f n else n)
lookup-update_pending f pk n t there =
    lookup-update_where (is_pending_row pk) f pk n t there
    ∙ ap (λ b. some (if b && is_pending (some n) then f n else n)) ((==_iff pk pk).1 refl)

-- What a run leaves of the notification `n`, as it was when the mail server had answered.
abbrev pub Delivers : Env → Post → ℕ → ℕ → Notification → Db → Delivery × Db → Type 0
Delivers env post retries pk n db (nothing_to_do, db') = db' ≡ db
Delivers env post retries pk n db (delivered mail, db') =
    (is_pending (lookup pk db.notifications) ≡ true)
    × (post.send_mail mail ≡ none)
    × (lookup pk db'.notifications ≡ some (if is_pending (some n) then sent_row env.now n else n))
    × (is_email_sound (if is_pending (some n) then sent_row env.now n else n) ≡ true)
Delivers env post retries pk n db (queued_again failure, db') =
    (is_pending (lookup pk db.notifications) ≡ true)
    × (post.retry retries failure ≡ task_queued)
    × (db' ≡ record (post.meanwhile db) { jobs = send_email pk ∷ (post.meanwhile db).jobs })
Delivers env post retries pk n db (given_up failure, db') =
    (is_pending (lookup pk db.notifications) ≡ true)
    × (post.retry retries failure ≡ max_retries_exceeded)
    × (lookup pk db'.notifications ≡ some (if is_pending (some n) then failed_row failure n else n))
    × (is_email_sound (if is_pending (some n) then failed_row failure n else n) ≡ true)
Delivers env post retries pk n db (uncaught failure, db') =
    (is_pending (lookup pk db.notifications) ≡ true)
    × (post.retry retries failure ≡ raised_again)
    × (db' ≡ post.meanwhile db)

module _ (env : Env) (post : Post) (retries pk : ℕ) (n : Notification) (db : Db)
    (there : lookup pk (post.meanwhile db).notifications ≡ some n)
    (sound : is_email_sound n ≡ true) where
  conclude-Delivers :
      (mail : Mail) (answer : Option MailFailure)
      → post.send_mail mail ≡ answer
      → is_pending (lookup pk db.notifications) ≡ true
      → Delivers env post retries pk n db
          (conclude env post.retry retries pk mail answer (post.meanwhile db))
  unfolding conclude
  conclude-Delivers mail none is pending = (
    pending,
    is,
    lookup-update_pending (sent_row env.now) pk n (post.meanwhile db).notifications there,
    sound_sent env.now n sound,
  )
  conclude-Delivers mail (some failure) is pending = by_answer (post.retry retries failure) refl
    where
      by_answer :
          (a : Retried)
          → post.retry retries failure ≡ a
          → Delivers env post retries pk n db (handle_failure pk failure a (post.meanwhile db))
      by_answer task_queued e = (pending, e, refl)
      by_answer max_retries_exceeded e = (
        pending,
        e,
        lookup-update_pending (failed_row failure) pk n (post.meanwhile db).notifications there,
        sound_failed failure n sound,
      )
      by_answer raised_again e = (pending, e, refl)

  deliver-Delivers :
      (row : Option Notification)
      → lookup pk db.notifications ≡ row
      → Delivers env post retries pk n db (deliver env post retries pk (joined db row) db)
  deliver-Delivers none e = refl
  deliver-Delivers (some m) e = with_bug (lookup m.bug db.bugs)
    where
      with_all :
          (bug : Bug) (user : User)
          → Delivers env post retries pk n db (deliver env post retries pk (some (m, bug, user)) db)
      with_all bug user = by_test (is_pending (some m)) (ap is_pending e)
        where
          by_test :
              (b : Bool)
              → is_pending (lookup pk db.notifications) ≡ b
              → Delivers env post retries pk n db (
                  if b
                  then conclude env post.retry retries pk
                      (mail_of env post m bug user)
                      (post.send_mail (mail_of env post m bug user))
                      (post.meanwhile db)
                  else (nothing_to_do, db))
          by_test true is =
              conclude-Delivers (mail_of env post m bug user)
                (post.send_mail (mail_of env post m bug user)) refl is
          by_test false is = refl

      with_user :
          (bug : Bug) (user : Option User)
          → Delivers env post retries pk n db (
              deliver env post retries pk
                (elim user as (λ _. Option (Notification × Bug × User)) [
                  | none ↦ none
                  | some user ↦ some (m, bug, user)
                ])
                db)
      with_user bug none = refl
      with_user bug (some user) = with_all bug user

      with_bug :
          (bug : Option Bug)
          → Delivers env post retries pk n db (
              deliver env post retries pk
                (elim bug as (λ _. Option (Notification × Bug × User)) [
                  | none ↦ none
                  | some bug ↦
                      elim (lookup m.recipient db.users)
                        as (λ _. Option (Notification × Bug × User)) [
                          | none ↦ none
                          | some user ↦ some (m, bug, user)
                        ]
                ])
                db)
      with_bug none = refl
      with_bug (some bug) = with_user bug (lookup m.recipient db.users)

  -- A run of the e-mail task, for any answers of the mail server and of Celery, on a notification
  -- whose row is sound when the mail server has answered. It does nothing, or the notification was
  -- pending. Then, if the server took the mail that is reported, the row is marked as sent where
  -- it is still pending, and is otherwise as others left it; if Celery queues the task again, the
  -- job on the queue is all that is added; if it raises that the retries are exceeded, the row is
  -- marked as failed with a summary where it is still pending; if it raises the exception itself,
  -- nothing is written. A row that is marked stays sound.
  pub send_notification_email-Delivers :
      Delivers env post retries pk n db (send_notification_email env post retries pk db)
  unfolding send_notification_email
  send_notification_email-Delivers = deliver-Delivers (lookup pk db.notifications) refl
