-- ===== src/Notifications/Tasks/Retries.antt =====
-- The task that creates notifications may be run again: the second run changes nothing.
use quorfix.Prelude.{
  ℕ, suc, ◌≡◌, refl, Bool, true, false, not, Option, none, some, ◌&&◌, List, [], ◌∷◌, if◌then◌else◌,
  arith, All, subst, sym, is_none, ap,
}
use quorfix.Exec.{Result, ok, err}
use quorfix.Env.{Env}
use quorfix.Table.{Table, lookup, insert, exists_row}
use quorfix.Models.{
  Db, Notification, NotificationPreference, Event, Organization, Bug, Job, NotificationEventType,
}
use quorfix.Bugs.Services.Duplicates.{bug_in_organization}
use quorfix.Notifications.Notify.{comment_required}
use quorfix.Notifications.Tasks.{
  TaskError, integrity_error, Found, same_event, is_notification_of, notification_row, create_one,
  create_each, commit, is_empty, dispatch_emails, create_found, find_again, recipients_of,
  create_notifications_for_event,
}

same_event_refl : (e : NotificationEventType) → same_event e e ≡ true
same_event_refl e = ground arith

module _ (preferences : Table NotificationPreference) (f : Found) where
  row_matches : (k r : ℕ) → is_notification_of f r k (notification_row preferences f r) ≡ true
  unfolding is_notification_of notification_row
  row_matches k r = ground (arith, same_event_refl f.event.event_type)

  -- Rows are only added.
  create_each-keeps :
      (env : Env) (k : ℕ) (rs : List ℕ) (ns : Table Notification) (p : ℕ → Notification → Bool)
      → exists_row p ns ≡ true
      → exists_row p (create_each env preferences f k rs ns).1 ≡ true
  unfolding create_each
  create_each-keeps env k [] ns p h = h
  create_each-keeps env k (r ∷ rs) ns p h =
      create_each-keeps env (suc k) rs _ p (still (exists_row (is_notification_of f r) ns))
    where
      still :
          (b : Bool)
          → exists_row p (create_one (env.uuid k) (notification_row preferences f r) b ns) ≡ true
      still true = h
      still false = inserted
        where
          inserted : exists_row p (insert (env.uuid k) (notification_row preferences f r) ns) ≡ true
          inserted = ground (arith, h)

  -- After the loop every recipient has the notification.
  abbrev HaveAll : List ℕ → Table Notification → Type 0
  HaveAll rs ns = All (λ r. exists_row (is_notification_of f r) ns ≡ true) rs

  create_each-HaveAll :
      (env : Env) (k : ℕ) (rs : List ℕ) (ns : Table Notification)
      → HaveAll rs (create_each env preferences f k rs ns).1
  unfolding create_each
  create_each-HaveAll env k [] ns = tt
  create_each-HaveAll env k (r ∷ rs) ns = (
    create_each-keeps env (suc k) rs _ (is_notification_of f r)
        (there (exists_row (is_notification_of f r) ns) refl),
    create_each-HaveAll env (suc k) rs _,
  )
    where
      there :
          (b : Bool)
          → exists_row (is_notification_of f r) ns ≡ b
          → exists_row
              (is_notification_of f r)
              (create_one (env.uuid k) (notification_row preferences f r) b ns)
            ≡ true
      there true h = h
      there false h = made
        where
          made :
              exists_row
                (is_notification_of f r)
                (insert (env.uuid k) (notification_row preferences f r) ns)
              ≡ true
          made = ground (arith, row_matches (env.uuid k) r)

  -- Where all have it, the loop creates nothing.
  create_each-again :
      (env : Env) (k : ℕ) (rs : List ℕ) (ns : Table Notification)
      → HaveAll rs ns
      → create_each env preferences f k rs ns ≡ ([], ns)
  unfolding create_each
  create_each-again env k [] ns h = refl
  create_each-again env k (r ∷ rs) ns (here, rest) =
      rw here (rw (create_each-again env (suc k) rs ns rest) refl)

-- What a block that did not raise leaves.
committed :
    (b : Bool) (db d db' : Db)
    → ◌≡◌ {A = Result TaskError Unit × Db}
        (if b then (err integrity_error, db) else (ok tt, d))
        (ok tt, db')
    → db' ≡ d
committed true db d db' h = cc h
committed false db d db' h = sym (ap (λ (p : Result TaskError Unit × Db). p.1) h)

commit-ok :
    (f : Found) (db db' : Db) (r : List ℕ × Table Notification)
    → commit f db r ≡ (ok tt, db')
    → (js : List Job) × (db' ≡ record db { notifications = r.1; jobs = js })
unfolding commit
commit-ok f db db' (created, ns) h = (
  _,
  committed (comment_required f.event.event_type && is_none f.comment && not (is_empty created)) db
      _ db' h,
)

again : (f : Found) (db : Db) → commit f db ([], db.notifications) ≡ (ok tt, db)
unfolding commit dispatch_emails
again f db = ground arith

module _ (env later : Env) (e : Event) (db : Db) where
  rerun :
      (ns : Table Notification) (js : List Job)
      → ns
        ≡ (create_each env db.preferences
            (find_again db e)
            0
            (recipients_of db e)
            db.notifications).1
      → commit
          (find_again db e)
          (record db { notifications = ns; jobs = js })
          (create_each later db.preferences (find_again db e) 0 (recipients_of db e) ns)
        ≡ (ok tt, record db { notifications = ns; jobs = js })
  rerun ns js same =
      rw
        (create_each-again db.preferences (find_again db e) later 0 (recipients_of db e) ns (
          subst (HaveAll db.preferences (find_again db e) (recipients_of db e)) (sym same) (
            create_each-HaveAll db.preferences (find_again db e) env 0 (recipients_of db e)
              db.notifications)))
        (again (find_again db e) (record db { notifications = ns; jobs = js }))

  found_again :
      (o : Option Organization) (b : Option Bug) (db' : Db)
      → create_found env e db o b ≡ (ok tt, db')
      → create_found later e db' o b ≡ (ok tt, db')
  unfolding find_again recipients_of
  found_again (some o) (some b) db' h =
      let (js, same) = commit-ok (find_again db e) db db' _ h in
      subst (λ d. create_found later e d (some o) (some b) ≡ (ok tt, d)) (sym same)
        (rerun _ js refl)
  found_again none b db' h = refl
  found_again (some o) none db' h = refl

  kept_rows :
      (o : Option Organization) (b : Option Bug) (db' : Db)
      → create_found env e db o b ≡ (ok tt, db')
      → (db'.organizations ≡ db.organizations) × (db'.bugs ≡ db.bugs)
  kept_rows (some o) (some b) db' h =
      let (js, same) = commit-ok (find_again db e) db db' _ h in
      (ap (λ (d : Db). d.organizations) same, ap (λ (d : Db). d.bugs) same)
  kept_rows none b db' h = (cc h, cc h)
  kept_rows (some o) none db' h = (cc h, cc h)

-- A task that has succeeded may be run again with the same event, at any later time and with other
-- keys drawn: the second run succeeds too and changes nothing, neither a notification nor the
-- queue.
pub create_notifications_for_event-again :
    (env later : Env) (e : Event) (db db' : Db)
    → create_notifications_for_event env e db ≡ (ok tt, db')
    → create_notifications_for_event later e db' ≡ (ok tt, db')
unfolding create_notifications_for_event bug_in_organization
create_notifications_for_event-again env later e db db' h =
    let o = lookup e.organization_id db.organizations in
    let b = bug_in_organization e.organization_id e.bug_id db in
    let (organizations, bugs) = kept_rows env later e db o b db' h in
    subst
      (λ (t : Table Organization).
        create_found later e db' (lookup e.organization_id t)
          (bug_in_organization e.organization_id e.bug_id db')
        ≡ (ok tt, db'))
      (sym organizations)
      (subst
        (λ (t : Table Bug).
          create_found later e db' o
            (bug_in_organization e.organization_id e.bug_id (record db { bugs = t }))
          ≡ (ok tt, db'))
        (sym bugs) (found_again env later e db o b db' h))
