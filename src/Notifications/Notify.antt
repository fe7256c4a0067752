-- ===== src/Notifications/Notify.antt =====
-- `notify` of backend/apps/notifications/services.py: the one way from the services to the queue.
-- The task leaves when the transaction commits, in the order of the calls. That a broker may lose
-- it is not modelled here: a job on the queue need not be run.
use quorfix.Prelude.{Bool, true, false, is_none, ◌∷◌, if◌then◌else◌}
use quorfix.Exec.{Exec, ok, err}
use quorfix.Models.{Db, Event, NotificationEventType, create_notifications}

-- `event_type in COMMENT_REQUIRED_EVENT_TYPES`
abbrev pub comment_required : NotificationEventType → Bool
comment_required NotificationEventType.mentioned = true
comment_required NotificationEventType.comment_added = true
comment_required _ = false

-- The `ValueError` of a call without the key that its kind of event needs.
abbrev pub lacks_source : Event → Bool
lacks_source e =
    if comment_required e.event_type then is_none e.comment_id else is_none e.activity_id

unfoldable pub notify : {E : Type 0} → E → Event → Exec E Db Unit
notify value_error e db =
    if lacks_source e
    then (err value_error, db)
    else (ok tt, record db { jobs = create_notifications e ∷ db.jobs })
