-- ===== src/Notifications/Preferences.antt =====
-- The e-mail preferences of a user: `list_resolved_preferences` and `update_preference` of
-- backend/apps/notifications/services.py.
pub mod Laws
pub mod Updates
use quorfix.Prelude.{
  ℕ, Bool, true, false, ◌&&◌, Option, none, some, List, [], ◌∷◌, map, ◌==◌, if◌then◌else◌,
}
use quorfix.Env.{Env}
use quorfix.Table.{Table, insert, save, find_row}
use quorfix.Models.{NotificationPreference, NotificationEventType}
use quorfix.Notifications.Tasks.{same_event, is_preference_for}

-- `NotificationEventType.values`
abbrev pub event_types : List NotificationEventType
event_types =
    NotificationEventType.bug_assigned ∷ NotificationEventType.mentioned
    ∷ NotificationEventType.comment_added ∷ NotificationEventType.status_changed
    ∷ NotificationEventType.bug_reopened ∷ []

-- `existing`, the rows of the user as a dictionary, in which a later row replaces an earlier one
unfoldable pub existing : ℕ → ℕ → Table NotificationPreference → List (NotificationEventType × Bool)
existing organization user [] = []
existing organization user ((_, p) ∷ t) =
    let rest = existing organization user t in
    if p.organization == organization && p.user == user
    then (p.event_type, p.email_enabled) ∷ rest
    else rest

abbrev pub or_earlier : Bool → Bool → Option Bool → Option Bool
or_earlier same enabled (some later) = some later
or_earlier same enabled none = if same then some enabled else none

unfoldable pub value_of : List (NotificationEventType × Bool) → NotificationEventType → Option Bool
value_of [] event = none
value_of ((e, enabled) ∷ t) event = or_earlier (same_event e event) enabled (value_of t event)

-- `existing.get(event_type, True)`
abbrev pub or_enabled : Option Bool → Bool
or_enabled none = true
or_enabled (some enabled) = enabled

unfoldable pub list_resolved_preferences :
    ℕ → ℕ → Table NotificationPreference → List (NotificationEventType × Bool)
unfolding existing value_of
list_resolved_preferences organization user preferences =
    map (λ e. (e, or_enabled (value_of (existing organization user preferences) e))) event_types

-- `update_or_create`
abbrev pub update_found :
    ℕ
    → NotificationPreference
    → Option (ℕ × NotificationPreference)
    → Table NotificationPreference
    → Table NotificationPreference
update_found key new none preferences = insert key new preferences
update_found key new (some (k, old)) preferences =
    save k (record old { email_enabled = new.email_enabled }) preferences

unfoldable pub update_preference :
    Env
    → ℕ
    → ℕ
    → NotificationEventType
    → Bool
    → Table NotificationPreference
    → Table NotificationPreference
unfolding insert save find_row
update_preference env organization user event enabled preferences =
    update_found (env.uuid 0)
      (record {
        organization = organization;
        user = user;
        event_type = event;
        email_enabled = enabled;
      })
      (find_row (is_preference_for organization user event) preferences) preferences
