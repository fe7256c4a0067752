-- ===== src/Notifications/Preferences/Laws.antt =====
-- The two readings of the e-mail preferences agree.
use quorfix.Prelude.{
  ℕ, suc, ◌≡◌, refl, ap, sym, ◌∙◌, Bool, true, false, ◌&&◌, Option, none, some, List, [], ◌∷◌, map,
  leb, arith, ◌==◌, if◌then◌else◌,
}
use quorfix.Table.{Table, first, lesser, count_rows}
use quorfix.Table.Firsts.{first_of_none}
use quorfix.Models.{NotificationPreference, NotificationEventType}
use quorfix.Notifications.Tasks.{same_event, is_preference_for, enabled_by, is_email_enabled}
use quorfix.Notifications.Preferences.{
  event_types, existing, or_earlier, or_enabled, value_of, list_resolved_preferences,
}

not_this : (enabled : Bool) (rest : Option Bool) → or_earlier false enabled rest ≡ rest
not_this enabled none = refl
not_this enabled (some later) = refl

module _ (organization user : ℕ) (event : NotificationEventType) where
  -- A row counts where it is a preference for the event.
  value_of-existing :
      (j : ℕ) (p : NotificationPreference) (t : Table NotificationPreference)
      → value_of (existing organization user ((j, p) ∷ t)) event
        ≡ or_earlier
            (is_preference_for organization user event j p)
            p.email_enabled
            (value_of (existing organization user t) event)
  unfolding existing value_of
  value_of-existing j p t = by_owner (p.organization == organization) (p.user == user)
    where
      by_owner :
          (a b : Bool)
          → value_of
              (if a && b
                then (p.event_type, p.email_enabled) ∷ existing organization user t
                else existing organization user t)
              event
            ≡ or_earlier
                (a && b && same_event p.event_type event)
                p.email_enabled
                (value_of (existing organization user t) event)
      by_owner true true = refl
      by_owner true false =
          sym (not_this p.email_enabled (value_of (existing organization user t) event))
      by_owner false b =
          sym (not_this p.email_enabled (value_of (existing organization user t) event))

  value_of-none :
      (t : Table NotificationPreference)
      → count_rows (is_preference_for organization user event) t ≡ 0
      → value_of (existing organization user t) event ≡ none
  unfolding count_rows existing value_of
  value_of-none [] h = refl
  value_of-none ((j, p) ∷ t) h =
      value_of-existing j p t
      ∙ by_test (is_preference_for organization user event j p) h (value_of-none t)
    where
      by_test :
          (b : Bool)
          → (if b
              then suc (count_rows (is_preference_for organization user event) t)
              else count_rows (is_preference_for organization user event) t)
            ≡ 0
          → (count_rows (is_preference_for organization user event) t ≡ 0
              → value_of (existing organization user t) event ≡ none)
          → or_earlier b p.email_enabled (value_of (existing organization user t) event) ≡ none
      by_test true g ih = ground (arith, g)
      by_test false g ih =
          not_this p.email_enabled (value_of (existing organization user t) event) ∙ ih g

  same_reading :
      (t : Table NotificationPreference)
      → leb (count_rows (is_preference_for organization user event) t) 1 ≡ true
      → or_enabled (value_of (existing organization user t) event)
        ≡ enabled_by (first (is_preference_for organization user event) t)
  unfolding count_rows existing value_of first
  same_reading [] h = refl
  same_reading ((j, p) ∷ t) h =
      ap or_enabled (value_of-existing j p t)
      ∙ by_test (is_preference_for organization user event j p) h (same_reading t)
    where
      alone :
          count_rows (is_preference_for organization user event) t ≡ 0
          → or_enabled
              (or_earlier true p.email_enabled (value_of (existing organization user t) event))
            ≡ enabled_by
                (some (lesser (j, p) (first (is_preference_for organization user event) t)))
      alone last =
          ap (λ r. or_enabled (or_earlier true p.email_enabled r)) (value_of-none t last)
          ∙ ap (λ r. enabled_by (some (lesser (j, p) r)))
              (sym (first_of_none (is_preference_for organization user event) t last))

      by_test :
          (b : Bool)
          → leb
              (if b
                then suc (count_rows (is_preference_for organization user event) t)
                else count_rows (is_preference_for organization user event) t)
              1
            ≡ true
          → (leb (count_rows (is_preference_for organization user event) t) 1 ≡ true
              → or_enabled (value_of (existing organization user t) event)
                ≡ enabled_by (first (is_preference_for organization user event) t))
          → or_enabled
              (or_earlier b p.email_enabled (value_of (existing organization user t) event))
            ≡ enabled_by (
                if b
                then some (lesser (j, p) (first (is_preference_for organization user event) t))
                else first (is_preference_for organization user event) t)
      by_test true g ih = alone (ground (arith, g))
      by_test false g ih =
          ap or_enabled (not_this p.email_enabled (value_of (existing organization user t) event))
          ∙ ih g

same_map : {A B : Type 0} (f g : A → B) → ((a : A) → f a ≡ g a) → (l : List A) → map f l ≡ map g l
same_map f g h [] = refl
same_map f g h (a ∷ l) = cc (h a, same_map f g h l)

-- Where a user has one row at most for each kind of event, as the unique constraint demands, the
-- list of preferences shows for every kind of event what `is_email_enabled` answers for it.
pub list_resolved_preferences-is_email_enabled :
    (organization user : ℕ) (preferences : Table NotificationPreference)
    → ((event : NotificationEventType)
        → leb (count_rows (is_preference_for organization user event) preferences) 1 ≡ true)
    → list_resolved_preferences organization user preferences
      ≡ map (λ event. (event, is_email_enabled preferences organization user event)) event_types
unfolding list_resolved_preferences is_email_enabled
list_resolved_preferences-is_email_enabled organization user preferences once =
    same_map _ _
      (λ event.
        ap (λ b. (event, b)) (same_reading organization user event preferences (once event)))
      event_types
