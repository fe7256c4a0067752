-- ===== src/Notifications/Preferences/Updates.antt =====
-- What an update of an e-mail preference leaves.
use quorfix.Prelude.{
  ℕ, ◌≡◌, refl, ap, Bool, true, false, ◌&&◌, Option, none, some, leb, arith, ◌==◌,
}
use quorfix.Env.{Env}
use quorfix.Table.{Table, find_row, count_rows}
use quorfix.Table.Others.{IsKeyed}
use quorfix.Table.Laws.{find_row_passes}
use quorfix.Table.Firsts.{
  lookup-find_row, first-save_miss, first-save_hit, count_of_none, first-insert_hit,
  first-insert_miss,
}
use quorfix.Models.{NotificationPreference, NotificationEventType}
use quorfix.Notifications.Tasks.{same_event, is_preference_for, enabled_by, is_email_enabled}
use quorfix.Notifications.Preferences.{update_found, update_preference}

abbrev pub same_preference : ℕ → ℕ → NotificationEventType → ℕ → ℕ → NotificationEventType → Bool
same_preference o u e o' u' e' = o == o' && u == u' && same_event e e'

same_event_trans :
    (a b c : NotificationEventType) → same_event a b ≡ true → same_event a c ≡ same_event b c
same_event_trans a b c h = ground (arith, h)

same_event_refl : (e : NotificationEventType) → same_event e e ≡ true
same_event_refl e = ground arith

is_own : (o u : ℕ) (e : NotificationEventType) → same_preference o u e o u e ≡ true
is_own o u e = ground (arith, same_event_refl e)

module _ (o u : ℕ) (e : NotificationEventType) (o' u' : ℕ) (e' : NotificationEventType)
    (differs : same_preference o u e o' u' e' ≡ false) where
  not_both :
      (k : ℕ) (p : NotificationPreference)
      → is_preference_for o u e k p ≡ true
      → is_preference_for o' u' e' k p ≡ false
  not_both k p h = ground (arith, h, differs, same_event_trans p.event_type e e')

  -- The preferences after an update.
  abbrev pub Updated : Bool → Table NotificationPreference → Table NotificationPreference → Type 0
  Updated enabled t new =
      (is_email_enabled new o u e ≡ enabled)
      × (is_email_enabled new o' u' e' ≡ is_email_enabled t o' u' e')

  -- An update of a preference, where the keys of the rows are distinct and the user has one row at
  -- most for that kind of event. `is_email_enabled` then answers what was set, and answers as
  -- before for any other organization, user or kind of event.
  pub update_preference-Updated :
      (env : Env) (enabled : Bool) (t : Table NotificationPreference)
      → IsKeyed t
      → leb (count_rows (is_preference_for o u e) t) 1 ≡ true
      → Updated enabled t (update_preference env o u e enabled t)
  unfolding update_preference is_email_enabled
  update_preference-Updated env enabled t keyed once =
      by_found (find_row (is_preference_for o u e) t) refl
    where
      new : NotificationPreference
      new = record { organization = o; user = u; event_type = e; email_enabled = enabled }

      by_found :
          (found : Option (ℕ × NotificationPreference))
          → find_row (is_preference_for o u e) t ≡ found
          → Updated enabled t (update_found (env.uuid 0) new found t)
      by_found none is = (
        ap enabled_by (
            first-insert_hit (is_preference_for o u e) (env.uuid 0) new t
              (count_of_none (is_preference_for o u e) t is) (is_own o u e)),
        ap enabled_by (first-insert_miss (is_preference_for o' u' e') (env.uuid 0) new t differs),
      )
      by_found (some (k, old)) is = (
        ap enabled_by (
            first-save_hit (is_preference_for o u e) k old (record old { email_enabled = enabled })
              t keyed once matches is),
        ap enabled_by (
            first-save_miss (is_preference_for o' u' e') k old
              (record old { email_enabled = enabled }) t keyed (not_both k old matches)
              (not_both k old matches)
              (lookup-find_row (is_preference_for o u e) t k old keyed is)),
      )
        where
          matches : is_preference_for o u e k old ≡ true
          matches = find_row_passes (is_preference_for o u e) k t is
