-- ===== src/Notifications/Recipients.antt =====
-- backend/apps/notifications/resolvers.py, with `_resolve_recipients` of tasks.py: who is told of an
-- event. A user is the key of the row.
use quorfix.Prelude.{
  ℕ, ◌≡◌, refl, Bool, true, false, not, Option, none, some, ◌&&◌, ◌||◌, List, [], ◌∷◌, contains,
  all, arith, if◌then◌else◌, ◌==◌, Bool-cases, inl, inr, ap,
}
use quorfix.Table.{Table, filter_rows, exists_row}
use quorfix.Models.{Db, User, Mention, Membership, NotificationEventType}
use quorfix.Comments.Mentions.{is_member}

unfoldable pub is_active_member : Table Membership → ℕ → List ℕ → ℕ → User → Bool
unfolding exists_row
is_active_member memberships organization user_ids k _ =
    contains user_ids k && exists_row (is_member organization k) memberships

abbrev pub user_keys : Table User → List ℕ
user_keys [] = []
user_keys ((k, u) ∷ t) = k ∷ user_keys t

-- `_active_members`
unfoldable pub active_members : Db → ℕ → List ℕ → List ℕ
unfolding filter_rows is_active_member
active_members db organization user_ids =
    user_keys (filter_rows (is_active_member db.memberships organization user_ids) db.users)

-- `str(assignee_id) == str(actor_id)` of an assignee that is there
abbrev pub is_actor : Option ℕ → ℕ → Bool
is_actor none user = false
is_actor (some actor) user = actor == user

unfoldable pub resolve_assignment_recipients : Db → ℕ → Option ℕ → Option ℕ → List ℕ
unfolding active_members
resolve_assignment_recipients db organization none actor = []
resolve_assignment_recipients db organization (some assignee) actor =
    if is_actor actor assignee then [] else active_members db organization (assignee ∷ [])

-- `mentioned_user_ids_for_comment`
unfoldable pub mentioned_user_ids : ℕ → Table Mention → List ℕ
mentioned_user_ids comment [] = []
mentioned_user_ids comment ((k, m) ∷ t) =
    let rest = mentioned_user_ids comment t in
    if m.comment == comment then m.mentioned_user ∷ rest else rest

-- `exclude(...)` of the actor and of a set of users
abbrev pub without : Option ℕ → List ℕ → List ℕ → List ℕ
without actor excluded [] = []
without actor excluded (u ∷ us) =
    let rest = without actor excluded us in
    if is_actor actor u || contains excluded u then rest else u ∷ rest

unfoldable pub resolve_mention_recipients : Db → ℕ → ℕ → Option ℕ → List ℕ
unfolding active_members mentioned_user_ids
resolve_mention_recipients db organization comment actor =
    active_members db organization (without actor [] (mentioned_user_ids comment db.mentions))

abbrev pub watchers_of : ℕ → List (ℕ × ℕ) → List ℕ
watchers_of bug [] = []
watchers_of bug ((b, u) ∷ l) = let rest = watchers_of bug l in if b == bug then u ∷ rest else rest

unfoldable pub resolve_watcher_recipients : Db → ℕ → ℕ → Option ℕ → List ℕ → List ℕ
unfolding active_members
resolve_watcher_recipients db organization bug actor excluded =
    active_members db organization (without actor excluded (watchers_of bug db.bug_watchers))

-- the mentioned users of the comment, if there is one
abbrev pub mentioned_in : Db → Option ℕ → List ℕ
mentioned_in db none = []
mentioned_in db (some comment) = mentioned_user_ids comment db.mentions

abbrev pub mention_recipients : Db → ℕ → Option ℕ → Option ℕ → List ℕ
mention_recipients db organization none actor = []
mention_recipients db organization (some comment) actor =
    resolve_mention_recipients db organization comment actor

-- `_resolve_recipients`, of a bug in the organization and the comment that was found.
unfoldable pub resolve_recipients :
    Db → ℕ → ℕ → NotificationEventType → Option ℕ → Option ℕ → Option ℕ → List ℕ
unfolding resolve_assignment_recipients resolve_mention_recipients resolve_watcher_recipients
    mentioned_user_ids
resolve_recipients db organization bug NotificationEventType.bug_assigned comment actor assignee =
    resolve_assignment_recipients db organization assignee actor
resolve_recipients db organization bug NotificationEventType.mentioned comment actor assignee =
    mention_recipients db organization comment actor
resolve_recipients db organization bug NotificationEventType.comment_added comment actor assignee =
    resolve_watcher_recipients db organization bug actor (mentioned_in db comment)
resolve_recipients db organization bug NotificationEventType.status_changed comment actor assignee =
    resolve_watcher_recipients db organization bug actor []
resolve_recipients db organization bug NotificationEventType.bug_reopened comment actor assignee =
    resolve_watcher_recipients db organization bug actor []

-- The users that another event of the same comment tells.
abbrev pub told_elsewhere : Db → NotificationEventType → Option ℕ → List ℕ
told_elsewhere db NotificationEventType.comment_added comment = mentioned_in db comment
told_elsewhere db _ comment = []

-- A user who may be told: not the actor, none of those told elsewhere, and a member of the
-- organization now.
abbrev pub may_receive : Db → ℕ → Option ℕ → List ℕ → ℕ → Bool
may_receive db organization actor excluded user =
    not (is_actor actor user || contains excluded user)
    && exists_row (is_member organization user) db.memberships

without-clear :
    (actor : Option ℕ) (excluded ids : List ℕ) (u : ℕ)
    → contains (without actor excluded ids) u ≡ true
    → (is_actor actor u || contains excluded u) ≡ false
without-clear actor excluded [] u h = cc
without-clear actor excluded (x ∷ xs) u h =
    ground
      (arith, without-clear actor excluded xs u, same_actor actor x u, same_member excluded x u)
  where
    same_actor :
        (actor : Option ℕ) (x u : ℕ) → (x == u) ≡ true → is_actor actor x ≡ is_actor actor u
    same_actor actor x u e = (let same : x ≡ u = ground arith in ap (is_actor actor) same)

    same_member : (ids : List ℕ) (x u : ℕ) → (x == u) ≡ true → contains ids x ≡ contains ids u
    same_member ids x u e = (let same : x ≡ u = ground arith in ap (contains ids) same)

module _ (db : Db) (organization : ℕ) (actor : Option ℕ) (excluded : List ℕ) where
  allowed_rows :
      (ids : List ℕ) (users : Table User)
      → ((u : ℕ) → contains ids u ≡ true → (is_actor actor u || contains excluded u) ≡ false)
      → all
          (may_receive db organization actor excluded)
          (user_keys (filter_rows (is_active_member db.memberships organization ids) users))
        ≡ true
  unfolding filter_rows is_active_member
  allowed_rows ids [] free = refl
  allowed_rows ids ((k, u) ∷ t) free = ground (arith, allowed_rows ids t free, free k)

  watchers_allowed :
      (bug : ℕ)
      → all
          (may_receive db organization actor excluded)
          (resolve_watcher_recipients db organization bug actor excluded)
        ≡ true
  unfolding resolve_watcher_recipients active_members
  watchers_allowed bug =
      allowed_rows (without actor excluded (watchers_of bug db.bug_watchers)) db.users
        (without-clear actor excluded (watchers_of bug db.bug_watchers))

mentions_allowed :
    (db : Db) (organization : ℕ) (actor : Option ℕ) (comment : Option ℕ)
    → all (may_receive db organization actor []) (mention_recipients db organization comment actor)
      ≡ true
unfolding resolve_mention_recipients active_members
mentions_allowed db organization actor none = refl
mentions_allowed db organization actor (some comment) =
    allowed_rows db organization actor []
      (without actor [] (mentioned_user_ids comment db.mentions)) db.users
      (without-clear actor [] (mentioned_user_ids comment db.mentions))

assignee_allowed :
    (db : Db) (organization : ℕ) (actor : Option ℕ) (assignee : Option ℕ)
    → all
        (may_receive db organization actor [])
        (resolve_assignment_recipients db organization assignee actor)
      ≡ true
unfolding resolve_assignment_recipients active_members
assignee_allowed db organization actor none = refl
assignee_allowed db organization actor (some a) = elim (Bool-cases (is_actor actor a)) [
  | inl e ↦ rw e refl
  | inr e ↦ rw e (allowed_rows db organization actor [] (a ∷ []) db.users (only a e))
]
  where
    only :
        (a : ℕ)
        → is_actor actor a ≡ false
        → (u : ℕ) → contains (a ∷ []) u ≡ true
        → (is_actor actor u || contains [] u) ≡ false
    only a e u h = (let same : a ≡ u = ground arith in rw (← same) (ground (arith, e)))

-- Whoever is told of an event, whatever the event, is a member of the organization at that time,
-- is not the one who caused it, and, of a new comment, is nobody whom the comment mentions.
pub resolve_recipients-allowed :
    (db : Db) (organization bug : ℕ) (event : NotificationEventType)
    (comment actor assignee : Option ℕ)
    → all
        (may_receive db organization actor (told_elsewhere db event comment))
        (resolve_recipients db organization bug event comment actor assignee)
      ≡ true
unfolding resolve_recipients
resolve_recipients-allowed db organization bug NotificationEventType.bug_assigned comment actor
      assignee =
    assignee_allowed db organization actor assignee
resolve_recipients-allowed db organization bug NotificationEventType.mentioned comment actor
      assignee =
    mentions_allowed db organization actor comment
resolve_recipients-allowed db organization bug NotificationEventType.comment_added comment actor
      assignee =
    watchers_allowed db organization actor (mentioned_in db comment) bug
resolve_recipients-allowed db organization bug NotificationEventType.status_changed comment actor
      assignee =
    watchers_allowed db organization actor [] bug
resolve_recipients-allowed db organization bug NotificationEventType.bug_reopened comment actor
      assignee =
    watchers_allowed db organization actor [] bug
