-- ===== src/Notifications/Inbox/Laws.antt =====
-- What the read marks leave of the notifications of a user, and of the others.
use quorfix.Prelude.{
  ℕ, ◌≡◌, refl, ap, sym, subst, ◌∙◌, Bool, true, false, ◌&&◌, Option, none, some, [], ◌∷◌, is_none,
  arith, if◌then◌else◌, ◌==◌,
}
use quorfix.Env.{Env}
use quorfix.Table.{Table, lookup, count_rows, update_where}
use quorfix.Table.Laws.{lookup-update_where}
use quorfix.Models.{Db, Notification}
use quorfix.Notifications.Inbox.{
  is_for, is_unread_for, read_row, unread_count, own, mark_fetched, mark_found, mark_read,
  mark_all_read,
}

-- A change that leaves no row to which it applies.
count_rows-update_where :
    {R : Type 0} (p : ℕ → R → Bool) (f : R → R)
    → ((k : ℕ) (r : R) → p k (f r) ≡ false)
    → (t : Table R) → count_rows p (update_where p f t) ≡ 0
unfolding count_rows update_where
count_rows-update_where p f done [] = refl
count_rows-update_where p f done ((j, q) ∷ t) =
    ground (arith, done j q, count_rows-update_where p f done t)

marked_read :
    (organization recipient now k : ℕ) (n : Notification)
    → is_unread_for organization recipient k (read_row now n) ≡ false
marked_read organization recipient now k n = ground arith

-- After all are marked as read, the number that is answered is the caller's unread count from
-- before, the unread count is zero, and a notification that was there is read now if it was the
-- caller's and unread, and is as it was otherwise.
pub mark_all_read-unread_count :
    (env : Env) (organization recipient : ℕ) (db : Db) (k : ℕ) (n : Notification)
    → lookup k db.notifications ≡ some n
    → ((mark_all_read env organization recipient db).0 ≡ unread_count organization recipient db)
      × (unread_count organization recipient (mark_all_read env organization recipient db).1 ≡ 0)
      × (lookup k (mark_all_read env organization recipient db).1.notifications
          ≡ some (
              if is_for organization recipient n && is_none n.read_at
              then record n { read_at = some env.now }
              else n))
unfolding mark_all_read unread_count
mark_all_read-unread_count env organization recipient db k n there = (
  refl,
  count_rows-update_where (is_unread_for organization recipient) (read_row env.now)
      (marked_read organization recipient env.now) db.notifications,
  lookup-update_where (is_unread_for organization recipient) (read_row env.now) k n db.notifications
      there,
)

and_true : (b : Bool) → b && true ≡ b
and_true b = ground arith

and_false : (b : Bool) → b && false ≡ false
and_false b = ground arith

-- What a request to mark `n`, the row under `pk`, answers, and what it leaves of the row `m` under
-- `k`, by whether `n` is the caller's and whether it is unread.
abbrev pub Marks :
    ℕ → ℕ → Notification → ℕ → Notification → Bool → Bool → Option Notification × Db → Type 0
Marks now pk n k m mine unread (answer, db') =
    (answer ≡ (if mine then some (if unread then read_row now n else n) else none))
    × (lookup k db'.notifications
        ≡ some (if k == pk && (mine && unread) then read_row now m else m))

module _ (now pk : ℕ) (n : Notification) (db : Db) (k : ℕ) (m : Notification)
    (h : lookup k db.notifications ≡ some m) where
  untouched :
      (b : Bool) → b ≡ false → lookup k db.notifications ≡ some (if b then read_row now m else m)
  untouched b e = h ∙ ap (λ c. some (if c then read_row now m else m)) (sym e)

  mark_fetched-Marks :
      (unread : Bool)
      → Marks now pk n k m true unread
          (some (mark_fetched now pk n unread db).0, (mark_fetched now pk n unread db).1)
  mark_fetched-Marks true = (
    refl,
    lookup-update_where (λ k _. k == pk) (read_row now) k m db.notifications h
        ∙ ap (λ b. some (if b then read_row now m else m)) (sym (and_true (k == pk))),
  )
  mark_fetched-Marks false = (refl, untouched (k == pk && false) (and_false (k == pk)))

  mark_found-Marks :
      (mine : Bool)
      → Marks now pk n k m mine
          (is_none n.read_at)
          (mark_found now pk (if mine then some n else none) db)
  mark_found-Marks true = mark_fetched-Marks (is_none n.read_at)
  mark_found-Marks false = (refl, untouched (k == pk && false) (and_false (k == pk)))

-- A request to mark a notification that exists. The answer is the row, read now if it was unread
-- and as it was otherwise, where the notification is the caller's own in the organization, and 404
-- where it is not. Of the notifications that were there, the one that was asked for is written if
-- it is the caller's and unread, and each of the others is as it was.
pub mark_read-Marks :
    (env : Env) (organization recipient pk : ℕ) (db : Db) (n : Notification) (k : ℕ)
    (m : Notification)
    → lookup pk db.notifications ≡ some n
    → lookup k db.notifications ≡ some m
    → Marks env.now pk n k m
        (is_for organization recipient n)
        (is_none n.read_at)
        (mark_read env organization recipient pk db)
unfolding mark_read
mark_read-Marks env organization recipient pk db n k m there h =
    subst
      (λ r.
        Marks env.now pk n k m (is_for organization recipient n) (is_none n.read_at)
          (mark_found env.now pk (own organization recipient r) db))
      (sym there) (mark_found-Marks env.now pk n db k m h (is_for organization recipient n))
