-- ===== src/Bugs/Versions/Tags.antt =====
-- `add_tag` and `remove_tag`.
use quorfix.Prelude.{ℕ, ◌≡◌, ◌⊎◌, inl, inr, some, none, Option, refl, ap, Text, Bool, true, false}
use quorfix.Exec.{ok}
use quorfix.Exec.Ensures.{
  Ensures, after_with, after_raise_if, after_gets, after_modify, returns, atomic-cases,
  raise_if-cases,
}
use quorfix.Env.{Env}
use quorfix.Table.{lookup, save}
use quorfix.Links.{linked}
use quorfix.Activities.Rules.{after_record}
use quorfix.Models.{Db, Bug, Membership, Tag}
use quorfix.Bugs.Monad.Rules.{
  after_lock_bug, after_check_version, after_check_mutable, after_save_bug,
}
use quorfix.Bugs.Services.Tags.{
  add_tag, remove_tag, get_or_create_tag, tag_or_new, attach_tag, detach_tag,
}
use quorfix.Bugs.Versions.{Versioned}
use quorfix.Bugs.Versions.Saved.{saved-Versioned, kept-Versioned}

-- Finding or making a tag leaves the bugs and their tags alone, and finding one everything.
abbrev TagReady : ℕ → Db → ℕ × Tag → Db → Type 0
TagReady pk db t db' =
    (db'.bugs ≡ db.bugs) × (db'.bug_tags ≡ db.bug_tags) × ((db' ≡ db) ⊎ (t.0 ≡ pk))

tag_or_new-TagReady :
    (pk : ℕ) (tag : Tag) (found : Option (ℕ × Tag)) (db : Db)
    → Ensures (TagReady pk db) (tag_or_new pk tag found) db
tag_or_new-TagReady pk tag (some t) db = returns _ (refl, refl, inl refl)
tag_or_new-TagReady pk tag none db =
    after_raise_if _ λ fits. after_modify _ (returns _ (refl, refl, inr refl))

get_or_create_tag-TagReady :
    (pk : ℕ) (tag : Tag) (db : Db) → Ensures (TagReady pk db) (get_or_create_tag pk tag) db
unfolding get_or_create_tag
get_or_create_tag-TagReady pk tag db = after_gets _ _ (tag_or_new-TagReady pk tag _ db)

-- A tag that the bug has was not made by this call, whose new key no link has yet.
tagged_unchanged :
    (bug pk : ℕ) (t : ℕ × Tag) (db db1 : Db)
    → TagReady pk db t db1
    → linked bug pk db.bug_tags ≡ false
    → linked bug t.0 db1.bug_tags ≡ true
    → db1 ≡ db
tagged_unchanged bug pk t db db1 (_, _, inl same) fresh tagged = same
tagged_unchanged bug pk t db db1 (_, links, inr key) fresh tagged = cc

module _ (env : Env) (pk : ℕ) (actor : Option ℕ) (m : Option Membership) (expected : ℕ) where
  attached :
      (old : Bug) (tag : ℕ × Tag) (tagged : Bool) (db db1 : Db)
      → lookup pk db.bugs ≡ some old
      → old.version ≡ expected
      → (db1.bugs ≡ db.bugs)
      → (tagged ≡ true → db1 ≡ db)
      → Ensures
          (λ b db'. Versioned pk expected db (ok b, db'))
          (attach_tag env pk old actor tag tagged)
          db1
  attached old tag true db db1 row v same e = returns _ ((old, row, v), inr (e refl))
  attached old tag false db db1 row v same e = after_modify _ (
      after_save_bug _ _ (
        after_record _ _ _ _ λ fits.
          returns _ (saved-Versioned pk expected old _ db row v refl (ap (save pk _) same))))

  detached :
      (old : Bug) (tag_pk : ℕ) (tag : Option Tag) (tagged : Bool) (db : Db)
      → lookup pk db.bugs ≡ some old
      → old.version ≡ expected
      → Ensures
          (λ b db'. Versioned pk expected db (ok b, db'))
          (detach_tag env pk old actor tag_pk tag tagged)
          db
  detached old tag_pk (some tag) true db row v = after_modify _ (
      after_save_bug _ _ (
        after_record _ _ _ _
          λ fits. returns _ (saved-Versioned pk expected old _ db row v refl refl)))
  detached old tag_pk (some tag) false db row v =
      returns _ (kept-Versioned pk expected old old db row v)
  detached old tag_pk none tagged db row v = returns _ (kept-Versioned pk expected old old db row v)

  pub remove_tag-Versioned :
      (tag_pk : ℕ) (db : Db)
      → Versioned pk expected db (remove_tag env pk actor m tag_pk expected db)
  unfolding remove_tag
  remove_tag-Versioned tag_pk db =
      atomic-cases (Versioned pk expected db)
        (after_lock_bug _ _ λ bug project row parent. after_check_version _ _ λ v.
          after_check_mutable bug project λ a b.
            after_raise_if _
              λ may. after_gets _ _ (after_gets _ _ (detached bug tag_pk _ _ db row v)))
        (λ e. refl)

  pub add_tag-Versioned :
      (name : Text) (db : Db)
      → linked pk (env.uuid 0) db.bug_tags ≡ false
      → Versioned pk expected db (add_tag env pk actor m name expected db)
  unfolding add_tag
  add_tag-Versioned name db fresh =
      raise_if-cases (Versioned pk expected db) _ _ _ _ (λ _. refl)
        λ _.
          atomic-cases (Versioned pk expected db)
            (after_lock_bug _ _ λ bug project row parent. after_check_version _ _ λ v.
              after_check_mutable bug project λ a b. after_raise_if _ λ may.
                after_with (get_or_create_tag-TagReady _ _ db) λ tag db1 ready. after_gets _ _ (
                  attached bug tag _ db db1 row v ready.0
                    (tagged_unchanged pk (env.uuid 0) tag db db1 ready fresh)))
            (λ e. refl)
