-- ===== src/Env.antt =====
-- What a request takes from outside the repository, and what the database columns refuse.
use quorfix.Prelude.{ℕ, Text}

-- The clock, the keys that `uuid4` draws one after the other and their text, `str.lower`, `str` of
-- a date, and the hash of an invitation token.
pub record Env : Type 0 where
  pub now : ℕ
  pub uuid : ℕ → ℕ
  pub uuid_text : ℕ → Text
  pub lower : Text → Text
  pub iso_date : ℕ → Text
  pub sha256 : Text → Text
