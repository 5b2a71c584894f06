-- ===== src/Uuid.antt =====
-- libuuid, which the daemon links against. A `uuid_t` is kept as the number that its 16 bytes
-- spell, and the library's functions are parameters with the behaviour that uuid(3) documents.
pub mod Sample
use gnu_lash.Prelude.{ℕ, ◌≡◌, ◌↔◌, Bool, true, Option, some, Str}

abbrev pub Uuid : Type 0
Uuid = ℕ

pub record UuidLib : Type 0 where
  -- uuid_compare (a, b) == 0
  pub same : Uuid → Uuid → Bool
  pub same_iff : (a b : Uuid) → (same a b ≡ true) ↔ (a ≡ b)
  -- the NULL value, which uuid_clear writes and a zeroed structure holds
  pub null : Uuid
  pub is_null : Uuid → Bool
  pub is_null_iff : (a : Uuid) → (is_null a ≡ true) ↔ (a ≡ null)
  pub unparse : Uuid → Str
  -- `none` where uuid_parse returns -1
  pub parse : Str → Option Uuid
  pub parse-unparse : (a : Uuid) → parse (unparse a) ≡ some a
