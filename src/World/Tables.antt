-- ===== src/World/Tables.antt =====
-- The tables of migrations/*.up.sql, and the errors of the Postgres driver. Times are microseconds.
use build_api.Common.{ℕ, String, List, Option}

pub record UserRow : Type 0 where
  pub id : String
  pub email : String
  pub password_hash : String
  pub name : String
  pub created_at : ℕ

pub record OrgRow : Type 0 where
  pub id : String
  pub name : String
  pub slug : String
  pub plan : String
  pub created_at : ℕ

pub record MemberRow : Type 0 where
  pub user_id : String
  pub organization_id : String
  pub role : String
  pub joined_at : ℕ

pub record KeyRow : Type 0 where
  pub id : String
  pub user_id : String
  pub name : String
  pub key_prefix : String
  pub key_hash : String
  pub scopes : List String
  pub created_at : ℕ
  pub last_used_at : Option ℕ
  pub expires_at : Option ℕ

-- `drawn` counts the calls of `gen_random_uuid()`.
pub record Db : Type 0 where
  pub users : List UserRow
  pub organizations : List OrgRow
  pub members : List MemberRow
  pub keys : List KeyRow
  pub drawn : ℕ

-- `pgx.ErrNoRows`, a `pgconn.PgError` with its SQLSTATE and text, or another error with its text.
pub data DbError : Type 0 where
  no_rows : DbError
  pg_error : String → String → DbError
  driver_error : String → DbError

-- `err.Error()`
abbrev pub db_error_text : DbError → String
db_error_text no_rows = "no rows in result set"
db_error_text (pg_error sqlstate text) = text
db_error_text (driver_error text) = text
