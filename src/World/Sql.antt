-- ===== src/World/Sql.antt =====
-- SQL statements that several components run, as functions on the tables, and what all statements
-- share. A statement gives its rows or an error, and the tables it leaves.
use build_api.Common.{String, ◌==◌, Bool, ◌&&◌, Option, none, some, Result, ok, err}
use build_api.Common.Lists.{any_row}
use build_api.World.Tables.{Db, MemberRow, DbError, no_rows, pg_error}
use build_api.World.External.{Postgres}

-- `unique_violation` and `foreign_key_violation`
abbrev pub unique_violation : String
unique_violation = "23505"

abbrev pub foreign_key_violation : String
foreign_key_violation = "23503"

abbrev pub violation {ℓ} : {A : Type ℓ} → Postgres → String → Result DbError A
violation pg sqlstate = err (pg_error sqlstate (pg.error_text sqlstate))

-- A parameter that Postgres compares with a UUID column.
abbrev pub with_uuid {ℓ} :
    {A : Type ℓ} → Postgres → String → (String → Result DbError A × Db) → Db → Result DbError A × Db
with_uuid pg text k db = elim (pg.uuid_in text) [ err e ↦ (err e, db) | ok id ↦ k id ]

-- `QueryRow(...).Scan(...)`
abbrev pub one_row {ℓ} : {A : Type ℓ} → Option A → Result DbError A
one_row none = err no_rows
one_row (some a) = ok a

abbrev pub is_membership : String → String → MemberRow → Bool
is_membership user_id org_id m = m.user_id == user_id && m.organization_id == org_id

-- SELECT EXISTS(SELECT 1 FROM organization_members WHERE user_id = $1 AND organization_id = $2)
unfoldable pub select_is_member : Postgres → String → String → Db → Result DbError Bool × Db
select_is_member pg user_id org_id db =
    with_uuid pg user_id
      (λ uid. with_uuid pg org_id (λ oid. (ok (any_row (is_membership uid oid) db.members), db)) db)
      db
