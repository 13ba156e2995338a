-- ===== src/Auth/Validation.antt =====
-- The checks of `CreateUserApiKey` on the scopes and the lifetime of a key, and the reading of a
-- driver's error (internal/auth/handler.go).
pub mod Scopes
pub mod Lifetime
use Prim.Native.String
use build_api.Common.{
  ℕ, zero, suc, ◌+◌, ◌*◌, ltb, String, ◌==◌, Bool, true, false, ◌||◌, Option, none, some, List, [],
  ◌∷◌, Result, ok, err, if◌then◌else◌,
}
use build_api.Common.Int.{ℤ, pos, negsuc}
use build_api.Status.{Status, status_error, invalid_argument}
use build_api.Text.{trim_space, contains}
use build_api.Auth.Scopes.{has_scope, valid_scopes}
use build_api.Auth.Jwt.{second}
use build_api.World.Tables.{DbError, no_rows, pg_error, driver_error, db_error_text}
use build_api.World.Sql.{unique_violation}

-- `isUniqueViolation`
unfoldable pub is_unique_violation : DbError → Bool
is_unique_violation (pg_error sqlstate text) = sqlstate == unique_violation
is_unique_violation e =
    contains (db_error_text e) "duplicate key" || contains (db_error_text e) "unique constraint"

abbrev invalid : String → Status
invalid = status_error invalid_argument

-- The loop over the scopes; `seen` holds the trimmed scopes of the rounds before.
unfoldable pub check_scopes : List String → List String → Result Status (Unit {0})
check_scopes seen [] = ok tt
check_scopes seen (sc ∷ scopes) =
    let rest = check_scopes (trim_space sc ∷ seen) scopes in
    if trim_space sc == ""
    then err (invalid "invalid empty scope")
    else if has_scope valid_scopes (trim_space sc)
    then (if has_scope seen (trim_space sc)
        then err (invalid (String.◌++◌ "duplicate scope: " (trim_space sc)))
        else rest)
    else err (invalid (String.◌++◌ "unknown scope: " (trim_space sc)))

-- `time.Time.AddDate(0, 0, d)` in UTC
unfoldable pub add_days : ℕ → ℕ → ℕ
add_days now d = now + d * 86400 * second

abbrev bad_lifetime : Status
bad_lifetime =
    invalid "expires_in_days must be -1 (never), 0 (default 365 days), or between 1 and 3650"

-- The `switch` on `expires_in_days`.
unfoldable pub expiry_of : ℕ → ℤ → Result Status (Option ℕ)
expiry_of now (negsuc zero) = ok none
expiry_of now (negsuc (suc n)) = err bad_lifetime
expiry_of now (pos zero) = ok (some (add_days now 365))
expiry_of now (pos (suc n)) =
    if ltb 3650 (suc n) then err bad_lifetime else ok (some (add_days now (suc n)))
