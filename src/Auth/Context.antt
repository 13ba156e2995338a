-- ===== src/Auth/Context.antt =====
-- internal/auth/context.go: the identity that the interceptor attaches to a request's context.
use build_api.Common.{String, Bool, true, Option, none, some, List, []}

pub record Principal : Type 0 where
  pub user_id : String
  pub full_access : Bool
  pub scopes : List String

-- The two context values that the program reads: the principal, and the incoming gRPC metadata
-- (none where there is none; a missing key has no values).
pub record Context : Type 0 where
  pub principal : Option Principal
  pub metadata : Option (String → List String)

abbrev pub with_principal : Context → Principal → Context
with_principal ctx p = record ctx { principal = some p }

abbrev pub with_user_id : Context → String → Context
with_user_id ctx user_id =
    with_principal ctx (record { user_id = user_id; full_access = true; scopes = [] })

abbrev pub principal_from_context : Context → Option Principal
principal_from_context ctx = ctx.principal

abbrev user_id_of : Option Principal → String
user_id_of none = ""
user_id_of (some p) = p.user_id

abbrev pub user_id_from_context : Context → String
user_id_from_context ctx = user_id_of (principal_from_context ctx)
