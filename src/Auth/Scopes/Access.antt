-- ===== src/Auth/Scopes/Access.antt =====
-- Which identity may call which method.
use build_api.Common.{
  String, true, false, ◌≡◌, ◌↔◌, ◌⊎◌, inl, inr, some, List, ok, err, arith, Bool-cases,
  Option-cases,
}
use build_api.Status.{Status, permission_denied}
use build_api.Auth.Context.{Principal}
use build_api.Auth.Scopes.{
  has_scope, lookup, jwt_only_methods, method_required_scope, enforce_access,
}

-- A key's scopes cover a method that is not reserved to sessions.
abbrev pub Covers : List String → String → Type 0
Covers scopes m =
    (required : String) × (lookup method_required_scope m ≡ some required)
    × (has_scope scopes required ≡ true)
    × (has_scope jwt_only_methods m ≡ false)

covered :
    (m : String) (p : Principal)
    → enforce_access m p ≡ ok tt
    → (p.full_access ≡ true) ⊎ Covers p.scopes m
unfolding enforce_access
covered m p h = elim (Bool-cases p.full_access) [
  | inl full ↦ inl full
  | inr key ↦ elim (Option-cases (lookup method_required_scope m)) [
    | inl missing ↦ absurd (ground arith)
    | inr (required, found) ↦ inr (required, found, ground arith, ground arith)
  ]
]

allowed :
    (m : String) (p : Principal)
    → (p.full_access ≡ true) ⊎ Covers p.scopes m
    → enforce_access m p ≡ ok tt
unfolding enforce_access
allowed m p h = ground arith

-- An identity passes exactly if it is a session, or an API key that holds the scope required for
-- the method, where the method is not reserved to sessions.
pub enforce_access_iff :
    (m : String) (p : Principal)
    → (enforce_access m p ≡ ok tt) ↔ ((p.full_access ≡ true) ⊎ Covers p.scopes m)
enforce_access_iff m p = (covered m p, allowed m p)

-- A refusal is always PermissionDenied.
pub enforce_access-code :
    (m : String) (p : Principal) (s : Status)
    → enforce_access m p ≡ err s
    → s.code ≡ permission_denied
unfolding enforce_access
enforce_access-code m p s h = ground arith
