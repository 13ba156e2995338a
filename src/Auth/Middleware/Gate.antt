-- ===== src/Auth/Middleware/Gate.antt =====
-- What stands between a request and a handler: the interceptors.
use build_api.Common.{
  String, false, ◌≡◌, ◌⊎◌, inl, inr, List, [], ◌∷◌, Option-cases, ok, err, arith, Result-cases,
}
use build_api.Status.{Status, unauthenticated, permission_denied}
use build_api.Auth.Keys.{lookup_api_key}
use build_api.Auth.Jwt.{validate_access_token, parse_token}
use build_api.World.External.{Environment}
use build_api.World.Effect.{World, Action}
use build_api.Auth.Context.{Context, Principal, with_principal}
use build_api.Auth.Scopes.{has_scope, public_methods, enforce_access}
use build_api.Auth.Scopes.Access.{enforce_access-code}
use build_api.Auth.Middleware.{
  extract_bearer_token, first_bearer, authenticate, unary_server_interceptor,
}

first_bearer-code :
    (vals : List String) (s : Status) → first_bearer vals ≡ err s → s.code ≡ unauthenticated
unfolding first_bearer
first_bearer-code [] s h = ground arith
first_bearer-code (v ∷ vals) s h = ground (arith, first_bearer-code vals s)

-- A request with no token is always answered by Unauthenticated.
pub extract_bearer_token-code :
    (ctx : Context) (s : Status) → extract_bearer_token ctx ≡ err s → s.code ≡ unauthenticated
unfolding extract_bearer_token
extract_bearer_token-code ctx s h = elim (Option-cases ctx.metadata) [
  | inl missing ↦ ground arith
  | inr (md, found) ↦
      first_bearer-code (md "authorization") s (rw (found, extract_bearer_token) at h)
]

module _ {K Q : Type 0} (env : Environment K Q) (secret : String) where
  -- A token that is not accepted is always answered by Unauthenticated.
  pub authenticate-code :
      (token : String) (w : World K) (s : Status)
      → (authenticate env secret token w).0 ≡ err s
      → s.code ≡ unauthenticated
  unfolding authenticate validate_access_token parse_token lookup_api_key
  authenticate-code token w s h = ground arith

  -- A request that was let through: its token, the identity, and the state in which the handler
  -- starts.
  abbrev pub Admitted : Context → String → World K → Principal → World K → Type 0
  Admitted ctx m w p w' =
      (token : String) × (extract_bearer_token ctx ≡ ok token)
      × (authenticate env secret token w ≡ (ok p, w'))
      × (enforce_access m p ≡ ok tt)

  module _ {Req Resp : Type 0} (ctx : Context) (req : Req) (m : String)
      (h h' : Context → Req → Action K Resp) (w : World K) where
    abbrev Refused : Type 0
    Refused =
        (s : Status) × (w' : World K) × ((s.code ≡ unauthenticated) ⊎ (s.code ≡ permission_denied))
        × (unary_server_interceptor env secret ctx req m h w ≡ (err s, w'))
        × (unary_server_interceptor env secret ctx req m h' w ≡ (err s, w'))

    abbrev Passed : Type 0
    Passed =
        (p : Principal) × (w' : World K) × Admitted ctx m w p w'
        × (unary_server_interceptor env secret ctx req m h w ≡ h (with_principal ctx p) req w')

    -- A method that is not public runs its handler only with the identity that the request's token
    -- was resolved to and that may call the method; otherwise the answer is Unauthenticated or
    -- PermissionDenied, and it is the same answer and state whatever the handler is.
    pub unary_server_interceptor-gate : has_scope public_methods m ≡ false → Refused ⊎ Passed
    unfolding unary_server_interceptor
    unary_server_interceptor-gate protected = elim (Result-cases (extract_bearer_token ctx)) [
      | inr (s, no_token) ↦
          inl (s, w, inl (extract_bearer_token-code ctx s no_token), ground arith, ground arith)
      | inl (token, found) ↦ elim (Result-cases (authenticate env secret token w).0) [
        | inr (s, unknown) ↦ inl (
          s,
          (authenticate env secret token w).1,
          inl (authenticate-code token w s unknown),
          ground arith,
          ground arith,
        )
        | inl (p, known) ↦ elim (Result-cases (enforce_access m p)) [
          | inr (s, denied) ↦ inl (
            s,
            (authenticate env secret token w).1,
            inr (enforce_access-code m p s denied),
            ground arith,
            ground arith,
          )
          | inl (_, allowed) ↦ inr (
            p,
            (authenticate env secret token w).1,
            (token, found, ground arith, ground arith),
            ground arith,
          )
        ]
      ]
    ]
