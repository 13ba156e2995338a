-- ===== src/Server/Refused.antt =====
-- Whom the server refuses for the scopes of an API key.
use build_api.Common.{String, ◌≡◌, ◌∙◌, refl, true, false, not, ok, err, Result-cases, inl, inr}
use build_api.Status.{Status}
use build_api.World.External.{Environment}
use build_api.World.Effect.{World, Action}
use build_api.Auth.Context.{Context, Principal}
use build_api.Auth.Scopes.{has_scope, public_methods, valid_scopes, enforce_access}
use build_api.Auth.Scopes.Table.{every, enforce_access-unknown_scopes}
use build_api.Auth.Middleware.{extract_bearer_token, authenticate, unary_server_interceptor}
use build_api.Server.{ServerCall, server_method, run_call, serve_call}
use build_api.Server.Passing.{serve_call-interceptor}

module _ {K Q : Type 0} (env : Environment K Q) (secret : String) (ctx : Context) where
  interceptor-denied :
      {Req A : Type 0} (req : Req) (m : String) (h : Context → Req → Action K A) (w : World K)
      (token : String) (p : Principal) (s : Status)
      → has_scope public_methods m ≡ false
      → extract_bearer_token ctx ≡ ok token
      → (authenticate env secret token w).0 ≡ ok p
      → enforce_access m p ≡ err s
      → unary_server_interceptor env secret ctx req m h w
        ≡ (err s, (authenticate env secret token w).1)
  unfolding unary_server_interceptor
  interceptor-denied req m h w token p s protected found known denied =
      rw (protected, found, known, denied) refl

  -- A request with an API key none of whose scopes is, character by character, one of the six known
  -- ones is answered with an error, whichever method of the four services it calls, but for the four
  -- public ones, and leaves the state that the look-up of the key left.
  pub serve_call-unknown_scopes :
      (c : ServerCall) (w : World K) (token : String) (p : Principal)
      → has_scope public_methods (server_method c) ≡ false
      → extract_bearer_token ctx ≡ ok token
      → (authenticate env secret token w).0 ≡ ok p
      → p.full_access ≡ false
      → every (λ s. not (has_scope valid_scopes s)) p.scopes ≡ true
      → (s : Status) × (serve_call env secret ctx c w
          ≡ (err s, (authenticate env secret token w).1))
  serve_call-unknown_scopes c w token p protected found known key unknown =
      elim (Result-cases (enforce_access (server_method c) p)) [
        | inl (_, allowed) ↦
            absurd (enforce_access-unknown_scopes (server_method c) p key unknown allowed)
        | inr (s, denied) ↦ (
          s,
          serve_call-interceptor env secret ctx c w
              ∙ interceptor-denied c (server_method c) (run_call env secret) w token p s protected
                  found known denied,
        )
      ]
