-- ===== src/Gateway/Targets/AuthRoutes.antt =====
-- The routes of api/gen/buildapi/v1/auth.pb.gw.go against the calls of the service.
use build_api.Common.{String, inr, List, [], ◌∷◌, refl}
use build_api.Common.Lists.{All}
use build_api.Api.Zero.{
  zero_create_user_api_key_request, zero_login_request, zero_refresh_token_request,
  zero_register_request, zero_update_profile_request,
}
use build_api.Auth.Context.{Context}
use build_api.World.Effect.{Action}
use build_api.Auth.Rpc.{AuthCall, AuthReply, auth_method}
use build_api.Gateway.Runtime.{Runtime, PathParams}
use build_api.Gateway.Edge.{HttpRequest}
use build_api.Api.Methods.{
  register_method, login_method, get_me_method, update_profile_method, refresh_token_method,
  create_user_api_key_method, list_user_api_keys_method, revoke_user_api_key_method,
}
use build_api.Gateway.AuthProxy.{
  request_register, request_login, request_get_me, request_update_profile, request_refresh_token,
  request_create_user_api_key, request_list_user_api_keys, request_revoke_user_api_key,
  pattern_register, pattern_login, pattern_get_me, pattern_update_profile, pattern_refresh_token,
  pattern_create_user_api_key, pattern_list_user_api_keys, pattern_revoke_user_api_key,
  register_auth_service_handler_client,
}
use build_api.Gateway.Targets.{Forwards, IsFaithful, Refuses, captured, with_param, with_body}

-- The parameters of the path, and what a call has for them.
abbrev pub auth_targets : AuthCall → List (String × String)
auth_targets (AuthCall.register_user req) = []
auth_targets (AuthCall.log_in req) = []
auth_targets AuthCall.me = []
auth_targets (AuthCall.rename req) = []
auth_targets (AuthCall.refresh req) = []
auth_targets (AuthCall.create_key req) = []
auth_targets AuthCall.list_keys = []
auth_targets (AuthCall.revoke_key req) = ("id", req.id) ∷ []

-- The decoder refuses the body that a method reads.
pub data AuthRefusal (rt : Runtime) (req : HttpRequest) : String → Type 0 where
  register_body :
      Refuses rt.marshaler.register_request req.body zero_register_request
      → AuthRefusal rt req register_method
  login_body :
      Refuses rt.marshaler.login_request req.body zero_login_request
      → AuthRefusal rt req login_method
  update_profile_body :
      Refuses rt.marshaler.update_profile_request req.body zero_update_profile_request
      → AuthRefusal rt req update_profile_method
  refresh_token_body :
      Refuses rt.marshaler.refresh_token_request req.body zero_refresh_token_request
      → AuthRefusal rt req refresh_token_method
  create_user_api_key_body :
      Refuses rt.marshaler.create_user_api_key_request req.body zero_create_user_api_key_request
      → AuthRefusal rt req create_user_api_key_method

module _ {K : Type 0} (rt : Runtime) (client : Context → AuthCall → Action K AuthReply) where
  request_register-Forwards :
      (ctx : Context) (req : HttpRequest) (params : PathParams)
      → Forwards rt client auth_method auth_targets
          (AuthRefusal rt)
          register_method
          (captured pattern_register)
          req
          ctx
          params
          (request_register rt client ctx req params)
  unfolding request_register
  request_register-Forwards ctx req params =
      with_body rt client auth_method auth_targets (AuthRefusal rt) _ (captured pattern_register) _
        ctx params rt.marshaler.register_request req.body zero_register_request
        AuthRefusal.register_body _ λ m. λ w. inr (AuthCall.register_user m, refl, tt, refl)

  request_login-Forwards :
      (ctx : Context) (req : HttpRequest) (params : PathParams)
      → Forwards rt client auth_method auth_targets
          (AuthRefusal rt)
          login_method
          (captured pattern_login)
          req
          ctx
          params
          (request_login rt client ctx req params)
  unfolding request_login
  request_login-Forwards ctx req params =
      with_body rt client auth_method auth_targets (AuthRefusal rt) _ (captured pattern_login) _ ctx
        params rt.marshaler.login_request req.body zero_login_request AuthRefusal.login_body _
        λ m. λ w. inr (AuthCall.log_in m, refl, tt, refl)

  request_get_me-Forwards :
      (ctx : Context) (req : HttpRequest) (params : PathParams)
      → Forwards rt client auth_method auth_targets
          (AuthRefusal rt)
          get_me_method
          (captured pattern_get_me)
          req
          ctx
          params
          (request_get_me rt client ctx req params)
  unfolding request_get_me
  request_get_me-Forwards ctx req params = λ w. inr (AuthCall.me, refl, tt, refl)

  request_update_profile-Forwards :
      (ctx : Context) (req : HttpRequest) (params : PathParams)
      → Forwards rt client auth_method auth_targets
          (AuthRefusal rt)
          update_profile_method
          (captured pattern_update_profile)
          req
          ctx
          params
          (request_update_profile rt client ctx req params)
  unfolding request_update_profile
  request_update_profile-Forwards ctx req params =
      with_body rt client auth_method auth_targets (AuthRefusal rt) _
        (captured pattern_update_profile) _ ctx params rt.marshaler.update_profile_request req.body
        zero_update_profile_request AuthRefusal.update_profile_body _
        λ m. λ w. inr (AuthCall.rename m, refl, tt, refl)

  request_refresh_token-Forwards :
      (ctx : Context) (req : HttpRequest) (params : PathParams)
      → Forwards rt client auth_method auth_targets
          (AuthRefusal rt)
          refresh_token_method
          (captured pattern_refresh_token)
          req
          ctx
          params
          (request_refresh_token rt client ctx req params)
  unfolding request_refresh_token
  request_refresh_token-Forwards ctx req params =
      with_body rt client auth_method auth_targets (AuthRefusal rt) _
        (captured pattern_refresh_token) _ ctx params rt.marshaler.refresh_token_request req.body
        zero_refresh_token_request AuthRefusal.refresh_token_body _
        λ m. λ w. inr (AuthCall.refresh m, refl, tt, refl)

  request_create_user_api_key-Forwards :
      (ctx : Context) (req : HttpRequest) (params : PathParams)
      → Forwards rt client auth_method auth_targets
          (AuthRefusal rt)
          create_user_api_key_method
          (captured pattern_create_user_api_key)
          req
          ctx
          params
          (request_create_user_api_key rt client ctx req params)
  unfolding request_create_user_api_key
  request_create_user_api_key-Forwards ctx req params =
      with_body rt client auth_method auth_targets (AuthRefusal rt) _
        (captured pattern_create_user_api_key) _ ctx params rt.marshaler.create_user_api_key_request
        req.body zero_create_user_api_key_request AuthRefusal.create_user_api_key_body _
        λ m. λ w. inr (AuthCall.create_key m, refl, tt, refl)

  request_list_user_api_keys-Forwards :
      (ctx : Context) (req : HttpRequest) (params : PathParams)
      → Forwards rt client auth_method auth_targets
          (AuthRefusal rt)
          list_user_api_keys_method
          (captured pattern_list_user_api_keys)
          req
          ctx
          params
          (request_list_user_api_keys rt client ctx req params)
  unfolding request_list_user_api_keys
  request_list_user_api_keys-Forwards ctx req params = λ w. inr (AuthCall.list_keys, refl, tt, refl)

  request_revoke_user_api_key-Forwards :
      (ctx : Context) (req : HttpRequest) (params : PathParams)
      → Forwards rt client auth_method auth_targets
          (AuthRefusal rt)
          revoke_user_api_key_method
          (captured pattern_revoke_user_api_key)
          req
          ctx
          params
          (request_revoke_user_api_key rt client ctx req params)
  unfolding request_revoke_user_api_key
  request_revoke_user_api_key-Forwards ctx req params =
      with_param rt client auth_method auth_targets (AuthRefusal rt) _
        (captured pattern_revoke_user_api_key) _ ctx params "id" refl _
        λ id at_id. λ w. inr (AuthCall.revoke_key (record { id = id }), refl, (at_id, tt), refl)

  -- The route of each method of `AuthService` ends in one call of that method, with the targets of the call taken from
  -- the path, or in an error that a parameter or the body explains.
  pub auth_routes-IsFaithful :
      All
        (IsFaithful rt client auth_method auth_targets (AuthRefusal rt))
        (register_auth_service_handler_client rt client)
  unfolding register_auth_service_handler_client
  auth_routes-IsFaithful = (
    request_register-Forwards,
    (
      request_login-Forwards,
      (
        request_get_me-Forwards,
        (
          request_update_profile-Forwards,
          (
            request_refresh_token-Forwards,
            (
              request_create_user_api_key-Forwards,
              (request_list_user_api_keys-Forwards, (request_revoke_user_api_key-Forwards, tt)),
            ),
          ),
        ),
      ),
    ),
  )
