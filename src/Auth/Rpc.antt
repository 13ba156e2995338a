-- ===== src/Auth/Rpc.antt =====
-- The service `AuthService` as the server dispatches it: api/gen/buildapi/v1/auth_grpc.pb.go.
pub mod Frame
use build_api.Common.{String}
use build_api.Api.AuthMessages.{
  RegisterRequest, RegisterResponse, LoginRequest, LoginResponse, GetMeResponse,
  UpdateProfileRequest, UpdateProfileResponse, RefreshTokenRequest, RefreshTokenResponse,
  CreateUserApiKeyRequest, CreateUserApiKeyResponse, ListUserApiKeysResponse,
  RevokeUserApiKeyRequest,
}
use build_api.Api.Methods.{
  register_method, login_method, get_me_method, update_profile_method, refresh_token_method,
  create_user_api_key_method, list_user_api_keys_method, revoke_user_api_key_method,
}
use build_api.World.External.{Environment}
use build_api.World.Effect.{Action, ◌>>=◌, pure}
use build_api.Auth.Context.{Context}
use build_api.Auth.Middleware.{unary_server_interceptor}
use build_api.Auth.Service.{
  register, login, get_me, update_profile, refresh_token, create_user_api_key, list_user_api_keys,
  revoke_user_api_key,
}

-- A decoded request of the service.
pub data AuthCall : Type 0 where
  register_user : RegisterRequest → AuthCall
  log_in : LoginRequest → AuthCall
  me list_keys : AuthCall
  rename : UpdateProfileRequest → AuthCall
  refresh : RefreshTokenRequest → AuthCall
  create_key : CreateUserApiKeyRequest → AuthCall
  revoke_key : RevokeUserApiKeyRequest → AuthCall

pub data AuthReply : Type 0 where
  registered : RegisterResponse → AuthReply
  logged_in : LoginResponse → AuthReply
  current_user : GetMeResponse → AuthReply
  profile : UpdateProfileResponse → AuthReply
  refreshed : RefreshTokenResponse → AuthReply
  key_created : CreateUserApiKeyResponse → AuthReply
  keys : ListUserApiKeysResponse → AuthReply
  key_revoked : AuthReply

-- The method that a handler's `info` names.
abbrev pub auth_method : AuthCall → String
auth_method (register_user req) = register_method
auth_method (log_in req) = login_method
auth_method me = get_me_method
auth_method (rename req) = update_profile_method
auth_method (refresh req) = refresh_token_method
auth_method (create_key req) = create_user_api_key_method
auth_method list_keys = list_user_api_keys_method
auth_method (revoke_key req) = revoke_user_api_key_method

module _ {K Q : Type 0} (env : Environment K Q) (secret : String) where
  -- The `handler` closures, which call the service.
  unfoldable pub run_auth_call : Context → AuthCall → Action K AuthReply
  run_auth_call ctx (register_user req) = do r ← register env secret req; pure (registered r)
  run_auth_call ctx (log_in req) = do r ← login env secret req; pure (logged_in r)
  run_auth_call ctx me = do r ← get_me env secret ctx; pure (current_user r)
  run_auth_call ctx (rename req) = do r ← update_profile env secret ctx req; pure (profile r)
  run_auth_call ctx (refresh req) = do r ← refresh_token env secret req; pure (refreshed r)
  run_auth_call ctx (create_key req) = do
    r ← create_user_api_key env secret ctx req
    pure (key_created r)
  run_auth_call ctx list_keys = do r ← list_user_api_keys env secret ctx; pure (keys r)
  run_auth_call ctx (revoke_key req) = do
    _ ← revoke_user_api_key env secret ctx req
    pure key_revoked

  -- The `_AuthService_*_Handler` functions, with the interceptor that `main` installs.
  unfoldable pub serve_auth_call : Context → AuthCall → Action K AuthReply
  serve_auth_call ctx call =
      unary_server_interceptor env secret ctx call (auth_method call) run_auth_call
