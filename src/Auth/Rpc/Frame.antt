-- ===== src/Auth/Rpc/Frame.antt =====
-- What the account service leaves alone: the cluster.
use build_api.Common.{String, ◌≡◌, arith}
use build_api.World.External.{Environment}
use build_api.World.Effect.{World}
use build_api.Auth.Context.{Context}
use build_api.Auth.Jwt.{
  create_access_token, create_refresh_token, validate_refresh_token, parse_token,
}
use build_api.Auth.Keys.{generate_user_api_key}
use build_api.Auth.Service.{
  register, login, get_me, update_profile, refresh_token, create_user_api_key, list_user_api_keys,
  revoke_user_api_key,
}
use build_api.Api.AuthMessages.{
  RegisterRequest, LoginRequest, RefreshTokenRequest, CreateUserApiKeyRequest,
}
use build_api.Auth.Rpc.{
  AuthCall, run_auth_call, register_user, log_in, me, list_keys, rename, refresh, create_key,
  revoke_key,
}

module _ {K Q : Type 0} (env : Environment K Q) (secret : String) (ctx : Context)
    (w : World K) where
  register-cluster : (req : RegisterRequest) → (register env secret req w).1.cluster ≡ w.cluster
  unfolding register create_access_token create_refresh_token
  register-cluster req = ground arith

  login-cluster : (req : LoginRequest) → (login env secret req w).1.cluster ≡ w.cluster
  unfolding login create_access_token create_refresh_token
  login-cluster req = ground arith

  refresh_token-cluster :
      (req : RefreshTokenRequest) → (refresh_token env secret req w).1.cluster ≡ w.cluster
  unfolding refresh_token validate_refresh_token parse_token create_access_token
  refresh_token-cluster req = ground arith

  create_user_api_key-cluster :
      (req : CreateUserApiKeyRequest)
      → (create_user_api_key env secret ctx req w).1.cluster ≡ w.cluster
  unfolding create_user_api_key generate_user_api_key
  create_user_api_key-cluster req = ground arith

  -- No call of the service changes anything in the cluster.
  pub run_auth_call-cluster :
      (c : AuthCall) → (run_auth_call env secret ctx c w).1.cluster ≡ w.cluster
  unfolding run_auth_call get_me update_profile list_user_api_keys revoke_user_api_key
  run_auth_call-cluster (register_user req) = ground (arith, register-cluster req)
  run_auth_call-cluster (log_in req) = ground (arith, login-cluster req)
  run_auth_call-cluster me = ground arith
  run_auth_call-cluster (rename req) = ground arith
  run_auth_call-cluster (refresh req) = ground (arith, refresh_token-cluster req)
  run_auth_call-cluster (create_key req) = ground (arith, create_user_api_key-cluster req)
  run_auth_call-cluster list_keys = ground arith
  run_auth_call-cluster (revoke_key req) = ground arith
