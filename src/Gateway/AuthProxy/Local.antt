-- ===== src/Gateway/AuthProxy/Local.antt =====
-- The in-process half of api/gen/buildapi/v1/auth.pb.gw.go: the same calls on a server of the same process.
use build_api.Common.{List, [], ◌∷◌}
use build_api.Api.Zero.{
  zero_create_user_api_key_request, zero_login_request, zero_refresh_token_request,
  zero_register_request, zero_update_profile_request,
}
use build_api.World.Effect.{Action, ◌>>=◌}
use build_api.Auth.Context.{Context}
use build_api.Auth.Rpc.{AuthCall, AuthReply}
use build_api.Gateway.Edge.{HttpRequest}
use build_api.Gateway.Runtime.{Runtime, PathParams, Route, decode_body, path_param}
use build_api.Gateway.AuthProxy.{
  pattern_register, pattern_login, pattern_get_me, pattern_update_profile, pattern_refresh_token,
  pattern_create_user_api_key, pattern_list_user_api_keys, pattern_revoke_user_api_key,
}

module _ {K : Type 0} (rt : Runtime) (server : Context → AuthCall → Action K AuthReply) where
  unfoldable pub local_request_register : Context → HttpRequest → PathParams → Action K AuthReply
  local_request_register ctx req params = do
    m ← decode_body rt.marshaler.register_request req.body zero_register_request
    server ctx (AuthCall.register_user m)

  unfoldable pub local_request_login : Context → HttpRequest → PathParams → Action K AuthReply
  local_request_login ctx req params = do
    m ← decode_body rt.marshaler.login_request req.body zero_login_request
    server ctx (AuthCall.log_in m)

  unfoldable pub local_request_get_me : Context → HttpRequest → PathParams → Action K AuthReply
  local_request_get_me ctx req params = server ctx AuthCall.me

  unfoldable pub local_request_update_profile :
      Context → HttpRequest → PathParams → Action K AuthReply
  local_request_update_profile ctx req params = do
    m ← decode_body rt.marshaler.update_profile_request req.body zero_update_profile_request
    server ctx (AuthCall.rename m)

  unfoldable pub local_request_refresh_token :
      Context → HttpRequest → PathParams → Action K AuthReply
  local_request_refresh_token ctx req params = do
    m ← decode_body rt.marshaler.refresh_token_request req.body zero_refresh_token_request
    server ctx (AuthCall.refresh m)

  unfoldable pub local_request_create_user_api_key :
      Context → HttpRequest → PathParams → Action K AuthReply
  local_request_create_user_api_key ctx req params = do
    m ←
        decode_body rt.marshaler.create_user_api_key_request req.body
          zero_create_user_api_key_request
    server ctx (AuthCall.create_key m)

  unfoldable pub local_request_list_user_api_keys :
      Context → HttpRequest → PathParams → Action K AuthReply
  local_request_list_user_api_keys ctx req params = server ctx AuthCall.list_keys

  unfoldable pub local_request_revoke_user_api_key :
      Context → HttpRequest → PathParams → Action K AuthReply
  local_request_revoke_user_api_key ctx req params = do
    id ← path_param rt params "id"
    server ctx (AuthCall.revoke_key (record { id = id }))

  -- `RegisterAuthServiceHandlerServer`, as the list of what it gives to `mux.Handle`.
  unfoldable pub register_auth_service_handler_server : List (Route K AuthReply)
  register_auth_service_handler_server =
      record {
        http_method = "POST";
        pattern = pattern_register;
        rpc_method = "/buildapi.v1.AuthService/Register";
        path_template = "/v1/auth/register";
        request = local_request_register;
      }
      ∷ record {
        http_method = "POST";
        pattern = pattern_login;
        rpc_method = "/buildapi.v1.AuthService/Login";
        path_template = "/v1/auth/login";
        request = local_request_login;
      }
      ∷ record {
        http_method = "GET";
        pattern = pattern_get_me;
        rpc_method = "/buildapi.v1.AuthService/GetMe";
        path_template = "/v1/auth/me";
        request = local_request_get_me;
      }
      ∷ record {
        http_method = "PATCH";
        pattern = pattern_update_profile;
        rpc_method = "/buildapi.v1.AuthService/UpdateProfile";
        path_template = "/v1/auth/me";
        request = local_request_update_profile;
      }
      ∷ record {
        http_method = "POST";
        pattern = pattern_refresh_token;
        rpc_method = "/buildapi.v1.AuthService/RefreshToken";
        path_template = "/v1/auth/refresh";
        request = local_request_refresh_token;
      }
      ∷ record {
        http_method = "POST";
        pattern = pattern_create_user_api_key;
        rpc_method = "/buildapi.v1.AuthService/CreateUserApiKey";
        path_template = "/v1/auth/api-keys";
        request = local_request_create_user_api_key;
      }
      ∷ record {
        http_method = "GET";
        pattern = pattern_list_user_api_keys;
        rpc_method = "/buildapi.v1.AuthService/ListUserApiKeys";
        path_template = "/v1/auth/api-keys";
        request = local_request_list_user_api_keys;
      }
      ∷ record {
        http_method = "DELETE";
        pattern = pattern_revoke_user_api_key;
        rpc_method = "/buildapi.v1.AuthService/RevokeUserApiKey";
        path_template = "/v1/auth/api-keys/{id}";
        request = local_request_revoke_user_api_key;
      }
      ∷ []
