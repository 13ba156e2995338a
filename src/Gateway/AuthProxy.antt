-- ===== src/Gateway/AuthProxy.antt =====
-- The functions of api/gen/buildapi/v1/auth.pb.gw.go. Reading a body to its end is left out.
pub mod Local
use build_api.Common.{String, ℕ, List, [], ◌∷◌}
use build_api.Api.Zero.{
  zero_create_user_api_key_request, zero_login_request, zero_refresh_token_request,
  zero_register_request, zero_update_profile_request,
}
use build_api.World.Effect.{World, Action, ◌>>=◌}
use build_api.Auth.Context.{Context}
use build_api.Auth.Rpc.{AuthCall, AuthReply}
use build_api.Gateway.Edge.{HttpRequest}
use build_api.Gateway.Runtime.{Runtime, PathParams, Pattern, Route, decode_body, path_param}

abbrev pub pattern_register : Pattern
pattern_register = record {
  version = 1;
  ops = 2 ∷ 0 ∷ 2 ∷ 1 ∷ 2 ∷ 2 ∷ [];
  pool = "v1" ∷ "auth" ∷ "register" ∷ [];
  verb = "";
}

abbrev pub pattern_login : Pattern
pattern_login = record {
  version = 1;
  ops = 2 ∷ 0 ∷ 2 ∷ 1 ∷ 2 ∷ 2 ∷ [];
  pool = "v1" ∷ "auth" ∷ "login" ∷ [];
  verb = "";
}

abbrev pub pattern_get_me : Pattern
pattern_get_me = record {
  version = 1;
  ops = 2 ∷ 0 ∷ 2 ∷ 1 ∷ 2 ∷ 2 ∷ [];
  pool = "v1" ∷ "auth" ∷ "me" ∷ [];
  verb = "";
}

abbrev pub pattern_update_profile : Pattern
pattern_update_profile = record {
  version = 1;
  ops = 2 ∷ 0 ∷ 2 ∷ 1 ∷ 2 ∷ 2 ∷ [];
  pool = "v1" ∷ "auth" ∷ "me" ∷ [];
  verb = "";
}

abbrev pub pattern_refresh_token : Pattern
pattern_refresh_token = record {
  version = 1;
  ops = 2 ∷ 0 ∷ 2 ∷ 1 ∷ 2 ∷ 2 ∷ [];
  pool = "v1" ∷ "auth" ∷ "refresh" ∷ [];
  verb = "";
}

abbrev pub pattern_create_user_api_key : Pattern
pattern_create_user_api_key = record {
  version = 1;
  ops = 2 ∷ 0 ∷ 2 ∷ 1 ∷ 2 ∷ 2 ∷ [];
  pool = "v1" ∷ "auth" ∷ "api-keys" ∷ [];
  verb = "";
}

abbrev pub pattern_list_user_api_keys : Pattern
pattern_list_user_api_keys = record {
  version = 1;
  ops = 2 ∷ 0 ∷ 2 ∷ 1 ∷ 2 ∷ 2 ∷ [];
  pool = "v1" ∷ "auth" ∷ "api-keys" ∷ [];
  verb = "";
}

abbrev pub pattern_revoke_user_api_key : Pattern
pattern_revoke_user_api_key = record {
  version = 1;
  ops = 2 ∷ 0 ∷ 2 ∷ 1 ∷ 2 ∷ 2 ∷ 1 ∷ 0 ∷ 4 ∷ 1 ∷ 5 ∷ 3 ∷ [];
  pool = "v1" ∷ "auth" ∷ "api-keys" ∷ "id" ∷ [];
  verb = "";
}

module _ {K : Type 0} (rt : Runtime) (client : Context → AuthCall → Action K AuthReply) where
  unfoldable pub request_register : Context → HttpRequest → PathParams → Action K AuthReply
  request_register ctx req params = do
    m ← decode_body rt.marshaler.register_request req.body zero_register_request
    client ctx (AuthCall.register_user m)

  unfoldable pub request_login : Context → HttpRequest → PathParams → Action K AuthReply
  request_login ctx req params = do
    m ← decode_body rt.marshaler.login_request req.body zero_login_request
    client ctx (AuthCall.log_in m)

  unfoldable pub request_get_me : Context → HttpRequest → PathParams → Action K AuthReply
  request_get_me ctx req params = client ctx AuthCall.me

  unfoldable pub request_update_profile : Context → HttpRequest → PathParams → Action K AuthReply
  request_update_profile ctx req params = do
    m ← decode_body rt.marshaler.update_profile_request req.body zero_update_profile_request
    client ctx (AuthCall.rename m)

  unfoldable pub request_refresh_token : Context → HttpRequest → PathParams → Action K AuthReply
  request_refresh_token ctx req params = do
    m ← decode_body rt.marshaler.refresh_token_request req.body zero_refresh_token_request
    client ctx (AuthCall.refresh m)

  unfoldable pub request_create_user_api_key :
      Context → HttpRequest → PathParams → Action K AuthReply
  request_create_user_api_key ctx req params = do
    m ←
        decode_body rt.marshaler.create_user_api_key_request req.body
          zero_create_user_api_key_request
    client ctx (AuthCall.create_key m)

  unfoldable pub request_list_user_api_keys :
      Context → HttpRequest → PathParams → Action K AuthReply
  request_list_user_api_keys ctx req params = client ctx AuthCall.list_keys

  unfoldable pub request_revoke_user_api_key :
      Context → HttpRequest → PathParams → Action K AuthReply
  request_revoke_user_api_key ctx req params = do
    id ← path_param rt params "id"
    client ctx (AuthCall.revoke_key (record { id = id }))

  -- `RegisterAuthServiceHandlerClient`, as the list of what it gives to `mux.Handle`.
  unfoldable pub register_auth_service_handler_client : List (Route K AuthReply)
  register_auth_service_handler_client =
      record {
        http_method = "POST";
        pattern = pattern_register;
        rpc_method = "/buildapi.v1.AuthService/Register";
        path_template = "/v1/auth/register";
        request = request_register;
      }
      ∷ record {
        http_method = "POST";
        pattern = pattern_login;
        rpc_method = "/buildapi.v1.AuthService/Login";
        path_template = "/v1/auth/login";
        request = request_login;
      }
      ∷ record {
        http_method = "GET";
        pattern = pattern_get_me;
        rpc_method = "/buildapi.v1.AuthService/GetMe";
        path_template = "/v1/auth/me";
        request = request_get_me;
      }
      ∷ record {
        http_method = "PATCH";
        pattern = pattern_update_profile;
        rpc_method = "/buildapi.v1.AuthService/UpdateProfile";
        path_template = "/v1/auth/me";
        request = request_update_profile;
      }
      ∷ record {
        http_method = "POST";
        pattern = pattern_refresh_token;
        rpc_method = "/buildapi.v1.AuthService/RefreshToken";
        path_template = "/v1/auth/refresh";
        request = request_refresh_token;
      }
      ∷ record {
        http_method = "POST";
        pattern = pattern_create_user_api_key;
        rpc_method = "/buildapi.v1.AuthService/CreateUserApiKey";
        path_template = "/v1/auth/api-keys";
        request = request_create_user_api_key;
      }
      ∷ record {
        http_method = "GET";
        pattern = pattern_list_user_api_keys;
        rpc_method = "/buildapi.v1.AuthService/ListUserApiKeys";
        path_template = "/v1/auth/api-keys";
        request = request_list_user_api_keys;
      }
      ∷ record {
        http_method = "DELETE";
        pattern = pattern_revoke_user_api_key;
        rpc_method = "/buildapi.v1.AuthService/RevokeUserApiKey";
        path_template = "/v1/auth/api-keys/{id}";
        request = request_revoke_user_api_key;
      }
      ∷ []
