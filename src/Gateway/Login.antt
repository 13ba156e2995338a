-- ===== src/Gateway/Login.antt =====
-- A browser's session: the login route of the gateway, its cookie, and the requests that carry the cookie.
use build_api.Common.{String, [], ◌∷◌}
use build_api.World.External.{Environment}
use build_api.World.Effect.{World}
use build_api.Auth.Context.{Context}
use build_api.Auth.Rpc.{AuthReply, serve_auth_call}
use build_api.Gateway.Edge.{
  ProtoMessage, login_response, register_response, refresh_token_response, other_message,
}
use build_api.Gateway.Runtime.{Runtime, Route}
use build_api.Gateway.AuthProxy.{request_login}

-- An answer as the message that the option of the mux looks at.
abbrev pub auth_message : AuthReply → ProtoMessage
auth_message (AuthReply.registered r) = register_response r
auth_message (AuthReply.logged_in r) = login_response r
auth_message (AuthReply.refreshed r) = refresh_token_response r
auth_message (AuthReply.current_user r) = other_message
auth_message (AuthReply.profile r) = other_message
auth_message (AuthReply.key_created r) = other_message
auth_message (AuthReply.keys r) = other_message
auth_message AuthReply.key_revoked = other_message

module _ {K Q : Type 0} (env : Environment K Q) (secret : String) (rt : Runtime) where
  abbrev login_route : Route K AuthReply
  login_route = record {
    http_method = "POST";
    pattern = record {
      version = 1;
      ops = 2 ∷ 0 ∷ 2 ∷ 1 ∷ 2 ∷ 2 ∷ [];
      pool = "v1" ∷ "auth" ∷ "login" ∷ [];
      verb = "";
    };
    rpc_method = "/buildapi.v1.AuthService/Login";
    path_template = "/v1/auth/login";
    request = request_login rt (serve_auth_call env secret);
  }
