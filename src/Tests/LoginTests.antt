-- ===== src/Tests/LoginTests.antt =====
-- A login over HTTP: an instance in the small environment.
use build_api.Common.{eq_iff, ℕ, ◌≡◌, refl, none, [], ◌∷◌, ok, arith}
use build_api.Text.{to_lower, trim_space, trim_left, trim_right, is_space, has_prefix}
use build_api.Auth.Scopes.{lookup}
use build_api.Auth.Middleware.{extract_bearer_token}
use build_api.Auth.Context.{Context}
use build_api.Auth.Middleware.Bearer.{Annotates, extract_bearer_token-cookie}
use build_api.Auth.Rpc.{AuthReply, serve_auth_call}
use build_api.Gateway.Edge.{auth_metadata_annotator, forward_auth_header, HttpRequest, HttpResponse}
use build_api.Gateway.Runtime.{Runtime, Route}
use build_api.Gateway.AuthProxy.{request_login, pattern_login}
use build_api.Tests.SessionTests.{session_env}
use build_api.Tests.GatewayTests.{runtime, sent}

abbrev returning : HttpRequest
returning = record sent {
  headers = ("Accept", "*/*") ∷ [];
  cookies = ("builderhub_access_token", "a.b.c") ∷ [];
}

-- A decoder that finds the email and the password of "ann", and contexts that have the annotator's
-- metadata and no header line.
abbrev login_runtime : Runtime
login_runtime = record runtime {
  marshaler = record runtime.marshaler {
    login_request = λ body m. (record { email = "ann@x"; password = "pw" }, none);
  };
  annotate_context = λ options req method path.
      ok (record { principal = none; metadata = options.metadata_annotator req });
}

login_runtime-Annotates : Annotates session_env.lower_beyond login_runtime
login_runtime-Annotates options req method path ctx values none_sent made annotated =
    (values, cc, refl)

-- Of a request without an Authorization header and without a cookie.
abbrev anonymous : Context
anonymous = record { principal = none; metadata = none }

-- Of a request with the cookie.
abbrev with_cookie : Context
with_cookie = record { principal = none; metadata = auth_metadata_annotator returning }

abbrev form : HttpRequest
form = record sent { method = "POST"; path = "/v1/auth/login" }

abbrev blank : HttpResponse
blank = record { headers = []; cookies = []; status = none }

abbrev route : Route ℕ AuthReply
route = record {
  http_method = "POST";
  pattern = pattern_login;
  rpc_method = "/buildapi.v1.AuthService/Login";
  path_template = "/v1/auth/login";
  request = request_login login_runtime (serve_auth_call session_env "s");
}

extract_bearer_token-cookie_example : extract_bearer_token with_cookie ≡ ok "a.b.c"
unfolding trim_space trim_left trim_right is_space has_prefix lookup forward_auth_header to_lower
extract_bearer_token-cookie_example =
    extract_bearer_token-cookie session_env.lower_beyond login_runtime login_runtime-Annotates
      returning "a.b.c" "/buildapi.v1.AuthService/GetMe" "/v1/auth/me" with_cookie refl refl
      (ground (arith, eq_iff "a.b.c" "")) refl refl
