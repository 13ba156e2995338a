-- ===== src/Gateway/Edge.antt =====
-- The functions of cmd/server/main.go.
pub mod Cors
use Prim.Native.String
use build_api.Common.{
  ℕ, String, ◌==◌, Bool, true, false, not, ◌&&◌, ◌||◌, Option, none, some, List, [], ◌∷◌, ◌++◌,
  if◌then◌else◌,
}
use build_api.Common.Int.{ℤ, pos, negsuc}
use build_api.Text.{split, trim_space, has_prefix}
use build_api.Auth.Scopes.{has_scope, lookup}
use build_api.Api.AuthMessages.{LoginResponse, RegisterResponse, RefreshTokenResponse}

-- The header lines by their canonical names, the cookies in their order, and the bytes of the body.
pub record HttpRequest : Type 0 where
  pub method : String
  pub path : String
  pub headers : List (String × String)
  pub cookies : List (String × String)
  pub body : String

abbrev pub text_or_empty : Option String → String
text_or_empty none = ""
text_or_empty (some s) = s

-- `r.Header.Get` of a canonical name: the first value, "" for a missing header
abbrev pub header_get : HttpRequest → String → String
header_get r name = text_or_empty (lookup r.headers name)

pub record Cookie : Type 0 where
  pub name : String
  pub value : String
  pub path : String
  pub max_age : ℤ
  pub http_only : Bool
  pub same_site_strict : Bool

-- What was written: the headers that were set, the cookies, and the status if one was written.
pub record HttpResponse : Type 0 where
  pub headers : List (String × String)
  pub cookies : List Cookie
  pub status : Option ℕ

-- A handler writes a response, and may change the state of the server.
abbrev pub HttpHandler : Type 0 → Type 0
HttpHandler S = HttpRequest → HttpResponse → S → HttpResponse × S

-- `w.Header().Set`
unfoldable pub set_header : String → String → List (String × String) → List (String × String)
set_header k v [] = (k, v) ∷ []
set_header k v ((j, u) ∷ headers) =
    if j == k then (k, v) ∷ headers else (j, u) ∷ set_header k v headers

abbrev with_header : String → String → HttpResponse → HttpResponse
with_header k v w = record w { headers = set_header k v w.headers }

-- `WriteHeader`: the first status stays.
abbrev pub write_header : ℕ → HttpResponse → HttpResponse
write_header status w = elim w.status [ none ↦ record w { status = some status } | some s ↦ w ]

abbrev set_cookie : Cookie → HttpResponse → HttpResponse
set_cookie c w = record w { cookies = w.cookies ++ c ∷ [] }

abbrev pub access_token_cookie_name : String
access_token_cookie_name = "builderhub_access_token"

-- `getEnv`, with "" for a variable that is not set
unfoldable pub get_env : (String → String) → String → String → String
get_env environ key def = if environ key == "" then def else environ key

-- `logoutHandler`
unfoldable pub logout_handler : {S : Type 0} → String → HttpHandler S
logout_handler cookie_name req w s =
    let cleared : Cookie = record {
      name = cookie_name;
      value = "";
      path = "/";
      max_age = negsuc 0;
      http_only = true;
      same_site_strict = true;
    } in
    (write_header 204 (set_cookie cleared w), s)

-- The message types that `setAuthCookieForwardResponseOption` tells apart.
pub data ProtoMessage : Type 0 where
  login_response : LoginResponse → ProtoMessage
  register_response : RegisterResponse → ProtoMessage
  refresh_token_response : RefreshTokenResponse → ProtoMessage
  other_message : ProtoMessage

abbrev pub token_of : ProtoMessage → String
token_of (login_response m) = m.access_token
token_of (register_response m) = m.access_token
token_of (refresh_token_response m) = m.access_token
token_of other_message = ""

abbrev pub access_cookie : String → Cookie
access_cookie token = record {
  name = access_token_cookie_name;
  value = token;
  path = "/";
  max_age = pos 3600;
  http_only = true;
  same_site_strict = true;
}

-- `setAuthCookieForwardResponseOption`
unfoldable pub set_auth_cookie : ProtoMessage → HttpResponse → HttpResponse
set_auth_cookie resp w =
    if token_of resp == "" then w else set_cookie (access_cookie (token_of resp)) w

-- `forwardAuthHeader`; the other headers go by grpc-gateway's `DefaultHeaderMatcher`.
unfoldable pub forward_auth_header : (String → String × Bool) → String → String × Bool
forward_auth_header default_header_matcher key =
    if key == "Authorization" || key == "authorization"
    then ("authorization", true)
    else default_header_matcher key

abbrev bearer_value : String → String
bearer_value t =
    if t == "" then "" else if has_prefix t "Bearer " then t else String.◌++◌ "Bearer " t

abbrev cookie_value : Option String → String
cookie_value none = ""
cookie_value (some value) = bearer_value (trim_space value)

-- The value that `authMetadataAnnotator` puts under "authorization", "" for no metadata.
unfoldable pub annotated_authorization : HttpRequest → String
annotated_authorization req =
    if header_get req "Authorization" == ""
    then cookie_value (lookup req.cookies access_token_cookie_name)
    else header_get req "Authorization"

-- `authMetadataAnnotator`
unfoldable pub auth_metadata_annotator : HttpRequest → Option (String → List String)
auth_metadata_annotator req =
    if annotated_authorization req == ""
    then none
    else some (λ key. if key == "authorization" then annotated_authorization req ∷ [] else [])

abbrev add_origin : String → List String → List String
add_origin o allowed = if o == "" then allowed else o ∷ allowed

-- The loop of `parseCORSOrigins`
unfoldable pub collect_origins : List String → List String
collect_origins [] = []
collect_origins (o ∷ parts) = add_origin (trim_space o) (collect_origins parts)

-- `parseCORSOrigins`; the map of allowed origins is the list of its keys.
unfoldable pub parse_cors_origins : String → List String
parse_cors_origins s = collect_origins (split s b',')

abbrev allow_origin : String → HttpResponse → HttpResponse
allow_origin origin w =
    with_header "Access-Control-Allow-Credentials" "true"
      (with_header "Access-Control-Allow-Origin" origin w)

-- The headers that `corsHandler` sets.
unfoldable pub cors_headers : List String → HttpRequest → HttpResponse → HttpResponse
cors_headers allowed_origins r w =
    let origin = header_get r "Origin" in
    let w₁ =
      if not (origin == "") && has_scope allowed_origins origin then allow_origin origin w else w in
    with_header "Access-Control-Allow-Headers" "Content-Type, Authorization"
      (with_header "Access-Control-Allow-Methods" "GET, POST, PUT, PATCH, DELETE, OPTIONS" w₁)

-- `corsHandler`
unfoldable pub cors_handler : {S : Type 0} → HttpHandler S → List String → HttpHandler S
cors_handler h allowed_origins r w s =
    let w' = cors_headers allowed_origins r w in
    if r.method == "OPTIONS" then (write_header 204 w', s) else h r w' s

-- The routes of `rootMux`; net/http has cleaned the path.
unfoldable pub root_mux : {S : Type 0} → HttpHandler S → HttpHandler S
root_mux gateway r w s =
    if r.path == "/health"
    then (write_header 200 w, s)
    else if r.path == "/v1/auth/logout"
    then logout_handler access_token_cookie_name r w s
    else gateway r w s
