-- ===== src/Gateway/Runtime.antt =====
-- What the generated gateway (api/gen/buildapi/v1/*.pb.gw.go) uses of grpc-gateway, as parameters,
-- and the steps that its functions share. Headers and trailers of the answers are left out: no
-- handler of the server sets any.
use Prim.Native.String
use build_api.Common.{ℕ, String, Bool, Option, none, some, List, Result, ok, err}
use build_api.Status.{Status, status_error, invalid_argument}
use build_api.Api.AuthMessages.{
  RegisterRequest, LoginRequest, UpdateProfileRequest, RefreshTokenRequest, CreateUserApiKeyRequest,
}
use build_api.Api.BuilderMessages.{BuilderRequest, BuilderName}
use build_api.Api.OrganizationMessages.{CreateOrganizationRequest, UpdateOrganizationRequest}
use build_api.Api.TemplateMessages.{TemplateRequest}
use build_api.World.Effect.{World, Action}
use build_api.Auth.Context.{Context}
use build_api.Auth.Scopes.{lookup}
use build_api.Gateway.Edge.{
  HttpRequest, HttpResponse, ProtoMessage, set_auth_cookie, auth_metadata_annotator,
  forward_auth_header,
}

-- `io.EOF`, or another error with its text.
pub data DecodeError : Type 0 where
  end_of_file : DecodeError
  bad_body : String → DecodeError

-- `NewDecoder(body).Decode(&msg)`: the message as the decoder leaves it, and its error.
abbrev pub Decoder : Type 0 → Type 0
Decoder M = String → M → M × Option DecodeError

-- The inbound marshaler, for each message that a body is decoded into.
pub record Marshaler : Type 0 where
  pub register_request : Decoder RegisterRequest
  pub login_request : Decoder LoginRequest
  pub update_profile_request : Decoder UpdateProfileRequest
  pub refresh_token_request : Decoder RefreshTokenRequest
  pub create_user_api_key_request : Decoder CreateUserApiKeyRequest
  pub builder_request : Decoder BuilderRequest
  pub wake_builder_request : Decoder BuilderName
  pub create_organization_request : Decoder CreateOrganizationRequest
  pub update_organization_request : Decoder UpdateOrganizationRequest
  pub template_request : Decoder TemplateRequest

-- `pathParams`
abbrev pub PathParams : Type 0
PathParams = List (String × String)

-- The options that `NewServeMux` is called with.
pub record MuxOptions : Type 0 where
  pub incoming_header_matcher : String → String × Bool
  pub metadata_annotator : HttpRequest → Option (String → List String)
  pub forward_response_option : ProtoMessage → HttpResponse → HttpResponse

-- The package `runtime`. The context is the one that the called server reads: `AnnotateContext`
-- puts the request's headers and the annotator's metadata into it, by the options of the mux.
pub record Runtime : Type 0 where
  pub marshaler : Marshaler
  -- `runtime.String`
  pub string : String → Result String String
  -- `runtime.DefaultHeaderMatcher`
  pub default_header_matcher : String → String × Bool
  pub annotate_context : MuxOptions → HttpRequest → String → String → Result Status Context
  pub annotate_incoming_context : MuxOptions → HttpRequest → String → String → Result Status Context
  pub http_error : HttpRequest → Status → HttpResponse → HttpResponse
  -- `ForwardResponseMessage`, with the options that the mux has
  pub forward_response_message :
      (ProtoMessage → HttpResponse → HttpResponse)
      → HttpRequest
      → ProtoMessage
      → HttpResponse
      → HttpResponse

-- The options of `gwMux`
abbrev pub gw_options : Runtime → MuxOptions
gw_options rt = record {
  incoming_header_matcher = forward_auth_header rt.default_header_matcher;
  metadata_annotator = auth_metadata_annotator;
  forward_response_option = set_auth_cookie;
}

-- The arguments of `runtime.NewPattern`.
pub record Pattern : Type 0 where
  pub version : ℕ
  pub ops : List ℕ
  pub pool : List String
  pub verb : String

-- One `mux.Handle`: the HTTP method, the pattern, the names for the annotator, and the call of a
-- `request_*` function.
pub record Route (K Reply : Type 0) : Type 0 where
  pub http_method : String
  pub pattern : Pattern
  pub rpc_method : String
  pub path_template : String
  pub request : Context → HttpRequest → PathParams → Action K Reply

abbrev pub after_decode : {K M : Type 0} → M → Option DecodeError → Action K M
after_decode m none w = (ok m, w)
after_decode m (some end_of_file) w = (ok m, w)
after_decode m (some (bad_body text)) w = (err (status_error invalid_argument text), w)

-- The zero value, and the call of `Decode`, whose `io.EOF` is no error.
abbrev pub decode_body : {K M : Type 0} → Decoder M → String → M → Action K M
decode_body decode body zero_value = let (m, e) = decode body zero_value in after_decode m e

abbrev pub missing_parameter : String → Status
missing_parameter name = status_error invalid_argument (String.◌++◌ "missing parameter " name)

abbrev pub type_mismatch : String → String → Status
type_mismatch name text =
    status_error invalid_argument
      (String.◌++◌ "type mismatch, parameter: " (String.◌++◌ name (String.◌++◌ ", error: " text)))

-- The lines from `val, ok := pathParams[name]` to the second `return`.
abbrev pub path_param : {K : Type 0} → Runtime → PathParams → String → Action K String
path_param rt params name w = elim (lookup params name) [
  | none ↦ (err (missing_parameter name), w)
  | some val ↦ elim (rt.string val) [
    | ok s ↦ (ok s, w)
    | err text ↦ (err (type_mismatch name text), w)
  ]
]

abbrev write_reply :
    {Reply : Type 0}
    → Runtime
    → (Reply → ProtoMessage)
    → HttpRequest
    → Result Status Reply
    → HttpResponse
    → HttpResponse
write_reply rt message req (ok reply) w =
    rt.forward_response_message (gw_options rt).forward_response_option req (message reply) w
write_reply rt message req (err s) w = rt.http_error req s w

module _ {K Reply : Type 0} (rt : Runtime) (message : Reply → ProtoMessage) where
  abbrev serve_annotated :
      Route K Reply
      → HttpRequest
      → PathParams
      → Result Status Context
      → HttpResponse
      → World K
      → HttpResponse × World K
  serve_annotated route req params (err s) w world = (rt.http_error req s w, world)
  serve_annotated route req params (ok ctx) w world =
      let (r, world') = route.request ctx req params world in
      (write_reply rt message req r w, world')

  -- The function that `Register*HandlerClient` gives to `mux.Handle`.
  unfoldable pub serve_route :
      Route K Reply → HttpRequest → PathParams → HttpResponse → World K → HttpResponse × World K
  serve_route route req params w world =
      serve_annotated route req params
        (rt.annotate_context (gw_options rt) req route.rpc_method route.path_template) w world

  -- The function that `Register*HandlerServer` gives to `mux.Handle`.
  unfoldable pub serve_local_route :
      Route K Reply → HttpRequest → PathParams → HttpResponse → World K → HttpResponse × World K
  serve_local_route route req params w world =
      serve_annotated route req params
        (rt.annotate_incoming_context (gw_options rt) req route.rpc_method route.path_template) w
        world
