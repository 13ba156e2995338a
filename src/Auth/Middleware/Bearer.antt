-- ===== src/Auth/Middleware/Bearer.antt =====
-- From an HTTP request to the token that the interceptor reads.
use Prim.Native.Char.{Char}
use Prim.Native.String
use Prim.Native.String.{[], ◌∷◌}
use build_api.Common.{
  List, Bool, ◌||◌, ◌&&◌, arith, ap, if◌then◌else◌, String, ◌==◌, ◌≡◌, ◌≢◌, refl, ◌∙◌, true, false,
  none, some, [], ◌∷◌, ok, eq_false, sym,
}
use text.Mathlib.TextLemmas.{cons-append, cons-ne-nil}
use build_api.Common.Lists.{any_row}
use build_api.Text.{to_lower, trim_space, has_prefix, is_space}
use build_api.Text.Trim.{
  trim_space_idempotent, trim_space_solid, ends-trim_space, starts_solid-append, ends_solid-append,
  cut_prefix-append, ends_solid,
}
use build_api.Auth.Context.{Context}
use build_api.Auth.Scopes.{lookup}
use build_api.Auth.Middleware.{bearer, first_bearer, extract_bearer_token}
use build_api.Gateway.Runtime.{Runtime, MuxOptions, gw_options}
use build_api.Gateway.Edge.{
  HttpRequest, header_get, text_or_empty, annotated_authorization, auth_metadata_annotator,
  access_token_cookie_name,
}

abbrev with_bearer : String → String
with_bearer t = String.◌++◌ "Bearer " t

solid-with_bearer :
    (t : String) → t ≢ "" → ends_solid t ≡ true → trim_space (with_bearer t) ≡ with_bearer t
unfolding is_space
solid-with_bearer [] filled ends = absurd (filled refl)
solid-with_bearer (c ∷ t) filled ends =
    trim_space_solid (with_bearer (c ∷ t)) (starts_solid-append _ _ (c ∷ t) refl)
      (ends_solid-append "Bearer " c t ends)

-- The header that carries a trimmed token gives the token back.
pub bearer-with_bearer :
    (s : String) → trim_space s ≢ "" → bearer (with_bearer (trim_space s)) ≡ trim_space s
unfolding bearer
bearer-with_bearer s filled =
    rw
      (
        solid-with_bearer (trim_space s) filled (ends-trim_space s),
        cut_prefix-append "Bearer " (trim_space s),
      )
      (trim_space_idempotent s)

annotated-cookie :
    (req : HttpRequest) (value : String)
    → header_get req "Authorization" ≡ ""
    → lookup req.cookies access_token_cookie_name ≡ some value
    → trim_space value ≢ ""
    → has_prefix (trim_space value) "Bearer " ≡ false
    → annotated_authorization req ≡ with_bearer (trim_space value)
unfolding annotated_authorization
annotated-cookie req value absent stored filled plain =
    rw (absent, stored, eq_false (trim_space value) "" filled, plain)

with_bearer-filled : (t : String) → (with_bearer t == "") ≡ false
with_bearer-filled t =
    eq_false (with_bearer t) "" (λ e. cons-ne-nil _ _ (sym (cons-append _ _ t) ∙ e))

-- The annotator's metadata under "authorization" is the header's value.
annotator-bearer :
    (req : HttpRequest) (t : String)
    → annotated_authorization req ≡ with_bearer t
    → (values : String → List String) × (auth_metadata_annotator req ≡ some values)
      × (values "authorization" ≡ with_bearer t ∷ [])
unfolding auth_metadata_annotator
annotator-bearer req t carried = (
  λ key. if key == "authorization" then with_bearer t ∷ [] else [],
  rw (carried, with_bearer-filled t) refl,
  refl,
)

first_bearer-with_bearer :
    (t : String) → bearer (with_bearer t) ≡ t → t ≢ "" → first_bearer (with_bearer t ∷ []) ≡ ok t
unfolding first_bearer
first_bearer-with_bearer t read filled = rw (read, eq_false t "" filled)

extract_bearer_token-values :
    (ctx : Context) (values : String → List String) (vals : List String)
    → ctx.metadata ≡ some values
    → values "authorization" ≡ vals
    → extract_bearer_token ctx ≡ first_bearer vals
unfolding extract_bearer_token
extract_bearer_token-values ctx values vals held same = rw (held, same) refl

no_authorization :
    (q : String × String → Bool) (headers : List (String × String))
    → any_row (λ h. h.0 == "Authorization" || q h) headers ≡ false
    → lookup headers "Authorization" ≡ none
unfolding lookup
no_authorization q [] h = refl
no_authorization q ((name, value) ∷ headers) h = ground (arith, no_authorization q headers)

module _ (lower_beyond : Char → Char) where
  -- A header line that a mux makes an entry "authorization" of: the matcher names it so, or it is
  -- the Authorization header, which grpc-gateway passes on anyway.
  abbrev pub reaches_authorization : MuxOptions → String × String → Bool
  reaches_authorization options (name, value) =
      name == "Authorization"
      || (options.incoming_header_matcher name).1
        && to_lower lower_beyond (options.incoming_header_matcher name).0 == "authorization"

  -- `AnnotateContext` adds what the option `WithMetadata` gives: where no header line becomes an entry
  -- "authorization", the context has the annotator's values under that key.
  abbrev pub Annotates : Runtime → Type 0
  Annotates rt =
      (options : MuxOptions) (req : HttpRequest) (rpc_method path_template : String) (ctx : Context)
      (values : String → List String)
      → any_row (reaches_authorization options) req.headers ≡ false
      → options.metadata_annotator req ≡ some values
      → rt.annotate_context options req rpc_method path_template ≡ ok ctx
      → (held : String → List String) × (ctx.metadata ≡ some held)
        × (held "authorization" ≡ values "authorization")

  module _ (rt : Runtime) (annotates : Annotates rt) where
    -- A browser's cookie reaches the interceptor: where no header line of the request becomes an entry
    -- "authorization" by the matcher of the gateway, the token that the interceptor extracts from the
    -- context that the gateway makes of the request is the cookie's value, trimmed, where that is not
    -- empty and has no "Bearer " in front. grpc-gateway adds the metadata of its option to the context.
    pub extract_bearer_token-cookie :
        (req : HttpRequest) (value rpc_method path_template : String) (ctx : Context)
        → any_row (reaches_authorization (gw_options rt)) req.headers ≡ false
        → lookup req.cookies access_token_cookie_name ≡ some value
        → trim_space value ≢ ""
        → has_prefix (trim_space value) "Bearer " ≡ false
        → rt.annotate_context (gw_options rt) req rpc_method path_template ≡ ok ctx
        → extract_bearer_token ctx ≡ ok (trim_space value)
    extract_bearer_token-cookie req value rpc_method path_template ctx none_sent stored filled plain
          annotated =
        let absent = ap (λ o. text_or_empty o) (no_authorization _ req.headers none_sent) in
        let (values, made, carried) =
          annotator-bearer req (trim_space value)
            (annotated-cookie req value absent stored filled plain) in
        let (held, attached, same) =
          annotates (gw_options rt) req rpc_method path_template ctx values none_sent made
            annotated in
        extract_bearer_token-values ctx held _ attached (same ∙ carried)
        ∙ first_bearer-with_bearer (trim_space value) (bearer-with_bearer value filled) filled
