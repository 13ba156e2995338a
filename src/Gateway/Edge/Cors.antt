-- ===== src/Gateway/Edge/Cors.antt =====
-- Cross-origin answers.
use build_api.Common.{
  ℕ, Option-cases, String, ◌==◌, eq_iff, ◌≡◌, refl, Bool, not, ◌&&◌, Option, none, some, List, [],
  ◌∷◌, arith, if◌then◌else◌, inl, inr,
}
use build_api.Auth.Scopes.{has_scope, lookup}
use build_api.Text.{split, trim_space}
use build_api.Gateway.Edge.{
  HttpRequest, header_get, HttpResponse, set_header, write_header, collect_origins,
  parse_cors_origins,
}

lookup-set_header :
    (k j v : String) (headers : List (String × String))
    → lookup (set_header k v headers) j ≡ (if k == j then some v else lookup headers j)
unfolding lookup set_header
lookup-set_header k j v [] = refl
lookup-set_header k j v ((i, u) ∷ headers) =
    ground (arith, eq_iff k j, eq_iff i k, eq_iff i j, lookup-set_header k j v headers)

abbrev pub fresh : HttpResponse
fresh = record { headers = []; cookies = []; status = none }

abbrev pub allowed_origin : HttpResponse → Option String
allowed_origin w = lookup w.headers "Access-Control-Allow-Origin"

abbrev pub allows_credentials : HttpResponse → Option String
allows_credentials w = lookup w.headers "Access-Control-Allow-Credentials"

abbrev pub trimmed : List String → List String
trimmed [] = []
trimmed (p ∷ parts) = trim_space p ∷ trimmed parts

listed-collect_origins :
    (parts : List String) (o : String)
    → has_scope (collect_origins parts) o ≡ (has_scope (trimmed parts) o && not (o == ""))
unfolding collect_origins has_scope
listed-collect_origins [] o = refl
listed-collect_origins (p ∷ parts) o = ground (
  arith,
  listed-collect_origins parts o,
  eq_iff (trim_space p) o,
  eq_iff (trim_space p) "",
  eq_iff o "",
)

-- A configured text allows exactly the origins that are not empty and stand, but for white space
-- around them, between its commas.
parse_cors_origins-has_scope :
    (s o : String)
    → has_scope (parse_cors_origins s) o ≡ (has_scope (trimmed (split s b',')) o && not (o == ""))
unfolding parse_cors_origins
parse_cors_origins-has_scope s o = listed-collect_origins (split s b',') o

abbrev pub listed_origin : List String → HttpRequest → Bool
listed_origin allowed r =
    has_scope allowed (header_get r "Origin") && not (header_get r "Origin" == "")

pub write_header-headers : (n : ℕ) (w : HttpResponse) → (write_header n w).headers ≡ w.headers
write_header-headers n w = elim (Option-cases w.status) [
  | inl unset ↦ rw unset refl
  | inr (status, set) ↦ rw set refl
]
