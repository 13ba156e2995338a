-- ===== src/Gateway/Targets/Apart.antt =====
-- Which paths a route takes, and that two routes never compete for one.
use build_api.Common.{
  String, ◌==◌, eq_iff, ℕ, ◌≤◌, ◌≡◌, refl, Bool, true, false, ◌&&◌, not, List, [], ◌∷◌, ◌++◌, map,
  Option, none, some, ◌=?◌, if◌then◌else◌, arith, Bool-cases, inl, inr,
}
use build_api.Common.Lists.{any_row, where_rows, length}
use build_api.Auth.Context.{Context}
use build_api.World.Effect.{Action}
use build_api.Auth.Rpc.{AuthCall, AuthReply}
use build_api.Builders.Rpc.{BuilderCall, BuilderReply}
use build_api.Organizations.Rpc.{OrganizationCall, OrganizationReply}
use build_api.Templates.Rpc.{TemplateCall, TemplateReply}
use build_api.Gateway.Runtime.{Runtime, Route}
use build_api.Gateway.AuthProxy.{register_auth_service_handler_client}
use build_api.Gateway.BuilderProxy.{register_build_api_handler_client}
use build_api.Gateway.OrganizationProxy.{register_organization_service_handler_client}
use build_api.Gateway.TemplateProxy.{register_template_service_handler_client}
use build_api.Gateway.Targets.{at}

-- The segments of a pattern: a literal, or none for one that is captured.
abbrev pub Shape : Type 0
Shape = List (Option String)

abbrev pub shape : List ℕ → List String → Shape
shape [] pool = []
shape (op ∷ []) pool = []
shape (op ∷ i ∷ ops) pool =
    if op =? 2
    then some (at pool i) ∷ shape ops pool
    else if op =? 5
    then none ∷ shape ops pool
    else shape ops pool

-- A path fits a shape if it has as many segments and the literals are where the shape has them.
abbrev pub fits : Shape → List String → Bool
fits [] [] = true
fits [] (p ∷ path) = false
fits (x ∷ xs) [] = false
fits (none ∷ xs) (p ∷ path) = fits xs path
fits (some s ∷ xs) (p ∷ path) = s == p && fits xs path

abbrev meets : Option String → Option String → Bool
meets none y = true
meets (some s) none = true
meets (some s) (some t) = s == t

abbrev overlaps : Shape → Shape → Bool
overlaps [] [] = true
overlaps [] (y ∷ ys) = false
overlaps (x ∷ xs) [] = false
overlaps (x ∷ xs) (y ∷ ys) = meets x y && overlaps xs ys

overlaps-fits :
    (xs ys : Shape) (path : List String)
    → fits xs path ≡ true
    → fits ys path ≡ true
    → overlaps xs ys ≡ true
overlaps-fits [] [] [] h k = refl
overlaps-fits [] [] (p ∷ path) h k = refl
overlaps-fits [] (y ∷ ys) [] h k = absurd (ground arith)
overlaps-fits [] (y ∷ ys) (p ∷ path) h k = absurd (ground arith)
overlaps-fits (x ∷ xs) [] [] h k = absurd (ground arith)
overlaps-fits (x ∷ xs) [] (p ∷ path) h k = absurd (ground arith)
overlaps-fits (x ∷ xs) (y ∷ ys) [] h k = absurd (ground arith)
overlaps-fits (none ∷ xs) (none ∷ ys) (p ∷ path) h k = overlaps-fits xs ys path h k
overlaps-fits (none ∷ xs) (some t ∷ ys) (p ∷ path) h k = ground (arith, overlaps-fits xs ys path)
overlaps-fits (some s ∷ xs) (none ∷ ys) (p ∷ path) h k = ground (arith, overlaps-fits xs ys path)
overlaps-fits (some s ∷ xs) (some t ∷ ys) (p ∷ path) h k =
    ground (arith, overlaps-fits xs ys path, eq_iff s p, eq_iff t p, eq_iff s t)

-- A route as the mux sees it: the HTTP method and the shape of the pattern.
abbrev pub takes : String → List String → String × Shape → Bool
takes http_method path (m, xs) = m == http_method && fits xs path

abbrev clash : String × Shape → String × Shape → Bool
clash (m, xs) (n, ys) = m == n && overlaps xs ys

abbrev clear : List (String × Shape) → Bool
clear [] = true
clear (r ∷ rows) = not (any_row (clash r) rows) && clear rows

nobody_else :
    (http_method : String) (path : List String) (r : String × Shape) (rows : List (String × Shape))
    → takes http_method path r ≡ true
    → any_row (clash r) rows ≡ false
    → length (where_rows (takes http_method path) rows) ≡ 0
nobody_else m path r [] h k = refl
nobody_else m path (n, xs) ((o, ys) ∷ rows) h k = ground (
  arith,
  nobody_else m path (n, xs) rows,
  overlaps-fits xs ys path,
  eq_iff n m,
  eq_iff o m,
  eq_iff n o,
)

at_most_one :
    (http_method : String) (path : List String) (rows : List (String × Shape))
    → clear rows ≡ true
    → length (where_rows (takes http_method path) rows) ≤ 1
at_most_one m path [] h = omega arith
at_most_one m path (r ∷ rows) h = elim (Bool-cases (takes m path r)) [
  | inl taken ↦ ground (arith, nobody_else m path r rows)
  | inr other ↦ ground (arith, at_most_one m path rows)
]

module _ {K : Type 0} (rt : Runtime) (auth : Context → AuthCall → Action K AuthReply)
    (builders : Context → BuilderCall → Action K BuilderReply)
    (organizations : Context → OrganizationCall → Action K OrganizationReply)
    (templates : Context → TemplateCall → Action K TemplateReply) where
  abbrev faces : {Reply : Type 0} → List (Route K Reply) → List (String × Shape)
  faces = map (λ route. (route.http_method, shape route.pattern.ops route.pattern.pool))

  abbrev pub all_faces : List (String × Shape)
  all_faces =
      faces (register_auth_service_handler_client rt auth)
      ++ faces (register_build_api_handler_client rt builders)
      ++ faces (register_organization_service_handler_client rt organizations)
      ++ faces (register_template_service_handler_client rt templates)

  -- No HTTP method and path are taken by two routes of the gateway.
  pub routes-apart :
      (http_method : String) (path : List String)
      → length (where_rows (takes http_method path) all_faces) ≤ 1
  unfolding register_auth_service_handler_client register_build_api_handler_client
      register_organization_service_handler_client register_template_service_handler_client
  routes-apart http_method path = at_most_one http_method path all_faces refl
