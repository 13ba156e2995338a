-- ===== src/Gateway/Targets.antt =====
-- What a route of the gateway asks the server for: the method that it is annotated with, at the
-- parameters of its path.
pub mod AuthRoutes
pub mod BuilderRoutes
pub mod OrganizationRoutes
pub mod TemplateRoutes
pub mod Members
pub mod Table
pub mod Services
pub mod Apart
use build_api.Common.{
  ℕ, zero, suc, ◌=?◌, ◌==◌, true, if◌then◌else◌, String, ◌≡◌, ◌⊎◌, inl, inr, Option, none, some,
  List, [], ◌∷◌, Result, ok, err, refl, arith, Result-cases, Option-cases,
}
use build_api.Common.Lists.{All, any_row}
use build_api.Status.{Status, status_error, invalid_argument}
use build_api.Auth.Context.{Context}
use build_api.Auth.Scopes.{lookup}
use build_api.World.Effect.{World, Action, ◌>>=◌}
use build_api.Gateway.Edge.{HttpRequest}
use build_api.Gateway.Runtime.{
  Runtime, PathParams, Pattern, Route, path_param, decode_body, Decoder, DecodeError, end_of_file,
  bad_body, after_decode, missing_parameter, type_mismatch,
}

-- The path has the parameter, and its text converts to the value.
abbrev pub Carries : Runtime → PathParams → String × String → Type 0
Carries rt params (key, value) =
    (text : String) × (lookup params key ≡ some text) × (rt.string text ≡ ok value)

-- What a pattern stands for, by the documented operations: 2 pushes a literal of the pool, 1 pushes
-- a segment of the path, 4 joins segments and 5 captures them under a name of the pool.
abbrev pub at : List String → ℕ → String
at [] n = ""
at (x ∷ xs) zero = x
at (x ∷ xs) (suc n) = at xs n

abbrev captures : List ℕ → List String → List String
captures [] pool = []
captures (op ∷ []) pool = []
captures (op ∷ i ∷ ops) pool = if op =? 5 then at pool i ∷ captures ops pool else captures ops pool

-- The names that a pattern captures segments under.
abbrev pub captured : Pattern → List String
captured p = captures p.ops p.pool

-- Some parameter of the path is missing or does not convert.
abbrev pub Blocked : Runtime → PathParams → List String → Type 0
Blocked rt params names =
    (key : String) × (any_row (λ n. n == key) names ≡ true)
    × ((value : String) → ¬ Carries rt params (key, value))

-- Decoding the body fails, and not because it is empty.
abbrev pub Refuses : {M : Type 0} → Decoder M → String → M → Type 0
Refuses d body zero_value = (text : String) × ((d body zero_value).1 ≡ some (bad_body text))

module _ {K Call Reply : Type 0} (rt : Runtime) (client : Context → Call → Action K Reply)
    (method_of : Call → String) (targets_of : Call → List (String × String))
    (refused : HttpRequest → String → Type 0) where
  -- The run is the run of one call of the client: of a given method, with its targets taken from
  -- the path. Otherwise it is an error that leaves the state alone and has one of the two reasons.
  abbrev pub Forwards :
      String → List String → HttpRequest → Context → PathParams → Action K Reply → Type 0
  Forwards rpc names req ctx params run =
      (w : World K)
      → ((s : Status) × (run w ≡ (err s, w)) × (Blocked rt params names ⊎ refused req rpc))
        ⊎ ((call : Call) × (method_of call ≡ rpc)
            × All (Carries rt params) (targets_of call)
            × (run w ≡ client ctx call w))

  abbrev pub IsFaithful : Route K Reply → Type 0
  IsFaithful route =
      (ctx : Context) (req : HttpRequest) (params : PathParams)
      → Forwards route.rpc_method (captured route.pattern) req ctx params
          (route.request ctx req params)

  module _ (rpc : String) (names : List String) (req : HttpRequest) (ctx : Context)
      (params : PathParams) where
    pub with_param :
        (key : String)
        → any_row (λ n. n == key) names ≡ true
        → (k : String → Action K Reply)
        → ((s : String) → Carries rt params (key, s) → Forwards rpc names req ctx params (k s))
        → Forwards rpc names req ctx params (path_param rt params key >>= k)
    with_param key named k h w = elim (Option-cases (lookup params key)) [
      | inl missing ↦ inl (
        missing_parameter key,
        rw (missing, path_param) refl,
        inl (key, named, λ value (text, found, converted). absurd (ground arith)),
      )
      | inr (text, found) ↦ elim (Result-cases (rt.string text)) [
        | inr (e, bad) ↦ inl (
          type_mismatch key e,
          rw (found, bad, path_param) refl,
          inl (key, named, λ value (other, found', converted). absurd (ground arith)),
        )
        | inl (s, converted) ↦ rw (found, converted, path_param) (h s (text, found, converted) w)
      ]
    ]

    with_decoded :
        {M : Type 0}
        → (k : M → Action K Reply) (m : M) (e : Option DecodeError)
        → ((text : String) → e ≡ some (bad_body text) → refused req rpc)
        → ((m' : M) → Forwards rpc names req ctx params (k m'))
        → Forwards rpc names req ctx params (after_decode m e >>= k)
    with_decoded k m none refusal h w = h m w
    with_decoded k m (some end_of_file) refusal h w = h m w
    with_decoded k m (some (bad_body text)) refusal h w =
        inl (status_error invalid_argument text, refl, inr (refusal text refl))

    pub with_body :
        {M : Type 0}
        → (d : Decoder M) (body : String) (zero_value : M)
        → (Refuses d body zero_value → refused req rpc)
        → (k : M → Action K Reply) → ((m : M) → Forwards rpc names req ctx params (k m))
        → Forwards rpc names req ctx params (decode_body d body zero_value >>= k)
    with_body d body z refusal k h =
        with_decoded k (d body z).0 (d body z).1 (λ text bad. refusal (text, bad)) h
