-- ===== src/Auth/Scopes/Table.antt =====
-- The maps of scopes.go and middleware.go against the methods that the server registers.
use build_api.Common.{
  ℕ, ◌+◌, ◌=?◌, String, ◌==◌, eq_iff, Bool, true, false, ◌≡◌, ◌≢◌, refl, ◌&&◌, inl, inr, Option,
  none, some, List, [], ◌∷◌, ok, arith, Bool-cases, is_some, not, subst, implies, =?_eq,
}
use build_api.Api.Methods.{
  registered_methods, list_organizations_method, get_organization_method,
  list_organization_members_method, list_builders_method, get_builder_method, list_templates_method,
  get_template_method,
}
use build_api.Auth.Context.{Principal}
use build_api.Auth.Scopes.{
  has_scope, lookup, public_methods, jwt_only_methods, method_required_scope, enforce_access,
  valid_scopes, scope_organizations_read, scope_builders_read, scope_templates_read,
}
use build_api.Auth.Scopes.Access.{enforce_access_iff}

abbrev pub every : (String → Bool) → List String → Bool
every p [] = true
every p (x ∷ xs) = p x && every p xs

every_sound :
    (p : String → Bool) (xs : List String) (m : String)
    → every p xs ≡ true
    → has_scope xs m ≡ true
    → p m ≡ true
unfolding has_scope
every_sound p [] m h k = cc
every_sound p (x ∷ xs) m h k = elim (Bool-cases (x == m)) [
  | inl same ↦ subst (λ y. p y ≡ true) ((eq_iff x m).0 same) (ground arith)
  | inr other ↦ every_sound p xs m (ground arith) (ground arith)
]

abbrev keys_of {ℓ} : {V : Type ℓ} → List (String × V) → List String
keys_of [] = []
keys_of ((k, v) ∷ m) = k ∷ keys_of m

has_scope-keys_of {ℓ} :
    {V : Type ℓ} (t : List (String × V)) (m : String) (v : V)
    → lookup t m ≡ some v
    → has_scope (keys_of t) m ≡ true
unfolding has_scope lookup
has_scope-keys_of [] m v h = cc
has_scope-keys_of ((k, u) ∷ t) m v h = ground (arith, has_scope-keys_of t m v)

abbrev one_if : Bool → ℕ
one_if true = 1
one_if false = 0

-- How many of the three maps mention a method.
abbrev pub mentions : String → ℕ
mentions m =
    one_if (has_scope public_methods m)
    + one_if (has_scope jwt_only_methods m)
    + one_if (is_some (lookup method_required_scope m))

-- Every method of the four services that the server registers is in exactly one of the three maps: it is public, or
-- reserved to sessions, or has a required scope.
pub mentions-registered : (m : String) → has_scope registered_methods m ≡ true → mentions m ≡ 1
unfolding has_scope lookup
mentions-registered m h =
    =?_eq (mentions m) 1 (every_sound (λ n. mentions n =? 1) registered_methods m refl h)

contradiction : (b : Bool) → b ≡ true → not b ≡ true → ⊥
contradiction true h k = cc
contradiction false h k = cc

-- The methods that change nothing.
abbrev pub read_methods : List String
read_methods =
    list_organizations_method ∷ get_organization_method ∷ list_organization_members_method
    ∷ list_builders_method ∷ get_builder_method ∷ list_templates_method ∷ get_template_method ∷ []

abbrev pub read_scopes : List String
read_scopes = scope_organizations_read ∷ scope_builders_read ∷ scope_templates_read ∷ []

abbrev is_read_scope : Option String → Bool
is_read_scope none = true
is_read_scope (some s) = has_scope read_scopes s

abbrev read_only_if_read : String → Bool
read_only_if_read m =
    implies (is_read_scope (lookup method_required_scope m)) (has_scope read_methods m)

has_scope-within :
    (xs ys : List String) (m : String)
    → every (has_scope ys) xs ≡ true
    → has_scope xs m ≡ true
    → has_scope ys m ≡ true
has_scope-within xs ys m h k = every_sound (has_scope ys) xs m h k

-- An API key that holds read scopes only is let through to methods that change nothing, and to no
-- other method, registered or not.
pub enforce_access-read_only :
    (m : String) (p : Principal)
    → p.full_access ≡ false
    → every (has_scope read_scopes) p.scopes ≡ true
    → enforce_access m p ≡ ok tt
    → has_scope read_methods m ≡ true
unfolding has_scope lookup
enforce_access-read_only m p key reads passed = elim ((enforce_access_iff m p).0 passed) [
  | inl full ↦ absurd (ground arith)
  | inr (required, found, held, _) ↦
      let listed = has_scope-keys_of method_required_scope m required found in
      let read = has_scope-within p.scopes read_scopes required reads held in
      let decided = every_sound read_only_if_read (keys_of method_required_scope) m refl listed in
      let here =
        subst (λ o. implies (is_read_scope o) (has_scope read_methods m) ≡ true) found decided in
      subst (λ b. implies b (has_scope read_methods m) ≡ true) read here
]

abbrev is_valid_scope_or_none : Option String → Bool
is_valid_scope_or_none none = false
is_valid_scope_or_none (some s) = has_scope valid_scopes s

-- The check of access refuses an API key whose scopes are none of the six known ones, character by
-- character, whichever method it is asked about.
pub enforce_access-unknown_scopes :
    (m : String) (p : Principal)
    → p.full_access ≡ false
    → every (λ s. not (has_scope valid_scopes s)) p.scopes ≡ true
    → enforce_access m p ≢ ok tt
unfolding has_scope lookup
enforce_access-unknown_scopes m p key unknown passed = elim ((enforce_access_iff m p).0 passed) [
  | inl full ↦ absurd (ground arith)
  | inr (required, found, held, _) ↦
      let listed = has_scope-keys_of method_required_scope m required found in
      let decided =
        every_sound (λ n. is_valid_scope_or_none (lookup method_required_scope n))
          (keys_of method_required_scope) m refl listed in
      let valid = subst (λ o. is_valid_scope_or_none o ≡ true) found decided in
      let other =
        every_sound (λ s. not (has_scope valid_scopes s)) p.scopes required unknown held in
      contradiction (has_scope valid_scopes required) valid other
]
