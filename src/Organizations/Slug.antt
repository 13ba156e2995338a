-- ===== src/Organizations/Slug.antt =====
-- `slugRegex` and the plans of internal/organizations/service.go.
pub mod Grammar
use Prim.Native.String
use Prim.Native.String.{[], ◌∷◌}
use build_api.Common.{
  ℕ, code, Char, String, ◌==◌, leb, ◌=?◌, Bool, true, false, ◌&&◌, ◌||◌, if◌then◌else◌,
}

-- [a-z0-9]
unfoldable pub is_slug_char : ℕ → Bool
is_slug_char c = (leb b'a' c && leb c b'z') || (leb b'0' c && leb c b'9')

-- The automaton of ^[a-z0-9]+(?:-[a-z0-9]+)*$; `inside` says that a segment has begun.
unfoldable pub slug_from : Bool → String → Bool
slug_from inside [] = inside
slug_from inside (c ∷ s) =
    let next = slug_from true s in
    let after_dash = slug_from false s in
    if is_slug_char (code c) then next else if code c =? b'-' && inside then after_dash else false

-- `slugRegex.MatchString`
unfoldable pub matches_slug : String → Bool
matches_slug s = slug_from false s

unfoldable pub is_plan : String → Bool
is_plan plan = plan == "starter" || plan == "pro" || plan == "enterprise"
