-- ===== src/Text/Laws.antt =====
-- Laws of the text functions.
use build_api.Common.{◌≡◌, refl, [], ◌∷◌, true}
use build_api.Text.{trim_space, cut_prefix, split, to_lower, contains}

tests : Unit {0}
unfolding trim_space cut_prefix split to_lower contains
tests = tt

trim_test : trim_space "  a b  " ≡ "a b"
unfolding tests
trim_test = refl

split_test : split "a.b..c" b'.' ≡ "a" ∷ "b" ∷ "" ∷ "c" ∷ []
unfolding tests
split_test = refl

lower_test : to_lower (λ c. c) "My-Org" ≡ "my-org"
unfolding tests
lower_test = refl

contains_test : contains "has duplicate key x" "duplicate key" ≡ true
unfolding tests
contains_test = refl
