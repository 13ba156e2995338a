-- ===== src/Text.antt =====
-- Go's `strings` functions that the program calls (TrimSpace, Split, CutPrefix, HasPrefix,
-- Contains, ToLower), over texts as sequences of code points.
pub mod Laws
pub mod Trim
use Prim.Native.String
use Prim.Native.String.{[], ◌∷◌}
use build_api.Common.{
  ℕ, Char, code, String, Bool, true, false, not, ◌&&◌, ◌||◌, Option, none, some, List, [], ◌∷◌, leb,
  ltb, ◌=?◌, if◌then◌else◌, is_some,
}

-- `unicode.IsSpace`
unfoldable pub is_space : ℕ → Bool
is_space c =
    if ltb c 256
    then (leb 9 c && leb c 13) || c =? 32 || c =? 0x85 || c =? 0xa0
    else c =? 0x1680
      || (leb 0x2000 c && leb c 0x200a)
      || c =? 0x2028
      || c =? 0x2029
      || c =? 0x202f
      || c =? 0x205f
      || c =? 0x3000

unfoldable pub trim_left : String → String
unfolding is_space
trim_left [] = []
trim_left (c ∷ s) = if is_space (code c) then trim_left s else c ∷ s

abbrev pub cons_unless_blank : Char → String → String
cons_unless_blank c [] = if is_space (code c) then [] else c ∷ []
cons_unless_blank c (d ∷ s) = c ∷ (d ∷ s)

unfoldable pub trim_right : String → String
unfolding is_space
trim_right [] = []
trim_right (c ∷ s) = cons_unless_blank c (trim_right s)

-- `strings.TrimSpace`
unfoldable pub trim_space : String → String
unfolding trim_left trim_right
trim_space s = trim_right (trim_left s)

-- `strings.CutPrefix`: what follows the prefix, if it is there.
unfoldable pub cut_prefix : String → String → Option String
cut_prefix s [] = some s
cut_prefix [] (d ∷ p) = none
cut_prefix (c ∷ s) (d ∷ p) = if code c =? code d then cut_prefix s p else none

-- `strings.HasPrefix`
unfoldable pub has_prefix : String → String → Bool
unfolding cut_prefix
has_prefix s p = is_some (cut_prefix s p)

-- `strings.Contains`
unfoldable pub contains : String → String → Bool
unfolding has_prefix
contains [] p = has_prefix [] p
contains (c ∷ s) p = has_prefix (c ∷ s) p || contains s p

abbrev cons_first : Char → List String → List String
cons_first c [] = (c ∷ []) ∷ []
cons_first c (s ∷ parts) = (c ∷ s) ∷ parts

-- `strings.Split` at a separator of one character.
unfoldable pub split : String → ℕ → List String
split [] sep = "" ∷ []
split (c ∷ s) sep = if code c =? sep then "" ∷ split s sep else cons_first c (split s sep)

-- The ASCII letters of `unicode.ToLower`.
abbrev lower_in : String → String → Char → Option Char
lower_in [] lowers c = none
lower_in (u ∷ uppers) [] c = none
lower_in (u ∷ uppers) (l ∷ lowers) c = if code u =? code c then some l else lower_in uppers lowers c

lower_ascii : Char → Option Char
lower_ascii = lower_in "ABCDEFGHIJKLMNOPQRSTUVWXYZ" "abcdefghijklmnopqrstuvwxyz"

-- `strings.ToLower`; `lower_beyond` is Unicode's table past ASCII.
module _ (lower_beyond : Char → Char) where
  lower_char : Char → Char
  lower_char c =
      if ltb (code c) 128 then elim (lower_ascii c) [ none ↦ c | some l ↦ l ] else lower_beyond c

  unfoldable pub to_lower : String → String
  unfolding lower_char lower_ascii
  to_lower [] = []
  to_lower (c ∷ s) = lower_char c ∷ to_lower s
