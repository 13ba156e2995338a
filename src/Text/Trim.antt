-- ===== src/Text/Trim.antt =====
-- Trimming.
use Prim.Native.String
use Prim.Native.String.{[], ◌∷◌}
use build_api.Common.{
  Char, code, String, ◌≡◌, refl, Bool, true, false, arith, Bool-cases, inl, inr, some,
  if◌then◌else◌,
}
use text.Mathlib.TextLemmas.{nil-append, cons-append}
use build_api.Text.{cut_prefix, is_space, trim_left, trim_right, cons_unless_blank, trim_space}

-- Where the last character is no space.
abbrev pub ends_solid : String → Bool
ends_solid [] = true
ends_solid (c ∷ []) = if is_space (code c) then false else true
ends_solid (c ∷ (d ∷ s)) = ends_solid (d ∷ s)

abbrev pub starts_solid : String → Bool
starts_solid [] = true
starts_solid (c ∷ s) = if is_space (code c) then false else true

trim_left_solid : (s : String) → starts_solid s ≡ true → trim_left s ≡ s
unfolding trim_left
trim_left_solid [] h = refl
trim_left_solid (c ∷ s) h = ground arith

trim_right_solid : (s : String) → ends_solid s ≡ true → trim_right s ≡ s
unfolding trim_right
trim_right_solid [] h = refl
trim_right_solid (c ∷ []) h = ground arith
trim_right_solid (c ∷ (d ∷ s)) h = rw (trim_right_solid (d ∷ s) h)

starts-trim_left : (s : String) → starts_solid (trim_left s) ≡ true
unfolding trim_left
starts-trim_left [] = refl
starts-trim_left (c ∷ s) = ground (arith, starts-trim_left s)

ends-cons_unless_blank :
    (c : Char) (s : String) → ends_solid s ≡ true → ends_solid (cons_unless_blank c s) ≡ true
ends-cons_unless_blank c [] h = elim (Bool-cases (is_space (code c))) [
  | inl blank ↦ rw blank
  | inr solid ↦ rw solid (rw solid)
]
ends-cons_unless_blank c (d ∷ s) h = h

ends-trim_right : (s : String) → ends_solid (trim_right s) ≡ true
unfolding trim_right
ends-trim_right [] = refl
ends-trim_right (c ∷ s) = ends-cons_unless_blank c (trim_right s) (ends-trim_right s)

starts-cons_unless_blank :
    (c : Char) (s : String)
    → is_space (code c) ≡ false
    → starts_solid (cons_unless_blank c s) ≡ true
starts-cons_unless_blank c [] h = ground arith
starts-cons_unless_blank c (d ∷ s) h = ground arith

starts-trim_right : (s : String) → starts_solid s ≡ true → starts_solid (trim_right s) ≡ true
unfolding trim_right
starts-trim_right [] h = refl
starts-trim_right (c ∷ s) h = starts-cons_unless_blank c (trim_right s) (ground arith)

-- A trimmed text is left alone by trimming.
pub trim_space_idempotent : (s : String) → trim_space (trim_space s) ≡ trim_space s
unfolding trim_space
trim_space_idempotent s =
    rw
      (trim_left_solid (trim_right (trim_left s))
        (starts-trim_right (trim_left s) (starts-trim_left s)))
      (trim_right_solid (trim_right (trim_left s)) (ends-trim_right (trim_left s)))

pub trim_space_solid : (s : String) → starts_solid s ≡ true → ends_solid s ≡ true → trim_space s ≡ s
unfolding trim_space
trim_space_solid s starts ends = rw (trim_left_solid s starts) (trim_right_solid s ends)

-- A trimmed text ends in no space.
pub ends-trim_space : (s : String) → ends_solid (trim_space s) ≡ true
unfolding trim_space
ends-trim_space s = ends-trim_right (trim_left s)

pub starts_solid-append :
    (c : Char) (s t : String)
    → is_space (code c) ≡ false
    → starts_solid (String.◌++◌ (c ∷ s) t) ≡ true
starts_solid-append c s t h = rw cons-append (rw h)

pub ends_solid-append :
    (s : String) (c : Char) (t : String)
    → ends_solid (c ∷ t) ≡ true
    → ends_solid (String.◌++◌ s (c ∷ t)) ≡ true
ends_solid-append [] c t h = rw nil-append h
ends_solid-append (d ∷ []) c t h = rw (cons-append, nil-append) h
ends_solid-append (d ∷ (e ∷ s)) c t h =
    rw (cons-append, cons-append) (rw cons-append at (ends_solid-append (e ∷ s) c t h))

pub cut_prefix-append : (p t : String) → cut_prefix (String.◌++◌ p t) p ≡ some t
unfolding cut_prefix
cut_prefix-append [] t = rw nil-append
cut_prefix-append (c ∷ p) t = rw cons-append (ground (arith, cut_prefix-append p t))
