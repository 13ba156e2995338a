-- ===== src/Auth/Validation/Scopes.antt =====
-- Which lists of scopes a new key may have.
use build_api.Common.{
  String, ◌==◌, eq_iff, ◌≡◌, ◌↔◌, refl, true, false, List, [], ◌∷◌, ok, map, arith, Bool-cases, inl,
  inr, subst,
}
use mathlib.Core.Bool.{false≢true}
use build_api.Common.Lists.{All}
use build_api.Text.{trim_space}
use build_api.Auth.Scopes.{has_scope, valid_scopes}
use build_api.Auth.Validation.{check_scopes}

abbrev pub IsValidScope : String → Type 0
IsValidScope s = has_scope valid_scopes s ≡ true

abbrev pub Distinct : List String → Type 0
Distinct [] = Unit
Distinct (s ∷ scopes) = (has_scope scopes s ≡ false) × Distinct scopes

abbrev Avoids : List String → List String → Type 0
Avoids seen = All (λ s. has_scope seen s ≡ false)

Avoids-cons :
    (s : String) (seen scopes : List String)
    → Avoids (s ∷ seen) scopes
    → (has_scope scopes s ≡ false) × Avoids seen scopes
unfolding has_scope
Avoids-cons s seen [] h = (refl, tt)
Avoids-cons s seen (x ∷ scopes) h =
    ground (arith, Avoids-cons s seen scopes h.1, eq_iff s x, eq_iff x s)

Avoids-of :
    (s : String) (seen scopes : List String)
    → has_scope scopes s ≡ false
    → Avoids seen scopes
    → Avoids (s ∷ seen) scopes
unfolding has_scope
Avoids-of s seen [] h k = tt
Avoids-of s seen (x ∷ scopes) h (a, k) =
    ground (arith, Avoids-of s seen scopes (ground arith) k, eq_iff s x, eq_iff x s)

check_scopes_sound :
    (seen scopes : List String)
    → check_scopes seen scopes ≡ ok tt
    → All IsValidScope (map trim_space scopes)
      × Distinct (map trim_space scopes)
      × Avoids seen (map trim_space scopes)
unfolding check_scopes
check_scopes_sound seen [] h = (tt, tt, tt)
check_scopes_sound seen (sc ∷ scopes) h =
    let (valid, distinct, avoids) =
      check_scopes_sound (trim_space sc ∷ seen) scopes (ground arith) in
    let (here, there) = Avoids-cons (trim_space sc) seen (map trim_space scopes) avoids in
    ((ground arith, valid), (here, distinct), (ground arith, there))

IsValidScope-filled : (s : String) → IsValidScope s → (s == "") ≡ false
unfolding has_scope
IsValidScope-filled s h = elim (Bool-cases (s == "")) [
  | inl empty ↦ absurd (false≢true (subst IsValidScope ((eq_iff s "").0 empty) h))
  | inr filled ↦ filled
]

check_scopes_complete :
    (seen scopes : List String)
    → All IsValidScope (map trim_space scopes)
    → Distinct (map trim_space scopes)
    → Avoids seen (map trim_space scopes)
    → check_scopes seen scopes ≡ ok tt
unfolding check_scopes
check_scopes_complete seen [] v d a = refl
check_scopes_complete seen (sc ∷ scopes) (valid, v) (fresh, d) (new, a) =
    let rest =
      check_scopes_complete (trim_space sc ∷ seen) scopes v d
        (Avoids-of (trim_space sc) seen (map trim_space scopes) fresh a) in
    rw (IsValidScope-filled (trim_space sc) valid, valid, new) rest

Avoids-nil : (scopes : List String) → Avoids [] scopes
unfolding has_scope
Avoids-nil [] = tt
Avoids-nil (s ∷ scopes) = (refl, Avoids-nil scopes)

-- A list of scopes is accepted exactly if, trimmed, its scopes are all known and no two are equal.
pub check_scopes_iff :
    (scopes : List String)
    → (check_scopes [] scopes ≡ ok tt)
      ↔ (All IsValidScope (map trim_space scopes) × Distinct (map trim_space scopes))
check_scopes_iff scopes = (
  λ h. let (valid, distinct, _) = check_scopes_sound [] scopes h in (valid, distinct),
  λ h. check_scopes_complete [] scopes h.0 h.1 (Avoids-nil (map trim_space scopes)),
)
