-- ===== src/Common/Lists.antt =====
-- Lists over the native numbers, and predicates on lists by recursion.
use Prim.Native.Nat.{ℕ, zero, suc, ◌+◌}
use mathlib.Core.Path.{◌≡◌, refl, subst}
use mathlib.Core.Bool.{not, Bool, true, false, ◌||◌, cond}
use mathlib.Core.List.{List, [], ◌∷◌, ◌++◌}
use mathlib.Core.Option.{Option, none, some, some-injective}
use native.Mathlib.Omega.{arith}

module _ {ℓ} {A : Type ℓ} where
  abbrev pub length : List A → ℕ
  length [] = 0
  length (x ∷ xs) = suc (length xs)

  pub length-append : (xs ys : List A) → length (xs ++ ys) ≡ length xs + length ys
  length-append [] ys = omega arith
  length-append (x ∷ xs) ys = omega (arith, length-append xs ys)

  -- The rows that a test selects.
  abbrev pub where_rows : (A → Bool) → List A → List A
  where_rows p [] = []
  where_rows p (x ∷ xs) = cond (p x) (x ∷ where_rows p xs) (where_rows p xs)

  -- The first row that a test selects.
  abbrev pub first_row : (A → Bool) → List A → Option A
  first_row p [] = none
  first_row p (x ∷ xs) = cond (p x) (some x) (first_row p xs)

  abbrev pub any_row : (A → Bool) → List A → Bool
  any_row p [] = false
  any_row p (x ∷ xs) = p x || any_row p xs

module _ {ℓ κ} {A : Type ℓ} (P : A → Type κ) where
  abbrev pub All : List A → Type κ
  All [] = Unit
  All (x ∷ xs) = P x × All xs

  pub All-append : (xs ys : List A) → All xs → All ys → All (xs ++ ys)
  All-append [] ys h k = k
  All-append (x ∷ xs) ys (p, h) k = (p, All-append xs ys h k)

module _ {ℓ} {A : Type ℓ} (p : A → Bool) where
  -- Removing the selected rows undoes an append, if no row before it is selected.
  pub where_rows-undo :
      (rows : List A) (a : A)
      → any_row p rows ≡ false
      → p a ≡ true
      → where_rows (λ x. not (p x)) (rows ++ a ∷ []) ≡ rows
  where_rows-undo [] a h k = rw k
  where_rows-undo (x ∷ rows) a h k = ground (arith, where_rows-undo rows a)

  pub where_rows-all :
      (rows : List A) → any_row p rows ≡ false → where_rows (λ x. not (p x)) rows ≡ rows
  where_rows-all [] h = refl
  where_rows-all (x ∷ rows) h = ground (arith, where_rows-all rows)

module _ {ℓ κ} {A : Type ℓ} where
  pub All-of : {P R : A → Type κ} → ((x : A) → P x → R x) → (xs : List A) → All P xs → All R xs
  All-of f [] h = tt
  All-of f (x ∷ xs) (a, h) = (f x a, All-of f xs h)

module _ {ℓ} {A : Type ℓ} where
  -- The element at an index, none beyond the end.
  abbrev pub get_elem? : List A → ℕ → Option A
  get_elem? [] n = none
  get_elem? (x ∷ xs) zero = some x
  get_elem? (x ∷ xs) (suc n) = get_elem? xs n

module _ {ℓ κ} {A : Type ℓ} where
  pub All-get_elem? :
      (P : A → Type κ) (xs : List A) (n : ℕ) (x : A) → All P xs → get_elem? xs n ≡ some x → P x
  All-get_elem? P [] n x h found = absurd (cc)
  All-get_elem? P (y ∷ xs) zero x (p, h) found = subst P (some-injective y x found) p
  All-get_elem? P (y ∷ xs) (suc n) x (p, h) found = All-get_elem? P xs n x h found
