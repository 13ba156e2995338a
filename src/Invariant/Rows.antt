-- ===== src/Invariant/Rows.antt =====
-- Lists of rows of which no two agree.
use build_api.Common.{
  String, ◌==◌, eq_iff, Bool, true, false, Bool-cases, inl, inr, ◌≡◌, refl, ◌∙◌, List, [], ◌∷◌,
  ◌++◌, map, arith,
}
use build_api.Common.Lists.{any_row, where_rows, All}

module _ {A : Type 0} (r : A → A → Bool) where
  -- No two rows are related.
  abbrev pub Apart : List A → Type 0
  Apart [] = Unit
  Apart (x ∷ xs) = (any_row (r x) xs ≡ false) × Apart xs

  pub any_row-snoc :
      (x a : A) (xs : List A)
      → any_row (r x) xs ≡ false
      → r x a ≡ false
      → any_row (r x) (xs ++ a ∷ []) ≡ false
  any_row-snoc x a [] h k = ground arith
  any_row-snoc x a (y ∷ xs) h k = ground (arith, any_row-snoc x a xs)

  pub Apart-snoc :
      (sym : (x y : A) → r x y ≡ true → r y x ≡ true) (xs : List A) (a : A)
      → any_row (r a) xs ≡ false
      → Apart xs
      → Apart (xs ++ a ∷ [])
  Apart-snoc sym [] a h k = (refl, tt)
  Apart-snoc sym (x ∷ xs) a h (here, k) =
      (any_row-snoc x a xs here (ground (arith, sym x a)), Apart-snoc sym xs a (ground arith) k)

module _ {A : Type 0} where
  pub any_row-where_rows :
      (p q : A → Bool) (xs : List A) → any_row p xs ≡ false → any_row p (where_rows q xs) ≡ false
  any_row-where_rows p q [] h = refl
  any_row-where_rows p q (x ∷ xs) h = ground (arith, any_row-where_rows p q xs)

  pub Apart-where_rows :
      (r : A → A → Bool) (q : A → Bool) (xs : List A) → Apart r xs → Apart r (where_rows q xs)
  Apart-where_rows r q [] h = tt
  Apart-where_rows r q (x ∷ xs) (here, h) = elim (Bool-cases (q x)) [
    | inl kept ↦ rw kept (any_row-where_rows (r x) q xs here, Apart-where_rows r q xs h)
    | inr gone ↦ rw gone (Apart-where_rows r q xs h)
  ]

  pub any_row-map :
      (p q : A → Bool) (g : A → A) (xs : List A)
      → ((x : A) → p (g x) ≡ q x)
      → any_row p (map g xs) ≡ any_row q xs
  any_row-map p q g [] h = refl
  any_row-map p q g (x ∷ xs) h = rw (h x, any_row-map p q g xs h)

  pub Apart-map :
      (r : A → A → Bool) (g : A → A) (xs : List A)
      → ((x y : A) → r (g x) (g y) ≡ r x y)
      → Apart r xs
      → Apart r (map g xs)
  Apart-map r g [] h k = tt
  Apart-map r g (x ∷ xs) h (here, k) =
      (any_row-map (r (g x)) (r x) g xs (h x) ∙ here, Apart-map r g xs h k)

  pub any_row-append :
      (p : A → Bool) (xs ys : List A) → any_row p xs ≡ true → any_row p (xs ++ ys) ≡ true
  any_row-append p [] ys h = cc
  any_row-append p (x ∷ xs) ys h = ground (arith, any_row-append p xs ys)

  pub any_row-kept :
      (p q : A → Bool) (xs : List A)
      → ((x : A) → p x ≡ true → q x ≡ true)
      → any_row p xs ≡ true
      → any_row p (where_rows q xs) ≡ true
  any_row-kept p q [] h k = cc
  any_row-kept p q (x ∷ xs) h k = ground (arith, h x, any_row-kept p q xs h)

  pub All-kept :
      {P R : A → Type 0}
      → (q : A → Bool) (xs : List A) → ((x : A) → q x ≡ true → P x → R x)
      → All P xs
      → All R (where_rows q xs)
  All-kept q [] f h = tt
  All-kept q (x ∷ xs) f (a, h) = elim (Bool-cases (q x)) [
    | inl kept ↦ rw kept (f x kept a, All-kept q xs f h)
    | inr gone ↦ rw gone (All-kept q xs f h)
  ]

  pub All-map :
      {P : A → Type 0}
      → (R : A → Type 0) (g : A → A) (xs : List A) → ((x : A) → P x → R (g x))
      → All P xs
      → All R (map g xs)
  All-map R g [] f h = tt
  All-map R g (x ∷ xs) f (a, h) = (f x a, All-map R g xs f h)

-- Two rows agree in a column.
abbrev pub same_by : {A : Type 0} → (A → String) → A → A → Bool
same_by column x y = column y == column x

pub same_by_sym :
    {A : Type 0}
    → (column : A → String) (x y : A) → same_by column x y ≡ true
    → same_by column y x ≡ true
same_by_sym column x y h =
    ground (arith, eq_iff (column x) (column y), eq_iff (column y) (column x))
