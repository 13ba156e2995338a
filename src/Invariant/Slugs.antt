-- ===== src/Invariant/Slugs.antt =====
-- An UPDATE of organizations that passes the unique index leaves the slugs apart.
use build_api.Common.{
  String, ◌==◌, eq_iff, Bool, false, ◌&&◌, not, Bool-cases, inl, inr, ◌≡◌, refl, List, [], ◌∷◌, map,
  arith,
}
use build_api.Common.Lists.{any_row}
use build_api.World.Tables.{OrgRow}
use build_api.Organizations.Update.{Column, assign, clashes, assign_at}
use build_api.Invariant.Rows.{Apart, same_by}

assign-id : (bound : List (Column × String)) (o : OrgRow) → (assign bound o).id ≡ o.id
unfolding assign
assign-id [] o = refl
assign-id ((Column.name_column, v) ∷ bound) o = assign-id bound (record o { name = v })
assign-id ((Column.slug_column, v) ∷ bound) o = assign-id bound (record o { slug = v })
assign-id ((Column.plan_column, v) ∷ bound) o = assign-id bound (record o { plan = v })

module _ (oid : String) (bound : List (Column × String)) where
  pub assign_at-id : (o : OrgRow) → (assign_at oid bound o).id ≡ o.id
  assign_at-id o = ground (arith, assign-id bound o)

  -- A row that does not change has the slug that the first gets.
  abbrev takes : OrgRow → OrgRow → Bool
  takes o q = not (q.id == oid) && q.slug == (assign bound o).slug

  abbrev collide : List OrgRow → List OrgRow → Bool
  collide xs ys = any_row (λ o. o.id == oid && any_row (takes o) ys) xs

  collide-drop :
      (x : OrgRow) (xs ys : List OrgRow) → collide xs (x ∷ ys) ≡ false → collide xs ys ≡ false
  collide-drop x [] ys h = refl
  collide-drop x (y ∷ xs) ys h = ground (arith, collide-drop x xs ys)

  collide-singleton :
      (x : OrgRow) (xs ys : List OrgRow) → collide xs (x ∷ ys) ≡ false → collide xs (x ∷ []) ≡ false
  collide-singleton x [] ys h = refl
  collide-singleton x (y ∷ xs) ys h = ground (arith, collide-singleton x xs ys)

  pair :
      (x y : OrgRow)
      → same_by (λ o. o.id) x y ≡ false
      → same_by (λ o. o.slug) x y ≡ false
      → (x.id == oid && takes x y) ≡ false
      → (y.id == oid && takes y x) ≡ false
      → same_by (λ o. o.slug) (assign_at oid bound x) (assign_at oid bound y) ≡ false
  pair x y ids slugs h k = elim (Bool-cases (x.id == oid)) [
    | inl mine ↦ elim (Bool-cases (y.id == oid)) [
      | inl also ↦ ground (arith, eq_iff x.id oid, eq_iff y.id oid, eq_iff y.id x.id)
      | inr other ↦ rw (mine, other) (ground arith)
    ]
    | inr mine ↦ elim (Bool-cases (y.id == oid)) [
      | inl also ↦
          rw (mine, also)
            (ground
              (arith, eq_iff x.slug (assign bound y).slug, eq_iff (assign bound y).slug x.slug))
      | inr other ↦ rw (mine, other) slugs
    ]
  ]

  step :
      (x : OrgRow) (xs : List OrgRow)
      → any_row (same_by (λ o. o.id) x) xs ≡ false
      → any_row (same_by (λ o. o.slug) x) xs ≡ false
      → (x.id == oid && any_row (takes x) xs) ≡ false
      → collide xs (x ∷ []) ≡ false
      → any_row (same_by (λ o. o.slug) (assign_at oid bound x)) (map (assign_at oid bound) xs)
        ≡ false
  step x [] ids slugs h k = refl
  step x (y ∷ xs) ids slugs h k = ground (arith, pair x y, step x xs)

  pub Apart-assign :
      (rows : List OrgRow)
      → Apart (same_by (λ o. o.id)) rows
      → Apart (same_by (λ o. o.slug)) rows
      → clashes oid bound rows ≡ false
      → Apart (same_by (λ o. o.slug)) (map (assign_at oid bound) rows)
  Apart-assign [] ids slugs free = tt
  Apart-assign (x ∷ xs) (id, ids) (slug, slugs) free = (
    step x xs id slug (ground arith) (collide-singleton x xs xs (ground arith)),
    Apart-assign xs ids slugs (collide-drop x xs xs (ground arith)),
  )
