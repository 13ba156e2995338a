-- ===== src/Organizations/Slug/Grammar.antt =====
-- The grammar of slugs, and the automaton against it.
use Prim.Native.String.{[], ◌∷◌}
use build_api.Common.{
  ℕ, code, Char, String, ◌≡◌, refl, ◌↔◌, true, false, arith, Bool-cases, inl, inr,
}
use build_api.Organizations.Slug.{is_slug_char, slug_from, matches_slug}

-- [a-z0-9]+ followed by (-[a-z0-9]+)*: a first character, then more of the segment, or a dash and
-- a new segment.
mutual
  pub data IsSlug : String → Type 0 where
    segment : (c : Char) (s : String) → is_slug_char (code c) ≡ true → IsTail s → IsSlug (c ∷ s)

  pub data IsTail : String → Type 0 where
    done : IsTail []
    more : (c : Char) (s : String) → is_slug_char (code c) ≡ true → IsTail s → IsTail (c ∷ s)
    dash : (c : Char) (s : String) → code c ≡ b'-' → IsSlug s → IsTail (c ∷ s)

dash_is_no_slug_char : (n : ℕ) → n ≡ b'-' → is_slug_char n ≡ false
unfolding is_slug_char
dash_is_no_slug_char n h = ground arith

mutual
  unfolding slug_from

  to_slug : (s : String) → slug_from false s ≡ true → IsSlug s
  to_slug [] h = absurd (ground arith)
  to_slug (c ∷ s) h = segment c s (ground arith) (to_tail s (ground arith))

  to_tail : (s : String) → slug_from true s ≡ true → IsTail s
  to_tail [] h = done
  to_tail (c ∷ s) h = elim (Bool-cases (is_slug_char (code c))) [
    | inl inside ↦ more c s inside (to_tail s (ground arith))
    | inr other ↦ dash c s (ground arith) (to_slug s (ground arith))
  ]

mutual
  unfolding slug_from

  of_slug : {s : String} → IsSlug s → slug_from false s ≡ true
  of_slug (segment c s first rest) = ground (arith, of_tail rest)

  of_tail : {s : String} → IsTail s → slug_from true s ≡ true
  of_tail done = refl
  of_tail (more c s inside rest) = ground (arith, of_tail rest)
  of_tail (dash c s is_dash rest) =
      ground (arith, of_slug rest, dash_is_no_slug_char (code c) is_dash)

-- The slug test accepts exactly the texts of the grammar.
pub matches_slug_iff : (s : String) → (matches_slug s ≡ true) ↔ IsSlug s
unfolding matches_slug
matches_slug_iff s = (to_slug s, of_slug)
